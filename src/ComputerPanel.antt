-- ===== src/ComputerPanel.antt =====
-- src/ui/sbv-computers-panel.c: the panel of the computers, as a state that handlers change, after
-- the pattern of Panel. The editor of the names is SpnEditor.
pub mod Saving
pub mod Reloading
pub mod Races
use sambervise.Base.{
  ℕ, suc, ◌==◌, Bool, true, false, Option, none, some, List, [], ◌∷◌, ◌++◌, if◌then◌else◌,
}
use sambervise.Base.Bytes.{Bytes, bytes_eq, or_empty}
use sambervise.Computers.{Computer}
use sambervise.Panel.{Page, loading, empty, split, ButtonState}
use sambervise.SpnEditor.{SpnEditor, load_spns}

-- `SbvComputersPanel`, with the dialog that confirms a deletion. The editor is `none` as long as no
-- computer was selected.
pub record ComputerPanel : Type 0 where
  pub description : Bytes
  pub dns_hostname : Bytes
  pub enabled : Bool
  pub editor : Option SpnEditor
  pub outer : Page
  pub detail_shown : Bool
  pub save_btn : ButtonState
  pub delete_btn : ButtonState
  pub conn : Option ℕ
  pub selected_computer : Option ℕ
  pub pending_select_dn : Option Bytes
  pub rows : List ℕ
  pub computers : ℕ → Computer
  pub unused : ℕ
  pub confirm : Option (Bytes × Bool)

-- The asynchronous calls, with the connection first, and what the callback is given with the reply.
pub data Request : Type 0 where
  list_computers_request : ℕ → Request
  update_computer_request : ℕ → ℕ → Bytes → Bytes → Bool → Bool → Request
  set_enabled_request : ℕ → Option ℕ → Bool → Request
  set_spn_request : ℕ → ℕ → List Bytes → Request
  delete_computer_request : ℕ → ℕ → Request

abbrev pub Handled : Type 0
Handled = ComputerPanel × List Request

-- `load_computer_into_detail`.
unfoldable pub load_computer_into_detail : ℕ → ComputerPanel → ComputerPanel
unfolding load_spns
load_computer_into_detail r p = record p {
  selected_computer = some r;
  description = or_empty (p.computers r).description;
  dns_hostname = or_empty (p.computers r).dns_hostname;
  enabled = (p.computers r).enabled;
  editor = some (load_spns (p.computers r));
  save_btn = record { sensitive = p.save_btn.sensitive; error = none };
  delete_btn = record { sensitive = p.delete_btn.sensitive; error = none };
  detail_shown = true;
}

-- `on_row_selected`.
unfoldable pub computer_selected : Option ℕ → ComputerPanel → ComputerPanel
unfolding load_computer_into_detail
computer_selected none p = record p { detail_shown = false }
computer_selected (some r) p = load_computer_into_detail r p

-- `sbv_computers_panel_load`.
unfoldable pub load_computers : ℕ → ComputerPanel → Handled
load_computers c p = (record p { conn = some c; outer = loading }, list_computers_request c ∷ [])

-- What `on_computers_loaded` looks for.
pub data Target : Type 0 where
  nobody : Target
  by_dn : Bytes → Target
  by_sam : Bytes → Target

abbrev pub is_target : Target → Computer → Bool
is_target nobody k = false
is_target (by_dn dn) k = bytes_eq (or_empty k.dn) dn
is_target (by_sam sam) k = bytes_eq (or_empty k.sam) sam

abbrev pub sam_target : Option Bytes → Target
sam_target none = nobody
sam_target (some sam) = by_sam sam

abbrev pub selected_target : ComputerPanel → Option ℕ → Target
selected_target p none = nobody
selected_target p (some r) = sam_target (p.computers r).sam

abbrev pub target_or : Target → Option Bytes → Target
target_or t none = t
target_or t (some dn) = by_dn dn

unfoldable pub reload_target : ComputerPanel → Target
reload_target p = target_or (selected_target p p.selected_computer) p.pending_select_dn

-- A row for one computer more.
unfoldable pub add_computer_row : Computer → ComputerPanel → ComputerPanel
add_computer_row k p = record p {
  computers = λ r. if r == p.unused then k else p.computers r;
  unused = suc p.unused;
  rows = p.rows ++ (p.unused ∷ []);
}

abbrev pub chosen : Target → Computer → ℕ → Option ℕ → Option ℕ
chosen t k r (some r') = some r'
chosen t k r none = if is_target t k then some r else none

-- The loop of `on_computers_loaded`.
unfoldable pub add_computer_rows :
    Target → List Computer → ComputerPanel → Option ℕ → ComputerPanel × Option ℕ
add_computer_rows t [] p reselect = (p, reselect)
add_computer_rows t (k ∷ ks) p reselect =
    add_computer_rows t ks (add_computer_row k p) (chosen t k p.unused reselect)

abbrev pub page_of : List Computer → Page
page_of [] = empty
page_of (_ ∷ _) = split

-- `on_computers_loaded`, with the computers.
unfoldable pub computers_loaded : List Computer → ComputerPanel → ComputerPanel
unfolding computer_selected add_computer_rows
computers_loaded ks p =
    let (p', reselect) =
      add_computer_rows (reload_target p) ks (record p { rows = []; pending_select_dn = none })
        none in
    computer_selected reselect (record p' { outer = page_of ks })

-- `on_computers_loaded`, after an error.
abbrev pub computers_failed : ComputerPanel → ComputerPanel
computers_failed p = record p { outer = empty }
