-- ===== src/ContactPanel.antt =====
-- src/ui/sbv-contacts-panel.c: the panel of the contacts, as a state that handlers change, after the
-- pattern of Panel: a contact and a connection are numbers, and replies come in any order.
pub mod Lines
pub mod Saving
pub mod Writing
pub mod Reading
pub mod Homonyms
use sambervise.Base.{
  ℕ, suc, ◌==◌, Bool, true, false, Option, none, some, List, [], ◌∷◌, ◌++◌, if◌then◌else◌,
}
use sambervise.Base.Bytes.{Bytes, bytes_eq, is_filled, or_empty}
use sambervise.Contacts.{Contact}
use sambervise.Panel.{Page, loading, empty, split, ButtonState}
use sambervise.ContactPanel.Lines.{strv_to_lines}

-- What the entries of the detail form hold, and the text view of the addresses.
pub record Form : Type 0 where
  pub cn : Bytes
  pub display_name : Bytes
  pub given_name : Bytes
  pub sn : Bytes
  pub description : Bytes
  pub mail : Bytes
  pub proxy : Bytes
  pub telephone_number : Bytes
  pub mobile : Bytes
  pub fax : Bytes
  pub office : Bytes
  pub street_address : Bytes
  pub locality : Bytes
  pub state : Bytes
  pub postal_code : Bytes
  pub country : Bytes

-- `SbvContactsPanel`, with the dialog that confirms a deletion, as in Panel.
pub record ContactPanel : Type 0 where
  pub form : Form
  pub outer : Page
  pub detail_shown : Bool
  pub save_btn : ButtonState
  pub delete_btn : ButtonState
  pub conn : Option ℕ
  pub selected_contact : Option ℕ
  pub pending_select_dn : Option Bytes
  pub rows : List ℕ
  pub contacts : ℕ → Contact
  pub unused : ℕ
  pub confirm : Option (Bytes × Bool)

-- The asynchronous calls, with the connection first. An update has the new fields as a contact.
pub data Request : Type 0 where
  list_contacts_request : ℕ → Request
  update_contact_request : ℕ → ℕ → Contact → Request
  delete_contact_request : ℕ → ℕ → Request

abbrev pub Handled : Type 0
Handled = ContactPanel × List Request

abbrev lines_of : Option (List Bytes) → Bytes
lines_of none = []
lines_of (some vs) = strv_to_lines vs

-- The texts that `load_contact_into_detail` sets.
unfoldable pub form_of : Contact → Form
form_of k = record {
  cn = or_empty k.cn;
  display_name = or_empty k.display_name;
  given_name = or_empty k.given_name;
  sn = or_empty k.sn;
  description = or_empty k.description;
  mail = or_empty k.mail;
  proxy = lines_of k.proxy_addresses;
  telephone_number = or_empty k.telephone_number;
  mobile = or_empty k.mobile;
  fax = or_empty k.fax;
  office = or_empty k.office;
  street_address = or_empty k.street_address;
  locality = or_empty k.locality;
  state = or_empty k.state;
  postal_code = or_empty k.postal_code;
  country = or_empty k.country;
}

-- `load_contact_into_detail`.
unfoldable pub load_contact_into_detail : ℕ → ContactPanel → ContactPanel
unfolding form_of
load_contact_into_detail r p = record p {
  selected_contact = some r;
  form = form_of (p.contacts r);
  save_btn = record { sensitive = p.save_btn.sensitive; error = none };
  delete_btn = record { sensitive = p.delete_btn.sensitive; error = none };
  detail_shown = true;
}

-- `on_row_selected`.
unfoldable pub contact_selected : Option ℕ → ContactPanel → ContactPanel
unfolding load_contact_into_detail
contact_selected none p = record p { detail_shown = false }
contact_selected (some r) p = load_contact_into_detail r p

-- `sbv_contacts_panel_load`.
unfoldable pub load_contacts : ℕ → ContactPanel → Handled
load_contacts c p = (record p { conn = some c; outer = loading }, list_contacts_request c ∷ [])

-- What `on_contacts_loaded` looks for.
pub data Target : Type 0 where
  nobody : Target
  by_dn : Bytes → Target
  by_cn : Bytes → Target

abbrev pub is_target : Target → Contact → Bool
is_target nobody k = false
is_target (by_dn dn) k = bytes_eq (or_empty k.dn) dn
is_target (by_cn cn) k = bytes_eq (or_empty k.cn) cn

abbrev pub cn_target : Option Bytes → Target
cn_target none = nobody
cn_target (some cn) = by_cn cn

abbrev pub selected_target : ContactPanel → Option ℕ → Target
selected_target p none = nobody
selected_target p (some r) = cn_target (p.contacts r).cn

abbrev pub target_or : Target → Option Bytes → Target
target_or t none = t
target_or t (some dn) = by_dn dn

unfoldable pub reload_target : ContactPanel → Target
reload_target p = target_or (selected_target p p.selected_contact) p.pending_select_dn

-- A row for one contact more.
unfoldable pub add_contact_row : Contact → ContactPanel → ContactPanel
add_contact_row k p = record p {
  contacts = λ r. if r == p.unused then k else p.contacts r;
  unused = suc p.unused;
  rows = p.rows ++ (p.unused ∷ []);
}

abbrev pub chosen : Target → Contact → ℕ → Option ℕ → Option ℕ
chosen t k r (some r') = some r'
chosen t k r none = if is_target t k then some r else none

-- The loop of `on_contacts_loaded`.
unfoldable pub add_contact_rows :
    Target → List Contact → ContactPanel → Option ℕ → ContactPanel × Option ℕ
add_contact_rows t [] p reselect = (p, reselect)
add_contact_rows t (k ∷ ks) p reselect =
    add_contact_rows t ks (add_contact_row k p) (chosen t k p.unused reselect)

abbrev pub page_of : List Contact → Page
page_of [] = empty
page_of (_ ∷ _) = split

-- `on_contacts_loaded`, with the contacts. The list box says that no row is selected when it loses
-- the selected one.
unfoldable pub contacts_loaded : List Contact → ContactPanel → ContactPanel
unfolding contact_selected add_contact_rows
contacts_loaded ks p =
    let (p', reselect) =
      add_contact_rows (reload_target p) ks (record p { rows = []; pending_select_dn = none })
        none in
    contact_selected reselect (record p' { outer = page_of ks })

-- `on_contacts_loaded`, after an error.
abbrev pub contacts_failed : ContactPanel → ContactPanel
contacts_failed p = record p { outer = empty }
