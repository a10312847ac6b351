-- ===== src/GroupPanel/Detail.antt =====
-- src/ui/sbv-groups-panel.c: a group in the detail pane, and the list that is loaded.
use sambervise.Base.{
  ℕ, suc, ◌==◌, Bool, true, false, Option, none, some, List, [], ◌∷◌, ◌++◌, if◌then◌else◌,
}
use sambervise.Base.Int.{pos, leb_ℤ}
use sambervise.Base.Bytes.{Bytes, codes, bytes_eq, or_empty, before_char}
use sambervise.Base.Decimal.{print_ℤ}
use sambervise.Groups.{Group}
use sambervise.Panel.{Page, empty, split}
use sambervise.Browse.{same_text}
use sambervise.GroupPanel.{GroupPanel, Handled, load_groups}

-- The text behind the first three characters, where these are "CN=" in any case of letters.
abbrev pub after_cn : Bytes → Option Bytes
after_cn (a ∷ b ∷ c ∷ s) = if same_text (a ∷ b ∷ c ∷ []) (codes "CN=") then some s else none
after_cn _ = none

-- `dn_to_friendly`, on a DN that is not NULL.
unfoldable pub dn_to_friendly : Bytes → Bytes
dn_to_friendly dn = elim (after_cn dn) [ none ↦ dn | some start ↦ before_char b',' start ]

-- One round of the loop of `populate_members`: a button with a context of its own.
unfoldable pub add_context : Bytes → GroupPanel → GroupPanel
add_context member p = record p {
  contexts = λ x. if x == p.unused_context then some member else p.contexts x;
  unused_context = suc p.unused_context;
  remove_buttons = p.remove_buttons ++ (p.unused_context ∷ []);
}

unfoldable pub add_contexts : List Bytes → GroupPanel → GroupPanel
add_contexts [] p = p
add_contexts (m ∷ ms) p = add_contexts ms (add_context m p)

abbrev members_of : Option (List Bytes) → List Bytes
members_of none = []
members_of (some ms) = ms

-- `populate_members`.
unfoldable pub populate_members : Group → GroupPanel → GroupPanel
populate_members g p = add_contexts (members_of g.members) (record p { remove_buttons = [] })

abbrev gid_text_of : Group → Bytes
gid_text_of g = if leb_ℤ (pos 0) g.gid_number then print_ℤ g.gid_number else []

-- `on_row_selected`, with the group of the row, or without a row. The timer that the text of the gid
-- starts is removed again.
unfoldable pub group_selected : Option ℕ → GroupPanel → GroupPanel
group_selected none p = record p { detail_shown = false }
group_selected (some r) p = populate_members (p.groups r) (record p {
  selected_group = some r;
  gid_text = gid_text_of (p.groups r);
  gid_timer = false;
  gid_collision = none;
  rfc_error = none;
  member_error = none;
  delete_error = none;
  detail_shown = true;
})

-- The name that `on_groups_loaded` looks for.
abbrev selected_sam : GroupPanel → Option ℕ → Option Bytes
selected_sam p none = none
selected_sam p (some r) = (p.groups r).sam

abbrev or_selected : Option Bytes → Option Bytes → Option Bytes
or_selected sam none = sam
or_selected _ (some pending) = some pending

unfoldable pub target_sam : GroupPanel → Option Bytes
target_sam p = or_selected (selected_sam p p.selected_group) p.pending_select_sam

abbrev is_target : Option Bytes → Group → Bool
is_target none g = false
is_target (some sam) g = bytes_eq (or_empty g.sam) sam

-- A row for one group more.
unfoldable pub add_group_row : Group → GroupPanel → GroupPanel
add_group_row g p = record p {
  groups = λ r. if r == p.unused then g else p.groups r;
  unused = suc p.unused;
  rows = p.rows ++ (p.unused ∷ []);
}

-- The loop of `on_groups_loaded`: the last row with the name is selected.
unfoldable pub add_group_rows :
    Option Bytes → List Group → GroupPanel → Option ℕ → GroupPanel × Option ℕ
add_group_rows t [] p reselect = (p, reselect)
add_group_rows t (g ∷ gs) p reselect =
    add_group_rows t gs (add_group_row g p) (if is_target t g then some p.unused else reselect)

abbrev page_of : List Group → Page
page_of [] = empty
page_of (_ ∷ _) = split

-- `on_groups_loaded`, with the groups.
unfoldable pub groups_loaded : List Group → GroupPanel → GroupPanel
groups_loaded gs p =
    let (p', reselect) =
      add_group_rows (target_sam p) gs (record p { rows = []; pending_select_sam = none }) none in
    group_selected reselect (record p' { outer = page_of gs })

-- `on_groups_loaded`, after an error.
abbrev pub groups_failed : GroupPanel → GroupPanel
groups_failed p = record p { outer = empty }

-- `on_group_created`.
abbrev pending_of : Option Bytes → Option Bytes → Option Bytes
pending_of old none = old
pending_of _ (some start) = some (before_char b',' start)

unfoldable pub group_created : ℕ → Bytes → GroupPanel → Handled
unfolding load_groups
group_created c new_dn p =
    load_groups c
      (record p { pending_select_sam = pending_of p.pending_select_sam (after_cn new_dn) })
