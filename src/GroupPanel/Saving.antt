-- ===== src/GroupPanel/Saving.antt =====
-- src/ui/sbv-groups-panel.c: the gidNumber of a group, the ids that are checked and suggested, and a
-- deletion.
use sambervise.Base.{
  ℕ, Bool, true, false, ◌||◌, ◌&&◌, Option, none, some, List, [], ◌∷◌, if◌then◌else◌,
}
use sambervise.Base.Int.{ℤ, pos, eq_ℤ, leb_ℤ}
use sambervise.Base.Bytes.{Bytes, codes, or_empty, is_filled}
use sambervise.Base.Decimal.{strtoll}
use sambervise.Connection.{Outcome}
use sambervise.Collisions.{Hit}
use sambervise.Idmap.{Hints}
use sambervise.Suggest.{scan_start, highest, suggested_text}
use sambervise.Panel.{both}
use sambervise.Panel.Saving.{id_of}
use sambervise.Panel.Ids.{collision_label, entered, label_of}
use sambervise.Panel.Steps.{typed_name}
use sambervise.GroupPanel.{
  GroupPanel, GroupRequest, Handled, set_unix_attrs_request, delete_request, gid_check_request,
  next_free_gid_request, hints_request, load_groups,
}

-- `sensitive_builtin_name (rid) != NULL`.
abbrev pub is_sensitive_builtin : ℤ → Bool
is_sensitive_builtin rid = eq_ℤ rid (pos 512) || (eq_ℤ rid (pos 518) || eq_ℤ rid (pos 519))

abbrev save_on : Option ℕ → ℤ → GroupPanel → Handled
save_on none gid p = (p, [])
save_on (some c) gid p = (
  record p { rfc_error = none; save_sensitive = false },
  set_unix_attrs_request c p.selected_group gid ∷ [],
)

-- `do_rfc_save`, where there is a connection. The group is the one that is selected, if any.
unfoldable pub do_rfc_save : ℤ → GroupPanel → Handled
do_rfc_save gid p = save_on p.conn gid p

-- `on_gid_warn_response`; every other response than "save" cancels.
unfoldable pub gid_warn_response : Bool → GroupPanel → Handled
unfolding do_rfc_save
gid_warn_response save p = elim p.warning [
  | none ↦ (p, [])
  | some gid ↦
      if save
      then do_rfc_save gid (record p { warning = none })
      else (record p { warning = none }, [])
]

abbrev warn_or_save : Bool → ℤ → GroupPanel → Handled
warn_or_save true gid p = (record p { warning = some gid }, [])
warn_or_save false gid p = do_rfc_save gid p

-- `on_rfc_save_clicked`: a gidNumber for one of three built-in groups needs a confirmation.
unfoldable pub rfc_save_clicked : GroupPanel → Handled
unfolding do_rfc_save
rfc_save_clicked p = elim (both p.conn p.selected_group) [
  | none ↦ (p, [])
  | some (c, r) ↦
      warn_or_save (leb_ℤ (pos 0) (id_of p.gid_text) && is_sensitive_builtin (p.groups r).rid)
        (id_of p.gid_text) p
]

-- `on_rfc_save_done`.
unfoldable pub rfc_save_done : ℕ → Option Bytes → GroupPanel → Handled
unfolding load_groups
rfc_save_done c (some message) p =
    (record p { save_sensitive = true; rfc_error = some message }, [])
rfc_save_done c none p = load_groups c (record p { save_sensitive = true; rfc_error = none })

abbrev selected_dn : GroupPanel → Option ℕ → Option Bytes
selected_dn p none = none
selected_dn p (some r) = (p.groups r).dn

abbrev check_gid : ℕ → Bytes → GroupPanel → Handled
check_gid c [] p = (record p { gid_collision = none }, [])
check_gid c (d ∷ s) p =
    (p, gid_check_request c (strtoll (d ∷ s)) (selected_dn p p.selected_group) ∷ [])

-- `fire_group_gid_check`.
unfoldable pub fire_group_gid_check : GroupPanel → Handled
fire_group_gid_check p = elim p.conn [
  | none ↦ (record p { gid_timer = false }, [])
  | some c ↦ check_gid c p.gid_text (record p { gid_timer = false })
]

-- `on_gid_collision_done`.
unfoldable pub gid_collision_done : ℤ → Option (List Hit) → GroupPanel → GroupPanel
unfolding collision_label
gid_collision_done value hits p =
    if eq_ℤ (entered p.gid_text) value
    then record p { gid_collision = label_of (codes "GID") hits }
    else p

-- `on_group_gid_entry_changed`, with the new text.
unfoldable pub gid_entered : Bytes → GroupPanel → GroupPanel
gid_entered text p = record p { gid_text = text; gid_timer = true }

abbrev fill_entry : Option Bytes → GroupPanel → GroupPanel
fill_entry none p = p
fill_entry (some text) p = gid_entered text p

-- `on_group_suggest_done`.
unfoldable pub group_suggest_done : Outcome ℤ → GroupPanel → GroupPanel
unfolding gid_entered
group_suggest_done r p = fill_entry (suggested_text r) (record p { suggest_sensitive = true })

-- `group_suggest_with_hints`, on a connection.
abbrev pub scan_request : ℕ → Hints → GroupRequest
scan_request c h = next_free_gid_request c (scan_start false h) (highest false h)

abbrev scan_on : Option ℕ → Hints → List GroupRequest
scan_on none h = []
scan_on (some c) h = scan_request c h ∷ []

-- `on_group_suggest_gid_clicked`.
unfoldable pub group_suggest_clicked : GroupPanel → Handled
group_suggest_clicked p = elim p.conn [
  | none ↦ (p, [])
  | some c ↦ elim p.idmap_hints [
    | none ↦ (record p { suggest_sensitive = false }, hints_request c ∷ [])
    | some h ↦ (record p { suggest_sensitive = false }, scan_request c h ∷ [])
  ]
]

-- `on_group_hints_then_suggest`.
unfoldable pub group_hints_done : Hints → GroupPanel → Handled
group_hints_done h p = (record p { idmap_hints = some h }, scan_on p.conn h)

abbrev open_if : Bool → Bytes → GroupPanel → GroupPanel
open_if true expected p = record p { confirm = some (expected, false) }
open_if false expected p = p

-- `show_group_delete_confirm`.
abbrev show_confirm : Option ℕ → GroupPanel → GroupPanel
show_confirm none p = p
show_confirm (some r) p = open_if (is_filled (p.groups r).sam) (or_empty (p.groups r).sam) p

unfoldable pub group_delete_clicked : GroupPanel → GroupPanel
group_delete_clicked p = show_confirm p.selected_group p

-- `on_confirm_group_entry_changed`.
unfoldable pub group_confirm_entered : Bytes → GroupPanel → GroupPanel
group_confirm_entered typed p = record p { confirm = typed_name typed p.confirm }

abbrev confirmed : Option (ℕ × ℕ) → GroupPanel → Handled
confirmed none p = (record p { confirm = none }, [])
confirmed (some (c, r)) p = (
  record p { delete_error = none; delete_sensitive = false; confirm = none },
  delete_request c r ∷ [],
)

-- `on_confirm_group_delete_clicked`.
unfoldable pub group_delete_confirmed : GroupPanel → Handled
group_delete_confirmed p = confirmed (both p.conn p.selected_group) p

-- `on_group_delete_done`.
unfoldable pub group_delete_done : ℕ → Option Bytes → GroupPanel → Handled
unfolding load_groups
group_delete_done c (some message) p =
    (record p { delete_sensitive = true; delete_error = some message }, [])
group_delete_done c none p =
    load_groups c (record p { delete_sensitive = true; selected_group = none })
