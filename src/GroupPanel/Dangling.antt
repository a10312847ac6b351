-- ===== src/GroupPanel/Dangling.antt =====
-- src/ui/sbv-groups-panel.c: handlers that use what another has freed or let go.
use sambervise.Base.{
  ℕ, ◌==◌, Bool, true, none, some, [], ◌∷◌, ◌≡◌, refl, arith, ◌&&◌, if◌then◌else◌,
}
use sambervise.Base.Int.{pos, leb_ℤ}
use sambervise.Base.Bytes.{Bytes}
use sambervise.Panel.Saving.{id_of}
use sambervise.GroupPanel.{
  GroupPanel, remove_member_request, set_unix_attrs_request, delete_request, list_groups_request,
  load_groups,
}
use sambervise.GroupPanel.Members.{remove_clicked, remove_done}
use sambervise.GroupPanel.Saving.{
  rfc_save_clicked, do_rfc_save, gid_warn_response, is_sensitive_builtin, group_delete_confirmed,
  group_delete_done,
}

-- If the removal of a member fails, its button stays where it was and a second click on it uses the
-- context that the first one's callback has freed.
pub remove_clicked_again :
    (p : GroupPanel) (c r x : ℕ) (member message : Bytes)
    → p.conn ≡ some c
    → p.selected_group ≡ some r
    → p.contexts x ≡ some member
    → (p' : GroupPanel) × (p'' : GroupPanel) × (remove_clicked x p
        ≡ some (p', remove_member_request c r member x ∷ []))
      × (remove_done c x (some message) p' ≡ some (p'', []))
      × (p''.remove_buttons ≡ p.remove_buttons)
      × (remove_clicked x p'' ≡ none)
unfolding remove_clicked remove_done load_groups
remove_clicked_again p c r x member message conn selected live = (
  record p { member_error = none },
  record p { contexts = λ y. if y == x then none else p.contexts y; member_error = some message },
  ground arith,
  ground arith,
  refl,
  ground arith,
)

-- If a save of the gidNumber of one of the three built-in groups waits for its confirmation while
-- the group is being deleted, and the deletion comes first, then the confirmation starts a save
-- without a group.
pub gid_warn_response_ungrouped :
    (p : GroupPanel) (c r : ℕ)
    → p.conn ≡ some c
    → p.selected_group ≡ some r
    → is_sensitive_builtin (p.groups r).rid ≡ true
    → leb_ℤ (pos 0) (id_of p.gid_text) ≡ true
    → let (p₁, qs₁) = group_delete_confirmed p in
      let (p₂, qs₂) = rfc_save_clicked p₁ in
      let (p₃, qs₃) = group_delete_done c none p₂ in
      let (p₄, qs₄) = gid_warn_response true p₃ in
      (qs₁ ≡ delete_request c r ∷ [])
      × (qs₂ ≡ [])
      × (qs₃ ≡ list_groups_request c ∷ [])
      × (qs₄ ≡ set_unix_attrs_request c none (id_of p.gid_text) ∷ [])
unfolding group_delete_confirmed rfc_save_clicked group_delete_done gid_warn_response do_rfc_save
    load_groups
gid_warn_response_ungrouped p c r conn selected builtin filled = ground arith

-- A click on the button that saves the gidNumber of a group sends it, unless there is a gid in the
-- entry and the group is one of the three built-in ones: then it is sent exactly if the warning is
-- answered with "save".
rfc_save_clicked_lem :
    (p : GroupPanel) (c r : ℕ) (save : Bool)
    → p.conn ≡ some c
    → p.selected_group ≡ some r
    → p.warning ≡ none
    → let guarded = leb_ℤ (pos 0) (id_of p.gid_text) && is_sensitive_builtin (p.groups r).rid in
      let (p', qs) = rfc_save_clicked p in
      let sent = set_unix_attrs_request c (some r) (id_of p.gid_text) ∷ [] in
      (qs ≡ (if guarded then [] else sent))
      × ((gid_warn_response save p').1 ≡ (if guarded && save then sent else []))
unfolding rfc_save_clicked gid_warn_response do_rfc_save
rfc_save_clicked_lem p c r save conn selected closed = ground arith
