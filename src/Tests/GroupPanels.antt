-- ===== src/Tests/GroupPanels.antt =====
-- The theorems on the panel of the groups, with a built-in group that is selected.
use sambervise.Base.{◌≡◌, refl, true, false, none, some, [], ◌∷◌}
use sambervise.Base.Int.{pos}
use sambervise.Base.Bytes.{codes}
use sambervise.Base.Decimal.{strtoll, parse_digits}
use sambervise.Base.Flags.{to_int32}
use sambervise.Groups.{Group}
use sambervise.Panel.{split}
use sambervise.Panel.Saving.{id_of}
use sambervise.GroupPanel.{
  GroupPanel, remove_member_request, set_unix_attrs_request, delete_request, list_groups_request,
}
use sambervise.GroupPanel.Members.{remove_clicked, remove_done}
use sambervise.GroupPanel.Saving.{
  rfc_save_clicked, gid_warn_response, group_delete_confirmed, group_delete_done,
}
use sambervise.GroupPanel.Dangling.{remove_clicked_again, gid_warn_response_ungrouped}
use sambervise.Tests.{staff}

abbrev admins : Group
admins = record staff { rid = pos 512 }

abbrev panel : GroupPanel
panel = record {
  gid_text = codes "7";
  outer = split;
  detail_shown = true;
  gid_collision = none;
  gid_timer = false;
  suggest_sensitive = true;
  save_sensitive = true;
  delete_sensitive = true;
  rfc_error = none;
  member_error = none;
  delete_error = none;
  idmap_hints = none;
  conn = some 0;
  selected_group = some 0;
  pending_select_sam = none;
  rows = 0 ∷ [];
  groups = λ r. admins;
  unused = 1;
  remove_buttons = 0 ∷ [];
  contexts = λ x. some (codes "CN=jane,DC=x");
  unused_context = 1;
  add_dialog = none;
  unused_dialog = 0;
  warning = none;
  confirm = none;
}

remove_clicked_again_example :
    (p' : GroupPanel) × (p'' : GroupPanel) × (remove_clicked 0 panel
      ≡ some (p', remove_member_request 0 0 (codes "CN=jane,DC=x") 0 ∷ []))
    × (remove_done 0 0 (some (codes "busy")) p' ≡ some (p'', []))
    × (p''.remove_buttons ≡ panel.remove_buttons)
    × (remove_clicked 0 p'' ≡ none)
remove_clicked_again_example =
    remove_clicked_again panel 0 0 0 (codes "CN=jane,DC=x") (codes "busy") refl refl refl

gid_warn_response_ungrouped_example :
    let (p₁, qs₁) = group_delete_confirmed panel in
    let (p₂, qs₂) = rfc_save_clicked p₁ in
    let (p₃, qs₃) = group_delete_done 0 none p₂ in
    let (p₄, qs₄) = gid_warn_response true p₃ in
    (qs₁ ≡ delete_request 0 0 ∷ [])
    × (qs₂ ≡ [])
    × (qs₃ ≡ list_groups_request 0 ∷ [])
    × (qs₄ ≡ set_unix_attrs_request 0 none (id_of panel.gid_text) ∷ [])
unfolding strtoll to_int32 parse_digits
gid_warn_response_ungrouped_example = gid_warn_response_ungrouped panel 0 0 refl refl refl refl
