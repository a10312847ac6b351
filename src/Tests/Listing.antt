-- ===== src/Tests/Listing.antt =====
-- The theorems on the filters of the lists, the dialogs that create an entry, and the
-- directory browser.
use sambervise.Base.{◌≡◌, ◌↔◌, refl, true, false, none, some, List, [], ◌∷◌}
use sambervise.Base.Int.{pos}
use sambervise.Base.Bytes.{Bytes, codes}
use sambervise.Backend.Attrs.{Table}
use sambervise.Browse.{StagedMod, add_op, new_mod}
use sambervise.Editor.{Row, rebuild_attr_rows, staged_mods, stage_row}
use sambervise.Editor.Text.{split_values, split_on, kept_tokens, chug, chomp}
use sambervise.Filter.{
  filter_text, user_shown, contact_shown, computer_shown, group_shown, candidate_shown, user_fields,
  contact_fields, computer_fields, group_fields, candidate_fields,
}
use sambervise.Filter.Shown.{HasField, before_null, shown_iff}
use sambervise.CreateDialog.{NameEdit, to_given, to_sn, to_cn, after_edits}
use sambervise.CreateDialog.Filling.{after_edits-full_name}
use sambervise.LdapPanel.{
  LdapPanel, modify_request, refresh_request, node_selected, rows_edited, ldap_save_clicked,
  ldap_save_done, attrs_refreshed,
}
use sambervise.LdapPanel.Races.{attrs_refreshed_elsewhere}
use sambervise.Tests.{jane, staff}
use sambervise.Tests.Contacting.{ann_in}
use sambervise.Tests.Names.{desk}

-- A text in lower case is left as it is.
abbrev as_is : Bytes → Bytes
as_is s = s

shown_iff_example :
    let f = filter_text as_is (codes "an") in
    let Found = HasField as_is (codes "an") in
    let ann = ann_in (codes "CN=ann,DC=x") in
    ((user_shown as_is f jane ≡ true) ↔ Found (user_fields jane))
    × ((contact_shown as_is f ann ≡ true) ↔ Found (contact_fields ann))
    × ((computer_shown as_is f desk ≡ true) ↔ Found (before_null (computer_fields desk)))
    × ((group_shown as_is f staff ≡ true) ↔ Found (before_null (group_fields staff)))
    × ((candidate_shown as_is f jane ≡ true) ↔ Found (before_null (candidate_fields jane)))
shown_iff_example =
    shown_iff as_is (codes "an") jane (ann_in (codes "CN=ann,DC=x")) desk staff refl refl

-- A full name is typed and taken back, and then both parts are typed.
abbrev name_edits : List NameEdit
name_edits = to_sn (codes "Doe") ∷ to_given (codes "Jane") ∷ to_cn [] ∷ to_cn (codes "JD") ∷ []

after_edits-full_name_example :
    ((after_edits name_edits).given ≡ codes "Jane")
    × ((after_edits name_edits).sn ≡ codes "Doe")
    × ((after_edits name_edits).cn ≡ codes "Jane Doe")
after_edits-full_name_example = after_edits-full_name name_edits

abbrev keys : Table → List Bytes
keys [] = []
keys ((a, vs) ∷ t) = a ∷ keys t

abbrev described : Table
described = (codes "description", codes "old" ∷ []) ∷ []

-- The entry of "a" is loaded.
abbrev browser : LdapPanel
browser = record {
  nodes = λ r. record {
    dn = codes "CN=b,DC=x";
    label = codes "CN=b";
    has_children = pos 0;
    attrs = [];
  };
  children = λ r. [];
  loaded = λ r. false;
  unused = 2;
  tree = 0 ∷ 1 ∷ [];
  results = [];
  active_filter = none;
  status = [];
  shows_results = false;
  shows_split = true;
  detail_shown = true;
  loaded_dn = some (codes "CN=a,DC=x");
  loaded_attrs = described;
  rows = [];
  save_sensitive = false;
  save_error = none;
  conn = some 0;
}

-- An attribute is added.
abbrev mail : Row
mail = record { name = codes "mail"; value_text = codes "x"; is_new = true; marked_delete = false }

abbrev add_mail : StagedMod
add_mail = record { op = add_op; attr = codes "mail"; values = some (codes "x" ∷ []) }

mail_staged : staged_mods described (mail ∷ []) ≡ add_mail ∷ []
unfolding staged_mods stage_row split_values split_on kept_tokens chug chomp new_mod
mail_staged = refl

attrs_refreshed_elsewhere_example :
    let (p₁, qs₁) = ldap_save_done keys 0 none browser in
    let p₂ = attrs_refreshed keys (some described) (node_selected keys (some 1) p₁) in
    (qs₁ ≡ refresh_request 0 (codes "CN=a,DC=x") ∷ [])
    × (p₂.loaded_dn ≡ some (codes "CN=b,DC=x"))
    × (p₂.rows ≡ rebuild_attr_rows described (keys described))
    × ((ldap_save_clicked keys (rows_edited keys (mail ∷ []) p₂)).1
        ≡ modify_request 0 (codes "CN=b,DC=x") (add_mail ∷ []) ∷ [])
attrs_refreshed_elsewhere_example =
    attrs_refreshed_elsewhere keys browser 0 1 (codes "CN=a,DC=x") described (mail ∷ []) add_mail []
      refl refl mail_staged
