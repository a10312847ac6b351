-- ===== src/Tests/Names.antt =====
-- The theorem on the editor of service principal names, on a computer with one name.
use sambervise.Base.{◌≡◌, ◌⊎◌, refl, true, none, some, [], ◌∷◌}
use sambervise.Base.Int.{pos}
use sambervise.Base.Bytes.{codes}
use sambervise.Computers.{Computer}
use sambervise.Editor.Sets.{SameValues, AreDistinct}
use sambervise.SpnEditor.{SpnEditor, spns_of, load_spns, add_clicked, begin, type_text, add}
use sambervise.SpnEditor.Tracked.{Edits-SameValues}

abbrev pub desk : Computer
desk = record {
  dn = some (codes "CN=desk,DC=x");
  sam = some (codes "desk$");
  cn = some (codes "desk");
  description = none;
  dns_hostname = none;
  os = none;
  os_version = none;
  os_service_pack = none;
  enabled = true;
  uac = pos 4096;
  pwd_last_set = pos 1;
  spn = some (codes "HOST/desk" ∷ []);
  ldap_attrs = [];
}

-- A second name is typed and added.
abbrev edited : SpnEditor
edited = add_clicked (record (load_spns desk) { new_text = codes "HTTP/desk" })

Edits-SameValues_example :
    AreDistinct edited.working_spns
    × ((edited.save_sensitive ≡ true) ⊎ SameValues edited.working_spns (spns_of desk))
Edits-SameValues_example =
    Edits-SameValues desk edited (refl, tt) refl (add (type_text (codes "HTTP/desk") begin))
