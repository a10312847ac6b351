-- ===== src/SpnEditor.antt =====
-- src/ui/sbv-computers-panel.c: the editor of the service principal names of a computer.
pub mod Tracked
use sambervise.Base.{
  Bool, true, false, not, ◌&&◌, ◌||◌, Option, none, some, List, [], ◌∷◌, ◌++◌, if◌then◌else◌,
}
use sambervise.Base.Int.{ℤ, pos, eq_ℤ}
use sambervise.Base.Bytes.{Bytes, codes, bytes_eq, after_char}
use sambervise.Browse.{same_text}
use sambervise.Computers.{Computer}
use sambervise.Editor.{is_nonempty}
use sambervise.Editor.Text.{values_equal_set}

-- The part of `SbvComputersPanel` that the editor works on, with the computer that is selected.
pub record SpnEditor : Type 0 where
  pub selected : Computer
  pub working_spns : List Bytes
  pub new_text : Bytes
  pub error : Option Bytes
  pub editable : Bool
  pub save_sensitive : Bool

abbrev or_nil : Option (List Bytes) → List Bytes
or_nil none = []
or_nil (some vs) = vs

abbrev pub spns_of : Computer → List Bytes
spns_of k = or_nil k.spn

-- `selected_is_uninitialized`.
abbrev pub is_uninitialized : Computer → Bool
is_uninitialized k = eq_ℤ k.pwd_last_set (pos 0)

-- The lines of `load_computer_into_detail` on the editor, with `update_spn_editability`.
unfoldable pub load_spns : Computer → SpnEditor
load_spns k = record {
  selected = k;
  working_spns = spns_of k;
  new_text = [];
  error = none;
  editable = not (is_uninitialized k);
  save_sensitive = false;
}

-- `update_spn_dirty`.
abbrev pub update_spn_dirty : SpnEditor → SpnEditor
update_spn_dirty e = record e {
  save_sensitive =
      not (values_equal_set e.working_spns (spns_of e.selected))
      && not (is_uninitialized e.selected);
}

abbrev pub without : Bytes → List Bytes → List Bytes
without v [] = []
without v (u ∷ us) = let rest = without v us in if bytes_eq u v then us else u ∷ rest

-- `on_spn_remove_clicked`, at the row of a value. The rows are rebuilt, all of them sensitive.
unfoldable pub remove_clicked : Bytes → SpnEditor → SpnEditor
remove_clicked v e = update_spn_dirty (record e { working_spns = without v e.working_spns })

-- There is a slash with some text before and behind it.
abbrev pub behind_filled : Option Bytes → Bool
behind_filled none = false
behind_filled (some s) = is_nonempty s

abbrev pub starts_with_slash : Bytes → Bool
starts_with_slash [] = false
starts_with_slash (c ∷ s) = bytes_eq (c ∷ []) (codes "/")

abbrev pub has_service_host : Bytes → Bool
has_service_host typed = not (starts_with_slash typed) && behind_filled (after_char b'/' typed)

abbrev pub is_listed : Bytes → List Bytes → Bool
is_listed typed [] = false
is_listed typed (v ∷ vs) = same_text v typed || is_listed typed vs

abbrev appended : Bytes → SpnEditor → SpnEditor
appended typed e =
    update_spn_dirty
      (record e { error = none; working_spns = e.working_spns ++ (typed ∷ []); new_text = [] })

-- The branches of `on_spn_add_clicked`, by its conditions: the computer has not joined, there is a
-- text, it is a service and a host, and it is in the list.
abbrev pub add_on : Bool → Bool → Bool → Bool → SpnEditor → SpnEditor
add_on true _ _ _ e = e
add_on false false _ _ e = record e { error = none }
add_on false true false _ e = record e {
  error = some (codes "SPN must be of the form service/host (e.g. HOST/pc.example.com).");
}
add_on false true true true e = record e { error = some (codes "That SPN is already in the list.") }
add_on false true true false e = appended e.new_text e

-- `on_spn_add_clicked`.
unfoldable pub add_clicked : SpnEditor → SpnEditor
add_clicked e =
    add_on (is_uninitialized e.selected) (is_nonempty e.new_text) (has_service_host e.new_text)
      (is_listed e.new_text e.working_spns) e

-- `on_spn_save_clicked`, on a connection: the values that are sent, if any.
unfoldable pub save_clicked : SpnEditor → SpnEditor × Option (List Bytes)
save_clicked e =
    if is_uninitialized e.selected
    then (e, none)
    else (record e { error = none; save_sensitive = false }, some e.working_spns)

-- `on_spn_save_done`, after an error.
unfoldable pub save_failed : Bytes → SpnEditor → SpnEditor
save_failed message e = record e { error = some message; save_sensitive = true }

-- What the user of the program does to the list.
pub data Edits (e : SpnEditor) : SpnEditor → Type 0 where
  begin : Edits e e
  type_text : {f : SpnEditor} (s : Bytes) → Edits e f → Edits e (record f { new_text = s })
  add : {f : SpnEditor} → Edits e f → Edits e (add_clicked f)
  remove : {f : SpnEditor} (v : Bytes) → Edits e f → Edits e (remove_clicked v f)
