-- ===== src/Editor.antt =====
-- src/ui/sbv-ldap-panel.c: the editor of the attributes of one entry. A row's widgets are kept as
-- the texts that they hold.
pub mod Text
pub mod Loading
pub mod Sets
pub mod Saving
pub mod Refines
use sambervise.Base.{
  Bool, true, false, not, ◌&&◌, ◌||◌, Option, none, some, List, [], ◌∷◌, ◌++◌, map, if◌then◌else◌,
}
use sambervise.Base.Bytes.{Bytes, codes}
use sambervise.Backend.Attrs.{Table, lookup}
use sambervise.Connection.{Action, pure}
use sambervise.Browse.{StagedMod, browse_modify, add_op, replace_op, delete_op, new_mod}
use sambervise.Editor.Text.{split_values, join_values, values_equal_set}

-- `AttrRow`: `name` is the attribute of an existing row, or the text of the name entry of a new one.
pub record Row : Type 0 where
  pub name : Bytes
  pub value_text : Bytes
  pub is_new : Bool
  pub marked_delete : Bool

-- `make_attr_row`, for an attribute that is there.
unfoldable pub make_attr_row : Bytes → Bytes → Row
make_attr_row attr joined = record {
  name = attr;
  value_text = joined;
  is_new = false;
  marked_delete = false;
}

-- The new row that `on_new_attr_clicked` appends.
abbrev pub blank_row : Row
blank_row = record { name = []; value_text = []; is_new = true; marked_delete = false }

-- The values of an attribute in `loaded_attrs`; NULL has none.
abbrev pub values_or_nil : Option (List Bytes) → List Bytes
values_or_nil none = []
values_or_nil (some vs) = vs

unfoldable pub values_of : Table → Bytes → List Bytes
unfolding lookup
values_of t attr = values_or_nil (lookup attr t)

-- `rebuild_attr_rows`, on the sorted keys of `loaded_attrs`.
unfoldable pub rebuild_attr_rows : Table → List Bytes → List Row
rebuild_attr_rows t keys = map (λ attr. make_attr_row attr (join_values (values_of t attr))) keys

-- `on_attr_remove_clicked`, at the row that is clicked: a new row goes, and an existing one has its
-- mark turned over.
unfoldable pub remove_clicked : Row → List Row
remove_clicked r = if r.is_new then [] else record r { marked_delete = not r.marked_delete } ∷ []

abbrev pub is_nonempty : Bytes → Bool
is_nonempty [] = false
is_nonempty (_ ∷ _) = true

-- One round of the loop of `editor_is_dirty`.
unfoldable pub row_is_dirty : Table → Row → Bool
row_is_dirty t r =
    if r.is_new
    then is_nonempty r.name && is_nonempty r.value_text
    else if r.marked_delete
    then true
    else not (values_equal_set (values_of t r.name) (split_values r.value_text))

unfoldable pub editor_is_dirty : Table → List Row → Bool
editor_is_dirty t [] = false
editor_is_dirty t (r ∷ rs) = let rest = editor_is_dirty t rs in row_is_dirty t r || rest

abbrev pub stage_add : Bytes → List Bytes → List StagedMod
stage_add attr [] = []
stage_add attr (v ∷ vs) = new_mod add_op attr (v ∷ vs) ∷ []

abbrev pub stage_change : Bytes → List Bytes → List StagedMod
stage_change attr [] = new_mod delete_op attr [] ∷ []
stage_change attr (v ∷ vs) = new_mod replace_op attr (v ∷ vs) ∷ []

-- One round of the loop of `on_save_clicked`.
unfoldable pub stage_row : Table → Row → List StagedMod
stage_row t r =
    if r.is_new
    then (if is_nonempty r.name && is_nonempty r.value_text
        then stage_add r.name (split_values r.value_text)
        else [])
    else if r.marked_delete
    then new_mod delete_op r.name [] ∷ []
    else if values_equal_set (values_of t r.name) (split_values r.value_text)
    then []
    else stage_change r.name (split_values r.value_text)

-- The modifications that `on_save_clicked` hands to `sbv_ldap_browse_modify_async`; where there are
-- none it makes no call.
unfoldable pub staged_mods : Table → List Row → List StagedMod
staged_mods t [] = []
staged_mods t (r ∷ rs) = stage_row t r ++ staged_mods t rs

abbrev pub modify_if_staged : Option Bytes → List StagedMod → Action (Unit {0})
modify_if_staged dn [] = pure tt
modify_if_staged dn (m ∷ ms) = browse_modify dn (m ∷ ms)

-- `on_save_clicked`, with the thread that it starts.
unfoldable pub save_clicked : Option Bytes → Table → List Row → Action (Unit {0})
save_clicked none t rows = pure tt
save_clicked (some dn) t rows = modify_if_staged (some dn) (staged_mods t rows)
