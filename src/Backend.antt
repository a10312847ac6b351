-- ===== src/Backend.antt =====
-- What the backends of src/backend have in common: the worker threads read and write through the
-- shared connection, check result codes, and decode the values of entries in the same way.
pub mod Attrs
use sambervise.Base.{
  ◌≡◌, ℕ, String, Bool, Option, none, some, List, [], ◌∷◌, ◌++◌, map, if◌then◌else◌,
}
use sambervise.Base.Int.{ℤ, pos, leb_ℤ}
use sambervise.Base.Bytes.{Bytes, codes, c_string, is_filled, or_empty}
use sambervise.Base.Decimal.{strtoll, print_ℤ}
use sambervise.Ldap.{
  add, replace, Call, Handle, Mod, ModOp, Search, base, Entry, Reply, is_success, succeeded,
  first_value, ldap, failed,
}
use sambervise.Connection.{Action, ◌>>=◌, ◌>>◌, pure, raise, issue, release, not_connected}

-- The check of `rc` after a search: on failure the handle is released and the task gets the error.
unfoldable pub fetch : Handle → Search → String → Action (List Entry)
fetch h q message = do
  r ← issue (Call.search h q)
  if succeeded r then pure r.entries else release >> raise (failed ldap message r.rc)

-- The check of `rc` that ends a writing thread, after the release.
unfoldable pub settle : String → ℤ → Action (Unit {0})
settle message rc = if is_success rc then pure tt else raise (failed ldap message rc)

-- `GET_STR`: a copy of the first value of an attribute, NULL where there is none.
unfoldable pub text_value : Bytes → Entry → Option Bytes
unfolding first_value
text_value attr e = elim (first_value attr e) [ none ↦ none | some v ↦ some (c_string v) ]

-- A modification that puts one text.
abbrev pub put : ModOp → String → Bytes → Mod
put op attr v = record { op = op; attr = codes attr; values = some (v ∷ []) }

-- `LDAP_MOD_REPLACE` with no values, which removes the attribute.
abbrev pub remove : String → Mod
remove attr = record { op = ModOp.replace; attr = codes attr; values = none }

abbrev pub no_limit : ℕ
no_limit = 0

-- The search of one entry, `LDAP_SCOPE_BASE` under "(objectClass=*)".
abbrev pub read_entry : Option Bytes → List Bytes → ℕ → Search
read_entry dn attrs seconds = record {
  base_dn = dn;
  scope = base;
  filter = codes "(objectClass=*)";
  attrs = attrs;
  seconds = seconds;
  limit = 1;
}

-- `g_ascii_strtoll (bv[0]->bv_val, NULL, 10)`, where the attribute has a value.
unfoldable pub number_value : Bytes → Entry → Option ℤ
unfolding first_value strtoll
number_value attr e = elim (first_value attr e) [ none ↦ none | some v ↦ some (strtoll v) ]

-- A field that keeps its initial value where the attribute is absent.
abbrev pub number_or : ℤ → Option ℤ → ℤ
number_or z none = z
number_or _ (some z) = z

-- All values of a multi-valued attribute, copied to a `GStrv`.
unfoldable pub text_values : Bytes → Entry → Option (List Bytes)
unfolding c_string
text_values attr e = elim (e.values attr) [ none ↦ none | some vs ↦ some (map c_string vs) ]

pub number_value-eq :
    (attr : Bytes) (e : Entry) (v : Bytes) (more : List Bytes)
    → e.values attr ≡ some (v ∷ more)
    → number_value attr e ≡ some (strtoll v)
unfolding number_value
number_value-eq attr e v more h = rw (h, number_value, first_value)

-- `ADD_MOD`: an empty text removes the attribute.
abbrev pub edit_mod : String → Option Bytes → List Mod
edit_mod attr none = []
edit_mod attr (some []) = remove attr ∷ []
edit_mod attr (some (c ∷ s)) = put replace attr (c ∷ s) ∷ []

-- With nothing to change no call is made, and that is a success.
unfoldable pub modify_if_any : Handle → Option Bytes → List Mod → Action ℤ
modify_if_any h dn [] = pure (pos 0)
modify_if_any h dn (m ∷ ms) = issue (Call.modify h dn (m ∷ ms)) >>= λ r. pure r.rc

-- A negative id removes the attribute.
abbrev pub id_mod : String → ℤ → Mod
id_mod attr z = if leb_ℤ (pos 0) z then put replace attr (print_ℤ z) else remove attr

-- A value that is added only if it is not empty.
abbrev pub add_if_filled : String → Option Bytes → List Mod
add_if_filled attr s = if is_filled s then put add attr (or_empty s) ∷ [] else []

-- The DN of an entry with the name `cn` in a container.
abbrev pub child_dn : Option Bytes → Option Bytes → Bytes
child_dn cn container = codes "CN=" ++ (or_empty cn ++ (codes "," ++ or_empty container))

-- The opening of the two threads that set POSIX attributes: where there is no handle they return with no release.
abbrev pub handle_or_leave : Option Handle → Action Handle
handle_or_leave none = raise not_connected
handle_or_leave (some h) = pure h
