-- ===== src/Ldap.antt =====
-- The libraries under the backends, as far as src/backend calls them: libldap, and the functions
-- of GLib and libc whose text is not here. What they answer is a parameter, `Library`: the reply to
-- a call may depend on every call made before, so a directory server with any state is covered.
use sambervise.Base.{ℕ, String, Bool, Option, none, some, List, [], ◌∷◌}
use sambervise.Base.Int.{ℤ, pos, eq_ℤ}
use sambervise.Base.Bytes.{Bytes}

-- An `LDAP *` handle, named by the number of calls made before the `ldap_initialize` that made it.
abbrev pub Handle : Type 0
Handle = ℕ

pub data Scope : Type 0 where
  base onelevel subtree : Scope

-- `LDAP_MOD_ADD`, `LDAP_MOD_DELETE` and `LDAP_MOD_REPLACE`.
pub data ModOp : Type 0 where
  add delete replace : ModOp

-- An `LDAPMod`. `none` stands for `mod_values == NULL`. Whether the values come as strings or as
-- counted bytes (`LDAP_MOD_BVALUES`) is not told apart.
pub record Mod : Type 0 where
  pub op : ModOp
  pub attr : Bytes
  pub values : Option (List Bytes)

pub record Search : Type 0 where
  pub base_dn : Option Bytes
  pub scope : Scope
  pub filter : Bytes
  pub attrs : List Bytes
  pub seconds : ℕ
  pub limit : ℕ

-- The calls that reach the directory, with their arguments.
pub data Call : Type 0 where
  initialize : Bytes → Call
  skip_cert : Handle → Call
  start_tls : Handle → Call
  gssapi_bind : Handle → Call
  simple_bind : Handle → Option Bytes → Option Bytes → Call
  unbind : Handle → Call
  search : Handle → Search → Call
  modify : Handle → Option Bytes → List Mod → Call
  add_entry : Handle → Bytes → List Mod → Call
  delete_entry : Handle → Option Bytes → Call
  rename : Handle → Option Bytes → Bytes → Call
  whoami : Handle → Call

-- One entry of a search result: `ldap_get_dn`, the names that `ldap_first_attribute` walks, and
-- `ldap_get_values_len`, which gives NULL for an attribute that is not there.
pub record Entry : Type 0 where
  pub dn : Option Bytes
  pub names : List Bytes
  pub values : Bytes → Option (List Bytes)

-- What a call returns: the result code, the entries of a search (none if `result` is NULL) and the
-- identity that "Who am I?" gives.
pub record Reply : Type 0 where
  pub rc : ℤ
  pub entries : List Entry
  pub authzid : Option Bytes

pub record Library : Type 0 where
  pub reply : List Call → Call → Reply
  pub utf8_validate : Bytes → Bool
  pub to_utf16le : Bytes → Option Bytes
  -- `g_array_sort`, by a comparison function.
  pub sort : (ℤ → ℤ → ℤ) → List ℤ → List ℤ

-- `rc == LDAP_SUCCESS`.
abbrev pub is_success : ℤ → Bool
is_success rc = eq_ℤ rc (pos 0)

abbrev pub succeeded : Reply → Bool
succeeded r = is_success r.rc

-- The first value of an attribute: `bv && bv[0]`.
unfoldable pub first_value : Bytes → Entry → Option Bytes
first_value attr e = elim (e.values attr) [
  | none ↦ none
  | some vs ↦ elim vs [ [] ↦ none | v ∷ _ ↦ some v ]
]

-- The codes of `SbvError`, from src/sbv-error.h.
pub data ErrorCode : Type 0 where
  connection auth ldap tls : ErrorCode

-- An error is its code with the text before `ldap_err2string (rc)` and that `rc`, or a fixed text,
-- or what `g_convert` reports.
pub data Error : Type 0 where
  failed : ErrorCode → String → ℤ → Error
  refused : ErrorCode → String → Error
  convert : Error
