-- ===== src/Users/Edit.antt =====
-- src/backend/sbv-users-backend.c: the names and the POSIX attributes of a user.
use sambervise.Base.{String, Option, none, some, List, [], ◌∷◌, ◌++◌, if◌then◌else◌}
use sambervise.Base.Int.{ℤ}
use sambervise.Base.Bytes.{Bytes, codes, is_filled, or_empty, after_char}
use sambervise.Ldap.{Call, Handle, Mod, replace, succeeded, failed, ldap}
use sambervise.Connection.{
  Action, ◌>>=◌, ◌>>◌, pure, raise, crash, issue, acquire, acquire_ldap, release,
}
use sambervise.Backend.{settle, put, remove, id_mod, handle_or_leave, edit_mod, modify_if_any}
use sambervise.Users.{User}

-- The arguments of `sbv_users_update_attrs_async`; NULL leaves an attribute alone.
pub record Names : Type 0 where
  pub cn : Option Bytes
  pub display_name : Option Bytes
  pub given_name : Option Bytes
  pub sn : Option Bytes
  pub email : Option Bytes

-- What stands behind the first comma of a DN, or "". `strchr` of NULL is undefined.
abbrev pub parent_of : Option Bytes → Action Bytes
parent_of none = crash
parent_of (some dn) = pure (or_empty (after_char b',' dn))

-- Lines 425 to 440: the entry is renamed, and its new DN put together.
unfoldable pub rename_user : Handle → Option Bytes → Bytes → Action (Option Bytes)
rename_user h dn cn = do
  parent ← parent_of dn
  r ← issue (Call.rename h dn (codes "CN=" ++ cn))
  if succeeded r
      then pure (some (codes "CN=" ++ (cn ++ (codes "," ++ parent))))
      else release >> raise (failed ldap "Rename failed: " r.rc)

unfoldable pub names_mods : Names → List Mod
names_mods n =
    edit_mod "displayName" n.display_name
    ++ (edit_mod "givenName" n.given_name ++ (edit_mod "sn" n.sn ++ edit_mod "mail" n.email))

-- `update_attrs_thread`.
unfoldable pub update_attrs : User → Names → Action (Unit {0})
unfolding settle modify_if_any
update_attrs u n = do
  h ← acquire
  dn ← (if is_filled n.cn then rename_user h u.dn (or_empty n.cn) else pure u.dn)
  rc ← modify_if_any h dn (names_mods n)
  release
  settle "Attribute update failed: " rc

-- The arguments of `sbv_users_set_unix_attrs_async`.
pub record UnixAttrs : Type 0 where
  pub uid_number : ℤ
  pub gid_number : ℤ
  pub login_shell : Option Bytes
  pub unix_home_dir : Option Bytes
  pub gecos : Option Bytes

-- `STR_MOD`: NULL removes the attribute too.
abbrev pub text_mod : String → Option Bytes → Mod
text_mod attr s = if is_filled s then put replace attr (or_empty s) else remove attr

unfoldable pub unix_mods : UnixAttrs → List Mod
unix_mods a =
    id_mod "uidNumber" a.uid_number
    ∷ id_mod "gidNumber" a.gid_number
    ∷ text_mod "loginShell" a.login_shell
    ∷ text_mod "unixHomeDirectory" a.unix_home_dir
    ∷ text_mod "gecos" a.gecos
    ∷ []

-- `set_unix_attrs_thread`.
unfoldable pub set_unix_attrs : User → UnixAttrs → Action (Unit {0})
unfolding settle
set_unix_attrs u a = do
  h ← (acquire_ldap >>= handle_or_leave)
  r ← issue (Call.modify h u.dn (unix_mods a))
  release
  settle "Failed to set Unix attributes: " r.rc
