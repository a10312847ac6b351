-- ===== src/Users.antt =====
-- src/backend/sbv-users-backend.c and src/model/sbv-user.{h,c}: users of the directory.
pub mod Account
pub mod Edit
pub mod Create
pub mod Keeps
pub mod Enabling
pub mod Policy
pub mod Renaming
pub mod Unix
use sambervise.Base.{ℕ, Bool, true, not, Option, none, some, List, [], ◌∷◌, map, if◌then◌else◌}
use sambervise.Base.Int.{ℤ, pos, negsuc, eq_ℤ, max_int64}
use sambervise.Base.Bytes.{Bytes, codes}
use sambervise.Base.Flags.{has_flag, to_int32}
use sambervise.Ldap.{Search, subtree, Entry, Library}
use sambervise.Connection.{Action, ◌>>=◌, ◌>>◌, pure, ask, get_connection, acquire, release}
use sambervise.Backend.{fetch, text_value, number_value, number_or, no_limit}
use sambervise.Backend.Attrs.{Table, collect_attrs}

pub record User : Type 0 where
  pub dn : Option Bytes
  pub sam : Option Bytes
  pub cn : Option Bytes
  pub display_name : Option Bytes
  pub given_name : Option Bytes
  pub sn : Option Bytes
  pub email : Option Bytes
  pub description : Option Bytes
  pub enabled : Bool
  pub uac : ℤ
  pub pwd_last_set : ℤ
  pub account_expires : ℤ
  pub uid_number : ℤ
  pub gid_number : ℤ
  pub login_shell : Option Bytes
  pub unix_home_dir : Option Bytes
  pub gecos : Option Bytes
  pub ldap_attrs : Table

-- `UAC_ACCOUNTDISABLE`, `UAC_NORMAL_ACCOUNT` and `UAC_DONT_EXPIRE_PASSWD`.
abbrev pub uac_accountdisable : ℕ
uac_accountdisable = 0x0002

abbrev pub uac_normal_account : ℕ
uac_normal_account = 0x0200

abbrev pub uac_dont_expire_passwd : ℕ
uac_dont_expire_passwd = 0x10000

abbrev uac_enabled : Option ℤ → Bool
uac_enabled none = true
uac_enabled (some uac) = not (has_flag uac_accountdisable uac)

-- 0 means "never" as well.
abbrev expiry : Option ℤ → ℤ
expiry none = max_int64
expiry (some z) = if eq_ℤ z (pos 0) then max_int64 else z

abbrev id_number : Option ℤ → ℤ
id_number none = negsuc 0
id_number (some z) = to_int32 z

-- The body of the loop of `list_thread`, on a user that `sbv_user_init` has set up.
unfoldable pub read_user : Library → Entry → User
read_user lib e = record {
  dn = text_value (codes "distinguishedName") e;
  sam = text_value (codes "sAMAccountName") e;
  cn = text_value (codes "cn") e;
  display_name = text_value (codes "displayName") e;
  given_name = text_value (codes "givenName") e;
  sn = text_value (codes "sn") e;
  email = text_value (codes "mail") e;
  description = text_value (codes "description") e;
  enabled = uac_enabled (number_value (codes "userAccountControl") e);
  uac = number_or (pos 0) (number_value (codes "userAccountControl") e);
  pwd_last_set = number_or (pos 0) (number_value (codes "pwdLastSet") e);
  account_expires = expiry (number_value (codes "accountExpires") e);
  uid_number = id_number (number_value (codes "uidNumber") e);
  gid_number = id_number (number_value (codes "gidNumber") e);
  login_shell = text_value (codes "loginShell") e;
  unix_home_dir = text_value (codes "unixHomeDirectory") e;
  gecos = text_value (codes "gecos") e;
  ldap_attrs = collect_attrs lib e;
}

abbrev pub user_attrs : List Bytes
user_attrs = map codes (
    "distinguishedName" ∷ "sAMAccountName" ∷ "cn" ∷ "displayName" ∷ "givenName" ∷ "sn" ∷ "mail"
    ∷ "description" ∷ "userAccountControl" ∷ "pwdLastSet" ∷ "accountExpires" ∷ "uidNumber"
    ∷ "gidNumber" ∷ "loginShell" ∷ "unixHomeDirectory" ∷ "gecos" ∷ [])

abbrev pub user_search : Option Bytes → Search
user_search base_dn = record {
  base_dn = base_dn;
  scope = subtree;
  filter = codes "(&(objectClass=user)(!(objectClass=computer)))";
  attrs = user_attrs;
  seconds = 30;
  limit = no_limit;
}

-- `list_thread`.
unfoldable pub list_users : Action (List User)
unfolding fetch
list_users = do
  h ← acquire
  c ← get_connection
  es ← fetch h (user_search c.base_dn) "Search failed: "
  users ← ask (λ lib. map (read_user lib) es)
  release
  pure users
