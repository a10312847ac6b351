-- ===== src/Connection.antt =====
-- src/backend/sbv-connection.c: the connection that every backend shares, with its mutex and its
-- LDAP handle, and the programs that run on it.
mod Monad
pub mod Rules
pub mod Valid
pub mod Opening
pub mod Connect
pub use Monad.*
use sambervise.Base.{
  ℕ, String, Bool, true, false, Option, none, some, List, [], ◌∷◌, ◌++◌, if◌then◌else◌,
}
use sambervise.Base.Int.{ℤ}
use sambervise.Base.Bytes.{Bytes, codes, c_string, or_empty}
use sambervise.Base.Decimal.{print_ℤ}
use sambervise.Ldap.{
  Call, Handle, Reply, Library, succeeded, ErrorCode, Error, failed, refused, connection, auth,
  ldap, tls,
}
use sambervise.Profile.{Profile, AuthType, kerberos, simple}

-- `sbv_connection_disconnect`.
unfoldable pub disconnect : Action (Unit {0})
disconnect = do
  lock
  c ← get_connection
  unbind_if c.ld
  set_connection (record c { ld = none; connected = false })
  unlock

-- `%s` of a text that may be NULL.
abbrev pub print_text : Option Bytes → Bytes
print_text none = codes "(null)"
print_text (some s) = s

abbrev pub uri_of : Bool → Option Bytes → ℤ → Bytes
uri_of use_ldaps host port =
    codes (if use_ldaps then "ldaps://" else "ldap://")
    ++ (print_text host ++ (codes ":" ++ print_ℤ port))

-- What follows the library call that opens, secures or binds a handle: on failure the handle is
-- unbound and the task gets the error.
unfoldable pub check_or_unbind : Handle → ErrorCode → String → Reply → Action (Unit {0})
check_or_unbind h code message r =
    if succeeded r then pure tt else (issue (Call.unbind h) >> raise (failed code message r.rc))

-- The bind of `connect_thread`, by the profile's kind of authentication.
unfoldable pub bind_handle : Handle → Profile → Option Bytes → Action (Unit {0})
unfolding check_or_unbind
bind_handle h p password = elim p.auth_type [
  | kerberos ↦ issue (Call.gssapi_bind h) >>= check_or_unbind h auth "GSSAPI bind failed: "
  | simple ↦
      issue (Call.simple_bind h p.bind_dn password)
      >>= check_or_unbind h auth "Authentication failed: "
]

-- The certificate option and STARTTLS, lines 175 to 189 of `connect_thread`. `probe_thread` has the
-- same lines.
unfoldable pub secure : Handle → Bool → Bool → Action (Unit {0})
unfolding check_or_unbind
secure h skip_cert use_tls = do
  when skip_cert (issue_ (Call.skip_cert h))
  when use_tls (issue (Call.start_tls h) >>= check_or_unbind h tls "STARTTLS failed: ")

-- `connect_thread`, lines 221 to 233: the bound handle replaces the one that is stored.
unfoldable pub install : Handle → Profile → Action (Unit {0})
install h p = do
  lock
  c ← get_connection
  unbind_if c.ld
  set_connection (record c {
    ld = some h;
    connected = true;
    host = p.host;
    port = p.port;
    base_dn = p.base_dn;
    profile = some p;
  })
  unlock

-- `connect_thread`.
unfoldable pub connect : Profile → Option Bytes → Action (Unit {0})
connect p password = do
  h ← open_handle (uri_of p.use_ldaps p.host p.port)
  secure h p.skip_cert p.use_tls
  bind_handle h p password
  install h p

-- `whoami_thread`.
unfoldable pub whoami : Action Bytes
whoami = do
  h ← acquire
  r ← issue (Call.whoami h)
  release
  if succeeded r
      then pure (c_string (or_empty r.authzid))
      else raise (failed ldap "Who am I? failed: " r.rc)
