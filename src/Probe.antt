-- ===== src/Probe.antt =====
-- src/backend/sbv-probe.c: the probe of a domain controller, over a handle of its own.
pub mod Handles
use sambervise.Base.{String, Bool, Option, none, some, List, [], ◌∷◌, ◌++◌, map, if◌then◌else◌}
use sambervise.Base.Int.{ℤ, pos, ltb_ℤ}
use sambervise.Base.Bytes.{Bytes, codes, is_filled, or_empty}
use sambervise.Ldap.{
  Call, Handle, Search, Entry, Library, Reply, succeeded, Error, failed, auth, ldap, tls,
}
use sambervise.Profile.{Profile, kerberos, simple}
use sambervise.Connection.{
  Action, ◌>>=◌, ◌>>◌, pure, raise, ask, when, issue, issue_, open_handle, secure, uri_of,
}
use sambervise.Backend.{read_entry}
use sambervise.Backend.Attrs.{Table, collect_attrs}
use sambervise.Idmap.{Hints, from_profile, merge_reply, yp_search}

-- `SbvProbeResult`. The text of a failed bind is kept as its error.
pub record ProbeResult : Type 0 where
  pub rootdse : Table
  pub idmap : Option Hints
  pub bind_error : Option Error

-- The arguments of `sbv_probe_dc_async`.
pub record ProbeTarget : Type 0 where
  pub host : Option Bytes
  pub port : ℤ
  pub use_ldaps : Bool
  pub use_starttls : Bool
  pub skip_cert : Bool
  pub bind_profile : Option Profile
  pub bind_password : Option Bytes

-- `do_bind`: `none` on success. The handle stays open either way.
unfoldable pub do_bind : Handle → Profile → Option Bytes → Action (Option Error)
do_bind h p password = elim p.auth_type [
  | kerberos ↦ issue (Call.gssapi_bind h) >>= λ r.
      pure (if succeeded r then none else some (failed auth "GSSAPI bind failed: " r.rc))
  | simple ↦ issue (Call.simple_bind h p.bind_dn password) >>= λ r.
      pure (if succeeded r then none else some (failed auth "Authentication failed: " r.rc))
]

-- `fetch_idmap`. Without a base DN nothing is asked.
unfoldable pub fetch_idmap : Handle → Profile → Action Hints
fetch_idmap h p =
    if is_filled p.base_dn
    then (issue (Call.search h (record (yp_search (or_empty p.base_dn)) { seconds = 6 })) >>= λ r.
        pure (merge_reply (from_profile p) r))
    else pure (from_profile p)

abbrev pub rootdse_search : Search
rootdse_search =
    read_entry (some [])
      (map codes (
        "defaultNamingContext" ∷ "dnsHostName" ∷ "supportedSASLMechanisms" ∷ "supportedLDAPVersion"
        ∷ "domainFunctionality" ∷ "forestFunctionality" ∷ "domainControllerFunctionality"
        ∷ "namingContexts" ∷ "currentTime" ∷ []))
      6

abbrev pub first_table : Library → List Entry → Table
first_table lib [] = []
first_table lib (e ∷ _) = collect_attrs lib e

-- The read of the RootDSE: on failure the handle is unbound.
unfoldable pub read_rootdse : Handle → Action Table
read_rootdse h = do
  r ← issue (Call.search h rootdse_search)
  if succeeded r
      then ask (λ lib. first_table lib r.entries)
      else issue (Call.unbind h) >> raise (failed ldap "RootDSE read failed: " r.rc)

abbrev pub with_idmap : Handle → Profile → Table → Option Error → Action ProbeResult
with_idmap h p raw none = fetch_idmap h p >>= λ hints.
    pure (record { rootdse = raw; idmap = some hints; bind_error = none })
with_idmap h p raw (some e) = pure (record { rootdse = raw; idmap = none; bind_error = some e })

-- Lines 268 to 280: the bind and the hints, where a profile is given.
unfoldable pub bind_and_fetch : Handle → ProbeTarget → Table → Action ProbeResult
unfolding do_bind fetch_idmap
bind_and_fetch h t raw = elim t.bind_profile [
  | none ↦ pure (record { rootdse = raw; idmap = none; bind_error = none })
  | some p ↦ do_bind h p t.bind_password >>= with_idmap h p raw
]

unfoldable pub close_probe : Handle → ProbeResult → Action ProbeResult
close_probe h out = issue (Call.unbind h) >> pure out

-- `probe_thread`.
unfoldable pub probe_thread : ProbeTarget → Action ProbeResult
probe_thread t = do
  h ← open_handle (uri_of t.use_ldaps t.host t.port)
  secure h t.skip_cert t.use_starttls
  raw ← read_rootdse h
  out ← bind_and_fetch h t raw
  close_probe h out

-- `sbv_probe_dc_async`: the port that is probed.
abbrev pub probe_port : Bool → ℤ → ℤ
probe_port use_ldaps port =
    if ltb_ℤ (pos 0) port then port else if use_ldaps then pos 636 else pos 389

unfoldable pub probe_dc : ProbeTarget → Action ProbeResult
probe_dc t = probe_thread (record t { port = probe_port t.use_ldaps t.port })
