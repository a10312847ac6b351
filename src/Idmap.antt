-- ===== src/Idmap.antt =====
-- src/backend/sbv-idmap-hints.{h,c}: the range of POSIX ids, from the profile and from the
-- directory.
pub mod Ranges
use sambervise.Base.{Bool, ◌||◌, String, Option, none, some, List, [], ◌∷◌, ◌++◌, if◌then◌else◌}
use sambervise.Base.Int.{ℤ, pos, negsuc, leb_ℤ}
use sambervise.Base.Bytes.{Bytes, codes}
use sambervise.Ldap.{Call, Search, Entry, Reply, succeeded}
use sambervise.Profile.{Profile}
use sambervise.Connection.{
  Action, ◌>>=◌, ◌>>◌, pure, issue, get_connection, acquire, release, print_text,
}
use sambervise.Backend.{number_value, number_or, read_entry}

-- `SbvIdmapHints`.
pub record Hints : Type 0 where
  pub uid_min : ℤ
  pub uid_max : ℤ
  pub gid_min : ℤ
  pub gid_max : ℤ
  pub next_uid_hint : ℤ
  pub next_gid_hint : ℤ
  pub source : String

abbrev pub default_min : ℤ
default_min = pos 10000

abbrev pub default_max : ℤ
default_max = pos 29999

abbrev pub or_default : ℤ → ℤ → ℤ
or_default z default = if leb_ℤ (pos 0) z then z else default

abbrev pub profile_source : String
profile_source = "profile config / defaults"

abbrev pub directory_source : String
directory_source = "msSFU30 + profile config"

-- `sbv_idmap_hints_from_profile`, on hints that `sbv_idmap_hints_new` has set to -1.
unfoldable pub from_profile : Profile → Hints
from_profile p = record {
  uid_min = or_default p.uid_min default_min;
  uid_max = or_default p.uid_max default_max;
  gid_min = or_default p.gid_min default_min;
  gid_max = or_default p.gid_max default_max;
  next_uid_hint = negsuc 0;
  next_gid_hint = negsuc 0;
  source = profile_source;
}

abbrev attributed : Hints → Hints
attributed h =
    if leb_ℤ (pos 0) h.next_uid_hint || leb_ℤ (pos 0) h.next_gid_hint
    then record h { source = directory_source }
    else h

abbrev merged : Hints → List Entry → Hints
merged h [] = h
merged h (e ∷ _) = attributed (record h {
  next_uid_hint = number_or h.next_uid_hint (number_value (codes "msSFU30MaxUidNumber") e);
  next_gid_hint = number_or h.next_gid_hint (number_value (codes "msSFU30MaxGidNumber") e);
})

-- The hints with what the search gave; a search that failed leaves them.
unfoldable pub merge_reply : Hints → Reply → Hints
merge_reply h r = if succeeded r then merged h r.entries else h

-- The search of the well-known entry below a base DN.
abbrev pub yp_search : Bytes → Search
yp_search base_dn =
    read_entry (some (codes "CN=ypservers,CN=ypServ30,CN=RpcServices,CN=System," ++ base_dn))
      (codes "msSFU30MaxUidNumber" ∷ codes "msSFU30MaxGidNumber" ∷ []) 10

-- `sbv_idmap_hints_query_async` and `query_thread`.
unfoldable pub query : Profile → Action Hints
query p = do
  h ← acquire
  c ← get_connection
  r ← issue (Call.search h (yp_search (print_text c.base_dn)))
  release
  pure (merge_reply (from_profile p) r)
