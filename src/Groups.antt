-- ===== src/Groups.antt =====
-- src/backend/sbv-groups-backend.c and src/model/sbv-group.{h,c}: groups of the directory.
pub mod Rid
pub mod Change
pub mod Create
pub mod Keeps
use sambervise.Base.{
  ℕ, zero, suc, ◌+◌, ◌-◌, ◌*◌, Bool, ◌&&◌, Option, none, some, List, [], ◌∷◌, map, leb, ltb,
  if◌then◌else◌,
}
use sambervise.Base.Int.{ℤ, pos, negsuc}
use sambervise.Base.Bytes.{Bytes, codes}
use sambervise.Base.Lists.{length, drop, get_elem?}
use sambervise.Base.Flags.{to_int32}
use sambervise.Ldap.{Search, subtree, Entry, Library, first_value}
use sambervise.Connection.{Action, ◌>>=◌, ◌>>◌, pure, ask, get_connection, acquire, release}
use sambervise.Backend.{fetch, text_value, text_values, number_value, number_or, no_limit}
use sambervise.Backend.Attrs.{Table, collect_attrs}

pub record Group : Type 0 where
  pub dn : Option Bytes
  pub sam : Option Bytes
  pub display_name : Option Bytes
  pub description : Option Bytes
  pub group_type : ℤ
  pub members : Option (List Bytes)
  pub gid_number : ℤ
  pub rid : ℤ
  pub member_uid : Option (List Bytes)
  pub ldap_attrs : Table

-- Four bytes, the lowest first. On bytes the `|` of the shifted parts is their sum.
unfoldable pub little_endian : Bytes → ℕ
little_endian (a ∷ b ∷ c ∷ d ∷ _) = a + b * 256 + c * 65536 + d * 16777216
little_endian _ = 0

-- The number of sub-authorities, `raw[1]`.
unfoldable pub sub_count : Bytes → ℕ
sub_count (_ ∷ n ∷ _) = n
sub_count _ = 0

-- The last sub-authority of an objectSid, or `none` where the bytes are too few.
unfoldable pub parse_rid : Bytes → Option ℕ
unfolding little_endian sub_count
parse_rid raw =
    let n = sub_count raw in
    if leb 8 (length raw) && (ltb 0 n && leb (8 + n * 4) (length raw))
    then some (little_endian (drop (8 + (n - 1) * 4) raw))
    else none

abbrev rid_or : Option Bytes → ℤ
rid_or none = negsuc 0
rid_or (some raw) = elim (parse_rid raw) [ none ↦ negsuc 0 | some rid ↦ pos rid ]

abbrev int32_or : ℤ → Option ℤ → ℤ
int32_or z none = z
int32_or _ (some z) = to_int32 z

-- The body of the loop of `list_thread`, on a group that `sbv_group_init` has set up.
unfoldable pub read_group : Library → Entry → Group
read_group lib e = record {
  dn = text_value (codes "distinguishedName") e;
  sam = text_value (codes "sAMAccountName") e;
  display_name = text_value (codes "cn") e;
  description = text_value (codes "description") e;
  group_type = int32_or (pos 0) (number_value (codes "groupType") e);
  members = text_values (codes "member") e;
  gid_number = int32_or (negsuc 0) (number_value (codes "gidNumber") e);
  rid = rid_or (first_value (codes "objectSid") e);
  member_uid = text_values (codes "memberUid") e;
  ldap_attrs = collect_attrs lib e;
}

abbrev pub group_search : Option Bytes → Search
group_search base_dn = record {
  base_dn = base_dn;
  scope = subtree;
  filter = codes "(objectClass=group)";
  attrs = map codes (
      "distinguishedName" ∷ "sAMAccountName" ∷ "cn" ∷ "description" ∷ "groupType" ∷ "member"
      ∷ "gidNumber" ∷ "memberUid" ∷ "objectSid" ∷ []);
  seconds = 30;
  limit = no_limit;
}

-- `list_thread`.
unfoldable pub list_groups : Action (List Group)
unfolding fetch
list_groups = do
  h ← acquire
  c ← get_connection
  es ← fetch h (group_search c.base_dn) "Search failed: "
  groups ← ask (λ lib. map (read_group lib) es)
  release
  pure groups
