-- ===== src/Collisions.antt =====
-- src/backend/sbv-collisions.c: who else uses a uidNumber or gidNumber, and which is free.
pub mod Scan
pub mod Hits
pub mod NextFree
use sambervise.Base.{
  ℕ, zero, suc, ◌+◌, String, Bool, true, false, Option, none, some, List, [], ◌∷◌, ◌++◌,
  if◌then◌else◌,
}
use sambervise.Base.Int.{ℤ, pos, negsuc, ltb_ℤ, leb_ℤ, eq_ℤ, suc_ℤ}
use sambervise.Base.Bytes.{Bytes, codes, bytes_eq, c_string}
use sambervise.Base.Lists.{length}
use sambervise.Base.Decimal.{print_ℤ}
use sambervise.Ldap.{Search, subtree, Entry, Library, first_value}
use sambervise.Connection.{Action, ◌>>=◌, ◌>>◌, pure, crash, ask, get_connection, acquire, release}
use sambervise.Backend.{fetch, text_value, number_value, no_limit}

-- `SbvCollisionHit`.
pub record Hit : Type 0 where
  pub dn : Bytes
  pub sam : Option Bytes

abbrev pub is_excluded : Option Bytes → Bytes → Bool
is_excluded none dn = false
is_excluded (some x) dn = bytes_eq dn x

-- One round of the loop of `check_thread`, before the hits of the entries that follow.
unfoldable pub add_hit : Option Bytes → Entry → List Hit → List Hit
add_hit exclude_dn e hits = elim (text_value (codes "distinguishedName") e) [
  | none ↦ hits
  | some dn ↦
      if is_excluded exclude_dn dn
      then hits
      else record { dn = dn; sam = text_value (codes "sAMAccountName") e } ∷ hits
]

unfoldable pub collect_hits : Option Bytes → List Entry → List Hit
collect_hits exclude_dn [] = []
collect_hits exclude_dn (e ∷ es) = add_hit exclude_dn e (collect_hits exclude_dn es)

abbrev pub check_search : Bytes → Option Bytes → Search
check_search filter base_dn = record {
  base_dn = base_dn;
  scope = subtree;
  filter = filter;
  attrs = codes "distinguishedName" ∷ codes "sAMAccountName" ∷ [];
  seconds = 10;
  limit = no_limit;
}

-- `check_thread`.
unfoldable pub check_thread : Bytes → Option Bytes → Action (List Hit)
unfolding fetch
check_thread filter exclude_dn = do
  h ← acquire
  c ← get_connection
  es ← fetch h (check_search filter c.base_dn) "Collision check failed: "
  release
  pure (collect_hits exclude_dn es)

-- "(&(objectClass=<class>)(<attr>=<id>))", as `sbv_collisions_uid_check_async` and
-- `sbv_collisions_gid_check_async` print it.
abbrev pub id_filter : String → String → ℤ → Bytes
id_filter class attr id =
    codes "(&(objectClass="
    ++ (codes class ++ (codes ")(" ++ (codes attr ++ (codes "=" ++ (print_ℤ id ++ codes "))")))))

unfoldable pub uid_check : ℤ → Option Bytes → Action (List Hit)
unfolding check_thread
uid_check uid exclude_dn = check_thread (id_filter "user" "uidNumber" uid) exclude_dn

unfoldable pub gid_check : ℤ → Option Bytes → Action (List Hit)
unfolding check_thread
gid_check gid exclude_dn = check_thread (id_filter "group" "gidNumber" gid) exclude_dn

-- `cmp_int64`.
unfoldable pub cmp_int64 : ℤ → ℤ → ℤ
cmp_int64 x y = if ltb_ℤ x y then negsuc 0 else if ltb_ℤ y x then pos 1 else pos 0

-- The numbers that the entries of the result use.
unfoldable pub taken_values : Bytes → List Entry → List ℤ
taken_values attr [] = []
taken_values attr (e ∷ es) =
    let rest = taken_values attr es in
    elim (number_value attr e) [ none ↦ rest | some v ↦ v ∷ rest ]

-- The inner loop: what is left of the array from the first value that is not below `candidate`.
unfoldable pub skip_below : ℤ → List ℤ → List ℤ
skip_below candidate [] = []
skip_below candidate (x ∷ xs) =
    let rest = skip_below candidate xs in if ltb_ℤ x candidate then rest else x ∷ xs

-- The outer loop, on what is left of the sorted array. Each round but the last uses up one of its
-- values, so its length and one more is enough fuel; `none` means that the fuel ran out.
unfoldable pub scan : ℕ → ℤ → ℤ → List ℤ → Option ℤ
unfolding skip_below
scan zero range_max candidate taken = none
scan (suc fuel) range_max candidate taken =
    if leb_ℤ candidate range_max
    then elim (skip_below candidate taken) [
      | [] ↦ some candidate
      | x ∷ xs ↦
          let rest = scan fuel range_max (suc_ℤ candidate) xs in
          if eq_ℤ x candidate then rest else some candidate
    ]
    else some (negsuc 0)

unfoldable pub first_gap : ℤ → ℤ → List ℤ → Option ℤ
unfolding scan
first_gap range_min range_max taken = scan (suc (length taken)) range_max range_min taken

-- "(&(objectClass=%s)(%s>=%ld)(%s<=%ld))".
abbrev pub range_filter : String → String → ℤ → ℤ → Bytes
range_filter class attr range_min range_max =
    codes "(&(objectClass="
    ++ (codes class
        ++ (codes ")("
            ++ (codes attr
                ++ (codes ">="
                    ++ (print_ℤ range_min
                        ++ (codes ")("
                            ++ (codes attr
                                ++ (codes "<=" ++ (print_ℤ range_max ++ codes "))")))))))))

abbrev pub range_search : String → String → ℤ → ℤ → Option Bytes → Search
range_search class attr range_min range_max base_dn = record {
  base_dn = base_dn;
  scope = subtree;
  filter = range_filter class attr range_min range_max;
  attrs = codes attr ∷ [];
  seconds = 30;
  limit = no_limit;
}

abbrev pub or_crash : Option ℤ → Action ℤ
or_crash none = crash
or_crash (some v) = pure v

-- `next_free_thread`. That the scan never runs out of fuel is proved in `Scan`.
unfoldable pub next_free_thread : String → String → ℤ → ℤ → Action ℤ
unfolding fetch
next_free_thread class attr range_min range_max = do
  h ← acquire
  c ← get_connection
  es ← fetch h (range_search class attr range_min range_max c.base_dn) "Range scan failed: "
  release
  taken ← ask (λ lib. lib.sort cmp_int64 (taken_values (codes attr) es))
  or_crash (first_gap range_min range_max taken)

-- `sbv_collisions_next_free_uid_async` and `sbv_collisions_next_free_gid_async`.
unfoldable pub next_free_uid : ℤ → ℤ → Action ℤ
unfolding next_free_thread
next_free_uid range_min range_max = next_free_thread "user" "uidNumber" range_min range_max

unfoldable pub next_free_gid : ℤ → ℤ → Action ℤ
unfolding next_free_thread
next_free_gid range_min range_max = next_free_thread "group" "gidNumber" range_min range_max
