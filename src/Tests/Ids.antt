-- ===== src/Tests/Ids.antt =====
-- The theorems on collisions, ranges and suggestions, on two users with the ids 10001 and 10000.
use sambervise.Base.{if◌then◌else◌, some, arith, ◌≡◌, ◌⊎◌, refl, none, [], ◌∷◌, true, false}
use sambervise.Base.Int.{ℤ, pos, negsuc, ◌≤ℤ◌}
use sambervise.Base.Bytes.{codes, bytes_eq}
use sambervise.Ldap.{Call, Entry}
use sambervise.Connection.{ok, print_text}
use sambervise.Collisions.{taken_values, range_search, next_free_thread}
use sambervise.Collisions.Scan.{contains, IsFirstGap}
use sambervise.Collisions.NextFree.{Sorts, next_free_thread-IsFirstGap}
use sambervise.Idmap.{Hints, yp_search, query}
use sambervise.Idmap.Ranges.{AreHints, query_published}
use sambervise.Base.Decimal.{print_ℤ}
use sambervise.Profile.{new_profile}
use sambervise.Suggest.{suggest_with_hints}
use sambervise.Suggest.Range.{taken_ids, suggest_in_range}
use sambervise.Tests.{uids, uid_entries, online, online-IsReady, hints, answers}
use sambervise.Tests.Sorting.{insertion_sort-Sorts}

uids-Sorts : Sorts uids
uids-Sorts = insertion_sort-Sorts uids refl

next_free_thread-IsFirstGap_example :
    let q = Call.search 0 (range_search "user" "uidNumber" (pos 10000) (pos 29999) none) in
    (r : ℤ) × (next_free_thread "user" "uidNumber" (pos 10000) (pos 29999) uids online
      ≡ (ok r, record online { calls = q ∷ [] }))
    × IsFirstGap (pos 10000) (pos 29999) (taken_values (codes "uidNumber") uid_entries) r
next_free_thread-IsFirstGap_example =
    next_free_thread-IsFirstGap uids online 0 "user" "uidNumber" (pos 10000) (pos 29999) uids-Sorts
      online-IsReady refl

suggest_in_range_example :
    (r : ℤ) × ((suggest_with_hints true hints uids online).0 ≡ ok r)
    × (((pos 9999 ≤ℤ r)
          × (r ≤ℤ pos 10001)
          × (contains r (taken_ids uids 0 online true hints) ≡ false))
        ⊎ (r ≡ negsuc 0))
suggest_in_range_example = suggest_in_range uids online 0 true hints uids-Sorts online-IsReady refl

abbrev published : Entry
published = record {
  dn = none;
  names = [];
  values = λ b.
      if bytes_eq b (codes "msSFU30MaxUidNumber")
      then some (print_ℤ (pos 10005) ∷ [])
      else if bytes_eq b (codes "msSFU30MaxGidNumber")
      then some (print_ℤ (pos 20007) ∷ [])
      else none;
}

query_published_example :
    let q = Call.search 0 (yp_search (print_text none)) in
    (hints : Hints) × ((query new_profile (answers (pos 0) (published ∷ [])) online).0 ≡ ok hints)
    × ((query new_profile (answers (pos 0) (published ∷ [])) online).1.calls ≡ q ∷ [])
    × AreHints new_profile (pos 10005) (pos 20007) hints
unfolding bytes_eq
query_published_example =
    query_published new_profile (answers (pos 0) (published ∷ [])) online 0 published [] (pos 10005)
      (pos 20007) online-IsReady refl refl
      (record {
        uid_held = omega arith;
        gid_held = omega arith;
        more_uids = [];
        more_gids = [];
        uid_text = refl;
        gid_text = refl;
      })
