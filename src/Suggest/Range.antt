-- ===== src/Suggest/Range.antt =====
-- What is suggested lies in the configured range and is free.
use sambervise.Base.{
  ◌≡◌, ap, ◌⊎◌, inl, inr, Bool, true, false, String, List, none, arith, if◌then◌else◌,
}
use sambervise.Base.Int.{ℤ, negsuc, ◌≤ℤ◌, ◌<ℤ◌}
use sambervise.Base.Bytes.{codes}
use sambervise.Ldap.{Call, Handle, Library, succeeded}
use sambervise.Connection.{World, Outcome, ok}
use sambervise.Connection.Valid.{IsReady}
use sambervise.Collisions.{taken_values, range_search, next_free_uid, next_free_gid}
use sambervise.Collisions.Scan.{contains, IsFirstGap}
use sambervise.Collisions.NextFree.{Sorts, next_free_thread-IsFirstGap}
use sambervise.Idmap.{Hints}
use sambervise.Suggest.{lowest, highest, next_hint, scan_start, suggest_with_hints, suggested_text}

abbrev pub class_of : Bool → String
class_of is_uid = if is_uid then "user" else "group"

abbrev pub attr_of : Bool → String
attr_of is_uid = if is_uid then "uidNumber" else "gidNumber"

-- The search that a suggestion makes.
abbrev pub scan_call : Handle → World → Bool → Hints → Call
scan_call h w is_uid hints = Call.search h (
    range_search (class_of is_uid) (attr_of is_uid) (scan_start is_uid hints) (highest is_uid hints)
      w.conn.base_dn)

-- The ids that the search finds in use.
abbrev pub taken_ids : Library → Handle → World → Bool → Hints → List ℤ
taken_ids lib h w is_uid hints =
    taken_values (codes (attr_of is_uid)) (lib.reply w.calls (scan_call h w is_uid hints)).entries

scan_start_bounds : (is_uid : Bool) (hints : Hints) → lowest is_uid hints ≤ℤ scan_start is_uid hints
unfolding scan_start
scan_start_bounds is_uid hints = ground arith

suggest-IsFirstGap :
    (lib : Library) (w : World) (h : Handle) (is_uid : Bool) (hints : Hints)
    → Sorts lib
    → IsReady h w
    → succeeded (lib.reply w.calls (scan_call h w is_uid hints)) ≡ true
    → (r : ℤ) × ((suggest_with_hints is_uid hints lib w).0 ≡ ok r)
      × IsFirstGap
          (scan_start is_uid hints)
          (highest is_uid hints)
          (taken_ids lib h w is_uid hints)
          r
unfolding suggest_with_hints next_free_uid next_free_gid
suggest-IsFirstGap lib w h true hints sorts ready done =
    let (r, run, gap) =
      next_free_thread-IsFirstGap lib w h "user" "uidNumber" _ _ sorts ready done in
    (r, ap (λ (x : Outcome ℤ × World). x.0) run, gap)
suggest-IsFirstGap lib w h false hints sorts ready done =
    let (r, run, gap) =
      next_free_thread-IsFirstGap lib w h "group" "gidNumber" _ _ sorts ready done in
    (r, ap (λ (x : Outcome ℤ × World). x.0) run, gap)

-- On a connection that is up, with a sort that does what is relied on, if the scan succeeds, a suggestion is an id of the configured range
-- that no entry of the scan uses; otherwise the answer is -1.
pub suggest_in_range :
    (lib : Library) (w : World) (h : Handle) (is_uid : Bool) (hints : Hints)
    → Sorts lib
    → IsReady h w
    → succeeded (lib.reply w.calls (scan_call h w is_uid hints)) ≡ true
    → (r : ℤ) × ((suggest_with_hints is_uid hints lib w).0 ≡ ok r)
      × (((lowest is_uid hints ≤ℤ r)
            × (r ≤ℤ highest is_uid hints)
            × (contains r (taken_ids lib h w is_uid hints) ≡ false))
          ⊎ (r ≡ negsuc 0))
suggest_in_range lib w h is_uid hints sorts ready done =
    let (r, run, gap) = suggest-IsFirstGap lib w h is_uid hints sorts ready done in
    (r, run, in_range r gap)
  where
    in_range :
        (r : ℤ)
        → IsFirstGap
            (scan_start is_uid hints)
            (highest is_uid hints)
            (taken_ids lib h w is_uid hints)
            r
        → ((lowest is_uid hints ≤ℤ r)
            × (r ≤ℤ highest is_uid hints)
            × (contains r (taken_ids lib h w is_uid hints) ≡ false))
          ⊎ (r ≡ negsuc 0)
    in_range r (inl (lo, le, free, _)) =
        inl ((let start = scan_start_bounds is_uid hints in omega arith), le, free)
    in_range r (inr (e, _)) = inr e

scan_start-hint :
    (is_uid : Bool) (hints : Hints)
    → lowest is_uid hints <ℤ next_hint is_uid hints
    → next_hint is_uid hints ≤ℤ highest is_uid hints
    → scan_start is_uid hints ≡ next_hint is_uid hints
unfolding scan_start
scan_start-hint is_uid hints above below = ground arith

-- On a connection that is up, with a sort that does what is relied on and a scan that succeeds: if the published hint lies in the range above its lower bound, and every id of the range from the
-- hint on is in use, nothing is suggested, whichever ids below the hint are in use.
suggest_misses_below_hint :
    (lib : Library) (w : World) (h : Handle) (is_uid : Bool) (hints : Hints)
    → Sorts lib
    → IsReady h w
    → succeeded (lib.reply w.calls (scan_call h w is_uid hints)) ≡ true
    → lowest is_uid hints <ℤ next_hint is_uid hints
    → next_hint is_uid hints ≤ℤ highest is_uid hints
    → ((u : ℤ)
        → next_hint is_uid hints ≤ℤ u
        → u ≤ℤ highest is_uid hints
        → contains u (taken_ids lib h w is_uid hints) ≡ true)
    → suggested_text (suggest_with_hints is_uid hints lib w).0 ≡ none
unfolding suggested_text
suggest_misses_below_hint lib w h is_uid hints sorts ready done above below full =
    let (r, run, gap) = suggest-IsFirstGap lib w h is_uid hints sorts ready done in
    rw run (ground (arith, exhausted r gap))
  where
    exhausted :
        (r : ℤ)
        → IsFirstGap
            (scan_start is_uid hints)
            (highest is_uid hints)
            (taken_ids lib h w is_uid hints)
            r
        → r ≡ negsuc 0
    exhausted r (inl (lo, le, free, _)) =
        let start = scan_start-hint is_uid hints above below in cc (full r (rw start at lo) le)
    exhausted r (inr (e, _)) = e
