-- ===== src/Collisions/NextFree.antt =====
-- The next free id, from the search of the directory to the answer.
use sambervise.Base.{
  ℕ, zero, suc, ◌≤◌, ◌<◌, ◌≡◌, ◌≢◌, refl, ◌∙◌, sym, inl, inr, String, true, Option, none, some,
  List, [], ◌∷◌, arith, Bool-cases,
}
use sambervise.Base.Int.{ℤ, negsuc, leb_ℤ, eq_ℤ, suc_ℤ}
use sambervise.Base.Bytes.{Bytes, codes}
use sambervise.Base.Lists.{length}
use sambervise.Ldap.{Call, Handle, Library, succeeded}
use sambervise.Connection.{World, ok}
use sambervise.Connection.Valid.{Keeps, IsReady}
use sambervise.Collisions.{
  uid_check, gid_check, cmp_int64, taken_values, skip_below, scan, first_gap, range_search,
  next_free_thread, next_free_uid, next_free_gid,
}
use sambervise.Collisions.Scan.{
  contains, IsAscending, IsFirstGap, first_gap-IsFirstGap, length-skip_below,
}

-- What is relied on of `g_array_sort`: the result is in the order of the comparison, and has the
-- values that were given.
pub record Sorts (lib : Library) : Type 0 where
  pub ascending : (xs : List ℤ) → IsAscending (lib.sort cmp_int64 xs)
  pub contains-sort : (v : ℤ) (xs : List ℤ) → contains v (lib.sort cmp_int64 xs) ≡ contains v xs

-- A gap of one list is a gap of a list with the same values.
IsFirstGap-same :
    (lo hi r : ℤ) (xs ys : List ℤ)
    → ((v : ℤ) → contains v xs ≡ contains v ys)
    → IsFirstGap lo hi xs r
    → IsFirstGap lo hi ys r
IsFirstGap-same lo hi r xs ys same (inl (lower, upper, free, least)) =
    inl (lower, upper, sym (same r) ∙ free, λ u lu ur. sym (same u) ∙ least u lu ur)
IsFirstGap-same lo hi r xs ys same (inr (e, full)) = inr (e, λ u lu uh. sym (same u) ∙ full u lu uh)

-- The scan ends on any array, sorted or not.
scan_total :
    (fuel : ℕ) (hi c : ℤ) (xs : List ℤ) → length xs < fuel → (r : ℤ) × (scan fuel hi c xs ≡ some r)
unfolding scan
scan_total zero hi c xs short = elim short [ ]
scan_total (suc fuel) hi c xs short = elim (Bool-cases (leb_ℤ c hi)) [
  | inr past ↦ (negsuc 0, ground arith)
  | inl le ↦ on_rest le (skip_below c xs) refl (scan_total fuel hi (suc_ℤ c))
]
  where
    on_rest :
        leb_ℤ c hi ≡ true
        → (s : List ℤ) → skip_below c xs ≡ s
        → ((ys : List ℤ) → length ys < fuel → (r : ℤ) × (scan fuel hi (suc_ℤ c) ys ≡ some r))
        → (r : ℤ) × (scan (suc fuel) hi c xs ≡ some r)
    on_rest le [] e ih = (c, ground arith)
    on_rest le (x ∷ rest) e ih =
        let fewer : length (x ∷ rest) ≤ length xs = rw e at (length-skip_below c xs) in
        let (r, found) = ih rest (omega arith) in
        elim (Bool-cases (eq_ℤ x c)) [
          | inl same ↦ (r, ground arith)
          | inr differ ↦ (c, ground arith)
        ]

first_gap_total : (lo hi : ℤ) (xs : List ℤ) → (r : ℤ) × (first_gap lo hi xs ≡ some r)
unfolding first_gap
first_gap_total lo hi xs = scan_total (suc (length xs)) hi lo xs (omega arith)

first_gap-ne-none : (lo hi : ℤ) (xs : List ℤ) → first_gap lo hi xs ≢ none
first_gap-ne-none lo hi xs e = let (r, found) = first_gap_total lo hi xs in cc

next_free_run :
    (lib : Library) (w : World) (h : Handle) (class attr : String) (lo hi r : ℤ)
    → IsReady h w
    → let q = Call.search h (range_search class attr lo hi w.conn.base_dn) in
      succeeded (lib.reply w.calls q) ≡ true
      → first_gap lo hi
          (lib.sort cmp_int64 (taken_values (codes attr) (lib.reply w.calls q).entries))
        ≡ some r
      → next_free_thread class attr lo hi lib w ≡ (ok r, record w { calls = q ∷ w.calls })
unfolding next_free_thread
next_free_run lib w h class attr lo hi r ready done found = ground arith

-- On a connection that is up, with a sort that does what is relied on, if the search succeeds, the task gets the least id of the range that
-- no entry of the result uses, or -1 where all are used. The search is the only call, and the
-- connection is as it was.
pub next_free_thread-IsFirstGap :
    (lib : Library) (w : World) (h : Handle) (class attr : String) (lo hi : ℤ)
    → Sorts lib
    → IsReady h w
    → let q = Call.search h (range_search class attr lo hi w.conn.base_dn) in
      succeeded (lib.reply w.calls q) ≡ true
      → (r : ℤ) × (next_free_thread class attr lo hi lib w
          ≡ (ok r, record w { calls = q ∷ w.calls }))
        × IsFirstGap lo hi (taken_values (codes attr) (lib.reply w.calls q).entries) r
next_free_thread-IsFirstGap lib w h class attr lo hi sorts ready done =
    let q = Call.search h (range_search class attr lo hi w.conn.base_dn) in
    let taken = taken_values (codes attr) (lib.reply w.calls q).entries in
    let (r, found, gap) =
      first_gap-IsFirstGap lo hi (lib.sort cmp_int64 taken) (sorts.ascending taken) in
    (
      r,
      next_free_run lib w h class attr lo hi r ready done found,
      IsFirstGap-same lo hi r _ taken (λ v. sorts.contains-sort v taken) gap,
    )

pub next_free_uid-Keeps : (lo hi : ℤ) → Keeps (next_free_uid lo hi)
unfolding next_free_uid
next_free_uid-Keeps lo hi lib w v = grind (arith, first_gap-ne-none)

pub uid_check-Keeps : (uid : ℤ) (exclude_dn : Option Bytes) → Keeps (uid_check uid exclude_dn)
unfolding uid_check
uid_check-Keeps uid exclude_dn lib w v = ground arith

pub gid_check-Keeps : (gid : ℤ) (exclude_dn : Option Bytes) → Keeps (gid_check gid exclude_dn)
unfolding gid_check
gid_check-Keeps gid exclude_dn lib w v = ground arith

pub next_free_gid-Keeps : (lo hi : ℤ) → Keeps (next_free_gid lo hi)
unfolding next_free_gid
next_free_gid-Keeps lo hi lib w v = grind (arith, first_gap-ne-none)
