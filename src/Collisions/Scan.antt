-- ===== src/Collisions/Scan.antt =====
-- The scan of a sorted array finds the least number of the range that is not in it.
use sambervise.Base.{
  sym, ℕ, zero, suc, ◌≤◌, ◌<◌, ◌≡◌, refl, ◌∙◌, ◌⊎◌, inl, inr, Bool, true, false, ◌||◌, Option, some,
  List, [], ◌∷◌, arith, if◌then◌else◌, Bool-cases,
}
use sambervise.Base.Int.{ℤ, pos, negsuc, ◌≤ℤ◌, ◌<ℤ◌, ltb_ℤ, leb_ℤ, eq_ℤ, suc_ℤ}
use sambervise.Base.Lists.{length}
use sambervise.Collisions.{cmp_int64, skip_below, scan, first_gap}

abbrev pub contains : ℤ → List ℤ → Bool
contains v [] = false
contains v (x ∷ xs) = eq_ℤ x v || contains v xs

-- No value of the list comes before `x` in the order of `cmp_int64`.
abbrev pub Precedes : ℤ → List ℤ → Type 0
Precedes x [] = Unit
Precedes x (y ∷ ys) = (cmp_int64 x y ≤ℤ pos 0) × Precedes x ys

abbrev pub IsAscending : List ℤ → Type 0
IsAscending [] = Unit
IsAscending (x ∷ xs) = Precedes x xs × IsAscending xs

-- `r` is the least number from `lo` to `hi` that is not in the list, or -1 where all of them are.
abbrev pub IsFirstGap : ℤ → ℤ → List ℤ → ℤ → Type 0
IsFirstGap lo hi xs r =
    ((lo ≤ℤ r)
      × (r ≤ℤ hi)
      × (contains r xs ≡ false)
      × ((u : ℤ) → lo ≤ℤ u → u <ℤ r → contains u xs ≡ true))
    ⊎ ((r ≡ negsuc 0) × ((u : ℤ) → lo ≤ℤ u → u ≤ℤ hi → contains u xs ≡ true))

le_of_cmp : (x y : ℤ) → cmp_int64 x y ≤ℤ pos 0 → x ≤ℤ y
unfolding cmp_int64
le_of_cmp x y h = ground arith

not-contains_below : (u x : ℤ) (xs : List ℤ) → Precedes x xs → u <ℤ x → contains u xs ≡ false
not-contains_below u x [] p lt = refl
not-contains_below u x (y ∷ ys) p lt =
    ground (arith, le_of_cmp x y p.0, not-contains_below u x ys p.1 lt)

skip_below-IsAscending : (c : ℤ) (xs : List ℤ) → IsAscending xs → IsAscending (skip_below c xs)
unfolding skip_below
skip_below-IsAscending c [] a = tt
skip_below-IsAscending c (x ∷ xs) a = elim (Bool-cases (ltb_ℤ x c)) [
  | inl below ↦ rw below (skip_below-IsAscending c xs a.1)
  | inr above ↦ rw above a
]

contains-skip_below :
    (c u : ℤ) (xs : List ℤ) → c ≤ℤ u → contains u (skip_below c xs) ≡ contains u xs
unfolding skip_below
contains-skip_below c u [] le = refl
contains-skip_below c u (x ∷ xs) le = ground (arith, contains-skip_below c u xs le)

pub length-skip_below : (c : ℤ) (xs : List ℤ) → length (skip_below c xs) ≤ length xs
unfolding skip_below
length-skip_below c [] = omega arith
length-skip_below c (x ∷ xs) = ground (arith, length-skip_below c xs)

-- The first value that is left is not below the candidate.
skip_below_head : (c x : ℤ) (xs rest : List ℤ) → skip_below c xs ≡ x ∷ rest → c ≤ℤ x
unfolding skip_below
skip_below_head c x [] rest e = cc
skip_below_head c x (y ∷ ys) rest e = ground (arith, skip_below_head c x ys rest)

le_cases : (c u : ℤ) → c ≤ℤ u → (u ≡ c) ⊎ (suc_ℤ c ≤ℤ u)
le_cases (pos m) (pos n) h = ground arith
le_cases (pos m) (negsuc n) h = absurd (omega arith)
le_cases (negsuc m) (pos n) h = ground arith
le_cases (negsuc m) (negsuc n) h = ground arith

lt_of_suc : (c u : ℤ) → suc_ℤ c ≤ℤ u → c <ℤ u
lt_of_suc (pos m) u h = omega arith
lt_of_suc (negsuc zero) u h = ground arith
lt_of_suc (negsuc (suc m)) u h = ground arith

-- A gap above a number that is taken is a gap from that number on.
gap_below :
    (c hi r : ℤ) (xs rest : List ℤ)
    → contains c xs ≡ true
    → ((u : ℤ) → suc_ℤ c ≤ℤ u → contains u xs ≡ contains u rest)
    → IsFirstGap (suc_ℤ c) hi rest r
    → IsFirstGap c hi xs r
gap_below c hi r xs rest taken same (inl (lo, le, free, least)) = inl (
  (let below = lt_of_suc c r lo in omega arith),
  le,
  same r lo ∙ free,
  λ u cu ur. elim (le_cases c u cu) [
    | inl here ↦ rw here taken
    | inr above ↦ same u above ∙ least u above ur
  ],
)
gap_below c hi r xs rest taken same (inr (e, full)) = inr (
  e,
  λ u cu uh. elim (le_cases c u cu) [
    | inl here ↦ rw here taken
    | inr above ↦ same u above ∙ full u above uh
  ],
)

-- A candidate that is not taken is the gap.
gap_here : (c hi : ℤ) (xs : List ℤ) → c ≤ℤ hi → contains c xs ≡ false → IsFirstGap c hi xs c
gap_here c hi xs le free = inl (omega arith, le, free, λ u cu uc. absurd (omega arith))

-- What a round of the outer loop does with what the inner loop leaves.
scan_rest : ℕ → ℤ → ℤ → List ℤ → Option ℤ
scan_rest fuel hi c [] = some c
scan_rest fuel hi c (x ∷ xs) =
    let rest = scan fuel hi (suc_ℤ c) xs in if eq_ℤ x c then rest else some c

scan-rest :
    (fuel : ℕ) (hi c : ℤ) (xs : List ℤ)
    → leb_ℤ c hi ≡ true
    → scan (suc fuel) hi c xs ≡ scan_rest fuel hi c (skip_below c xs)
unfolding scan scan_rest
scan-rest fuel hi c xs le = ground arith

-- The values above the candidate are the same before the inner loop and behind its first value.
contains_behind :
    (c u x : ℤ) (xs rest : List ℤ)
    → skip_below c xs ≡ x ∷ rest
    → eq_ℤ x c ≡ true
    → suc_ℤ c ≤ℤ u
    → contains u xs ≡ contains u rest
contains_behind c u x xs rest e same above =
    let lt = lt_of_suc c u above in ground (arith, contains-skip_below c u xs (omega (arith, lt)))

-- Membership of the candidate is decided by what the inner loop leaves.
contains_candidate : (c : ℤ) (xs s : List ℤ) → skip_below c xs ≡ s → contains c xs ≡ contains c s
contains_candidate c xs s e = rw (← e) (sym (contains-skip_below c c xs (omega arith)))

candidate_free :
    (c x : ℤ) (xs rest : List ℤ)
    → IsAscending xs
    → skip_below c xs ≡ x ∷ rest
    → eq_ℤ x c ≡ false
    → contains c xs ≡ false
candidate_free c x xs rest asc e differ =
    let sorted : IsAscending (x ∷ rest) = rw e at (skip_below-IsAscending c xs asc) in
    rw (contains_candidate c xs (x ∷ rest) e) (
      rw differ (
        not-contains_below c x rest sorted.0
          (let above = skip_below_head c x xs rest e in ground arith)))

-- One round, from the rounds that follow it.
scan_rest-IsFirstGap :
    (fuel : ℕ) (hi c : ℤ) (xs s : List ℤ)
    → IsAscending xs
    → length xs < suc fuel
    → c ≤ℤ hi
    → skip_below c xs ≡ s
    → ((ys : List ℤ)
        → IsAscending ys
        → length ys < fuel
        → (r : ℤ) × (scan fuel hi (suc_ℤ c) ys ≡ some r) × IsFirstGap (suc_ℤ c) hi ys r)
    → (r : ℤ) × (scan_rest fuel hi c s ≡ some r) × IsFirstGap c hi xs r
unfolding scan_rest
scan_rest-IsFirstGap fuel hi c xs [] asc short le e ih =
    (c, refl, gap_here c hi xs le (contains_candidate c xs [] e))
scan_rest-IsFirstGap fuel hi c xs (x ∷ rest) asc short le e ih = elim (Bool-cases (eq_ℤ x c)) [
  | inr differ ↦ (c, rw differ, gap_here c hi xs le (candidate_free c x xs rest asc e differ))
  | inl same ↦
      let sorted : IsAscending (x ∷ rest) = rw e at (skip_below-IsAscending c xs asc) in
      let fewer : length (x ∷ rest) ≤ length xs = rw e at (length-skip_below c xs) in
      let (r, found, gap) = ih rest sorted.1 (omega arith) in
      (
        r,
        rw same found,
        gap_below c hi r xs rest (rw (contains_candidate c xs (x ∷ rest) e) (rw same))
            (λ u above. contains_behind c u x xs rest e same above) gap,
      )
]

-- With more fuel than values the scan ends, at the least gap of the range.
pub scan-IsFirstGap :
    (fuel : ℕ) (hi c : ℤ) (xs : List ℤ)
    → IsAscending xs
    → length xs < fuel
    → (r : ℤ) × (scan fuel hi c xs ≡ some r) × IsFirstGap c hi xs r
unfolding scan
scan-IsFirstGap zero hi c xs asc short = elim short [ ]
scan-IsFirstGap (suc fuel) hi c xs asc short = elim (Bool-cases (leb_ℤ c hi)) [
  | inr past ↦ (negsuc 0, ground arith, inr (refl, λ u cu uh. absurd (ground arith)))
  | inl le ↦ rw (scan-rest fuel hi c xs le) (
      scan_rest-IsFirstGap fuel hi c xs (skip_below c xs) asc short (ground arith) refl
        (scan-IsFirstGap fuel hi (suc_ℤ c)))
]

-- In a sorted array the code finds the least number of the range that is not there, or -1 where
-- the whole range is taken; it always ends. Values outside the range and repeated ones do no harm.
pub first_gap-IsFirstGap :
    (lo hi : ℤ) (xs : List ℤ)
    → IsAscending xs
    → (r : ℤ) × (first_gap lo hi xs ≡ some r) × IsFirstGap lo hi xs r
unfolding first_gap
first_gap-IsFirstGap lo hi xs asc = scan-IsFirstGap (suc (length xs)) hi lo xs asc (omega arith)
