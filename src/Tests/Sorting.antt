-- ===== src/Tests/Sorting.antt =====
-- A sort that does what is relied on of `g_array_sort`.
use sambervise.Base.{◌≡◌, refl, false, ◌||◌, List, [], ◌∷◌, arith, if◌then◌else◌}
use sambervise.Base.Int.{ℤ, pos, leb_ℤ, ◌≤ℤ◌, eq_ℤ}
use sambervise.Ldap.{Library}
use sambervise.Collisions.{cmp_int64}
use sambervise.Collisions.Scan.{contains, Precedes, IsAscending}
use sambervise.Collisions.NextFree.{Sorts}

abbrev pub insert_by : (ℤ → ℤ → ℤ) → ℤ → List ℤ → List ℤ
insert_by cmp x [] = x ∷ []
insert_by cmp x (y ∷ ys) =
    let rest = insert_by cmp x ys in if leb_ℤ (cmp x y) (pos 0) then x ∷ y ∷ ys else y ∷ rest

abbrev pub insertion_sort : (ℤ → ℤ → ℤ) → List ℤ → List ℤ
insertion_sort cmp [] = []
insertion_sort cmp (x ∷ xs) = insert_by cmp x (insertion_sort cmp xs)

Precedes-insert :
    (x y : ℤ) (ys : List ℤ)
    → cmp_int64 y x ≤ℤ pos 0
    → Precedes y ys
    → Precedes y (insert_by cmp_int64 x ys)
Precedes-insert x y [] h p = (h, tt)
Precedes-insert x y (z ∷ zs) h p = ground (arith, Precedes-insert x y zs h p.1)

Precedes-trans : (x y : ℤ) (ys : List ℤ) → cmp_int64 x y ≤ℤ pos 0 → Precedes y ys → Precedes x ys
unfolding cmp_int64
Precedes-trans x y [] h p = tt
Precedes-trans x y (z ∷ zs) h p = ground (arith, Precedes-trans x y zs h p.1)

cmp_flip : (x y : ℤ) → leb_ℤ (cmp_int64 x y) (pos 0) ≡ false → cmp_int64 y x ≤ℤ pos 0
unfolding cmp_int64
cmp_flip x y h = ground arith

insert-IsAscending : (x : ℤ) (ys : List ℤ) → IsAscending ys → IsAscending (insert_by cmp_int64 x ys)
insert-IsAscending x [] a = (tt, tt)
insert-IsAscending x (y ∷ ys) a = ground (
  arith,
  insert-IsAscending x ys a.1,
  Precedes-insert x y ys,
  Precedes-trans x y ys,
  cmp_flip x y,
)

contains-insert :
    (v x : ℤ) (ys : List ℤ) → contains v (insert_by cmp_int64 x ys) ≡ (eq_ℤ x v || contains v ys)
contains-insert v x [] = refl
contains-insert v x (y ∷ ys) = ground (arith, contains-insert v x ys)

sort-IsAscending : (xs : List ℤ) → IsAscending (insertion_sort cmp_int64 xs)
sort-IsAscending [] = tt
sort-IsAscending (x ∷ xs) = insert-IsAscending x _ (sort-IsAscending xs)

contains-sort : (v : ℤ) (xs : List ℤ) → contains v (insertion_sort cmp_int64 xs) ≡ contains v xs
contains-sort v [] = refl
contains-sort v (x ∷ xs) =
    ground (arith, contains-insert v x (insertion_sort cmp_int64 xs), contains-sort v xs)

pub insertion_sort-Sorts : (lib : Library) → lib.sort ≡ insertion_sort → Sorts lib
insertion_sort-Sorts lib e = record {
  ascending = λ xs. rw e (sort-IsAscending xs);
  contains-sort = λ v xs. rw e (contains-sort v xs);
}
