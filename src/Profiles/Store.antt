-- ===== src/Profiles/Store.antt =====
-- What `sbv_profiles_upsert` and `sbv_profiles_remove` make of the store.
use sambervise.Base.{
  ◌≡◌, refl, false, Option, none, some, List, [], ◌∷◌, ◌++◌, ◌||◌, arith, if◌then◌else◌,
}
use sambervise.Base.Bytes.{Bytes, bytes_eq, bytes_eq_iff, or_empty}
use sambervise.Profile.{Profile}
use sambervise.Profiles.{has_name, upserted, removed, upsert, remove}
use sambervise.Profiles.Ini.{KeyFile, among}

-- The names of a store, NULL as "".
abbrev pub names : List Profile → List Bytes
names [] = []
names (p ∷ ps) = or_empty p.name ∷ names ps

-- No two profiles have the same name.
abbrev pub AreUnique : List Bytes → Type 0
AreUnique [] = Unit
AreUnique (n ∷ ns) = (among n ns ≡ false) × AreUnique ns

-- The first profile of a name.
abbrev pub find : Option Bytes → List Profile → Option Profile
find name [] = none
find name (q ∷ ps) = let rest = find name ps in if has_name name q then some q else rest

-- The names after an upsert: the same, with the new one at the end if it was not among them.
pub names-upserted :
    (p : Profile) (ps : List Profile)
    → names (upserted p ps) ≡ (
        if among (or_empty p.name) (names ps) then names ps else names ps ++ (or_empty p.name ∷ []))
unfolding upserted
names-upserted p [] = refl
names-upserted p (q ∷ ps) = ground (
  arith,
  names-upserted p ps,
  bytes_eq_iff (or_empty p.name) (or_empty q.name),
  bytes_eq_iff (or_empty q.name) (or_empty p.name),
)

find-upserted :
    (n : Option Bytes) (p : Profile) (ps : List Profile)
    → find n (upserted p ps) ≡ (if has_name n p then some p else find n ps)
unfolding upserted
find-upserted n p [] = refl
find-upserted n p (q ∷ ps) = ground (
  arith,
  find-upserted n p ps,
  bytes_eq_iff (or_empty q.name) (or_empty p.name),
  bytes_eq_iff (or_empty p.name) (or_empty n),
  bytes_eq_iff (or_empty q.name) (or_empty n),
)

pub among-append :
    (m n : Bytes) (ns : List Bytes) → among m (ns ++ (n ∷ [])) ≡ (among m ns || bytes_eq m n)
among-append m n [] = ground arith
among-append m n (k ∷ ns) = ground (arith, among-append m n ns)

AreUnique-append :
    (n : Bytes) (ns : List Bytes) → AreUnique ns → among n ns ≡ false → AreUnique (ns ++ (n ∷ []))
AreUnique-append n [] u h = (refl, tt)
AreUnique-append n (k ∷ ns) u h =
    ground
      (arith, AreUnique-append n ns u.1, among-append k n ns, bytes_eq_iff k n, bytes_eq_iff n k)

upserted-AreUnique :
    (p : Profile) (ps : List Profile) → AreUnique (names ps) → AreUnique (names (upserted p ps))
upserted-AreUnique p ps u =
    rw (names-upserted p ps) (ground (arith, AreUnique-append (or_empty p.name) (names ps) u))

-- After an upsert of a profile, the first profile of its name is that one, and the first profile of
-- every other name is the one that was there.
pub upsert_lem :
    {K : Type 0} (kf : KeyFile K) (p : Profile) (ps : List Profile) (n : Option Bytes)
    → find n (upsert kf p ps).0 ≡ (if has_name n p then some p else find n ps)
unfolding upsert
upsert_lem kf p ps n = find-upserted n p ps

-- If the names of a store are all different, they still are after an upsert.
pub upsert-AreUnique :
    {K : Type 0} (kf : KeyFile K) (p : Profile) (ps : List Profile)
    → AreUnique (names ps)
    → AreUnique (names (upsert kf p ps).0)
unfolding upsert
upsert-AreUnique kf p ps u = upserted-AreUnique p ps u

abbrev pub or_same : List Profile → Option (List Profile) → List Profile
or_same ps none = ps
or_same _ (some qs) = qs

among-removed :
    (m : Bytes) (n : Option Bytes) (ps : List Profile)
    → among m (names ps) ≡ false
    → among m (names (or_same ps (removed n ps))) ≡ false
unfolding removed
among-removed m n [] h = refl
among-removed m n (q ∷ ps) h = ground (arith, among-removed m n ps)

removed-AreUnique :
    (n : Option Bytes) (ps : List Profile)
    → AreUnique (names ps)
    → AreUnique (names (or_same ps (removed n ps)))
unfolding removed
removed-AreUnique n [] u = tt
removed-AreUnique n (q ∷ ps) u =
    ground (arith, removed-AreUnique n ps u.1, among-removed (or_empty q.name) n ps u.0)

find_absent :
    (n : Option Bytes) (ps : List Profile)
    → among (or_empty n) (names ps) ≡ false
    → find n ps ≡ none
find_absent n [] h = refl
find_absent n (q ∷ ps) h = ground (
  arith,
  find_absent n ps,
  bytes_eq_iff (or_empty q.name) (or_empty n),
  bytes_eq_iff (or_empty n) (or_empty q.name),
)

find-removed :
    (m n : Option Bytes) (ps : List Profile)
    → AreUnique (names ps)
    → find m (or_same ps (removed n ps))
      ≡ (if bytes_eq (or_empty m) (or_empty n) then none else find m ps)
unfolding removed
find-removed m n [] u = ground arith
find-removed m n (q ∷ ps) u = ground (
  arith,
  find-removed m n ps u.1,
  find_absent m ps,
  bytes_eq_iff (or_empty q.name) (or_empty n),
  bytes_eq_iff (or_empty q.name) (or_empty m),
  bytes_eq_iff (or_empty m) (or_empty n),
)

remove_store :
    {K : Type 0} (kf : KeyFile K) (n : Option Bytes) (ps : List Profile)
    → (remove kf n ps).0 ≡ or_same ps (removed n ps)
unfolding remove
remove_store kf n ps = ground arith

-- In a store whose names are all different, after a removal no profile has the name, the profile of
-- every other name is the one that was there, and the names are still all different.
pub remove_lem :
    {K : Type 0} (kf : KeyFile K) (n : Option Bytes) (ps : List Profile)
    → AreUnique (names ps)
    → let ps' = (remove kf n ps).0 in
      ((m : Option Bytes)
        → find m ps' ≡ (if bytes_eq (or_empty m) (or_empty n) then none else find m ps))
      × AreUnique (names ps')
remove_lem kf n ps u =
    rw (remove_store kf n ps) (λ m. find-removed m n ps u, removed-AreUnique n ps u)
