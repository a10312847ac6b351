-- ===== src/Editor/Sets.antt =====
-- What the comparison of two lists of values decides.
use sambervise.Base.{suc, ◌≡◌, refl, true, false, ◌||◌, List, [], ◌∷◌, arith, if◌then◌else◌}
use sambervise.Base.Lists.{length}
use sambervise.Base.Bytes.{Bytes, bytes_eq, bytes_eq_iff}
use sambervise.Editor.Text.{member, all_members, values_equal_set}

-- The same values, whatever their order and however often.
abbrev pub SameValues : List Bytes → List Bytes → Type 0
SameValues a b = (v : Bytes) → member v a ≡ member v b

abbrev pub AreDistinct : List Bytes → Type 0
AreDistinct [] = Unit
AreDistinct (v ∷ vs) = (member v vs ≡ false) × AreDistinct vs

-- The list without the first occurrence of a value.
abbrev without : Bytes → List Bytes → List Bytes
without v [] = []
without v (u ∷ us) = let rest = without v us in if bytes_eq v u then us else u ∷ rest

length-without :
    (v : Bytes) (us : List Bytes) → member v us ≡ true → suc (length (without v us)) ≡ length us
length-without v [] h = absurd (ground arith)
length-without v (u ∷ us) h = ground (arith, length-without v us)

member-without :
    (w v : Bytes) (us : List Bytes) → bytes_eq w v ≡ false → member w (without v us) ≡ member w us
member-without w v [] h = refl
member-without w v (u ∷ us) h = ground (arith, member-without w v us h, bytes_eq_iff v u)

all_members-without :
    (v : Bytes) (vs us : List Bytes)
    → member v vs ≡ false
    → all_members vs us ≡ true
    → all_members vs (without v us) ≡ true
all_members-without v [] us d h = refl
all_members-without v (w ∷ vs) us d h =
    ground (
      arith,
      all_members-without v vs us,
      member-without w v us,
      bytes_eq_iff v w,
      bytes_eq_iff w v,
    )

member-cons_without :
    (w v : Bytes) (us : List Bytes)
    → member v us ≡ true
    → member w us ≡ (bytes_eq w v || member w (without v us))
member-cons_without w v [] h = absurd (ground arith)
member-cons_without w v (u ∷ us) h =
    ground (arith, member-cons_without w v us, bytes_eq_iff v u, bytes_eq_iff w u, bytes_eq_iff w v)

-- As many values, all of them found: then nothing else is there.
pigeonhole :
    (vs us : List Bytes)
    → AreDistinct vs
    → length vs ≡ length us
    → all_members vs us ≡ true
    → SameValues vs us
pigeonhole [] [] d l h w = refl
pigeonhole [] (u ∷ us) d l h w = absurd (omega arith)
pigeonhole (v ∷ vs) us d l h w =
    let found : member v us ≡ true = ground arith in
    let rest : member w vs ≡ member w (without v us) =
      pigeonhole vs (without v us) d.1 (omega (arith, length-without v us found, l))
        (ground (arith, all_members-without v vs us d.0)) w in
    ground (arith, member-cons_without w v us found, rest)

-- Against values of which none occurs twice, as those of an attribute in the directory, the
-- comparison holds only for the same values.
pub values_equal_set-SameValues :
    (a b : List Bytes) → AreDistinct a → values_equal_set a b ≡ true → SameValues a b
unfolding values_equal_set
values_equal_set-SameValues a b d h = pigeonhole a b d (ground arith) (ground arith)
