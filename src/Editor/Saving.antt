-- ===== src/Editor/Saving.antt =====
-- What the modifications of the editor do to an entry, row by row.
use sambervise.Base.{
  ◌≡◌, refl, ap, ◌⊎◌, inl, inr, true, false, not, ◌&&◌, ◌||◌, Option, none, some, List, [], ◌∷◌,
  ◌++◌, arith, if◌then◌else◌, Bool-cases,
}
use mathlib.Core.List.{append-nil}
use sambervise.Base.Bytes.{Bytes, bytes_eq, bytes_eq_iff}
use sambervise.Ldap.{Mod, ModOp, add, delete, replace}
use sambervise.Backend.Attrs.{Table}
use sambervise.Browse.{StagedMod, new_mod, to_ldap}
use sambervise.Editor.{Row, values_of, is_nonempty, stage_add, stage_change, stage_row}
use sambervise.Editor.Text.{member, split_values, values_equal_set}
use sambervise.Editor.Sets.{SameValues, AreDistinct}

-- The attributes of an entry in the directory; one that is not there has no values.
abbrev pub Attrs : Type 0
Attrs = Bytes → List Bytes

abbrev pub at : Bytes → List Bytes → Attrs → Attrs
at a vs f b = if bytes_eq b a then vs else f b

abbrev minus : List Bytes → List Bytes → List Bytes
minus [] us = []
minus (v ∷ vs) us = let rest = minus vs us in if member v us then rest else v ∷ rest

-- What one modification does to an entry (RFC 4511, 4.6).
abbrev pub apply_mod : ModOp → Bytes → Option (List Bytes) → Attrs → Attrs
apply_mod add a none f = f
apply_mod add a (some vs) f = at a (f a ++ vs) f
apply_mod replace a none f = at a [] f
apply_mod replace a (some vs) f = at a vs f
apply_mod delete a none f = at a [] f
apply_mod delete a (some vs) f = at a (minus (f a) vs) f

abbrev pub apply_all : List Mod → Attrs → Attrs
apply_all [] f = f
apply_all (m ∷ ms) f = apply_all ms (apply_mod m.op m.attr m.values f)

-- What a row shows: the values of its line, none where it is marked, and for a new row with a name
-- the values that it adds.
abbrev pub shown : Row → Attrs → Attrs
shown r f =
    if r.is_new
    then (if is_nonempty r.name then at r.name (f r.name ++ split_values r.value_text) f else f)
    else at r.name (if r.marked_delete then [] else split_values r.value_text) f

abbrev pub shown_all : List Row → Attrs → Attrs
shown_all [] f = f
shown_all (r ∷ rs) f = shown_all rs (shown r f)

-- The names of the rows; a new row whose name is not filled in has none.
abbrev pub used_names : List Row → List Bytes
used_names [] = []
used_names (r ∷ rs) =
    let rest = used_names rs in if r.is_new && not (is_nonempty r.name) then rest else r.name ∷ rest

-- The existing rows are of attributes as they stand in the directory, no value of them twice.
abbrev pub IsLoaded : Table → Attrs → Row → Type 0
IsLoaded t f r =
    (r.is_new ≡ true) ⊎ ((f r.name ≡ values_of t r.name) × AreDistinct (values_of t r.name))

abbrev pub AreLoaded : Table → Attrs → List Row → Type 0
AreLoaded t f [] = Unit
AreLoaded t f (r ∷ rs) = IsLoaded t f r × AreLoaded t f rs

-- The modifications as `modify_thread` sends them.
abbrev pub sent : List StagedMod → List Mod
sent [] = []
sent (m ∷ ms) = to_ldap m ∷ sent ms

pub sent-append :
    (ms ns : List StagedMod) (f : Attrs)
    → apply_all (sent (ms ++ ns)) f ≡ apply_all (sent ns) (apply_all (sent ms) f)
sent-append [] ns f = refl
sent-append (m ∷ ms) ns f = sent-append ms ns (apply_mod (to_ldap m).op m.attr m.values f)

member-append :
    (v : Bytes) (xs ys : List Bytes) → member v (xs ++ ys) ≡ (member v xs || member v ys)
member-append v [] ys = refl
member-append v (x ∷ xs) ys = ground (arith, member-append v xs ys)

stage_change-at :
    (a : Bytes) (vs : List Bytes) (f : Attrs) (b : Bytes)
    → apply_all (sent (stage_change a vs)) f b ≡ at a vs f b
unfolding new_mod
stage_change-at a [] f b = refl
stage_change-at a (v ∷ vs) f b = refl

stage_add-at :
    (a : Bytes) (vs : List Bytes) (f : Attrs) (b : Bytes)
    → apply_all (sent (stage_add a vs)) f b ≡ at a (f a ++ vs) f b
unfolding new_mod
stage_add-at a [] f b = elim (Bool-cases (bytes_eq b a)) [
  | inl same ↦ rw (same, append-nil (f a)) (ap f ((bytes_eq_iff b a).0 same))
  | inr differ ↦ rw differ refl
]
stage_add-at a (v ∷ vs) f b = refl

-- What a row's modifications come to: what it shows, unless that has the values that are there.
pub stage_row-cases :
    (t : Table) (r : Row) (f : Attrs)
    → ((b : Bytes) → apply_all (sent (stage_row t r)) f b ≡ shown r f b)
      ⊎ ((r.is_new ≡ false)
          × (r.marked_delete ≡ false)
          × (values_equal_set (values_of t r.name) (split_values r.value_text) ≡ true)
          × (stage_row t r ≡ []))
      ⊎ ((r.is_new ≡ true) × (is_nonempty r.value_text ≡ false) × (stage_row t r ≡ []))
unfolding stage_row
stage_row-cases t r f = elim (Bool-cases r.is_new) [
  | inl new ↦ elim (Bool-cases (is_nonempty r.name)) [
    | inr unnamed ↦ inl λ b. rw (new, unnamed) refl
    | inl named ↦ elim (Bool-cases (is_nonempty r.value_text)) [
      | inl filled ↦
          inl λ b. rw (new, named, filled) (stage_add-at r.name (split_values r.value_text) f b)
      | inr blank ↦ inr (inr (new, blank, rw (new, named, blank) refl))
    ]
  ]
  | inr old ↦ elim (Bool-cases r.marked_delete) [
    | inl marked ↦ inl λ b. rw (old, marked) (stage_change-at r.name [] f b)
    | inr unmarked ↦
        elim (Bool-cases (values_equal_set (values_of t r.name) (split_values r.value_text))) [
          | inl same ↦ inr (inl (old, unmarked, same, rw (old, unmarked, same) refl))
          | inr changed ↦ inl λ b.
              rw (old, unmarked, changed) (stage_change-at r.name (split_values r.value_text) f b)
        ]
  ]
]

SameValues-at :
    (a : Bytes) (vs us : List Bytes) (f g : Attrs)
    → ((b : Bytes) → SameValues (f b) (g b))
    → SameValues vs us
    → (b : Bytes) → SameValues (at a vs f b) (at a us g b)
SameValues-at a vs us f g h s b v = elim (Bool-cases (bytes_eq b a)) [
  | inl same ↦ rw same (s v)
  | inr differ ↦ rw differ (h b v)
]

pub split_values_blank : (s : Bytes) → is_nonempty s ≡ false → split_values s ≡ []
unfolding split_values
split_values_blank [] e = refl
split_values_blank (c ∷ s) e = absurd (ground arith)

-- Showing the same row on entries with the same values.
pub shown-SameValues :
    (r : Row) (f g : Attrs)
    → ((b : Bytes) → SameValues (f b) (g b))
    → (b : Bytes) → SameValues (shown r f b) (shown r g b)
shown-SameValues r f g h b = elim (Bool-cases r.is_new) [
  | inl new ↦ elim (Bool-cases (is_nonempty r.name)) [
    | inl named ↦
        rw (new, named)
          (SameValues-at r.name (f r.name ++ split_values r.value_text)
            (g r.name ++ split_values r.value_text) f g h
            (λ v.
              rw
                (
                  member-append v (f r.name) (split_values r.value_text),
                  member-append v (g r.name) (split_values r.value_text),
                  h r.name v,
                )
                refl)
            b)
    | inr unnamed ↦ rw (new, unnamed) (h b)
  ]
  | inr old ↦ rw old (SameValues-at r.name _ _ f g h (λ v. refl) b)
]
