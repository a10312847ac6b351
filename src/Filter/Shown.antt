-- ===== src/Filter/Shown.antt =====
-- Which rows a search shows.
use sambervise.Base.{
  Bool, true, not, ◌||◌, Option, none, some, List, [], ◌∷◌, ◌++◌, ◌≡◌, ◌⊎◌, ◌↔◌, inl, inr, refl,
  sym, ap, ◌∙◌, arith, Bool-cases,
}
use sambervise.Base.Bytes.{Bytes, is_filled, or_empty}
use sambervise.Users.{User}
use sambervise.Groups.{Group}
use sambervise.Contacts.{Contact}
use sambervise.Computers.{Computer}
use sambervise.Editor.{is_nonempty}
use sambervise.Filter.{
  starts_with, contains, filter_text, any_field, any_field_until_null, user_fields, contact_fields,
  computer_fields, group_fields, candidate_fields, user_shown, contact_shown, computer_shown,
  group_shown, candidate_shown,
}

-- `t` stands in `s`.
abbrev pub Occurs : Bytes → Bytes → Type 0
Occurs t s = (before : Bytes) × (after : Bytes) × (s ≡ before ++ (t ++ after))

starts_with-Occurs : (t s : Bytes) → starts_with t s ≡ true → (after : Bytes) × (s ≡ t ++ after)
starts_with-Occurs [] s h = (s, refl)
starts_with-Occurs (c ∷ t) [] h = absurd (ground arith)
starts_with-Occurs (c ∷ t) (d ∷ s) h =
    let (after, e) = starts_with-Occurs t s (ground arith) in (after, ground arith)

starts_with-append : (t after : Bytes) → starts_with t (t ++ after) ≡ true
starts_with-append [] after = refl
starts_with-append (c ∷ t) after = ground (arith, starts_with-append t after)

contains-Occurs : (t s : Bytes) → contains t s ≡ true → Occurs t s
unfolding contains
contains-Occurs t [] h = let (after, e) = starts_with-Occurs t [] h in ([], after, e)
contains-Occurs t (c ∷ s) h = elim (Bool-cases (starts_with t (c ∷ s))) [
  | inl here ↦ let (after, e) = starts_with-Occurs t (c ∷ s) here in ([], after, e)
  | inr later ↦
      let (before, after, e) = contains-Occurs t s (ground arith) in
      (c ∷ before, after, ap (λ l. c ∷ l) e)
]

contains-append : (t before after : Bytes) → contains t (before ++ (t ++ after)) ≡ true
unfolding contains
contains-append [] [] [] = refl
contains-append [] [] (c ∷ after) = refl
contains-append (c ∷ t) [] after = ground (arith, starts_with-append (c ∷ t) after)
contains-append t (b ∷ before) after = ground (arith, contains-append t before after)

-- The fields before the first NULL.
abbrev pub before_null : List (Option Bytes) → List (Option Bytes)
before_null [] = []
before_null (none ∷ fs) = []
before_null (some s ∷ fs) = some s ∷ before_null fs

module _ (strdown : Bytes → Bytes) where
  -- One of the fields is not NULL and has the text in it, in lower case.
  abbrev pub HasField : Bytes → List (Option Bytes) → Type 0
  HasField t [] = ⊥
  HasField t (none ∷ fs) = HasField t fs
  HasField t (some s ∷ fs) = Occurs t (strdown s) ⊎ HasField t fs

  any_field-HasField :
      (t : Bytes) (fs : List (Option Bytes)) → any_field strdown t fs ≡ true → HasField t fs
  unfolding any_field
  any_field-HasField t [] h = absurd (ground arith)
  any_field-HasField t (none ∷ fs) h = any_field-HasField t fs h
  any_field-HasField t (some s ∷ fs) h = elim (Bool-cases (contains t (strdown s))) [
    | inl here ↦ inl (contains-Occurs t (strdown s) here)
    | inr later ↦ inr (any_field-HasField t fs (ground arith))
  ]

  HasField-any_field :
      (t : Bytes) (fs : List (Option Bytes)) → HasField t fs → any_field strdown t fs ≡ true
  unfolding any_field
  HasField-any_field t [] h = absurd h
  HasField-any_field t (none ∷ fs) h = HasField-any_field t fs h
  HasField-any_field t (some s ∷ fs) (inl (before, after, e)) =
      rw e (rw (contains-append t before after) refl)
  HasField-any_field t (some s ∷ fs) (inr h) = ground (arith, HasField-any_field t fs h)

  filtered :
      (typed : Bytes) → is_nonempty typed ≡ true → filter_text strdown typed ≡ some (strdown typed)
  unfolding filter_text
  filtered typed h = rw h refl

  filled_some : (t : Bytes) → is_nonempty t ≡ true → is_filled (some t) ≡ true
  filled_some [] h = h
  filled_some (c ∷ t) h = h

  -- A filter that is there leaves the decision to the loop over the fields.
  looked_at :
      (loop : Bytes → List (Option Bytes) → Bool) (typed : Bytes) (fs : List (Option Bytes))
      → is_nonempty typed ≡ true
      → is_nonempty (strdown typed) ≡ true
      → let f = filter_text strdown typed in
        (not (is_filled f) || loop (or_empty f) fs) ≡ loop (strdown typed) fs
  looked_at loop typed fs h lower =
      ap (λ f. not (is_filled f) || loop (or_empty f) fs) (filtered typed h)
      ∙ ap (λ b. not b || loop (strdown typed) fs) (filled_some (strdown typed) lower)

  found_iff :
      (typed : Bytes) (fs : List (Option Bytes))
      → is_nonempty typed ≡ true
      → is_nonempty (strdown typed) ≡ true
      → let f = filter_text strdown typed in
        ((not (is_filled f) || any_field strdown (or_empty f) fs) ≡ true)
        ↔ HasField (strdown typed) fs
  found_iff typed fs h lower =
      let same = looked_at (any_field strdown) typed fs h lower in
      (
        λ e. any_field-HasField (strdown typed) fs (sym same ∙ e),
        λ m. same ∙ HasField-any_field (strdown typed) fs m,
      )

  until_null-before_null :
      (t : Bytes) (fs : List (Option Bytes))
      → any_field_until_null strdown t fs ≡ any_field strdown t (before_null fs)
  unfolding any_field_until_null any_field
  until_null-before_null t [] = refl
  until_null-before_null t (none ∷ fs) = refl
  until_null-before_null t (some s ∷ fs) =
      ap (λ b. contains t (strdown s) || b) (until_null-before_null t fs)

  cut_iff :
      (typed : Bytes) (fs : List (Option Bytes))
      → is_nonempty typed ≡ true
      → is_nonempty (strdown typed) ≡ true
      → let f = filter_text strdown typed in
        ((not (is_filled f) || any_field_until_null strdown (or_empty f) fs) ≡ true)
        ↔ HasField (strdown typed) (before_null fs)
  cut_iff typed fs h lower =
      let same =
        looked_at (any_field_until_null strdown) typed fs h lower
        ∙ until_null-before_null (strdown typed) fs in
      (
        λ e. any_field-HasField (strdown typed) (before_null fs) (sym same ∙ e),
        λ m. same ∙ HasField-any_field (strdown typed) (before_null fs) m,
      )

  -- Under a text that is typed in the search entry, and not empty in lower case either, a row is shown
  -- exactly if one of its fields has the text in it, both in lower case. For a user and a contact a
  -- field that is NULL is passed over. For a computer, a group, and a user in the dialog that adds a
  -- member, only the fields before the first one that is NULL count.
  pub shown_iff :
      (typed : Bytes) (u : User) (k : Contact) (m : Computer) (g : Group)
      → is_nonempty typed ≡ true
      → is_nonempty (strdown typed) ≡ true
      → let f = filter_text strdown typed in
        let Found = HasField (strdown typed) in
        ((user_shown strdown f u ≡ true) ↔ Found (user_fields u))
        × ((contact_shown strdown f k ≡ true) ↔ Found (contact_fields k))
        × ((computer_shown strdown f m ≡ true) ↔ Found (before_null (computer_fields m)))
        × ((group_shown strdown f g ≡ true) ↔ Found (before_null (group_fields g)))
        × ((candidate_shown strdown f u ≡ true) ↔ Found (before_null (candidate_fields u)))
  unfolding user_shown contact_shown computer_shown group_shown candidate_shown
  shown_iff typed u k m g h lower = (
    found_iff typed (user_fields u) h lower,
    found_iff typed (contact_fields k) h lower,
    cut_iff typed (computer_fields m) h lower,
    cut_iff typed (group_fields g) h lower,
    cut_iff typed (candidate_fields u) h lower,
  )
