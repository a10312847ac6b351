-- ===== src/Editor/Loading.antt =====
-- What the editor makes of an entry that was just loaded and not touched.
use mathlib.Core.List.{append_assoc}
use sambervise.Base.{ℕ, ◌≡◌, ◌≢◌, refl, sym, ap, ◌∙◌, true, false, List, [], ◌∷◌, ◌++◌, arith}
use sambervise.Base.Bytes.{Bytes, bytes_eq_refl, Lacks}
use sambervise.Backend.Attrs.{Table}
use sambervise.Browse.{StagedMod, replace_op, new_mod}
use sambervise.Editor.{
  make_attr_row, values_of, rebuild_attr_rows, row_is_dirty, editor_is_dirty, stage_row,
  staged_mods,
}
use sambervise.Editor.Text.{
  chug, white_or, chomp, strip, prepend, split_on, keep_filled, kept_tokens, split_values,
  join_values, all_members, values_equal_set,
}

-- A value that the display keeps: some text with no semicolon and nothing to strip.
pub record IsPlain (v : Bytes) : Type 0 where
  pub filled : v ≢ []
  pub lacks : Lacks b';' v
  pub stripped : strip v ≡ v

abbrev pub ArePlain : List Bytes → Type 0
ArePlain [] = Unit
ArePlain (v ∷ vs) = IsPlain v × ArePlain vs

-- Splitting at a semicolon.
pub split_on-append :
    (c : ℕ) (s t : Bytes) → Lacks c s → split_on c (s ++ (c ∷ t)) ≡ s ∷ split_on c t
unfolding split_on
split_on-append c [] t h = ground arith
split_on-append c (d ∷ s) t h = ground (arith, split_on-append c s t h.1)

pub split_on-Lacks : (c : ℕ) (s : Bytes) → Lacks c s → split_on c s ≡ s ∷ []
unfolding split_on
split_on-Lacks c [] h = refl
split_on-Lacks c (d ∷ s) h = ground (arith, split_on-Lacks c s h.1)

-- A space in front of a token changes nothing.
chug-white_or : (t : Bytes) → chug (white_or b' ' t) ≡ chug t
unfolding chug
chug-white_or [] = refl
chug-white_or (d ∷ t) = refl

kept_blank : keep_filled (chug []) [] ≡ []
unfolding chug
kept_blank = refl

kept_tokens-prepend : (ts : List Bytes) → kept_tokens (prepend b' ' ts) ≡ kept_tokens ts
unfolding kept_tokens chomp
kept_tokens-prepend [] = rw (chug-white_or []) kept_blank
kept_tokens-prepend (t ∷ ts) = rw (chug-white_or (chomp t)) refl

kept_tokens-space :
    (s : Bytes) → kept_tokens (split_on b';' (b' ' ∷ s)) ≡ kept_tokens (split_on b';' s)
unfolding split_on
kept_tokens-space s = kept_tokens-prepend (split_on b';' s)

keep_filled-IsPlain : (v : Bytes) (vs : List Bytes) → IsPlain v → keep_filled (strip v) vs ≡ v ∷ vs
keep_filled-IsPlain [] vs p = absurd (p.filled refl)
keep_filled-IsPlain (c ∷ v) vs p = rw p.stripped refl

split_values-eq : (s : Bytes) → split_values s ≡ kept_tokens (split_on b';' s)
unfolding split_values kept_tokens split_on chug chomp
split_values-eq [] = refl
split_values-eq (c ∷ s) = refl

kept_tokens-join_values :
    (v : Bytes) (vs : List Bytes)
    → ArePlain (v ∷ vs)
    → kept_tokens (split_on b';' (join_values (v ∷ vs))) ≡ v ∷ vs
unfolding join_values kept_tokens
kept_tokens-join_values v [] (p, _) =
    rw (split_on-Lacks b';' v p.lacks) (keep_filled-IsPlain v [] p)
kept_tokens-join_values v (u ∷ vs) (p, ps) =
    rw (split_on-append b';' v (b' ' ∷ join_values (u ∷ vs)) p.lacks) (
      rw (kept_tokens-space (join_values (u ∷ vs)))
        (rw (kept_tokens-join_values u vs ps) (keep_filled-IsPlain v (u ∷ vs) p)))

-- Values with some text, no semicolon and no white space at their ends are read back from the line
-- that shows them.
pub split_values-join_values : (vs : List Bytes) → ArePlain vs → split_values (join_values vs) ≡ vs
unfolding join_values split_values
split_values-join_values [] p = refl
split_values-join_values (v ∷ vs) p =
    split_values-eq (join_values (v ∷ vs)) ∙ kept_tokens-join_values v vs p

all_members-cons :
    (vs us : List Bytes) (u : Bytes) → all_members vs us ≡ true → all_members vs (u ∷ us) ≡ true
all_members-cons [] us u h = refl
all_members-cons (v ∷ vs) us u h = ground (arith, all_members-cons vs us u)

all_members_self : (vs : List Bytes) → all_members vs vs ≡ true
all_members_self [] = refl
all_members_self (v ∷ vs) =
    ground (arith, bytes_eq_refl v, all_members-cons vs vs v (all_members_self vs))

pub values_equal_set_self : (vs : List Bytes) → values_equal_set vs vs ≡ true
unfolding values_equal_set
values_equal_set_self vs = ground (arith, all_members_self vs)

row_untouched :
    (t : Table) (attr : Bytes)
    → ArePlain (values_of t attr)
    → values_equal_set (values_of t attr) (split_values (join_values (values_of t attr))) ≡ true
row_untouched t attr p =
    rw (split_values-join_values (values_of t attr) p) (values_equal_set_self (values_of t attr))

abbrev pub ArePlainAt : Table → List Bytes → Type 0
ArePlainAt t [] = Unit
ArePlainAt t (k ∷ ks) = ArePlain (values_of t k) × ArePlainAt t ks

-- Just after an entry is loaded whose values all have some text, no semicolon and no white space at
-- their ends, the editor is not dirty, and saving would change nothing.
pub rebuild_attr_rows-clean :
    (t : Table) (keys : List Bytes)
    → ArePlainAt t keys
    → (editor_is_dirty t (rebuild_attr_rows t keys) ≡ false)
      × (staged_mods t (rebuild_attr_rows t keys) ≡ [])
unfolding rebuild_attr_rows make_attr_row editor_is_dirty row_is_dirty staged_mods stage_row
rebuild_attr_rows-clean t [] p = (refl, refl)
rebuild_attr_rows-clean t (k ∷ ks) p = rw (row_untouched t k p.0) (rebuild_attr_rows-clean t ks p.1)

keep_filled-ne : (s : Bytes) (vs : List Bytes) → s ≢ [] → keep_filled s vs ≡ s ∷ vs
keep_filled-ne [] vs h = absurd (h refl)
keep_filled-ne (c ∷ s) vs h = refl

split_values-two :
    (a b : Bytes)
    → Lacks b';' a
    → Lacks b';' b
    → strip a ≢ []
    → strip b ≢ []
    → split_values (a ++ (b';' ∷ b)) ≡ strip a ∷ strip b ∷ []
unfolding kept_tokens
split_values-two a b la lb fa fb = rw (split_values-eq (a ++ (b';' ∷ b))) (
    rw (split_on-append b';' a b la) (
      rw (split_on-Lacks b';' b lb)
        (rw (keep_filled-ne (strip b) [] fb) (keep_filled-ne (strip a) _ fa))))

rows_dirty :
    (t : Table) (before : List Bytes) (k : Bytes) (after : List Bytes)
    → row_is_dirty t (make_attr_row k (join_values (values_of t k))) ≡ true
    → editor_is_dirty t (rebuild_attr_rows t (before ++ (k ∷ after))) ≡ true
unfolding rebuild_attr_rows editor_is_dirty
rows_dirty t [] k after dirty = ground (arith, dirty)
rows_dirty t (j ∷ before) k after dirty = ground (arith, rows_dirty t before k after dirty)

rows_staged :
    (t : Table) (before : List Bytes) (k : Bytes) (after : List Bytes) (ms : List StagedMod)
    → stage_row t (make_attr_row k (join_values (values_of t k))) ≡ ms
    → staged_mods t (rebuild_attr_rows t (before ++ (k ∷ after)))
      ≡ staged_mods t (rebuild_attr_rows t before)
        ++ (ms ++ staged_mods t (rebuild_attr_rows t after))
unfolding rebuild_attr_rows staged_mods
rows_staged t [] k after ms e = rw e refl
rows_staged t (j ∷ before) k after ms e =
    ap (λ rest. stage_row t (make_attr_row j (join_values (values_of t j))) ++ rest)
      (rows_staged t before k after ms e)
    ∙ sym (
        append_assoc (stage_row t (make_attr_row j (join_values (values_of t j))))
          (staged_mods t (rebuild_attr_rows t before))
          (ms ++ staged_mods t (rebuild_attr_rows t after)))

-- In an entry that is loaded, whatever its other attributes are, an attribute with one value that has
-- a semicolon between two parts that are not blank makes the editor dirty at once: a save, with
-- nothing edited, replaces that value by the two parts, besides what it does to the attributes before
-- and behind it.
pub rebuild_attr_rows_splits :
    (t : Table) (before : List Bytes) (k : Bytes) (after : List Bytes) (a b : Bytes)
    → values_of t k ≡ (a ++ (b';' ∷ b)) ∷ []
    → Lacks b';' a
    → Lacks b';' b
    → strip a ≢ []
    → strip b ≢ []
    → (editor_is_dirty t (rebuild_attr_rows t (before ++ (k ∷ after))) ≡ true)
      × (staged_mods t (rebuild_attr_rows t (before ++ (k ∷ after)))
          ≡ staged_mods t (rebuild_attr_rows t before)
            ++ (new_mod replace_op k (strip a ∷ strip b ∷ [])
                ∷ staged_mods t (rebuild_attr_rows t after)))
unfolding make_attr_row row_is_dirty stage_row join_values values_equal_set
rebuild_attr_rows_splits t before k after a b value la lb fa fb =
    let split = split_values-two a b la lb fa fb in
    (
      rows_dirty t before k after (rw value (rw split refl)),
      rows_staged t before k after (new_mod replace_op k (strip a ∷ strip b ∷ []) ∷ [])
          (rw value (rw split refl)),
    )
