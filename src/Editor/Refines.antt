-- ===== src/Editor/Refines.antt =====
-- Saving makes of the entry in the directory what the editor shows.
use sambervise.Base.{
  ◌≡◌, refl, ap, ◌∙◌, inl, inr, true, false, not, ◌&&◌, some, List, [], ◌∷◌, ◌++◌, map, arith,
  Bool-cases,
}
use mathlib.Core.List.{append-nil}
use sambervise.Base.Bytes.{Bytes, bytes_eq, bytes_eq_iff, bytes_eq_refl}
use sambervise.Ldap.{Call, Handle, Library, Mod}
use sambervise.Connection.{World}
use sambervise.Connection.Valid.{IsReady}
use sambervise.Backend.Attrs.{Table}
use sambervise.Browse.{StagedMod, new_mod, kept_values, copy_mods, to_ldap, or_nil, browse_modify}
use sambervise.Editor.{
  Row, values_of, is_nonempty, stage_row, staged_mods, stage_add, stage_change, save_clicked,
  modify_if_staged,
}
use sambervise.Editor.Text.{member, split_values, values_equal_set}
use sambervise.Editor.Sets.{SameValues, AreDistinct, values_equal_set-SameValues}
use sambervise.Editor.Saving.{
  Attrs, at, apply_all, shown, shown_all, used_names, IsLoaded, AreLoaded, sent, sent-append,
  stage_row-cases, shown-SameValues, split_values_blank,
}

SameValues-at_self :
    (a : Bytes) (vs : List Bytes) (f : Attrs)
    → SameValues (f a) vs
    → (b : Bytes) → SameValues (f b) (at a vs f b)
SameValues-at_self a vs f s b v = elim (Bool-cases (bytes_eq b a)) [
  | inl same ↦ rw (same, (bytes_eq_iff b a).0 same) (s v)
  | inr differ ↦ rw differ refl
]

-- An existing row whose values compare equal to those that were loaded.
shown_unchanged :
    (t : Table) (r : Row) (f : Attrs)
    → IsLoaded t f r
    → r.is_new ≡ false
    → values_equal_set (values_of t r.name) (split_values r.value_text) ≡ true
    → SameValues (f r.name) (split_values r.value_text)
shown_unchanged t r f (inl new) old same v = absurd (ground arith)
shown_unchanged t r f (inr (loaded, distinct)) old same v =
    ap (member v) loaded
    ∙ values_equal_set-SameValues (values_of t r.name) (split_values r.value_text) distinct same v

stage_row-shown :
    (t : Table) (r : Row) (f : Attrs)
    → IsLoaded t f r
    → (b : Bytes) → SameValues (apply_all (sent (stage_row t r)) f b) (shown r f b)
stage_row-shown t r f l b v = elim (stage_row-cases t r f) [
  | inl eq ↦ rw (eq b) refl
  | inr (inl (old, unmarked, same, nothing)) ↦ rw nothing (
      rw (old, unmarked)
        (SameValues-at_self r.name (split_values r.value_text) f (shown_unchanged t r f l old same)
          b v))
  | inr (inr (new, blank, nothing)) ↦ rw nothing (elim (Bool-cases (is_nonempty r.name)) [
    | inr unnamed ↦ rw (new, unnamed) refl
    | inl named ↦
        rw (new, named)
          (SameValues-at_self r.name (f r.name ++ split_values r.value_text) f
            (λ u. rw (split_values_blank r.value_text blank, append-nil (f r.name)) refl) b v)
  ])
]

shown-other : (r : Row) (f : Attrs) (b : Bytes) → bytes_eq b r.name ≡ false → shown r f b ≡ f b
shown-other r f b e = ground arith

stage_row-other :
    (t : Table) (r : Row) (f : Attrs) (b : Bytes)
    → bytes_eq b r.name ≡ false
    → apply_all (sent (stage_row t r)) f b ≡ f b
stage_row-other t r f b e = elim (stage_row-cases t r f) [
  | inl eq ↦ eq b ∙ shown-other r f b e
  | inr (inl (old, unmarked, same, nothing)) ↦ rw nothing refl
  | inr (inr (new, blank, nothing)) ↦ rw nothing refl
]

-- The rows that follow are of attributes that this row leaves alone.
stage_row_keeps :
    (t : Table) (r : Row) (rs : List Row) (f : Attrs) (b : Bytes)
    → AreDistinct (used_names (r ∷ rs))
    → member b (used_names rs) ≡ true
    → apply_all (sent (stage_row t r)) f b ≡ f b
unfolding stage_row
stage_row_keeps t r rs f b d m = elim (Bool-cases (r.is_new && not (is_nonempty r.name))) [
  | inl unused ↦ ground arith
  | inr used ↦ stage_row-other t r f b (ground (arith, bytes_eq_iff b r.name))
]

AreLoaded-keeps :
    (t : Table) (f f' : Attrs) (rs : List Row)
    → ((b : Bytes) → member b (used_names rs) ≡ true → f' b ≡ f b)
    → AreLoaded t f rs
    → AreLoaded t f' rs
AreLoaded-keeps t f f' [] same l = tt
AreLoaded-keeps t f f' (r ∷ rs) same (l, ls) =
    (here l, AreLoaded-keeps t f f' rs (λ b m. same b (ground (arith, m))) ls)
  where
    here : IsLoaded t f r → IsLoaded t f' r
    here (inl new) = inl new
    here (inr (loaded, distinct)) = elim (Bool-cases r.is_new) [
      | inl new ↦ inl new
      | inr old ↦ inr (same r.name (ground (arith, bytes_eq_refl r.name)) ∙ loaded, distinct)
    ]

distinct_rest :
    (r : Row) (rs : List Row) → AreDistinct (used_names (r ∷ rs)) → AreDistinct (used_names rs)
distinct_rest r rs d = ground arith

-- The modifications that are staged, on an entry `f`, give what the rows show, on an entry `g` with
-- the same values.
staged_mods-shown :
    (t : Table) (rs : List Row) (f g : Attrs)
    → AreDistinct (used_names rs)
    → AreLoaded t f rs
    → ((b : Bytes) → SameValues (f b) (g b))
    → (b : Bytes) → SameValues (apply_all (sent (staged_mods t rs)) f b) (shown_all rs g b)
unfolding staged_mods
staged_mods-shown t [] f g d l h b v = h b v
staged_mods-shown t (r ∷ rs) f g d (l, ls) h b v =
    let f' : Attrs = apply_all (sent (stage_row t r)) f in
    ap (λ (k : Attrs). member v (k b)) (sent-append (stage_row t r) (staged_mods t rs) f)
    ∙ staged_mods-shown t rs f' (shown r g) (distinct_rest r rs d)
        (AreLoaded-keeps t f f' rs (λ c m. stage_row_keeps t r rs f c d m) ls)
        (λ c u. stage_row-shown t r f l c u ∙ shown-SameValues r f g h c u) b v

-- A modification that `sbv_ldap_mod_new` copies as it is.
abbrev AreCopied : List StagedMod → Type 0
AreCopied [] = Unit
AreCopied (m ∷ ms) = (kept_values (or_nil m.values) ≡ m.values) × AreCopied ms

AreCopied-append : (ms ns : List StagedMod) → AreCopied ms → AreCopied ns → AreCopied (ms ++ ns)
AreCopied-append [] ns c d = d
AreCopied-append (m ∷ ms) ns c d = (c.0, AreCopied-append ms ns c.1 d)

copied-sent : (ms : List StagedMod) → AreCopied ms → map to_ldap (copy_mods ms) ≡ sent ms
unfolding copy_mods new_mod
copied-sent [] c = refl
copied-sent (m ∷ ms) c = rw (c.0, copied-sent ms c.1) refl

stage_add-AreCopied : (a : Bytes) (vs : List Bytes) → AreCopied (stage_add a vs)
unfolding new_mod
stage_add-AreCopied a [] = tt
stage_add-AreCopied a (v ∷ vs) = (refl, tt)

stage_change-AreCopied : (a : Bytes) (vs : List Bytes) → AreCopied (stage_change a vs)
unfolding new_mod
stage_change-AreCopied a [] = (refl, tt)
stage_change-AreCopied a (v ∷ vs) = (refl, tt)

stage_row-AreCopied : (t : Table) (r : Row) → AreCopied (stage_row t r)
unfolding stage_row
stage_row-AreCopied t r = elim (Bool-cases r.is_new) [
  | inl new ↦ elim (Bool-cases (is_nonempty r.name && is_nonempty r.value_text)) [
    | inl filled ↦ rw (new, filled) (stage_add-AreCopied r.name (split_values r.value_text))
    | inr blank ↦ rw (new, blank) tt
  ]
  | inr old ↦ elim (Bool-cases r.marked_delete) [
    | inl marked ↦ rw (old, marked) (stage_change-AreCopied r.name [])
    | inr unmarked ↦
        elim (Bool-cases (values_equal_set (values_of t r.name) (split_values r.value_text))) [
          | inl same ↦ rw (old, unmarked, same) tt
          | inr changed ↦
              rw (old, unmarked, changed)
                (stage_change-AreCopied r.name (split_values r.value_text))
        ]
  ]
]

staged_mods-AreCopied : (t : Table) (rs : List Row) → AreCopied (staged_mods t rs)
unfolding staged_mods
staged_mods-AreCopied t [] = tt
staged_mods-AreCopied t (r ∷ rs) =
    AreCopied-append (stage_row t r) (staged_mods t rs) (stage_row-AreCopied t r)
      (staged_mods-AreCopied t rs)

-- The calls of a save: none, or one modification.
abbrev pub modify_calls : Handle → Bytes → List Mod → List Call
modify_calls h dn [] = []
modify_calls h dn (m ∷ ms) = Call.modify h (some dn) (m ∷ ms) ∷ []

modify_if_staged-calls :
    (lib : Library) (w : World) (h : Handle) (dn : Bytes) (ms : List StagedMod)
    → IsReady h w
    → (modify_if_staged (some dn) ms lib w).1.calls
      ≡ modify_calls h dn (map to_ldap (copy_mods ms)) ++ w.calls
unfolding browse_modify copy_mods
modify_if_staged-calls lib w h dn [] ready = refl
modify_if_staged-calls lib w h dn (m ∷ ms) ready = ground arith

-- On a connection that is up, for rows of different names whose attributes stand in the directory
-- as they were loaded, no value of them twice: a save makes at most one call, a modification of the
-- entry that was loaded, and what it does to the entry gives every attribute the values that the
-- editor shows, their order and repetitions aside: an existing row those of its line, or none where
-- it is marked for deletion, and a new row those that it adds; what no row names stays as it is.
pub save_clicked_refines :
    (lib : Library) (w : World) (h : Handle) (dn : Bytes) (t : Table) (rs : List Row) (f : Attrs)
    → IsReady h w
    → AreDistinct (used_names rs)
    → AreLoaded t f rs
    → (ms : List Mod) × ((save_clicked (some dn) t rs lib w).1.calls
        ≡ modify_calls h dn ms ++ w.calls)
      × ((b : Bytes) → SameValues (apply_all ms f b) (shown_all rs f b))
unfolding save_clicked
save_clicked_refines lib w h dn t rs f ready d l = (
  sent (staged_mods t rs),
  rw (← copied-sent (staged_mods t rs) (staged_mods-AreCopied t rs))
      (modify_if_staged-calls lib w h dn (staged_mods t rs) ready),
  λ b. staged_mods-shown t rs f f d l (λ c v. refl) b,
)
