-- ===== src/CreateDialog/Filling.antt =====
-- The full name that the dialogs for a user and a contact fill in, against a description that looks
-- back over the edits.
use sambervise.Base.{
  true, List, [], ◌∷◌, ◌++◌, ◌≡◌, refl, ap, ◌∙◌, inl, inr, arith, if◌then◌else◌, Bool-cases,
}
use mathlib.Core.List.{append-nil}
use sambervise.Base.Bytes.{Bytes}
use sambervise.Editor.{is_nonempty}
use sambervise.CreateDialog.{
  NameParts, combined, name_part_changed, cn_changed, NameEdit, to_given, to_sn, to_cn, edit_name,
  after_edits,
}

-- The texts that were typed last; the last edit stands first.
abbrev pub last_given : List NameEdit → Bytes
last_given [] = []
last_given (to_given s ∷ es) = s
last_given (to_sn _ ∷ es) = last_given es
last_given (to_cn _ ∷ es) = last_given es

abbrev pub last_sn : List NameEdit → Bytes
last_sn [] = []
last_sn (to_given _ ∷ es) = last_sn es
last_sn (to_sn s ∷ es) = s
last_sn (to_cn _ ∷ es) = last_sn es

abbrev pub last_cn : List NameEdit → Bytes
last_cn [] = []
last_cn (to_given _ ∷ es) = last_cn es
last_cn (to_sn _ ∷ es) = last_cn es
last_cn (to_cn s ∷ es) = s

-- Two words with a space between them, or the one that there is.
abbrev pub two_words : Bytes → Bytes → Bytes
two_words [] t = t
two_words (c ∷ s) [] = c ∷ s
two_words (c ∷ s) (d ∷ t) = (c ∷ s) ++ (b' ' ∷ d ∷ t)

-- The full name that is filled in: nothing just after the full name was emptied, and otherwise the
-- given name and the surname.
abbrev pub filled_in : List NameEdit → Bytes
filled_in (to_cn _ ∷ es) = []
filled_in es = two_words (last_given es) (last_sn es)

-- A full name that was typed last, and is not empty, stays.
abbrev pub full_name : List NameEdit → Bytes
full_name es = if is_nonempty (last_cn es) then last_cn es else filled_in es

combined-two_words : (s t : Bytes) → combined s t ≡ two_words s t
combined-two_words [] [] = refl
combined-two_words [] (d ∷ t) = refl
combined-two_words (c ∷ s) [] = append-nil (c ∷ s)
combined-two_words (c ∷ s) (d ∷ t) = refl

-- What a dialog holds after the edits.
record IsNamed (es : List NameEdit) : Type 0 where
  given : (after_edits es).given ≡ last_given es
  sn : (after_edits es).sn ≡ last_sn es
  manual : (after_edits es).cn_manual ≡ is_nonempty (last_cn es)
  cn : (after_edits es).cn ≡ full_name es

-- After a name part was typed: a full name that was typed is kept, and another is filled in.
part-cn :
    (n : NameParts) (typed : Bytes)
    → n.cn_manual ≡ is_nonempty typed
    → (is_nonempty typed ≡ true → n.cn ≡ typed)
    → (name_part_changed n).cn ≡ (if is_nonempty typed then typed else two_words n.given n.sn)
unfolding name_part_changed
part-cn n typed manual kept = elim (Bool-cases (is_nonempty typed)) [
  | inl named ↦ ground (arith, kept named)
  | inr empty ↦ ground (arith, combined-two_words n.given n.sn)
]

kept_name :
    (es : List NameEdit) (cn : Bytes)
    → cn ≡ full_name es
    → is_nonempty (last_cn es) ≡ true
    → cn ≡ last_cn es
kept_name es cn e named = e ∙ rw named refl

empty_name : (s : Bytes) → s ≡ (if is_nonempty s then s else [])
empty_name [] = refl
empty_name (c ∷ s) = refl

after_edits-IsNamed : (es : List NameEdit) → IsNamed es
unfolding after_edits edit_name name_part_changed cn_changed
after_edits-IsNamed [] = record { given = refl; sn = refl; manual = refl; cn = refl }
after_edits-IsNamed (to_given s ∷ es) =
    let v = after_edits-IsNamed es in
    record {
      given = ground (arith, v.given);
      sn = ground (arith, v.sn);
      manual = ground (arith, v.manual);
      cn =
          part-cn (record (after_edits es) { given = s }) (last_cn es) v.manual
            (kept_name es (after_edits es).cn v.cn)
          ∙ ap (λ t. if is_nonempty (last_cn es) then last_cn es else two_words s t) v.sn;
    }
after_edits-IsNamed (to_sn s ∷ es) =
    let v = after_edits-IsNamed es in
    record {
      given = ground (arith, v.given);
      sn = ground (arith, v.sn);
      manual = ground (arith, v.manual);
      cn =
          part-cn (record (after_edits es) { sn = s }) (last_cn es) v.manual
            (kept_name es (after_edits es).cn v.cn)
          ∙ ap (λ t. if is_nonempty (last_cn es) then last_cn es else two_words t s) v.given;
    }
after_edits-IsNamed (to_cn s ∷ es) =
    let v = after_edits-IsNamed es in
    record { given = v.given; sn = v.sn; manual = refl; cn = empty_name s }

-- After any edits of the three texts, in any order: the given name and the surname are those typed
-- last. If the full name that was typed last is not empty, the full name is that one, whatever was
-- typed since. Otherwise, just after the full name was emptied, it is empty, and in every other case
-- it is the given name and the surname, with a space between them where there are both.
pub after_edits-full_name :
    (es : List NameEdit)
    → ((after_edits es).given ≡ last_given es)
      × ((after_edits es).sn ≡ last_sn es)
      × ((after_edits es).cn ≡ full_name es)
after_edits-full_name es = let v = after_edits-IsNamed es in (v.given, v.sn, v.cn)
