-- ===== src/SpnEditor/Tracked.antt =====
-- src/ui/sbv-computers-panel.c: when the button that saves the names can be clicked.
use sambervise.Base.{
  Bool, true, false, not, ◌&&◌, none, List, [], ◌∷◌, ◌++◌, map, ◌≡◌, ◌⊎◌, inl, inr, refl, ap, ◌∙◌,
  arith, Bool-cases,
}
use sambervise.Base.Bytes.{Bytes, bytes_eq, bytes_eq_iff, bytes_eq_refl}
use sambervise.Browse.{lower}
use sambervise.Computers.{Computer}
use sambervise.Editor.{is_nonempty}
use sambervise.Editor.Text.{member, values_equal_set}
use sambervise.Editor.Loading.{values_equal_set_self}
use sambervise.Editor.Sets.{SameValues, AreDistinct, values_equal_set-SameValues}
use sambervise.SpnEditor.{
  SpnEditor, spns_of, is_uninitialized, load_spns, update_spn_dirty, without, remove_clicked,
  is_listed, has_service_host, add_clicked, add_on, Edits, begin, type_text, add, remove,
}

without_lacks :
    (w v : Bytes) (us : List Bytes) → member w us ≡ false → member w (without v us) ≡ false
without_lacks w v [] h = refl
without_lacks w v (u ∷ us) h = ground (arith, without_lacks w v us)

without-AreDistinct : (v : Bytes) (us : List Bytes) → AreDistinct us → AreDistinct (without v us)
without-AreDistinct v [] d = tt
without-AreDistinct v (u ∷ us) d =
    ground (arith, without-AreDistinct v us d.1, without_lacks u v us d.0)

listed_member :
    (typed : Bytes) (vs : List Bytes) → is_listed typed vs ≡ false → member typed vs ≡ false
listed_member typed [] h = refl
listed_member typed (v ∷ vs) h =
    ground (arith, listed_member typed vs, bytes_eq_iff typed v, bytes_eq_refl (map lower typed))

append_lacks :
    (w t : Bytes) (vs : List Bytes)
    → member w vs ≡ false
    → bytes_eq w t ≡ false
    → member w (vs ++ (t ∷ [])) ≡ false
append_lacks w t [] h n = ground arith
append_lacks w t (v ∷ vs) h n = ground (arith, append_lacks w t vs)

append-AreDistinct :
    (t : Bytes) (vs : List Bytes)
    → AreDistinct vs
    → member t vs ≡ false
    → AreDistinct (vs ++ (t ∷ []))
append-AreDistinct t [] d h = (refl, tt)
append-AreDistinct t (v ∷ vs) d h = ground (
  arith,
  append-AreDistinct t vs d.1,
  append_lacks v t vs d.0,
  bytes_eq_iff t v,
  bytes_eq_iff v t,
)

-- The working list has no name twice, and the button is sensitive exactly if the list differs from
-- the names of the computer, which has joined.
record IsTracked (k : Computer) (e : SpnEditor) : Type 0 where
  same : e.selected ≡ k
  distinct : AreDistinct e.working_spns
  tracked :
      e.save_sensitive
      ≡ (not (values_equal_set e.working_spns (spns_of k)) && not (is_uninitialized k))

updated :
    (k : Computer) (e : SpnEditor)
    → e.selected ≡ k
    → AreDistinct e.working_spns
    → IsTracked k (update_spn_dirty e)
updated k e same distinct = record {
  same = same;
  distinct = distinct;
  tracked =
      ap (λ x. not (values_equal_set e.working_spns (spns_of x)) && not (is_uninitialized x)) same;
}

add_on-IsTracked :
    (k : Computer) (e : SpnEditor) (a b c d : Bool)
    → is_listed e.new_text e.working_spns ≡ d
    → IsTracked k e
    → IsTracked k (add_on a b c d e)
add_on-IsTracked k e true b c d h v = v
add_on-IsTracked k e false false c d h v = record {
  same = v.same;
  distinct = v.distinct;
  tracked = v.tracked;
}
add_on-IsTracked k e false true false d h v = record {
  same = v.same;
  distinct = v.distinct;
  tracked = v.tracked;
}
add_on-IsTracked k e false true true true h v = record {
  same = v.same;
  distinct = v.distinct;
  tracked = v.tracked;
}
add_on-IsTracked k e false true true false h v =
    updated k
      (record e { error = none; working_spns = e.working_spns ++ (e.new_text ∷ []); new_text = [] })
      v.same
      (append-AreDistinct e.new_text e.working_spns v.distinct
        (listed_member e.new_text e.working_spns h))

Edits-IsTracked :
    (k : Computer) (e : SpnEditor) → AreDistinct (spns_of k) → Edits (load_spns k) e → IsTracked k e
unfolding load_spns add_clicked remove_clicked
Edits-IsTracked k _ d begin = record {
  same = refl;
  distinct = d;
  tracked = ground (arith, values_equal_set_self (spns_of k));
}
Edits-IsTracked k _ d (type_text {f} s r) =
    let v = Edits-IsTracked k f d r in
    record { same = v.same; distinct = v.distinct; tracked = v.tracked }
Edits-IsTracked k _ d (add {f} r) =
    add_on-IsTracked k f (is_uninitialized f.selected) (is_nonempty f.new_text)
      (has_service_host f.new_text) (is_listed f.new_text f.working_spns) refl
      (Edits-IsTracked k f d r)
Edits-IsTracked k _ d (remove {f} v r) =
    let t = Edits-IsTracked k f d r in
    updated k (record f { working_spns = without v f.working_spns }) t.same
      (without-AreDistinct v f.working_spns t.distinct)

-- After any edits of the names of a computer that has joined and has no name twice, the working list
-- has no name twice, and the button that saves it is sensitive, or the list has just the names that
-- the computer has.
pub Edits-SameValues :
    (k : Computer) (e : SpnEditor)
    → AreDistinct (spns_of k)
    → is_uninitialized k ≡ false
    → Edits (load_spns k) e
    → AreDistinct e.working_spns
      × ((e.save_sensitive ≡ true) ⊎ SameValues e.working_spns (spns_of k))
Edits-SameValues k e d joined r =
    let t = Edits-IsTracked k e d r in
    (
      t.distinct,
      elim (Bool-cases (values_equal_set e.working_spns (spns_of k))) [
        | inl s ↦ inr (values_equal_set-SameValues e.working_spns (spns_of k) t.distinct s)
        | inr s ↦ inl (t.tracked ∙ rw s (rw joined refl))
      ],
    )
