-- ===== src/ContactPanel/Homonyms.antt =====
-- src/ui/sbv-contacts-panel.c: contacts of the same name, as those of different containers may be.
use sambervise.Base.{
  ℕ, ◌<◌, true, false, Option, none, some, List, [], ◌∷◌, ◌++◌, ◌≡◌, refl, ap, ◌∙◌, if◌then◌else◌,
  arith,
}
use sambervise.Base.Bytes.{Bytes, bytes_eq_refl}
use sambervise.Contacts.{Contact}
use sambervise.Editor.{is_nonempty}
use sambervise.ContactPanel.{
  ContactPanel, delete_contact_request, load_contact_into_detail, contact_selected, Target, by_cn,
  is_target, reload_target, add_contact_row, add_contact_rows, contacts_loaded, page_of,
}
use sambervise.ContactPanel.Saving.{delete_clicked, confirm_entered, delete_confirmed}

abbrev pub AreOthers : Target → List Contact → Type 0
AreOthers t [] = Unit
AreOthers t (k ∷ ks) = (is_target t k ≡ false) × AreOthers t ks

-- The loop keeps the row that it has chosen.
add_contact_rows-kept :
    (t : Target) (ks : List Contact) (p : ContactPanel) (s : ℕ)
    → s < p.unused
    → let q = add_contact_rows t ks p (some s) in
      (q.1 ≡ some s) × (q.0.contacts s ≡ p.contacts s) × (q.0.conn ≡ p.conn)
unfolding add_contact_rows add_contact_row
add_contact_rows-kept t [] p s h = (refl, refl, refl)
add_contact_rows-kept t (k ∷ ks) p s h =
    let (e, same, conn) = add_contact_rows-kept t ks (add_contact_row k p) s (omega arith) in
    (e, same ∙ ground arith, conn)

-- It chooses the first contact that is looked for.
add_contact_rows-found :
    (t : Target) (before : List Contact) (k : Contact) (after : List Contact) (p : ContactPanel)
    → AreOthers t before
    → is_target t k ≡ true
    → let q = add_contact_rows t (before ++ (k ∷ after)) p none in
      (s : ℕ) × (q.1 ≡ some s) × (q.0.contacts s ≡ k) × (q.0.conn ≡ p.conn)
unfolding add_contact_rows add_contact_row
add_contact_rows-found t [] k after p others found =
    let (e, same, conn) =
      add_contact_rows-kept t after (add_contact_row k p) p.unused (omega arith) in
    let pick = ap (λ b. if b then some p.unused else none) found in
    let q = λ (o : Option ℕ). add_contact_rows t after (add_contact_row k p) o in
    (
      p.unused,
      ap (λ o. (q o).1) pick ∙ e,
      ap (λ o. (q o).0.contacts p.unused) pick ∙ (same ∙ ground arith),
      ap (λ o. (q o).0.conn) pick ∙ conn,
    )
add_contact_rows-found t (j ∷ before) k after p (other, others) found =
    let (s, e, same, conn) =
      add_contact_rows-found t before k after (add_contact_row j p) others found in
    let pick = ap (λ b. if b then some p.unused else none) other in
    let q = λ (o : Option ℕ). add_contact_rows t (before ++ (k ∷ after)) (add_contact_row j p) o in
    (
      s,
      ap (λ o. (q o).1) pick ∙ e,
      ap (λ o. (q o).0.contacts s) pick ∙ same,
      ap (λ o. (q o).0.conn) pick ∙ conn,
    )

-- What a load leaves when the first contact that is looked for is `k`.
contacts_loaded-found :
    (before : List Contact) (k : Contact) (after : List Contact) (p : ContactPanel)
    → AreOthers (reload_target p) before
    → is_target (reload_target p) k ≡ true
    → let q = contacts_loaded (before ++ (k ∷ after)) p in
      (s : ℕ) × (q.selected_contact ≡ some s) × (q.contacts s ≡ k) × (q.conn ≡ p.conn)
unfolding contacts_loaded contact_selected load_contact_into_detail
contacts_loaded-found before k after p others found =
    let (s, e, same, conn) =
      add_contact_rows-found (reload_target p) before k after
        (record p { rows = []; pending_select_dn = none }) others found in
    let q =
      add_contact_rows (reload_target p) (before ++ (k ∷ after))
        (record p { rows = []; pending_select_dn = none }) none in
    let shown = record (q.0) { outer = page_of (before ++ (k ∷ after)) } in
    (
      s,
      ap (λ o. (contact_selected o shown).selected_contact) e,
      ap (λ o. (contact_selected o shown).contacts s) e ∙ same,
      ap (λ o. (contact_selected o shown).conn) e ∙ conn,
    )

-- The dialog on a contact that is selected, with its name typed.
confirmed_named :
    (q : ContactPanel) (c s : ℕ) (name : Bytes)
    → q.conn ≡ some c
    → q.selected_contact ≡ some s
    → (q.contacts s).cn ≡ some name
    → is_nonempty name ≡ true
    → let q' = confirm_entered name (delete_clicked q) in
      (q'.confirm ≡ some (name, true)) × ((delete_confirmed q').1 ≡ delete_contact_request c s ∷ [])
unfolding delete_clicked confirm_entered delete_confirmed
confirmed_named q c s [] conn selected named filled = ground arith
confirmed_named q c s (x ∷ name) conn selected named filled =
    ground (arith, bytes_eq_refl (x ∷ name))

reloaded :
    (p : ContactPanel) (r : ℕ) (name : Bytes)
    → p.selected_contact ≡ some r
    → p.pending_select_dn ≡ none
    → (p.contacts r).cn ≡ some name
    → reload_target p ≡ by_cn name
unfolding reload_target
reloaded p r name selected settled named = rw (selected, settled, named) refl

-- With the contact `r` selected, and its list loaded again, as after each save: if the first contact
-- of its name in the new list is `k`, then `k` is selected, whatever its DN is, and when the deletion
-- is confirmed with that name, it is `k` that is deleted.
pub delete_confirmed_homonym :
    (p : ContactPanel) (c r : ℕ) (name : Bytes) (before : List Contact) (k : Contact)
    (after : List Contact)
    → p.conn ≡ some c
    → p.selected_contact ≡ some r
    → p.pending_select_dn ≡ none
    → (p.contacts r).cn ≡ some name
    → is_nonempty name ≡ true
    → AreOthers (by_cn name) before
    → k.cn ≡ some name
    → let p₁ = contacts_loaded (before ++ (k ∷ after)) p in
      let p₂ = confirm_entered name (delete_clicked p₁) in
      (s : ℕ) × (p₁.selected_contact ≡ some s)
      × (p₁.contacts s ≡ k)
      × (p₂.confirm ≡ some (name, true))
      × ((delete_confirmed p₂).1 ≡ delete_contact_request c s ∷ [])
delete_confirmed_homonym p c r name before k after conn selected settled named filled others same =
    let aim = reloaded p r name selected settled named in
    let (s, chosen, held, still) =
      contacts_loaded-found before k after p (rw aim others)
        (rw aim (rw same (bytes_eq_refl name))) in
    let (entered, sent) =
      confirmed_named (contacts_loaded (before ++ (k ∷ after)) p) c s name (still ∙ conn) chosen
        (ap (λ j. j.cn) held ∙ same) filled in
    (s, chosen, held, entered, sent)
