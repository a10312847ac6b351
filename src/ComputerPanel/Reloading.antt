-- ===== src/ComputerPanel/Reloading.antt =====
-- src/ui/sbv-computers-panel.c: the computer that is selected after the list was loaded again.
use sambervise.Base.{
  ℕ, ◌<◌, true, false, Option, none, some, List, [], ◌∷◌, ◌++◌, ◌≡◌, refl, ap, ◌∙◌, if◌then◌else◌,
  arith,
}
use sambervise.Base.Bytes.{Bytes, bytes_eq_refl, or_empty}
use sambervise.Computers.{Computer}
use sambervise.SpnEditor.{load_spns}
use sambervise.ComputerPanel.{
  ComputerPanel, load_computer_into_detail, computer_selected, Target, by_sam, is_target,
  reload_target, add_computer_row, add_computer_rows, computers_loaded, page_of,
}

abbrev AreOthers : Target → List Computer → Type 0
AreOthers t [] = Unit
AreOthers t (k ∷ ks) = (is_target t k ≡ false) × AreOthers t ks

-- The loop keeps the row that it has chosen.
add_computer_rows-kept :
    (t : Target) (ks : List Computer) (p : ComputerPanel) (s : ℕ)
    → s < p.unused
    → let q = add_computer_rows t ks p (some s) in
      (q.1 ≡ some s) × (q.0.computers s ≡ p.computers s)
unfolding add_computer_rows add_computer_row
add_computer_rows-kept t [] p s h = (refl, refl)
add_computer_rows-kept t (k ∷ ks) p s h =
    let (e, same) = add_computer_rows-kept t ks (add_computer_row k p) s (omega arith) in
    (e, same ∙ ground arith)

-- It chooses the first computer that is looked for, and none where there is none.
add_computer_rows-found :
    (t : Target) (before : List Computer) (k : Computer) (after : List Computer) (p : ComputerPanel)
    → AreOthers t before
    → is_target t k ≡ true
    → let q = add_computer_rows t (before ++ (k ∷ after)) p none in
      (s : ℕ) × (q.1 ≡ some s) × (q.0.computers s ≡ k)
unfolding add_computer_rows add_computer_row
add_computer_rows-found t [] k after p others found =
    let (e, same) = add_computer_rows-kept t after (add_computer_row k p) p.unused (omega arith) in
    let pick = ap (λ b. if b then some p.unused else none) found in
    let q = λ (o : Option ℕ). add_computer_rows t after (add_computer_row k p) o in
    (
      p.unused,
      ap (λ o. (q o).1) pick ∙ e,
      ap (λ o. (q o).0.computers p.unused) pick ∙ (same ∙ ground arith),
    )
add_computer_rows-found t (j ∷ before) k after p (other, others) found =
    let (s, e, same) =
      add_computer_rows-found t before k after (add_computer_row j p) others found in
    let pick = ap (λ b. if b then some p.unused else none) other in
    let q =
      λ (o : Option ℕ). add_computer_rows t (before ++ (k ∷ after)) (add_computer_row j p) o in
    (s, ap (λ o. (q o).1) pick ∙ e, ap (λ o. (q o).0.computers s) pick ∙ same)

add_computer_rows-lost :
    (t : Target) (ks : List Computer) (p : ComputerPanel)
    → AreOthers t ks
    → (add_computer_rows t ks p none).1 ≡ none
unfolding add_computer_rows
add_computer_rows-lost t [] p others = refl
add_computer_rows-lost t (k ∷ ks) p (other, others) =
    ap (λ b. (add_computer_rows t ks (add_computer_row k p) (if b then some p.unused else none)).1)
      other
    ∙ add_computer_rows-lost t ks (add_computer_row k p) others

reloaded :
    (p : ComputerPanel) (r : ℕ) (name : Bytes)
    → p.selected_computer ≡ some r
    → p.pending_select_dn ≡ none
    → (p.computers r).sam ≡ some name
    → reload_target p ≡ by_sam name
unfolding reload_target
reloaded p r name selected settled named = rw (selected, settled, named) refl

-- With a computer selected, and its list loaded again, as after each save: the first computer of its
-- account name in the new list is selected, and the detail pane shows its texts and its service
-- principal names, as they are in the new list.
computers_loaded_selects :
    (p : ComputerPanel) (r : ℕ) (name : Bytes) (before : List Computer) (k : Computer)
    (after : List Computer)
    → p.selected_computer ≡ some r
    → p.pending_select_dn ≡ none
    → (p.computers r).sam ≡ some name
    → AreOthers (by_sam name) before
    → k.sam ≡ some name
    → let q = computers_loaded (before ++ (k ∷ after)) p in
      (s : ℕ) × (q.selected_computer ≡ some s)
      × (q.computers s ≡ k)
      × (q.detail_shown ≡ true)
      × (q.description ≡ or_empty k.description)
      × (q.dns_hostname ≡ or_empty k.dns_hostname)
      × (q.enabled ≡ k.enabled)
      × (q.editor ≡ some (load_spns k))
unfolding computers_loaded computer_selected load_computer_into_detail
computers_loaded_selects p r name before k after selected settled named others same =
    let aim = reloaded p r name selected settled named in
    let cleared = record p { rows = []; pending_select_dn = none } in
    let (s, e, held) =
      add_computer_rows-found (reload_target p) before k after cleared (rw aim others)
        (rw aim (rw same (bytes_eq_refl name))) in
    let loaded = (add_computer_rows (reload_target p) (before ++ (k ∷ after)) cleared none).0 in
    let shown = record loaded { outer = page_of (before ++ (k ∷ after)) } in
    let q = λ (o : Option ℕ). computer_selected o shown in
    (
      s,
      ap (λ o. (q o).selected_computer) e,
      ap (λ o. (q o).computers s) e ∙ held,
      ap (λ o. (q o).detail_shown) e,
      ap (λ o. (q o).description) e ∙ ap (λ j. or_empty j.description) held,
      ap (λ o. (q o).dns_hostname) e ∙ ap (λ j. or_empty j.dns_hostname) held,
      ap (λ o. (q o).enabled) e ∙ ap (λ j. j.enabled) held,
      ap (λ o. (q o).editor) e ∙ ap (λ j. some (load_spns j)) held,
    )

-- If the new list has no computer of that name, no computer is shown.
computers_loaded_hides :
    (p : ComputerPanel) (r : ℕ) (name : Bytes) (ks : List Computer)
    → p.selected_computer ≡ some r
    → p.pending_select_dn ≡ none
    → (p.computers r).sam ≡ some name
    → AreOthers (by_sam name) ks
    → (computers_loaded ks p).detail_shown ≡ false
unfolding computers_loaded computer_selected
computers_loaded_hides p r name ks selected settled named others =
    let cleared = record p { rows = []; pending_select_dn = none } in
    let e =
      add_computer_rows-lost (reload_target p) ks cleared
        (rw (reloaded p r name selected settled named) others) in
    let loaded = (add_computer_rows (reload_target p) ks cleared none).0 in
    ap (λ (o : Option ℕ). (computer_selected o (record loaded { outer = page_of ks })).detail_shown)
      e
