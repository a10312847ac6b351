-- ===== src/Panel/Reached.antt =====
-- src/ui/sbv-users-panel.c: what holds in every state that the panel comes to.
use sambervise.Base.{
  ℕ, Bool, true, Option, none, some, List, [], ◌∷◌, ◌++◌, ◌≡◌, ◌≢◌, ◌⊎◌, inl, inr, refl, sym, ◌∙◌,
  arith,
}
use sambervise.Base.Bytes.{Bytes, or_empty}
use sambervise.Users.{User}
use sambervise.Panel.{
  Panel, delete_btn, save_btn, set_pw_btn, save_policy_btn, rfc_save_btn, Request, load,
  delete_request, both, new_panel,
}
use sambervise.Panel.Expiry.{Dates}
use sambervise.Panel.Saving.{
  Handled, save_clicked, set_pw_clicked, policy_expires, save_policy_clicked, rfc_save_clicked,
}
use sambervise.Panel.Ids.{fire_uid_check, fire_gid_check, do_suggest}
use sambervise.Panel.Steps.{
  Event, select_row, edit_form, set_sync, click, suggest, uid_timeout, gid_timeout, type_name,
  confirm_delete, close_confirm, created, connected, handle, CanHappen, answer, Step, event, reply,
  Leads, begin, next, delete_btn_clicked, confirm_entered, confirm_delete_clicked, user_created,
  edited, confirmed, typed_name,
}
use sambervise.Panel.Buttons.{
  IsSteady, in_flight, in_flight-append, answer-each, handle-each, row_selected-buttons,
}
use sambervise.Panel.Aim.{IsAimed}
use sambervise.Panel.Deleting.{answer-IsAimed, handle-IsAimed, answer-dialog}

typed_none : (typed : Bytes) (o : Option (Bytes × Bool)) → o ≡ none → typed_name typed o ≡ none
typed_none typed o e = rw e refl

handle-dialog :
    (d : Dates) (e : Event) (p : Panel)
    → CanHappen e p
    → (p.confirm ≢ none → (p.buttons delete_btn).sensitive ≡ true)
    → (handle d e p).0.confirm ≢ none
    → ((handle d e p).0.buttons delete_btn).sensitive ≡ true
unfolding handle load save_clicked set_pw_clicked policy_expires save_policy_clicked
    rfc_save_clicked fire_uid_check fire_gid_check do_suggest delete_btn_clicked confirm_entered
    confirm_delete_clicked user_created edited
handle-dialog d (select_row r) p can dialog opened =
    let (same, kept) = row_selected-buttons d r p delete_btn in
    same ∙ dialog (λ c. opened (kept ∙ c))
handle-dialog d (edit_form f) p can dialog opened = ground arith
handle-dialog d (set_sync parts full) p can dialog opened = ground arith
handle-dialog d (click save_btn) p can dialog opened = ground arith
handle-dialog d (click set_pw_btn) p can dialog opened = ground arith
handle-dialog d (click save_policy_btn) p can dialog opened = ground arith
handle-dialog d (click delete_btn) p can dialog opened = ground arith
handle-dialog d (click rfc_save_btn) p can dialog opened = ground arith
handle-dialog d (suggest is_uid) p can dialog opened = ground arith
handle-dialog d uid_timeout p can dialog opened = ground arith
handle-dialog d gid_timeout p can dialog opened = ground arith
handle-dialog d (type_name typed) p can dialog opened =
    dialog (λ c. opened (typed_none typed p.confirm c))
handle-dialog d confirm_delete p can dialog opened = ground arith
handle-dialog d close_confirm p can dialog opened = ground arith
handle-dialog d (created c dn) p can dialog opened = ground arith
handle-dialog d (connected c) p can dialog opened = ground arith

Step-IsSteady : (d : Dates) (s t : Handled) → Step d s t → IsSteady s → IsSteady t
Step-IsSteady d _ _ (event e p qs can) v = record {
  each = λ b.
      rw (in_flight-append b (handle d e p).1 qs)
        (handle-each d e p b (in_flight b qs) can v.dialog (v.each b));
  dialog = handle-dialog d e p can v.dialog;
}
Step-IsSteady d _ _ (reply before q after r p) v = record {
  each = λ b. rw (in_flight-append b (answer d q r p).1 (before ++ after)) (
      answer-each d q r p b (in_flight b (before ++ after)) (
        omega (
          arith,
          v.each b,
          in_flight-append b before after,
          in_flight-append b before (q ∷ after),
        )));
  dialog = λ opened.
      let (same, kept) = answer-dialog d q r p in kept (v.dialog (λ c. opened (same ∙ c)));
}

Step-IsAimed : (d : Dates) (s t : Handled) → Step d s t → IsAimed s.0 → IsAimed t.0
Step-IsAimed d _ _ (event e p qs can) v = handle-IsAimed d e p can v
Step-IsAimed d _ _ (reply before q after r p) v = answer-IsAimed d q r p v

new_panel-IsSteady : (users : ℕ → User) → IsSteady (new_panel users, [])
new_panel-IsSteady users = record { each = λ b. refl; dialog = λ opened. refl }

new_panel-IsAimed : (users : ℕ → User) → IsAimed (new_panel users)
new_panel-IsAimed users = record {
  known = λ r e. ground (arith, e);
  aimed = λ x r c e. ground (arith, c);
  named = λ x c. ground (arith, c);
  settled = λ x c. ground (arith, c);
  paged = λ e. refl;
}

-- In every state that a new panel comes to, by any handlers and any replies in any order: each of
-- the five buttons that start a change is sensitive exactly if no change of its own is in flight,
-- of which there is at most one, and the dialog for a deletion is open only while the button for a
-- deletion is sensitive.
pub Leads-IsSteady :
    (d : Dates) (users : ℕ → User) (s : Handled) → Leads d (new_panel users, []) s → IsSteady s
Leads-IsSteady d users _ begin = new_panel-IsSteady users
Leads-IsSteady d users _ (next {t} {u} r step) =
    Step-IsSteady d t u step (Leads-IsSteady d users t r)

Leads-IsAimed :
    (d : Dates) (users : ℕ → User) (s : Handled) → Leads d (new_panel users, []) s → IsAimed s.0
Leads-IsAimed d users _ begin = new_panel-IsAimed users
Leads-IsAimed d users _ (next {t} {u} r step) = Step-IsAimed d t u step (Leads-IsAimed d users t r)

confirmed_right :
    (p : Panel) (expected : Bytes) (c selected : Option ℕ)
    → selected ≡ p.selected_user
    → p.confirm ≡ some (expected, true)
    → IsAimed p
    → let new = (confirmed (both c selected) p).1 in
      (new ≡ [])
      ⊎ ((c' : ℕ) × (r : ℕ) × (new ≡ delete_request c' r ∷ [])
          × (or_empty (p.users r).sam ≡ expected))
confirmed_right p expected none s e h v = inl refl
confirmed_right p expected (some c) none e h v = inl refl
confirmed_right p expected (some c) (some r) e h v =
    inr (c, r, refl, v.aimed (expected, true) r h (sym e))

-- In every state that a new panel comes to: if the dialog has accepted the name that was typed,
-- then its button deletes nothing, or one user, the one with that name, although lists may have
-- been loaded and connections made since it was opened.
pub confirm_delete_clicked_lem :
    (d : Dates) (users : ℕ → User) (p : Panel) (qs : List Request) (expected : Bytes)
    → Leads d (new_panel users, []) (p, qs)
    → p.confirm ≡ some (expected, true)
    → let new = (confirm_delete_clicked p).1 in
      (new ≡ [])
      ⊎ ((c : ℕ) × (r : ℕ) × (new ≡ delete_request c r ∷ [])
          × (or_empty (p.users r).sam ≡ expected))
unfolding confirm_delete_clicked
confirm_delete_clicked_lem d users p qs expected l h =
    confirmed_right p expected p.conn p.selected_user refl h (Leads-IsAimed d users (p, qs) l)
