-- ===== src/Panel/Deleting.antt =====
-- src/ui/sbv-users-panel.c: every state that the panel comes to, from one in which nothing has
-- happened.
use sambervise.Base.{
  ℕ, Bool, true, false, Option, none, some, [], ◌∷◌, ◌≡◌, inl, inr, refl, sym, ap, ◌∙◌, arith,
}
use mathlib.Core.Option.{some-injective}
use sambervise.Base.Bytes.{Bytes, or_empty, is_filled}
use sambervise.Editor.{is_nonempty}
use sambervise.Panel.{
  Panel, delete_btn, save_btn, set_pw_btn, save_policy_btn, rfc_save_btn, Request, load,
  list_request, update_attrs_request, set_enabled_request, reset_password_request,
  set_password_flags_request, set_unix_attrs_request, delete_request, uid_check_request,
  gid_check_request, next_free_request, hints_request, both, split,
}
use sambervise.Panel.Expiry.{Dates}
use sambervise.Panel.Saving.{
  save_clicked, update_model, renamed, update_attrs_done, enable_model, set_enabled_done,
  set_pw_clicked, reset_pw_done, policy_expires, save_policy_clicked, save_policy_done,
  rfc_save_clicked, rfc_save_done,
}
use sambervise.Panel.Ids.{
  uid_collision_done, gid_collision_done, fire_uid_check, fire_gid_check, suggest_done, do_suggest,
  hints_done, uid_entered, gid_entered,
}
use sambervise.Panel.Steps.{
  Event, select_row, edit_form, set_sync, click, suggest, uid_timeout, gid_timeout, type_name,
  confirm_delete, close_confirm, created, connected, handle, CanHappen, ReplyTo, answer,
  delete_btn_clicked, confirm_entered, confirm_delete_clicked, delete_done, user_created, edited,
  open_if, show_delete_confirm, confirmed, typed_name,
}
use sambervise.Panel.Buttons.{users_loaded-buttons}
use sambervise.Panel.Aim.{IsAimed, SameAim-IsAimed, users_loaded-IsAimed, row_selected-IsAimed}

deleted-IsAimed : (p : Panel) (c : ℕ) (r : Option Bytes) → IsAimed p → IsAimed (delete_done c r p).0
unfolding delete_done load
deleted-IsAimed p c none v = record {
  known = λ r e. ground (arith, e);
  aimed = λ x r e h. ground (arith, h);
  named = v.named;
  settled = v.settled;
  paged = λ e. ground (arith, e);
}
deleted-IsAimed p c (some message) v = SameAim-IsAimed p _ (λ s. ground arith) v

pub answer-IsAimed :
    (d : Dates) (q : Request) (r : ReplyTo q) (p : Panel) → IsAimed p → IsAimed (answer d q r p).0
unfolding answer load update_attrs_done set_enabled_done reset_pw_done save_policy_done
    rfc_save_done uid_collision_done gid_collision_done suggest_done hints_done update_model renamed
    enable_model uid_entered gid_entered
answer-IsAimed d (list_request c) (inl m) p v = SameAim-IsAimed p _ (λ s. ground arith) v
answer-IsAimed d (list_request c) (inr us) p v = users_loaded-IsAimed d us p v
answer-IsAimed d (update_attrs_request c _ _ need enabled) r p v =
    SameAim-IsAimed p _ (λ s. ground arith) v
answer-IsAimed d (set_enabled_request c _ enabled) r p v = SameAim-IsAimed p _ (λ s. ground arith) v
answer-IsAimed d (reset_password_request c _ _) r p v = SameAim-IsAimed p _ (λ s. ground arith) v
answer-IsAimed d (set_password_flags_request c _ _ _ _) r p v =
    SameAim-IsAimed p _ (λ s. ground arith) v
answer-IsAimed d (set_unix_attrs_request c _ _) r p v = SameAim-IsAimed p _ (λ s. ground arith) v
answer-IsAimed d (delete_request c _) r p v = deleted-IsAimed p c r v
answer-IsAimed d (uid_check_request _ value _) r p v = SameAim-IsAimed p _ (λ s. ground arith) v
answer-IsAimed d (gid_check_request _ value _) r p v = SameAim-IsAimed p _ (λ s. ground arith) v
answer-IsAimed d (next_free_request is_uid _ _ _) r p v = SameAim-IsAimed p _ (λ s. ground arith) v
answer-IsAimed d (hints_request is_uid _) h p v = SameAim-IsAimed p _ (λ s. ground arith) v

closed-IsAimed :
    (p p' : Panel)
    → p'.confirm ≡ none
    → p'.selected_user ≡ p.selected_user
    → p'.unused ≡ p.unused
    → (p'.outer ≡ split → p'.pending_select_dn ≡ none)
    → IsAimed p
    → IsAimed p'
closed-IsAimed p p' closed selected unused paged v = record {
  known = λ r e. rw unused (v.known r (sym selected ∙ e));
  aimed = λ x r c e. ground (arith, closed, c);
  named = λ x c. ground (arith, closed, c);
  settled = λ x c. ground (arith, closed, c);
  paged = paged;
}

filled_nonempty : (s : Option Bytes) → is_filled s ≡ true → is_nonempty (or_empty s) ≡ true
filled_nonempty none e = e
filled_nonempty (some []) e = e
filled_nonempty (some (c ∷ s)) e = e

opened-IsAimed :
    (p : Panel) (s : ℕ)
    → p.selected_user ≡ some s
    → is_filled (p.users s).sam ≡ true
    → p.outer ≡ split
    → IsAimed p
    → IsAimed (record p { confirm = some (or_empty (p.users s).sam, false) })
opened-IsAimed p s e filled shown v = record {
  known = v.known;
  aimed = λ x r c h.
      ap (λ n. or_empty (p.users n).sam) (some-injective _ _ (sym h ∙ e))
      ∙ ap (λ y. y.0) (some-injective _ _ c);
  named = λ x c.
      ap (λ y. is_nonempty y.0) (sym (some-injective _ _ c))
      ∙ filled_nonempty (p.users s).sam filled;
  settled = λ x c. v.paged shown;
  paged = v.paged;
}

opened_if-IsAimed :
    (p : Panel) (s : ℕ) (b : Bool)
    → is_filled (p.users s).sam ≡ b
    → p.selected_user ≡ some s
    → p.outer ≡ split
    → IsAimed p
    → IsAimed (open_if b (or_empty (p.users s).sam) p)
opened_if-IsAimed p s true filled e shown v = opened-IsAimed p s e filled shown v
opened_if-IsAimed p s false filled e shown v = v

shown-IsAimed :
    (p : Panel) (o : Option ℕ)
    → p.selected_user ≡ o
    → p.outer ≡ split
    → IsAimed p
    → IsAimed (show_delete_confirm o p)
shown-IsAimed p none e shown v = v
shown-IsAimed p (some s) e shown v =
    opened_if-IsAimed p s (is_filled (p.users s).sam) refl e shown v

typed_same :
    (typed : Bytes) (o : Option (Bytes × Bool)) (x : Bytes × Bool)
    → typed_name typed o ≡ some x
    → (y : Bytes × Bool) × (o ≡ some y) × (y.0 ≡ x.0)
typed_same typed none x e = ground (arith, e)
typed_same typed (some y) x e = (y, refl, ap (λ z. z.0) (some-injective _ x e))

typed-IsAimed : (typed : Bytes) (p : Panel) → IsAimed p → IsAimed (confirm_entered typed p)
unfolding confirm_entered
typed-IsAimed typed p v = record {
  known = v.known;
  aimed =
      λ x r c e. let (y, was, same) = typed_same typed p.confirm x c in v.aimed y r was e ∙ same;
  named = λ x c. let (y, was, same) = typed_same typed p.confirm x c in rw (← same) (v.named y was);
  settled = λ x c. let (y, was, _) = typed_same typed p.confirm x c in v.settled y was;
  paged = v.paged;
}

unlocked-IsAimed : (p : Panel) (cr : Option (ℕ × ℕ)) → IsAimed p → IsAimed (confirmed cr p).0
unlocked-IsAimed p none v = closed-IsAimed p _ refl refl refl v.paged v
unlocked-IsAimed p (some (c, r)) v = closed-IsAimed p _ refl refl refl v.paged v

pub handle-IsAimed :
    (d : Dates) (e : Event) (p : Panel) → CanHappen e p → IsAimed p → IsAimed (handle d e p).0
unfolding handle load save_clicked set_pw_clicked policy_expires save_policy_clicked
    rfc_save_clicked fire_uid_check fire_gid_check do_suggest delete_btn_clicked
    confirm_delete_clicked user_created edited
handle-IsAimed d (select_row none) p can v =
    row_selected-IsAimed d none p v (λ s e. ground (arith, e)) (λ x s c e. ground (arith, e))
handle-IsAimed d (select_row (some r)) p can v =
    row_selected-IsAimed d (some r) p v (λ s e. rw (← some-injective r s e) can.2)
      (λ x s c e. ground (arith, c, can))
handle-IsAimed d (edit_form f) p can v = SameAim-IsAimed p _ (λ s. ground arith) v
handle-IsAimed d (set_sync parts full) p can v = SameAim-IsAimed p _ (λ s. ground arith) v
handle-IsAimed d (click save_btn) p can v = SameAim-IsAimed p _ (λ s. ground arith) v
handle-IsAimed d (click set_pw_btn) p can v = SameAim-IsAimed p _ (λ s. ground arith) v
handle-IsAimed d (click save_policy_btn) p can v = SameAim-IsAimed p _ (λ s. ground arith) v
handle-IsAimed d (click delete_btn) p can v = shown-IsAimed p p.selected_user refl can.2 v
handle-IsAimed d (click rfc_save_btn) p can v = SameAim-IsAimed p _ (λ s. ground arith) v
handle-IsAimed d (suggest is_uid) p can v = SameAim-IsAimed p _ (λ s. ground arith) v
handle-IsAimed d uid_timeout p can v = SameAim-IsAimed p _ (λ s. ground arith) v
handle-IsAimed d gid_timeout p can v = SameAim-IsAimed p _ (λ s. ground arith) v
handle-IsAimed d (type_name typed) p can v = typed-IsAimed typed p v
handle-IsAimed d confirm_delete p can v = unlocked-IsAimed p (both p.conn p.selected_user) v
handle-IsAimed d close_confirm p can v = closed-IsAimed p _ refl refl refl v.paged v
handle-IsAimed d (created c dn) p can v =
    closed-IsAimed p _ can refl refl (λ e. ground (arith, e)) v
handle-IsAimed d (connected c) p can v = SameAim-IsAimed p _ (λ s. ground arith) v

-- The dialog is open only while nothing is deleted: a handler that leaves it open leaves the button.
pub answer-dialog :
    (d : Dates) (q : Request) (r : ReplyTo q) (p : Panel)
    → ((answer d q r p).0.confirm ≡ p.confirm)
      × ((p.buttons delete_btn).sensitive ≡ true
          → ((answer d q r p).0.buttons delete_btn).sensitive ≡ true)
unfolding answer load update_attrs_done set_enabled_done reset_pw_done save_policy_done delete_done
    rfc_save_done uid_collision_done gid_collision_done suggest_done hints_done update_model renamed
    enable_model uid_entered gid_entered
answer-dialog d (list_request c) (inl m) p = ground arith
answer-dialog d (list_request c) (inr us) p =
    let (same, kept) = users_loaded-buttons d us p delete_btn in (kept, λ e. same ∙ e)
answer-dialog d (update_attrs_request c _ _ need enabled) r p = ground arith
answer-dialog d (set_enabled_request c _ enabled) r p = ground arith
answer-dialog d (reset_password_request c _ _) r p = ground arith
answer-dialog d (set_password_flags_request c _ _ _ _) r p = ground arith
answer-dialog d (set_unix_attrs_request c _ _) r p = ground arith
answer-dialog d (delete_request c _) r p = ground arith
answer-dialog d (uid_check_request _ value _) r p = ground arith
answer-dialog d (gid_check_request _ value _) r p = ground arith
answer-dialog d (next_free_request is_uid _ _ _) r p = ground arith
answer-dialog d (hints_request is_uid _) h p = ground arith
