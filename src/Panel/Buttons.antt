-- ===== src/Panel/Buttons.antt =====
-- src/ui/sbv-users-panel.c: a change of a user and its button.
use sambervise.Base.{
  ℕ, ◌+◌, ◌==◌, Bool, true, false, Option, none, some, List, [], ◌∷◌, ◌++◌, ◌≡◌, ◌≢◌, inl, inr,
  refl, sym, ap, ◌∙◌, if◌then◌else◌, arith,
}
use sambervise.Users.{User}
use sambervise.Panel.{
  Panel, Button, button_code, save_btn, set_pw_btn, save_policy_btn, delete_btn, rfc_save_btn,
  Request, list_request, update_attrs_request, set_enabled_request, reset_password_request,
  set_password_flags_request, set_unix_attrs_request, delete_request, uid_check_request,
  gid_check_request, next_free_request, hints_request, starting, load,
}
use sambervise.Panel.Expiry.{Dates}
use sambervise.Panel.Detail.{
  load_user_into_detail, row_selected, add_row, add_rows, users_loaded, Target, reload_target,
  page_of,
}
use sambervise.Panel.Saving.{
  Handled, save_clicked, update_model, update_attrs_done, enable_model, set_enabled_done,
  set_pw_clicked, reset_pw_done, policy_expires, save_policy_clicked, save_policy_done,
  rfc_save_clicked, rfc_save_done,
}
use sambervise.Panel.Ids.{
  uid_collision_done, gid_collision_done, fire_uid_check, fire_gid_check, suggest_done, do_suggest,
  hints_done, uid_entered, gid_entered,
}
use sambervise.Panel.Steps.{
  Event, select_row, edit_form, set_sync, click, suggest, uid_timeout, gid_timeout, type_name,
  confirm_delete, close_confirm, created, connected, handle, CanHappen, ReplyTo, answer,
  delete_btn_clicked, confirm_entered, confirm_delete_clicked, delete_done, user_created, edited,
}

-- The button of a change; the number 5 is no button's.
abbrev pub starter_code : Request → ℕ
starter_code (update_attrs_request _ _ _ _ _) = 0
starter_code (set_enabled_request _ _ _) = 0
starter_code (reset_password_request _ _ _) = 1
starter_code (set_password_flags_request _ _ _ _ _) = 2
starter_code (delete_request _ _) = 3
starter_code (set_unix_attrs_request _ _ _) = 4
starter_code _ = 5

abbrev pub own : Button → Request → ℕ
own b q = if starter_code q == button_code b then 1 else 0

-- How many of the calls in flight are changes of the button.
abbrev pub in_flight : Button → List Request → ℕ
in_flight b [] = 0
in_flight b (q ∷ qs) = own b q + in_flight b qs

abbrev pub busy : Bool → ℕ
busy true = 0
busy false = 1

pub in_flight-append :
    (b : Button) (qs rs : List Request) → in_flight b (qs ++ rs) ≡ in_flight b qs + in_flight b rs
in_flight-append b [] rs = omega arith
in_flight-append b (q ∷ qs) rs = rw (in_flight-append b qs rs) (omega arith)

abbrev decode : ℕ → Button
decode n =
    if n == 0
    then save_btn
    else if n == 1
    then set_pw_btn
    else if n == 2
    then save_policy_btn
    else if n == 3
    then delete_btn
    else rfc_save_btn

decode_code : (b : Button) → decode (button_code b) ≡ b
decode_code save_btn = refl
decode_code set_pw_btn = refl
decode_code save_policy_btn = refl
decode_code delete_btn = refl
decode_code rfc_save_btn = refl

same_button : (b c : Button) → button_code b ≡ button_code c → b ≡ c
same_button b c e = sym (decode_code b) ∙ (ap decode e ∙ decode_code c)

same_sensitive :
    (b c : Button) (p : Panel)
    → button_code b ≡ button_code c
    → (p.buttons b).sensitive ≡ (p.buttons c).sensitive
same_sensitive b c p e = ap (λ x. (p.buttons x).sensitive) (same_button b c e)

-- A panel in which the dialog is open only while nothing is deleted, and each button is sensitive
-- exactly if no change of its own is in flight, of which there is at most one.
pub record IsSteady (s : Handled) : Type 0 where
  pub each : (b : Button) → in_flight b s.1 ≡ busy (s.0.buttons b).sensitive
  pub dialog : s.0.confirm ≢ none → (s.0.buttons delete_btn).sensitive ≡ true

-- What the loop over the users leaves alone.
add_rows-buttons :
    (t : Target) (us : List User) (p : Panel) (r : Option ℕ) (b : Button)
    → (((add_rows t us p r).0.buttons b).sensitive ≡ (p.buttons b).sensitive)
      × ((add_rows t us p r).0.confirm ≡ p.confirm)
unfolding add_rows add_row
add_rows-buttons t [] p r b = (refl, refl)
add_rows-buttons t (u ∷ us) p r b = add_rows-buttons t us (add_row u p) _ b

pub row_selected-buttons :
    (d : Dates) (r : Option ℕ) (p : Panel) (b : Button)
    → (((row_selected d r p).buttons b).sensitive ≡ (p.buttons b).sensitive)
      × ((row_selected d r p).confirm ≡ p.confirm)
unfolding row_selected load_user_into_detail
row_selected-buttons d none p b = (refl, refl)
row_selected-buttons d (some r) p b = (refl, refl)

pub users_loaded-buttons :
    (d : Dates) (us : List User) (p : Panel) (b : Button)
    → (((users_loaded d us p).buttons b).sensitive ≡ (p.buttons b).sensitive)
      × ((users_loaded d us p).confirm ≡ p.confirm)
unfolding users_loaded
users_loaded-buttons d us p b =
    let (loaded, reselect) =
      add_rows (reload_target p) us (record p { rows = []; pending_select_dn = none }) none in
    let selected = row_selected-buttons d reselect (record loaded { outer = page_of us }) b in
    let added =
      add_rows-buttons (reload_target p) us (record p { rows = []; pending_select_dn = none }) none
        b in
    (selected.0 ∙ added.0, selected.1 ∙ added.1)

pub answer-each :
    (d : Dates) (q : Request) (r : ReplyTo q) (p : Panel) (b : Button) (rest : ℕ)
    → own b q + rest ≡ busy (p.buttons b).sensitive
    → in_flight b (answer d q r p).1 + rest ≡ busy ((answer d q r p).0.buttons b).sensitive
unfolding answer load update_attrs_done set_enabled_done reset_pw_done save_policy_done
    rfc_save_done delete_done uid_collision_done gid_collision_done suggest_done hints_done
    update_model enable_model uid_entered gid_entered
answer-each d (list_request c) (inl m) p b rest e = ground arith
answer-each d (list_request c) (inr us) p b rest e =
    rw (users_loaded-buttons d us p b).0 (ground arith)
answer-each d (update_attrs_request c _ _ need enabled) r p b rest e = ground arith
answer-each d (set_enabled_request c _ enabled) r p b rest e = ground arith
answer-each d (reset_password_request c _ _) r p b rest e = ground arith
answer-each d (set_password_flags_request c _ _ _ _) r p b rest e = ground arith
answer-each d (set_unix_attrs_request c _ _) r p b rest e = ground arith
answer-each d (delete_request c _) r p b rest e = ground arith
answer-each d (uid_check_request _ value _) r p b rest e = ground arith
answer-each d (gid_check_request _ value _) r p b rest e = ground arith
answer-each d (next_free_request is_uid _ _ _) r p b rest e = ground arith
answer-each d (hints_request is_uid _) h p b rest e = ground arith

-- A button that starts a change was sensitive, and no change of its own was in flight.
starting-each :
    (b c : Button) (p : Panel) (n : ℕ)
    → (p.buttons c).sensitive ≡ true
    → n ≡ busy (p.buttons b).sensitive
    → (if button_code c == button_code b then 1 else 0) + n
      ≡ busy ((starting c p).buttons b).sensitive
starting-each b c p n h e = ground (arith, same_sensitive b c p)

pub handle-each :
    (d : Dates) (e : Event) (p : Panel) (b : Button) (n : ℕ)
    → CanHappen e p
    → (p.confirm ≢ none → (p.buttons delete_btn).sensitive ≡ true)
    → n ≡ busy (p.buttons b).sensitive
    → in_flight b (handle d e p).1 + n ≡ busy ((handle d e p).0.buttons b).sensitive
unfolding handle load save_clicked set_pw_clicked policy_expires save_policy_clicked
    rfc_save_clicked fire_uid_check fire_gid_check do_suggest delete_btn_clicked confirm_entered
    confirm_delete_clicked user_created edited
handle-each d (select_row r) p b n can dialog e = rw (row_selected-buttons d r p b).0 (ground arith)
handle-each d (edit_form f) p b n can dialog e = ground arith
handle-each d (set_sync parts full) p b n can dialog e = ground arith
handle-each d (click save_btn) p b n can dialog e =
    ground (arith, starting-each b save_btn p n can.0 e)
handle-each d (click set_pw_btn) p b n can dialog e =
    ground (arith, starting-each b set_pw_btn p n can.0 e)
handle-each d (click save_policy_btn) p b n can dialog e =
    ground (arith, starting-each b save_policy_btn p n can.0 e)
handle-each d (click delete_btn) p b n can dialog e = ground arith
handle-each d (click rfc_save_btn) p b n can dialog e =
    ground (arith, starting-each b rfc_save_btn p n can.0 e)
handle-each d (suggest is_uid) p b n can dialog e = ground arith
handle-each d uid_timeout p b n can dialog e = ground arith
handle-each d gid_timeout p b n can dialog e = ground arith
handle-each d (type_name typed) p b n can dialog e = ground arith
handle-each d confirm_delete p b n can dialog e =
    ground (arith, starting-each b delete_btn p n (dialog (λ c. cc)) e)
handle-each d close_confirm p b n can dialog e = ground arith
handle-each d (created c dn) p b n can dialog e = ground arith
handle-each d (connected c) p b n can dialog e = ground arith
