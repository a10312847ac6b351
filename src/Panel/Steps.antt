-- ===== src/Panel/Steps.antt =====
-- src/ui/sbv-users-panel.c: what happens to the panel, one handler after another on the main loop,
-- while the calls that were started are answered in any order.
use sambervise.Base.{
  ℕ, Bool, true, false, Option, none, some, List, [], ◌∷◌, ◌++◌, ◌≡◌, ◌≢◌, ◌⊎◌, inl, inr, not, ◌||◌,
  ◌<◌,
}
use sambervise.Base.Int.{ℤ}
use sambervise.Base.Bytes.{Bytes, bytes_eq, is_filled, or_empty}
use sambervise.Connection.{Outcome}
use sambervise.Collisions.{Hit}
use sambervise.Idmap.{Hints}
use sambervise.Users.{User}
use sambervise.Panel.{
  Panel, Form, Button, save_btn, set_pw_btn, save_policy_btn, delete_btn, rfc_save_btn, Request,
  list_request, update_attrs_request, set_enabled_request, reset_password_request,
  set_password_flags_request, set_unix_attrs_request, delete_request, uid_check_request,
  gid_check_request, next_free_request, hints_request, starting, failing, enabling, both, load,
  split,
}
use sambervise.Panel.Expiry.{Dates}
use sambervise.Panel.Detail.{row_selected, users_loaded, load_failed}
use sambervise.Panel.Saving.{
  Handled, save_clicked, update_attrs_done, set_enabled_done, set_pw_clicked, reset_pw_done,
  save_policy_clicked, save_policy_done, rfc_save_clicked, rfc_save_done,
}
use sambervise.Panel.Ids.{
  uid_collision_done, gid_collision_done, fire_uid_check, fire_gid_check, suggest_done, do_suggest,
  hints_done,
}

abbrev pub open_if : Bool → Bytes → Panel → Panel
open_if true expected p = record p { confirm = some (expected, false) }
open_if false expected p = p

abbrev pub show_delete_confirm : Option ℕ → Panel → Panel
show_delete_confirm none p = p
show_delete_confirm (some r) p = open_if (is_filled (p.users r).sam) (or_empty (p.users r).sam) p

-- `on_delete_btn_clicked` with `show_delete_confirm`: a user without a name has no dialog.
unfoldable pub delete_btn_clicked : Panel → Panel
delete_btn_clicked p = show_delete_confirm p.selected_user p

abbrev pub typed_name : Bytes → Option (Bytes × Bool) → Option (Bytes × Bool)
typed_name typed none = none
typed_name typed (some (expected, _)) = some (expected, bytes_eq typed expected)

-- `on_confirm_entry_changed`.
unfoldable pub confirm_entered : Bytes → Panel → Panel
confirm_entered typed p = record p { confirm = typed_name typed p.confirm }

abbrev pub confirmed : Option (ℕ × ℕ) → Panel → Handled
confirmed none p = (record p { confirm = none }, [])
confirmed (some (c, r)) p =
    (record (starting delete_btn p) { confirm = none }, delete_request c r ∷ [])

-- `on_confirm_delete_clicked`.
unfoldable pub confirm_delete_clicked : Panel → Handled
confirm_delete_clicked p = confirmed (both p.conn p.selected_user) p

-- `on_delete_done`.
unfoldable pub delete_done : ℕ → Option Bytes → Panel → Handled
unfolding load
delete_done c (some message) p = (failing delete_btn message p, [])
delete_done c none p = load c (record (enabling delete_btn p) { selected_user = none })

-- `on_user_created`.
unfoldable pub user_created : ℕ → Bytes → Panel → Handled
unfolding load
user_created c new_dn p = load c (record p { pending_select_dn = some new_dn })

-- What the user of the program does, what a timer does, and what the dialogs call.
pub data Event : Type 0 where
  select_row : Option ℕ → Event
  edit_form : Form → Event
  set_sync : Bool → Bool → Event
  click : Button → Event
  suggest : Bool → Event
  uid_timeout gid_timeout : Event
  type_name : Bytes → Event
  confirm_delete close_confirm : Event
  created : ℕ → Bytes → Event
  connected : ℕ → Event

abbrev clicked : Dates → Button → Panel → Handled
clicked d save_btn p = save_clicked p
clicked d set_pw_btn p = set_pw_clicked p
clicked d save_policy_btn p = save_policy_clicked d p
clicked d delete_btn p = (delete_btn_clicked p, [])
clicked d rfc_save_btn p = rfc_save_clicked p

-- The texts and boxes after a change of the user of the program, with what the "changed" and "toggled"
-- handlers do then: `on_uid_entry_changed`, `on_gid_entry_changed` and
-- `on_acct_never_expires_toggled`.
unfoldable pub edited : Form → Panel → Panel
edited f p = record p {
  form = record f { date_sensitive = not f.acct_never_expires };
  uid_timer = p.uid_timer || not (bytes_eq f.uid p.form.uid);
  gid_timer = p.gid_timer || not (bytes_eq f.gid p.form.gid);
}

unfoldable pub handle : Dates → Event → Panel → Handled
unfolding user_created load
handle d (select_row r) p = (row_selected d r p, [])
handle d (edit_form f) p = (edited f p, [])
handle d (set_sync parts full) p =
    (record p { sync_parts_from_full = parts; sync_full_from_parts = full }, [])
handle d (click b) p = clicked d b p
handle d (suggest is_uid) p = do_suggest is_uid p
handle d uid_timeout p = fire_uid_check p
handle d gid_timeout p = fire_gid_check p
handle d (type_name typed) p = (confirm_entered typed p, [])
handle d confirm_delete p = confirm_delete_clicked p
handle d close_confirm p = (record p { confirm = none }, [])
handle d (created c dn) p = user_created c dn p
handle d (connected c) p = load c p

-- When the windows let an event through: the dialog is modal, a button that is not sensitive cannot
-- be clicked, and rows and buttons stand on the page "split". The number of a row is in use.
abbrev pub CanHappen : Event → Panel → Type 0
CanHappen (select_row none) p = (p.confirm ≡ none) × (p.outer ≡ split)
CanHappen (select_row (some r)) p = (p.confirm ≡ none) × (p.outer ≡ split) × (r < p.unused)
CanHappen (click b) p = ((p.buttons b).sensitive ≡ true) × (p.confirm ≡ none) × (p.outer ≡ split)
CanHappen confirm_delete p = (expected : Bytes) × (p.confirm ≡ some (expected, true))
CanHappen (type_name _) p = p.confirm ≢ none
CanHappen close_confirm p = p.confirm ≢ none
CanHappen uid_timeout p = p.uid_timer ≡ true
CanHappen gid_timeout p = p.gid_timer ≡ true
CanHappen (connected _) p = Unit
CanHappen _ p = p.confirm ≡ none

-- What a call is answered with; a change gives its error, if there is one.
abbrev pub ReplyTo : Request → Type 0
ReplyTo (list_request _) = Bytes ⊎ List User
ReplyTo (uid_check_request _ _ _) = Option (List Hit)
ReplyTo (gid_check_request _ _ _) = Option (List Hit)
ReplyTo (next_free_request _ _ _ _) = Outcome ℤ
ReplyTo (hints_request _ _) = Hints
ReplyTo _ = Option Bytes

abbrev listed : Dates → Bytes ⊎ List User → Panel → Panel
listed d (inl _) p = load_failed p
listed d (inr us) p = users_loaded d us p

-- The callback of a call.
unfoldable pub answer : Dates → (q : Request) → ReplyTo q → Panel → Handled
answer d (list_request c) r p = (listed d r p, [])
answer d (update_attrs_request c _ _ need enabled) r p = update_attrs_done c need enabled r p
answer d (set_enabled_request c _ enabled) r p = set_enabled_done c enabled r p
answer d (reset_password_request c _ _) r p = reset_pw_done c r p
answer d (set_password_flags_request c _ _ _ _) r p = save_policy_done c r p
answer d (set_unix_attrs_request c _ _) r p = rfc_save_done c r p
answer d (delete_request c _) r p = delete_done c r p
answer d (uid_check_request _ value _) r p = (uid_collision_done value r p, [])
answer d (gid_check_request _ value _) r p = (gid_collision_done value r p, [])
answer d (next_free_request is_uid _ _ _) r p = (suggest_done is_uid r p, [])
answer d (hints_request is_uid _) h p = hints_done is_uid h p

-- One handler. The calls in flight stand in a list; those that a handler starts go before them.
pub data Step (d : Dates) : Handled → Handled → Type 0 where
  event :
      (e : Event) (p : Panel) (qs : List Request)
      → CanHappen e p
      → Step d (p, qs) ((handle d e p).0, (handle d e p).1 ++ qs)
  reply :
      (before : List Request) (q : Request) (after : List Request) (r : ReplyTo q) (p : Panel)
      → Step d
          (p, before ++ (q ∷ after))
          ((answer d q r p).0, (answer d q r p).1 ++ (before ++ after))

-- The states that a panel comes to.
pub data Leads (d : Dates) (s : Handled) : Handled → Type 0 where
  begin : Leads d s s
  next : {t u : Handled} → Leads d s t → Step d t u → Leads d s u
