-- ===== src/Panel/Saving.antt =====
-- src/ui/sbv-users-panel.c: the buttons that change a user, and what their callbacks do.
use sambervise.Base.{ℕ, ◌==◌, Bool, not, ◌&&◌, Option, none, some, List, [], ◌∷◌, if◌then◌else◌}
use sambervise.Base.Int.{ℤ, negsuc, max_int64, eq_ℤ}
use sambervise.Base.Bytes.{Bytes, codes, bytes_eq}
use sambervise.Base.Decimal.{strtoll}
use sambervise.Base.Flags.{to_int32}
use sambervise.Users.{User}
use sambervise.Users.Edit.{Names, UnixAttrs}
use sambervise.Editor.{is_nonempty}
use sambervise.Panel.{
  Panel, Form, Button, button_code, save_btn, set_pw_btn, save_policy_btn, rfc_save_btn, Request,
  update_attrs_request, set_enabled_request, reset_password_request, set_password_flags_request,
  set_unix_attrs_request, starting, failing, enabling, both, put_user, load,
}
use sambervise.Panel.Syncing.{sync_names}
use sambervise.Panel.Expiry.{Dates, date_entry_to_filetime}

-- The state after a handler, and the calls that it starts.
abbrev pub Handled : Type 0
Handled = Panel × List Request

abbrev pub names_of : Form → Names
names_of f = record {
  cn = some f.cn;
  display_name = some f.display_name;
  given_name = some f.given_name;
  sn = some f.sn;
  email = some f.email;
}

abbrev bool_neq : Bool → Bool → Bool
bool_neq a b = if a then not b else b

-- `on_save_clicked`.
abbrev start_save : ℕ × ℕ → Panel → Form → Handled
start_save (c, r) p f = (
  starting save_btn (record p { form = f }),
  update_attrs_request c r (names_of f) (bool_neq f.enabled (p.users r).enabled) f.enabled ∷ [],
)

unfoldable pub save_clicked : Panel → Handled
save_clicked p = elim (both p.conn p.selected_user) [
  | none ↦ (p, [])
  | some cr ↦ start_save cr p (sync_names p.sync_full_from_parts p.sync_parts_from_full p.form)
]

-- The names of a user as the entries have them now.
unfoldable pub renamed : Form → User → User
renamed f u = record u {
  cn = some f.cn;
  display_name = some f.display_name;
  given_name = some f.given_name;
  sn = some f.sn;
  email = some f.email;
}

unfoldable pub update_model : Panel → Panel
update_model p = elim p.selected_user [
  | none ↦ p
  | some r ↦ put_user r (renamed p.form (p.users r)) p
]

-- `on_update_attrs_done`, with the error if there was one.
unfoldable pub update_attrs_done : ℕ → Bool → Bool → Option Bytes → Panel → Handled
unfolding update_model load
update_attrs_done c need_enabled_change new_enabled (some message) p =
    (failing save_btn message p, [])
update_attrs_done c need_enabled_change new_enabled none p =
    if need_enabled_change
    then (update_model p, set_enabled_request c p.selected_user new_enabled ∷ [])
    else load c (enabling save_btn (update_model p))

unfoldable pub enable_model : Bool → Panel → Panel
enable_model enabled p = elim p.selected_user [
  | none ↦ p
  | some r ↦ put_user r (record (p.users r) { enabled = enabled }) p
]

-- `on_set_enabled_after_save`.
unfoldable pub set_enabled_done : ℕ → Bool → Option Bytes → Panel → Handled
unfolding enable_model load
set_enabled_done c enabled (some message) p = (failing save_btn message p, [])
set_enabled_done c enabled none p = load c (enable_model enabled (enabling save_btn p))

abbrev pub show_error : Button → Bytes → Panel → Panel
show_error b message p = record p {
  buttons = λ b'.
      if button_code b' == button_code b
      then record { sensitive = (p.buttons b).sensitive; error = some message }
      else p.buttons b';
}

-- `on_set_pw_clicked`.
unfoldable pub set_pw_clicked : Panel → Handled
set_pw_clicked p = elim (both p.conn p.selected_user) [
  | none ↦ (p, [])
  | some (c, r) ↦
      if not (is_nonempty p.form.new_pw)
      then (show_error set_pw_btn (codes "Enter a new password.") p, [])
      else if not (bytes_eq p.form.new_pw p.form.confirm_pw)
      then (show_error set_pw_btn (codes "Passwords do not match.") p, [])
      else (starting set_pw_btn p, reset_password_request c r p.form.new_pw ∷ [])
]

-- `on_reset_pw_done`.
unfoldable pub reset_pw_done : ℕ → Option Bytes → Panel → Handled
unfolding load
reset_pw_done c (some message) p = (failing set_pw_btn message p, [])
reset_pw_done c none p =
    load c
      (enabling set_pw_btn (record p { form = record (p.form) { new_pw = []; confirm_pw = [] } }))

abbrev start_policy : ℕ × ℕ → ℤ → Panel → Handled
start_policy (c, r) expires p = (
  starting save_policy_btn p,
  set_password_flags_request c r p.form.force_change p.form.never_expires expires ∷ [],
)

-- The time that `on_save_policy_clicked` sends, or `none` where the date is not one.
unfoldable pub policy_expires : Dates → Form → Option ℤ
policy_expires d f =
    if f.acct_never_expires
    then some max_int64
    else if eq_ℤ (date_entry_to_filetime d f.expires_date) max_int64 && is_nonempty f.expires_date
    then none
    else some (date_entry_to_filetime d f.expires_date)

-- `on_save_policy_clicked`.
unfoldable pub save_policy_clicked : Dates → Panel → Handled
save_policy_clicked d p = elim (both p.conn p.selected_user) [
  | none ↦ (p, [])
  | some cr ↦ elim (policy_expires d p.form) [
    | none ↦ (failing save_policy_btn (codes "Invalid date. Use YYYY-MM-DD.") p, [])
    | some expires ↦ start_policy cr expires p
  ]
]

-- `on_save_policy_done`.
unfoldable pub save_policy_done : ℕ → Option Bytes → Panel → Handled
unfolding load
save_policy_done c (some message) p = (failing save_policy_btn message p, [])
save_policy_done c none p = load c (enabling save_policy_btn p)

-- `(gint) strtol (s, NULL, 10)`, and -1 for no text.
abbrev pub id_of : Bytes → ℤ
id_of s = if is_nonempty s then to_int32 (strtoll s) else negsuc 0

abbrev pub unix_attrs_of : Form → UnixAttrs
unix_attrs_of f = record {
  uid_number = id_of f.uid;
  gid_number = id_of f.gid;
  login_shell = some f.shell;
  unix_home_dir = some f.home;
  gecos = some f.gecos;
}

-- `on_rfc_save_clicked`.
unfoldable pub rfc_save_clicked : Panel → Handled
rfc_save_clicked p = elim (both p.conn p.selected_user) [
  | none ↦ (p, [])
  | some (c, r) ↦ (starting rfc_save_btn p, set_unix_attrs_request c r (unix_attrs_of p.form) ∷ [])
]

abbrev hide_error : Button → Panel → Panel
hide_error b p = record p {
  buttons = λ b'.
      if button_code b' == button_code b
      then record { sensitive = (p.buttons b).sensitive; error = none }
      else p.buttons b';
}

-- `on_rfc_save_done`.
unfoldable pub rfc_save_done : ℕ → Option Bytes → Panel → Handled
unfolding load
rfc_save_done c (some message) p = (failing rfc_save_btn message p, [])
rfc_save_done c none p = load c (hide_error rfc_save_btn (enabling rfc_save_btn p))
