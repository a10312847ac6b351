-- ===== src/Panel.antt =====
-- src/ui/sbv-users-panel.c: the panel of the users, as a state that handlers of the main loop
-- change. A handler gives the state after it and the asynchronous calls that it starts.
pub mod Syncing
pub mod Expiry
pub mod Detail
pub mod Saving
pub mod Ids
pub mod Steps
pub mod Buttons
pub mod Aim
pub mod Deleting
pub mod Reached
pub mod Races
use sambervise.Base.{
  ℕ, zero, suc, ◌==◌, Bool, true, false, Option, none, some, List, [], ◌∷◌, if◌then◌else◌,
}
use sambervise.Base.Int.{ℤ}
use sambervise.Base.Bytes.{Bytes}
use sambervise.Users.{User}
use sambervise.Users.Edit.{Names, UnixAttrs}
use sambervise.Idmap.{Hints}

-- The buttons that start a change; each has its own error label.
pub data Button : Type 0 where
  save_btn set_pw_btn save_policy_btn delete_btn rfc_save_btn : Button

abbrev pub button_code : Button → ℕ
button_code save_btn = 0
button_code set_pw_btn = 1
button_code save_policy_btn = 2
button_code delete_btn = 3
button_code rfc_save_btn = 4

-- `error` is `none` where the label is hidden.
pub record ButtonState : Type 0 where
  pub sensitive : Bool
  pub error : Option Bytes

-- The pages of `outer_stack`.
pub data Page : Type 0 where
  loading empty split : Page

-- What the widgets of the detail pane hold.
pub record Form : Type 0 where
  pub cn : Bytes
  pub display_name : Bytes
  pub given_name : Bytes
  pub sn : Bytes
  pub email : Bytes
  pub enabled : Bool
  pub new_pw : Bytes
  pub confirm_pw : Bytes
  pub force_change : Bool
  pub never_expires : Bool
  pub acct_never_expires : Bool
  pub expires_date : Bytes
  pub date_sensitive : Bool
  pub uid : Bytes
  pub gid : Bytes
  pub shell : Bytes
  pub home : Bytes
  pub gecos : Bytes

-- `SbvUsersPanel`, with the dialog that confirms a deletion: the name that it expects and whether
-- its button is sensitive. A connection and an `SbvUser` are named by numbers, as pointers are;
-- `users` is what an `SbvUser` holds, and `unused` is the first number without one.
pub record Panel : Type 0 where
  pub form : Form
  pub sync_parts_from_full : Bool
  pub sync_full_from_parts : Bool
  pub outer : Page
  pub detail_shown : Bool
  pub buttons : Button → ButtonState
  pub uid_collision : Option Bytes
  pub gid_collision : Option Bytes
  pub uid_timer : Bool
  pub gid_timer : Bool
  pub suggest_uid_sensitive : Bool
  pub suggest_gid_sensitive : Bool
  pub idmap_hints : Option Hints
  pub conn : Option ℕ
  pub selected_user : Option ℕ
  pub pending_select_dn : Option Bytes
  pub rows : List ℕ
  pub users : ℕ → User
  pub unused : ℕ
  pub confirm : Option (Bytes × Bool)

-- The asynchronous calls, with the connection first, and what the callback is given with the reply.
pub data Request : Type 0 where
  list_request : ℕ → Request
  update_attrs_request : ℕ → ℕ → Names → Bool → Bool → Request
  set_enabled_request : ℕ → Option ℕ → Bool → Request
  reset_password_request : ℕ → ℕ → Bytes → Request
  set_password_flags_request : ℕ → ℕ → Bool → Bool → ℤ → Request
  set_unix_attrs_request : ℕ → ℕ → UnixAttrs → Request
  delete_request : ℕ → ℕ → Request
  uid_check_request gid_check_request : ℕ → ℤ → Option Bytes → Request
  next_free_request : Bool → ℕ → ℤ → ℤ → Request
  hints_request : Bool → ℕ → Request

abbrev pub put_button : Button → ButtonState → Panel → Panel
put_button b s p = record p {
  buttons = λ b'. if button_code b' == button_code b then s else p.buttons b';
}

-- A change starts: its label is hidden and its button made insensitive.
abbrev pub starting : Button → Panel → Panel
starting b p = put_button b (record { sensitive = false; error = none }) p

-- A change has failed with a message.
abbrev pub failing : Button → Bytes → Panel → Panel
failing b message p = put_button b (record { sensitive = true; error = some message }) p

-- The button is made sensitive, and its label left alone.
abbrev pub enabling : Button → Panel → Panel
enabling b p = put_button b (record { sensitive = true; error = (p.buttons b).error }) p

-- The user that is selected, and the connection, where there are both.
abbrev pub both : Option ℕ → Option ℕ → Option (ℕ × ℕ)
both (some c) (some r) = some (c, r)
both _ _ = none

-- The value of a user is written: every holder of the pointer sees it.
abbrev pub put_user : ℕ → User → Panel → Panel
put_user r u p = record p { users = λ r'. if r' == r then u else p.users r' }

-- `sbv_users_panel_load`. Hints are kept only while the connection stays.
abbrev same_conn : Option ℕ → ℕ → Bool
same_conn none c = false
same_conn (some d) c = d == c

unfoldable pub load : ℕ → Panel → Panel × List Request
load c p = (
  record p {
    idmap_hints = if same_conn p.conn c then p.idmap_hints else none;
    conn = some c;
    outer = loading;
  },
  list_request c ∷ [],
)

abbrev pub blank_form : Form
blank_form = record {
  cn = [];
  display_name = [];
  given_name = [];
  sn = [];
  email = [];
  enabled = false;
  new_pw = [];
  confirm_pw = [];
  force_change = false;
  never_expires = false;
  acct_never_expires = false;
  expires_date = [];
  date_sensitive = true;
  uid = [];
  gid = [];
  shell = [];
  home = [];
  gecos = [];
}

-- The panel that `sbv_users_panel_init` makes.
abbrev pub new_panel : (ℕ → User) → Panel
new_panel users = record {
  form = blank_form;
  sync_parts_from_full = false;
  sync_full_from_parts = false;
  outer = loading;
  detail_shown = false;
  buttons = λ b. record { sensitive = true; error = none };
  uid_collision = none;
  gid_collision = none;
  uid_timer = false;
  gid_timer = false;
  suggest_uid_sensitive = true;
  suggest_gid_sensitive = true;
  idmap_hints = none;
  conn = none;
  selected_user = none;
  pending_select_dn = none;
  rows = [];
  users = users;
  unused = 0;
  confirm = none;
}
