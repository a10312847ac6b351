-- ===== src/Panel/Detail.antt =====
-- src/ui/sbv-users-panel.c: a user in the detail pane, and the list that is loaded.
use sambervise.Base.{
  ℕ, suc, ◌==◌, Bool, true, false, not, Option, none, some, List, [], ◌∷◌, ◌++◌, if◌then◌else◌,
}
use sambervise.Base.Int.{ℤ, pos, leb_ℤ, eq_ℤ}
use sambervise.Base.Bytes.{Bytes, bytes_eq, or_empty}
use sambervise.Base.Decimal.{print_ℤ}
use sambervise.Base.Flags.{has_flag}
use sambervise.Users.{User, uac_dont_expire_passwd}
use sambervise.Panel.{Panel, Form, Page, empty, split}
use sambervise.Panel.Expiry.{Dates, shown_date, is_never}

abbrev id_text : ℤ → Bytes
id_text z = if leb_ℤ (pos 0) z then print_ℤ z else []

-- The texts and boxes that `load_user_into_detail` sets; `old_date` is what the entry of the date
-- held.
unfoldable pub form_of : Dates → Bytes → User → Form
form_of d old_date u = record {
  cn = or_empty u.cn;
  display_name = or_empty u.display_name;
  given_name = or_empty u.given_name;
  sn = or_empty u.sn;
  email = or_empty u.email;
  enabled = u.enabled;
  new_pw = [];
  confirm_pw = [];
  force_change = eq_ℤ u.pwd_last_set (pos 0);
  never_expires = has_flag uac_dont_expire_passwd u.uac;
  acct_never_expires = is_never u.account_expires;
  expires_date = shown_date d old_date u.account_expires;
  date_sensitive = not (is_never u.account_expires);
  uid = id_text u.uid_number;
  gid = id_text u.gid_number;
  shell = or_empty u.login_shell;
  home = or_empty u.unix_home_dir;
  gecos = or_empty u.gecos;
}

-- `load_user_into_detail`. The timers that the texts of the ids start are removed again.
unfoldable pub load_user_into_detail : Dates → ℕ → Panel → Panel
load_user_into_detail d r p = record p {
  selected_user = some r;
  form = form_of d p.form.expires_date (p.users r);
  uid_timer = false;
  gid_timer = false;
  uid_collision = none;
  gid_collision = none;
  buttons = λ b. record { sensitive = (p.buttons b).sensitive; error = none };
  detail_shown = true;
}

-- `on_row_selected`, with the user of the row, or without a row.
unfoldable pub row_selected : Dates → Option ℕ → Panel → Panel
unfolding load_user_into_detail
row_selected d none p = record p { detail_shown = false }
row_selected d (some r) p = load_user_into_detail d r p

-- What `on_users_loaded` looks for.
pub data Target : Type 0 where
  nobody : Target
  by_dn : Bytes → Target
  by_sam : Bytes → Target

abbrev pub is_target : Target → User → Bool
is_target nobody u = false
is_target (by_dn dn) u = bytes_eq (or_empty u.dn) dn
is_target (by_sam sam) u = bytes_eq (or_empty u.sam) sam

abbrev pub sam_target : Option Bytes → Target
sam_target none = nobody
sam_target (some sam) = by_sam sam

abbrev pub selected_target : Panel → Option ℕ → Target
selected_target p none = nobody
selected_target p (some r) = sam_target (p.users r).sam

abbrev pub target_or : Target → Option Bytes → Target
target_or t none = t
target_or t (some dn) = by_dn dn

unfoldable pub reload_target : Panel → Target
reload_target p = target_or (selected_target p p.selected_user) p.pending_select_dn

-- A row for one user more.
unfoldable pub add_row : User → Panel → Panel
add_row u p = record p {
  users = λ r. if r == p.unused then u else p.users r;
  unused = suc p.unused;
  rows = p.rows ++ (p.unused ∷ []);
}

-- The row to select, `none` before one was found.
abbrev pub chosen : Target → User → ℕ → Option ℕ → Option ℕ
chosen t u r (some r') = some r'
chosen t u r none = if is_target t u then some r else none

-- The loop of `on_users_loaded`.
unfoldable pub add_rows : Target → List User → Panel → Option ℕ → Panel × Option ℕ
add_rows t [] p reselect = (p, reselect)
add_rows t (u ∷ us) p reselect = add_rows t us (add_row u p) (chosen t u p.unused reselect)

abbrev pub page_of : List User → Page
page_of [] = empty
page_of (_ ∷ _) = split

-- `on_users_loaded`, with the users.
unfoldable pub users_loaded : Dates → List User → Panel → Panel
unfolding row_selected add_rows
users_loaded d us p =
    let (p', reselect) =
      add_rows (reload_target p) us (record p { rows = []; pending_select_dn = none }) none in
    row_selected d reselect (record p' { outer = page_of us })

-- `on_users_loaded`, after an error.
abbrev pub load_failed : Panel → Panel
load_failed p = record p { outer = empty }
