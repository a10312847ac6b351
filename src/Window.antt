-- ===== src/Window.antt =====
-- src/ui/sbv-window.c and src/ui/sbv-password-dialog.c: the main window, the connections that are
-- made from it, and the references to them. The dialog for a password and the end of the connect
-- dialog are here too, since they hand their connection to the window.
pub mod Connecting
pub mod Steps
pub mod Counts
pub mod Shown
pub mod Dropped
pub mod Races
use sambervise.Base.{
  ℕ, suc, ◌+◌, ◌-◌, ◌==◌, Bool, true, false, not, String, Option, none, some, List, [], ◌∷◌, ◌++◌,
  ◌<◌, ◌≡◌, if◌then◌else◌,
}
use sambervise.Base.Int.{ℤ}
use sambervise.Base.Bytes.{Bytes, codes, bytes_eq, is_filled, or_empty}
use sambervise.Base.Decimal.{print_ℤ}
use sambervise.Profile.{Profile, AuthType, kerberos, simple}
use sambervise.Idmap.{Hints, from_profile}

-- The pages of `content_stack`.
pub data Content : Type 0 where
  users groups computers contacts ldap : Content

-- `PwData`, with what its widgets hold.
pub record PasswordDialog : Type 0 where
  pub profile : Profile
  pub error : Option Bytes
  pub busy : Bool
  pub pending_conn : Option ℕ

-- `SbvWindow`. A connection is a number; `refs` counts the references to it, `hosts` and
-- `base_dns` are what it keeps, and `unused` is the first number without one. `add_pending` is the `pending_conn`
-- of the connect dialog.
pub record Window : Type 0 where
  pub refs : ℕ → ℕ
  pub hosts : ℕ → Option Bytes
  pub base_dns : ℕ → Option Bytes
  pub unused : ℕ
  pub conn : Option ℕ
  pub active_profile : Option Profile
  pub content : Option Content
  pub title : Bytes
  pub server_label : Bytes
  pub principal_label : Bytes
  pub idmap_label : Bytes
  pub status_shown : Bool
  pub toasts : List Bytes
  pub password : Option PasswordDialog
  pub add_pending : Option ℕ

-- The calls in flight, each with the connection that it was made on, to which its `GTask` holds a
-- reference. A `panel_call` is any call of a panel.
pub data Request : Type 0 where
  krb_connect : ℕ → Profile → Request
  password_connect : ℕ → Profile → Request
  dialog_connect : ℕ → Profile → Request
  hints_query : ℕ → Profile → Request
  panel_call : ℕ → Request

abbrev pub source : Request → ℕ
source (krb_connect c _) = c
source (password_connect c _) = c
source (dialog_connect c _) = c
source (hints_query c _) = c
source (panel_call c) = c

-- The state after a handler and the calls that it starts; `none` where C leaves it undefined.
abbrev pub Handled : Type 0
Handled = Window × List Request

-- `g_object_ref` and `g_object_unref`. At 0 the object is gone.
abbrev pub hold : ℕ → (ℕ → ℕ) → ℕ → ℕ
hold c refs c' = if c' == c then refs c' + 1 else refs c'

abbrev pub drop : ℕ → (ℕ → ℕ) → ℕ → ℕ
drop c refs c' = if c' == c then refs c' - 1 else refs c'

-- `g_clear_object`.
abbrev pub drop_if : Option ℕ → (ℕ → ℕ) → ℕ → ℕ
drop_if none refs = refs
drop_if (some c) refs = drop c refs

-- `g_set_object`, on the new object and the old one: the same object is left alone.
abbrev pub swap_refs : ℕ → Option ℕ → (ℕ → ℕ) → ℕ → ℕ
swap_refs c none refs = hold c refs
swap_refs c (some d) refs = if d == c then refs else drop d (hold c refs)

-- The calls that `sbv_window_on_connected` starts: one of each panel, that of the directory browser
-- only if there is a base DN, and one for the hints.
abbrev pub browser_call : Bool → ℕ → List Request
browser_call false c = []
browser_call true c = panel_call c ∷ []

abbrev pub loads : ℕ → Option Bytes → Profile → List Request
loads c base_dn p =
    hints_query c p
    ∷ panel_call c
    ∷ panel_call c
    ∷ panel_call c
    ∷ panel_call c
    ∷ browser_call (is_filled base_dn) c

-- "Server: %s:%d".
abbrev server_text : Option Bytes → ℤ → Bytes
server_text none port = codes "Server: ?:" ++ print_ℤ port
server_text (some host) port = codes "Server: " ++ (host ++ (codes ":" ++ print_ℤ port))

abbrev krb_text : Option Bytes → Bytes
krb_text none = codes "Authentication: Kerberos"
krb_text (some principal) = codes "Authentication: Kerberos (" ++ (principal ++ codes ")")

abbrev identity_text : Option Bytes → Profile → AuthType → Bytes
identity_text principal p kerberos = krb_text principal
identity_text principal p simple =
    codes "Bind DN: " ++ (if is_filled p.bind_dn then or_empty p.bind_dn else codes "(simple)")

-- The bytes of an ellipsis, a middle dot between spaces, and an em dash.
abbrev ellipsis : Bytes
ellipsis = 0xe2 ∷ 0x80 ∷ 0xa6 ∷ []

abbrev pub separator : Bytes
separator = codes "   " ++ (0xc2 ∷ 0xb7 ∷ codes "   ")

abbrev pub em_dash : Bytes
em_dash = 0xe2 ∷ 0x80 ∷ 0x94 ∷ []

-- `status_bar_update_identity`, with a connection and a profile; `principal` is what
-- `read_default_krb5_principal` gets from libkrb5.
unfoldable pub update_identity : Option Bytes → ℕ → Profile → Window → Window
update_identity principal c p w = record w {
  server_label = server_text (w.hosts c) p.port;
  principal_label = identity_text principal p p.auth_type;
  idmap_label = codes "UID/GID: " ++ ellipsis;
  status_shown = true;
}

-- `sbv_window_on_connected`. A profile that is NULL ends in `sbv_idmap_hints_from_profile`, which
-- reads its fields.
unfoldable pub on_connected : Option Bytes → ℕ → Option Profile → Window → Option Handled
unfolding update_identity
on_connected principal c none w = none
on_connected principal c (some p) w = some (
  update_identity principal c p (record w {
    refs = swap_refs c w.conn w.refs;
    conn = some c;
    active_profile = some p;
    title = codes "Sambervise " ++ (em_dash ++ (codes " " ++ or_empty (w.hosts c)));
    content = some users;
  }),
  loads c (w.base_dns c) p,
)
