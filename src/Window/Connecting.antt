-- ===== src/Window/Connecting.antt =====
-- src/ui/sbv-window.c, src/ui/sbv-password-dialog.c and the connect of src/ui/sbv-connect-dialog.c:
-- the handlers that make a connection, and the callbacks of the window.
use sambervise.Base.{
  ℕ, suc, ◌==◌, Bool, true, false, Option, none, some, [], ◌∷◌, ◌++◌, if◌then◌else◌,
}
use sambervise.Base.Bytes.{Bytes, codes, bytes_eq, or_empty}
use sambervise.Base.Decimal.{range_text}
use sambervise.Profile.{Profile, AuthType, kerberos, simple}
use sambervise.Idmap.{Hints, from_profile}
use sambervise.Window.{
  Content, PasswordDialog, Window, Handled, drop, drop_if, separator, on_connected, krb_connect,
  password_connect, dialog_connect,
}

-- `sbv_connection_new`.
abbrev pub open_connection : Window → Window
open_connection w = record w {
  refs = λ c. if c == w.unused then 1 else w.refs c;
  unused = suc w.unused;
}

abbrev connect_by : AuthType → Profile → Window → Handled
connect_by kerberos p w = (open_connection w, krb_connect w.unused p ∷ [])
connect_by simple p w = (
  record w {
    password = some (record { profile = p; error = none; busy = false; pending_conn = none });
  },
  [],
)

-- `connect_to_profile`.
unfoldable pub connect_to_profile : Profile → Window → Handled
connect_to_profile p w = connect_by p.auth_type p (record w { active_profile = some p })

-- `on_connect_clicked` of the dialog for a password.
abbrev submitted : Option PasswordDialog → Window → Handled
submitted none w = (w, [])
submitted (some d) w =
    let w' = open_connection (record w { refs = drop_if d.pending_conn w.refs }) in
    (
      record w' {
        password = some (record d { error = none; busy = true; pending_conn = some w.unused });
      },
      password_connect w.unused d.profile ∷ [],
    )

unfoldable pub password_entered : Window → Handled
password_entered w = submitted w.password w

-- `on_dialog_destroy` of that dialog.
abbrev pub pending_of : Option PasswordDialog → Option ℕ
pending_of none = none
pending_of (some d) = d.pending_conn

unfoldable pub close_password : Window → Window
close_password w = record w { refs = drop_if (pending_of w.password) w.refs; password = none }

-- `on_connect_clicked` of the connect dialog, with what `build_profile` makes.
unfoldable pub dialog_entered : Profile → Window → Handled
dialog_entered p w =
    let w' = open_connection (record w { refs = drop_if w.add_pending w.refs }) in
    (record w' { add_pending = some w.unused }, dialog_connect w.unused p ∷ [])

-- `on_dialog_destroy` of the connect dialog.
unfoldable pub close_dialog : Window → Window
close_dialog w = record w { refs = drop_if w.add_pending w.refs; add_pending = none }

-- A reference is let go after a handler.
abbrev pub and_drop : ℕ → Option Handled → Option Handled
and_drop c none = none
and_drop c (some (w, qs)) = some (record w { refs = drop c w.refs }, qs)

-- A connection that was made keeps the host and the base DN of its profile.
abbrev pub with_host : ℕ → Profile → Window → Window
with_host c p w = record w {
  hosts = λ c'. if c' == c then p.host else w.hosts c';
  base_dns = λ c'. if c' == c then p.base_dn else w.base_dns c';
}

-- `on_krb_connect_done`: the handler lets go of the reference of `sbv_connection_new`.
unfoldable pub krb_connect_done :
    Option Bytes → ℕ → Profile → Option Bytes → Window → Option Handled
unfolding on_connected
krb_connect_done principal c p (some message) w =
    some (record w { refs = drop c w.refs; toasts = message ∷ w.toasts }, [])
krb_connect_done principal c p none w =
    and_drop c (on_connected principal c (some p) (with_host c p w))

abbrev password_failed : Bytes → Option PasswordDialog → Option PasswordDialog
password_failed message none = none
password_failed message (some d) = some (record d { error = some message; busy = false })

-- `on_connect_done` of the dialog for a password, with `on_password_connected`.
unfoldable pub password_connect_done :
    Option Bytes → ℕ → Profile → Option Bytes → Window → Option Handled
unfolding on_connected close_password
password_connect_done principal c p (some message) w =
    some (record w { password = password_failed message w.password }, [])
password_connect_done principal c p none w =
    let w' = close_password (with_host c p w) in
    and_drop c (on_connected principal c w'.active_profile w')

-- `saved_profile`: the profile is saved where it has a name, and kept where that succeeds.
abbrev pub saved_profile : Bool → Profile → Option Profile
saved_profile saves p = elim p.name [ none ↦ none | some _ ↦ if saves then some p else none ]

-- `on_connect_done` of the connect dialog, with `on_connected_from_dialog`. `entered` is what
-- `build_profile` makes of the form by then, and `saves` whether `sbv_profiles_upsert` succeeds.
unfoldable pub dialog_connect_done :
    Option Bytes → ℕ → Profile → Profile → Bool → Option Bytes → Window → Option Handled
unfolding on_connected close_dialog
dialog_connect_done principal c p entered saves (some message) w = some (w, [])
dialog_connect_done principal c p entered saves none w =
    and_drop c
      (on_connected principal c (saved_profile saves entered) (close_dialog (with_host c p w)))

abbrev source_text : Bytes → Bytes
source_text [] = []
source_text (c ∷ s) = separator ++ (c ∷ s)

-- The text of the ranges, with where they come from.
unfoldable pub hints_text : Hints → Bytes
hints_text h =
    codes "UID "
    ++ (range_text h.uid_min h.uid_max
        ++ (separator
            ++ (codes "GID " ++ (range_text h.gid_min h.gid_max ++ source_text (codes h.source)))))

-- `on_status_idmap_loaded`: a reply on another connection is dropped, and one that failed is
-- replaced by what the profile says, which must not be NULL then.
abbrev shown_hints : Option Hints → Option Profile → Option Hints
shown_hints (some h) p = some h
shown_hints none none = none
shown_hints none (some p) = some (from_profile p)

abbrev pub is_conn : Option ℕ → ℕ → Bool
is_conn none c = false
is_conn (some d) c = d == c

abbrev with_hints : Option Hints → Window → Option Handled
with_hints none w = none
with_hints (some h) w = some (record w { idmap_label = hints_text h }, [])

unfoldable pub idmap_loaded : ℕ → Option Hints → Window → Option Handled
unfolding hints_text
idmap_loaded c h w =
    if is_conn w.conn c then with_hints (shown_hints h w.active_profile) w else some (w, [])

-- `on_nav_row_selected`.
unfoldable pub nav_selected : Content → Window → Window
nav_selected page w = record w { content = some page }

abbrev both_same : Option Bytes → Option Bytes → Bool
both_same none _ = false
both_same (some a) none = false
both_same (some a) (some b) = bytes_eq a b

abbrev notice_if : Bool → Window → Window
notice_if false w = w
notice_if true w = record w {
  toasts = codes "Connection changes will apply on next connect." ∷ w.toasts;
}

-- `on_edit_saved`, with a profile.
unfoldable pub edit_saved : Profile → Window → Window
edit_saved saved w = elim w.active_profile [
  | none ↦ w
  | some p ↦ notice_if (both_same p.name saved.name) w
]

-- Whether the row of a profile has the mark of the active one, by `make_profile_row`.

unfoldable pub is_active : Profile → Window → Bool
is_active p w = elim w.active_profile [
  | none ↦ false
  | some a ↦ bytes_eq (or_empty p.name) (or_empty a.name)
]
