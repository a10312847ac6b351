-- ===== src/Window/Steps.antt =====
-- src/ui/sbv-window.c and its dialogs: the handlers and the replies in any order.
use sambervise.Base.{ℕ, Bool, false, Option, none, some, List, [], ◌∷◌, ◌++◌, ◌<◌, ◌≡◌}
use sambervise.Base.Bytes.{Bytes}
use sambervise.Profile.{Profile}
use sambervise.Idmap.{Hints}
use sambervise.Window.{
  Content, PasswordDialog, Window, Request, source, Handled, hold, drop, krb_connect,
  password_connect, dialog_connect, hints_query, panel_call,
}
use sambervise.Window.Connecting.{
  connect_to_profile, password_entered, close_password, dialog_entered, close_dialog,
  krb_connect_done, password_connect_done, dialog_connect_done, idmap_loaded, nav_selected,
  edit_saved,
}

-- What the user of the program does, and a call that a panel makes on the connection.
pub data Event : Type 0 where
  activate : Profile → Event
  enter_password close_password_dialog : Event
  enter_dialog : Profile → Event
  close_connect_dialog : Event
  select_nav : Content → Event
  saved : Profile → Event
  call_panel : ℕ → Event

unfoldable pub handle : Event → Window → Handled
unfolding connect_to_profile password_entered close_password dialog_entered close_dialog
    nav_selected edit_saved
handle (activate p) w = connect_to_profile p w
handle enter_password w = password_entered w
handle close_password_dialog w = (close_password w, [])
handle (enter_dialog p) w = dialog_entered p w
handle close_connect_dialog w = (close_dialog w, [])
handle (select_nav page) w = (nav_selected page w, [])
handle (saved p) w = (edit_saved p w, [])
handle (call_panel c) w = (w, panel_call c ∷ [])

-- What a call is answered with: `none` or an error for one that connects, and the reply on hints.
-- With it come the principal and, for the connect dialog, its form and whether it is saved.
abbrev pub ReplyTo : Request → Type 0
ReplyTo (krb_connect _ _) = Option Bytes × Option Bytes
ReplyTo (password_connect _ _) = Option Bytes × Option Bytes
ReplyTo (dialog_connect _ _) = Option Bytes × Option Bytes × Profile × Bool
ReplyTo (hints_query _ _) = Option Hints
ReplyTo (panel_call _) = Unit

-- The callback of a call. What that of a panel calls again is an event.
unfoldable pub answer : (q : Request) → ReplyTo q → Window → Option Handled
unfolding krb_connect_done password_connect_done dialog_connect_done idmap_loaded
answer (krb_connect c p) (error, principal) w = krb_connect_done principal c p error w
answer (password_connect c p) (error, principal) w = password_connect_done principal c p error w
answer (dialog_connect c p) (error, principal, entered, saves) w =
    dialog_connect_done principal c p entered saves error w
answer (hints_query c p) h w = idmap_loaded c h w
answer (panel_call c) done w = some (w, [])

-- The references of the tasks of calls that are started.
unfoldable pub hold_each : List Request → (ℕ → ℕ) → ℕ → ℕ
hold_each [] refs = refs
hold_each (q ∷ qs) refs = hold (source q) (hold_each qs refs)

abbrev pub started : Window → List Request → Window
started w qs = record w { refs = hold_each qs w.refs }

-- A button that is busy cannot be clicked, and a dialog that is busy cannot be closed. The dialog
-- for a password is modal.
abbrev NotBusy : Option PasswordDialog → Type 0
NotBusy none = ⊥
NotBusy (some d) = d.busy ≡ false

abbrev pub CanHappen : Event → Window → Type 0
CanHappen enter_password w = NotBusy w.password
CanHappen close_password_dialog w = NotBusy w.password
CanHappen (call_panel c) w = c < w.unused
CanHappen (activate _) w = w.password ≡ none
CanHappen _ w = Unit

-- One handler. The reference of a task is let go after its callback. `P` says which replies come.
pub data Step (P : (q : Request) → ReplyTo q → Type 0) : Handled → Handled → Type 0 where
  event :
      (e : Event) (w : Window) (qs : List Request)
      → CanHappen e w
      → Step P (w, qs) (started (handle e w).0 (handle e w).1, (handle e w).1 ++ qs)
  reply :
      (before : List Request) (q : Request) (after : List Request) (r : ReplyTo q) (w w' : Window)
      (more : List Request)
      → P q r
      → answer q r w ≡ some (w', more)
      → Step P
          (w, before ++ (q ∷ after))
          (record w' { refs = drop (source q) (hold_each more w'.refs) }, more ++ (before ++ after))

-- What a window comes to.
pub data Leads (P : (q : Request) → ReplyTo q → Type 0) (s : Handled) : Handled → Type 0 where
  begin : Leads P s s
  next : {t u : Handled} → Leads P s t → Step P t u → Leads P s u

-- `sbv_window_init`.
abbrev pub new_window : Window
new_window = record {
  refs = λ c. 0;
  hosts = λ c. none;
  base_dns = λ c. none;
  unused = 0;
  conn = none;
  active_profile = none;
  content = none;
  title = [];
  server_label = [];
  principal_label = [];
  idmap_label = [];
  status_shown = false;
  toasts = [];
  password = none;
  add_pending = none;
}
