-- ===== src/Tests/Windows.antt =====
-- The theorems on the window and its connections, and on the dialogs that make them.
use sambervise.Base.{
  ◌+◌, ◌==◌, true, false, Option, none, some, [], ◌∷◌, ◌++◌, ◌≡◌, ◌⊎◌, ◌≢◌, refl, if◌then◌else◌,
}
use sambervise.Base.Bytes.{codes}
use sambervise.Profile.{Profile, new_profile, simple}
use sambervise.ConnectDialog.{Form, build_profile, populate}
use sambervise.Window.{
  Window, Handled, krb_connect, password_connect, loads, on_connected, update_identity,
  PasswordDialog, drop,
}
use sambervise.Window.Connecting.{
  connect_to_profile, password_entered, krb_connect_done, password_connect_done,
  dialog_connect_done,
}
use sambervise.Window.Steps.{
  Leads, answer, handle, started, activate, event, reply, begin, next, new_window, hold_each,
}
use sambervise.Window.Counts.{IsSpared, held, tasks, Leads-IsCounted}
use sambervise.Window.Dropped.{Settles, settled, password_connect_dropped}
use sambervise.Window.Races.{password_connected_as, dialog_connect_done_cases}
use sambervise.Tests.{lab}

-- `lab` is activated, and its connect is under way.
abbrev dialled : Handled
dialled =
    (started (handle (activate lab) new_window).0 (krb_connect 0 lab ∷ []), krb_connect 0 lab ∷ [])

abbrev or_new : Option Handled → Handled
or_new none = (new_window, [])
or_new (some s) = s

-- The connect has succeeded, and the loads on the connection are under way.
abbrev shown : Handled
shown = or_new (krb_connect_done none 0 lab none dialled.0)

abbrev online : Handled
online = (record (shown.0) { refs = drop 0 (hold_each shown.1 shown.0.refs) }, shown.1 ++ [])

online-Leads : Leads IsSpared (new_window, []) online
unfolding handle connect_to_profile answer krb_connect_done on_connected update_identity
online-Leads =
    next (next begin (event (activate lab) new_window [] refl))
      (reply [] (krb_connect 0 lab) [] (none, none) dialled.0 shown.0 shown.1 tt refl)

Leads-IsCounted_example : online.0.refs 0 ≡ held 0 online.0 + tasks 0 online.1
Leads-IsCounted_example = Leads-IsCounted online-Leads 0

-- A profile with a password.
abbrev office : Profile
office = record new_profile {
  name = some (codes "office");
  host = some (codes "dc2");
  base_dn = some (codes "DC=x");
  auth_type = simple;
}

-- The password has been entered.
abbrev waiting : PasswordDialog
waiting = record { profile = office; error = none; busy = true; pending_conn = some 0 }

abbrev entered : Window
entered = record new_window {
  refs = λ c. if c == 0 then 2 else 0;
  unused = 1;
  active_profile = some office;
  password = some waiting;
}

password_connect_dropped_example :
    (s : Handled) × (answer (password_connect 0 office) (none, none) entered ≡ some s)
    × (s.0.conn ≡ some 0)
    × ((t : Handled)
        → Settles (settled 0 s []) t
        → tasks 0 t.1 ≡ 0
        → (t.0.conn ≡ some 0) × (t.0.refs 0 ≡ 0))
password_connect_dropped_example =
    password_connect_dropped none 0 office office entered waiting [] refl refl refl refl refl refl

password_connected_as_example :
    let w₁ = (connect_to_profile lab new_window).0 in
    let w₂ = (connect_to_profile office w₁).0 in
    let w₃ = (password_entered w₂).0 in
    ((connect_to_profile lab new_window).1 ≡ krb_connect 0 lab ∷ [])
    × ((password_entered w₂).1 ≡ password_connect 1 office ∷ [])
    × (s : Handled) × (krb_connect_done none 0 lab none w₃ ≡ some s)
    × (t : Handled) × (password_connect_done none 1 office none s.0 ≡ some t)
    × (t.0.conn ≡ some 1)
    × (t.0.active_profile ≡ some lab)
    × (t.1 ≡ loads 1 (some (codes "DC=x")) lab)
password_connected_as_example = password_connected_as none none lab office new_window refl refl

abbrev nameless : Form
nameless = record (populate lab) { name = [] }

dialog_connect_done_cases_example :
    let done = dialog_connect_done none 0 lab (build_profile nameless) true none dialled.0 in
    (((nameless.name ≡ []) ⊎ (true ≡ false)) × (done ≡ none))
    ⊎ ((nameless.name ≢ [])
        × (true ≡ true)
        × (s : Handled) × (done ≡ some s)
        × (s.0.conn ≡ some 0)
        × (s.0.active_profile ≡ some (build_profile nameless)))
dialog_connect_done_cases_example = dialog_connect_done_cases none 0 lab nameless true dialled.0
