-- ===== src/Window/Dropped.antt =====
-- src/ui/sbv-password-dialog.c: the connection that the dialog for a password hands to the window.
use sambervise.Base.{
  ℕ, ◌==◌, false, Option, none, some, List, [], ◌∷◌, ◌++◌, ◌≡◌, ap, ◌∙◌, Option-cases, inl, inr,
  if◌then◌else◌, arith,
}
use sambervise.Base.Bytes.{Bytes}
use sambervise.Profile.{Profile}
use sambervise.Window.{
  Window, PasswordDialog, Request, krb_connect, password_connect, dialog_connect, hints_query,
  panel_call, source, Handled, drop, loads, swap_refs, drop_if,
}
use sambervise.Window.Connecting.{
  is_conn, password_connect_done, idmap_loaded, close_password, with_host, pending_of,
}
use sambervise.Window.Steps.{hold_each, ReplyTo, answer}
use sambervise.Window.Shown.{Shows, on_connected-Shows_at}
use sambervise.Window.Counts.{tasks, tasks-append, tasks-cut, weight, loads-each}

-- A call that does not connect.
abbrev pub IsPlain : Request → Type 0
IsPlain (hints_query _ _) = Unit
IsPlain (panel_call _) = Unit
IsPlain _ = ⊥

abbrev pub settled : ℕ → Handled → List Request → Handled
settled c (w, more) qs = (record w { refs = drop c (hold_each more w.refs) }, more ++ qs)

-- Calls that do not connect are answered, in any order, and nothing else happens.
pub data Settles (s : Handled) : Handled → Type 0 where
  rest : Settles s s
  settle :
      (before : List Request) (q : Request) (after : List Request) (r : ReplyTo q) (w : Window)
      (t : Handled)
      → Settles s (w, before ++ (q ∷ after))
      → IsPlain q
      → answer q r w ≡ some t
      → Settles s (settled (source q) t (before ++ after))

-- The window holds the connection, and only the calls on it have references.
record IsOwed (c : ℕ) (s : Handled) : Type 0 where
  shown : s.0.conn ≡ some c
  only : s.0.refs c ≡ tasks c s.1

plain-answer :
    (q : Request) (r : ReplyTo q) (w : Window) (t : Handled)
    → IsPlain q
    → answer q r w ≡ some t
    → (t.0.conn ≡ w.conn) × (t.0.refs ≡ w.refs) × (t.1 ≡ [])
unfolding answer idmap_loaded
plain-answer (krb_connect _ _) r w t plain e = absurd plain
plain-answer (password_connect _ _) r w t plain e = absurd plain
plain-answer (dialog_connect _ _) r w t plain e = absurd plain
plain-answer (hints_query c p) r w t plain e = ground (arith, e)
plain-answer (panel_call c) r w t plain e = ground (arith, e)

plain-weight : (c : ℕ) (q : Request) → IsPlain q → weight c q ≡ (if source q == c then 1 else 0)
plain-weight c (krb_connect _ _) plain = absurd plain
plain-weight c (password_connect _ _) plain = absurd plain
plain-weight c (dialog_connect _ _) plain = absurd plain
plain-weight c (hints_query _ _) plain = omega arith
plain-weight c (panel_call _) plain = omega arith

Settles-IsOwed : (c : ℕ) (s : Handled) {t : Handled} → IsOwed c s → Settles s t → IsOwed c t
unfolding hold_each
Settles-IsOwed c s v rest = v
Settles-IsOwed c s v (settle before q after r w t l plain e) =
    let u = Settles-IsOwed c s v l in
    let (conn, refs, more) = plain-answer q r w t plain e in
    record {
      shown = conn ∙ u.shown;
      only = rw more (
          ground (
            arith,
            ap (λ (f : ℕ → ℕ). f c) refs,
            u.only,
            tasks-cut c before q after,
            plain-weight c q plain,
          ));
    }

-- What is left while the callback runs: the reference of the task.
once :
    (c : ℕ) (w : Window) (d : PasswordDialog)
    → w.password ≡ some d
    → d.pending_conn ≡ some c
    → w.refs c ≡ 2
    → is_conn w.conn c ≡ false
    → drop c (swap_refs c w.conn (drop_if (pending_of w.password) w.refs)) c ≡ 1
once c w d opened pending two other = elim (Option-cases w.conn) [
  | inl e ↦ ground (arith, e, opened, pending)
  | inr (c', e) ↦ ground (arith, e, opened, pending)
]

loads-owed :
    (c : ℕ) (s : Handled) (base_dn : Option Bytes) (p : Profile) (qs : List Request)
    → s.1 ≡ loads c base_dn p
    → s.0.refs c ≡ 1
    → tasks c qs ≡ 0
    → drop c (hold_each s.1 s.0.refs) c ≡ tasks c (s.1 ++ qs)
loads-owed c s base_dn p qs calls one idle =
    rw calls
      (ground (arith, loads-each c c base_dn p s.0.refs, tasks-append c (loads c base_dn p) qs))

password-IsOwed :
    (c : ℕ) (p p' : Profile) (w : Window) (d : PasswordDialog) (qs : List Request)
    (o : Option Handled)
    → w.password ≡ some d
    → d.pending_conn ≡ some c
    → w.refs c ≡ 2
    → is_conn w.conn c ≡ false
    → tasks c qs ≡ 0
    → (v : Shows c p' (close_password (with_host c p w)) o) → IsOwed c (settled c v.result qs)
unfolding close_password
password-IsOwed c p p' w d qs o opened pending two other idle v = record {
  shown = v.conn;
  only =
      loads-owed c v.result _ p' qs v.calls
        (ap (λ (f : ℕ → ℕ). f c) v.refs ∙ once c w d opened pending two other) idle;
}

-- When a connect from the dialog for a password succeeds, nothing but the dialog and the call has a
-- reference to the new connection, and the window has a profile: then the window takes the connection,
-- but once the calls on it that are started then have been answered, in any order, it has no reference
-- left, although the window still holds it.
pub password_connect_dropped :
    (principal : Option Bytes) (c : ℕ) (p p' : Profile) (w : Window) (d : PasswordDialog)
    (qs : List Request)
    → w.password ≡ some d
    → d.pending_conn ≡ some c
    → w.refs c ≡ 2
    → is_conn w.conn c ≡ false
    → w.active_profile ≡ some p'
    → tasks c qs ≡ 0
    → (s : Handled) × (answer (password_connect c p) (none, principal) w ≡ some s)
      × (s.0.conn ≡ some c)
      × ((t : Handled)
          → Settles (settled c s qs) t
          → tasks c t.1 ≡ 0
          → (t.0.conn ≡ some c) × (t.0.refs c ≡ 0))
unfolding answer password_connect_done close_password
password_connect_dropped principal c p p' w d qs opened pending two other active idle =
    let v =
      on_connected-Shows_at principal c w.active_profile p' (close_password (with_host c p w))
        active in
    let owed = password-IsOwed c p p' w d qs _ opened pending two other idle v in
    (
      v.result,
      v.reached,
      v.conn,
      λ t l z. let u = Settles-IsOwed c (settled c v.result qs) owed l in (u.shown, u.only ∙ z),
    )
