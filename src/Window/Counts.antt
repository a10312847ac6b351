-- ===== src/Window/Counts.antt =====
-- src/ui/sbv-window.c: the references to the connections.
use sambervise.Base.{
  ℕ, ◌+◌, ◌==◌, ◌≤◌, Option, none, some, List, [], ◌∷◌, ◌++◌, ◌≡◌, ◌≢◌, refl, sym, ap, ◌∙◌,
  Option-cases, inl, inr, Bool, true, false, if◌then◌else◌, arith,
}
use sambervise.Base.Bytes.{Bytes, is_filled}
use sambervise.Window.{
  Window, Request, krb_connect, password_connect, dialog_connect, hints_query, panel_call, source,
  Handled, drop, on_connected, update_identity, PasswordDialog, loads, browser_call, swap_refs,
}
use sambervise.Window.Connecting.{
  connect_to_profile, password_entered, close_password, dialog_entered, close_dialog, nav_selected,
  edit_saved, krb_connect_done, password_connect_done, dialog_connect_done, idmap_loaded, and_drop,
  with_host,
}
use sambervise.Window.Steps.{
  Step, Leads, hold_each, Event, activate, enter_password, close_password_dialog, enter_dialog,
  close_connect_dialog, select_nav, saved, call_panel, handle, ReplyTo, answer, CanHappen, event,
  reply, begin, next, new_window,
}
use sambervise.Profile.{Profile}

abbrev pub one_if : Option ℕ → ℕ → ℕ
one_if none c = 0
one_if (some d) c = if d == c then 1 else 0

abbrev pub pending : Option PasswordDialog → ℕ → ℕ
pending none c = 0
pending (some d) c = one_if d.pending_conn c

-- The references that the window and its dialogs hold.
abbrev pub held : ℕ → Window → ℕ
held c w = one_if w.conn c + pending w.password c + one_if w.add_pending c

-- The connect by Kerberos owns the reference of `sbv_connection_new` besides that of its task.
abbrev pub owned : ℕ → Request → ℕ
owned c (krb_connect d _) = if d == c then 1 else 0
owned c _ = 0

abbrev pub weight : ℕ → Request → ℕ
weight c q = (if source q == c then 1 else 0) + owned c q

abbrev pub tasks : ℕ → List Request → ℕ
tasks c [] = 0
tasks c (q ∷ qs) = weight c q + tasks c qs

abbrev owned_all : ℕ → List Request → ℕ
owned_all c [] = 0
owned_all c (q ∷ qs) = owned c q + owned_all c qs

pub tasks-append : (c : ℕ) (qs rs : List Request) → tasks c (qs ++ rs) ≡ tasks c qs + tasks c rs
tasks-append c [] rs = omega arith
tasks-append c (q ∷ qs) rs = rw (tasks-append c qs rs) (omega arith)

hold_each_lem :
    (c : ℕ) (qs : List Request) (refs : ℕ → ℕ)
    → hold_each qs refs c + owned_all c qs ≡ refs c + tasks c qs
unfolding hold_each
hold_each_lem c [] refs = omega arith
hold_each_lem c (q ∷ qs) refs = ground (arith, hold_each_lem c qs refs)

-- As many references as holders, and none to a connection that is not made yet.
pub record IsCounted (s : Handled) : Type 0 where
  pub each : (c : ℕ) → s.0.refs c ≡ held c s.0 + tasks c s.1
  pub fresh : (c : ℕ) → s.0.unused ≤ c → s.0.refs c ≡ 0

-- A connect from a dialog that succeeds is left out.
abbrev pub IsSpared : (q : Request) → ReplyTo q → Type 0
IsSpared (password_connect _ _) r = r.0 ≢ none
IsSpared (dialog_connect _ _) r = r.0 ≢ none
IsSpared _ r = Unit

handle-each :
    (e : Event) (w : Window) (c n : ℕ)
    → CanHappen e w
    → w.refs c ≡ held c w + n
    → (w.unused ≤ c → w.refs c ≡ 0)
    → (handle e w).0.refs c ≡ held c (handle e w).0 + owned_all c (handle e w).1 + n
unfolding handle connect_to_profile password_entered close_password dialog_entered close_dialog
    nav_selected edit_saved
handle-each (activate p) w c n can h fresh = ground arith
handle-each enter_password w c n can h fresh = ground arith
handle-each close_password_dialog w c n can h fresh = ground arith
handle-each (enter_dialog p) w c n can h fresh = ground arith
handle-each close_connect_dialog w c n can h fresh = ground arith
handle-each (select_nav page) w c n can h fresh = ground arith
handle-each (saved p) w c n can h fresh = ground arith
handle-each (call_panel d) w c n can h fresh = ground arith

handle-fresh :
    (e : Event) (w : Window) (c : ℕ)
    → CanHappen e w
    → ((d : ℕ) → w.unused ≤ d → w.refs d ≡ 0)
    → (handle e w).0.unused ≤ c
    → hold_each (handle e w).1 (handle e w).0.refs c ≡ 0
unfolding handle connect_to_profile password_entered close_password dialog_entered close_dialog
    nav_selected edit_saved hold_each
handle-fresh (activate p) w c can fresh h = ground (arith, fresh c)
handle-fresh enter_password w c can fresh h = ground (arith, fresh c)
handle-fresh close_password_dialog w c can fresh h = ground (arith, fresh c)
handle-fresh (enter_dialog p) w c can fresh h = ground (arith, fresh c)
handle-fresh close_connect_dialog w c can fresh h = ground (arith, fresh c)
handle-fresh (select_nav page) w c can fresh h = ground (arith, fresh c)
handle-fresh (saved p) w c can fresh h = ground (arith, fresh c)
handle-fresh (call_panel d) w c can fresh h = ground (arith, fresh c)

-- A property of the result, where there is one.
abbrev Result : (Handled → Type 0) → Option Handled → Type 0
Result P none = Unit
Result P (some s) = P s

result_at :
    (P : Handled → Type 0) (o : Option Handled) (s : Handled) → o ≡ some s → Result P o → P s
result_at P o s e h = rw e at h

abbrev left : ℕ → ℕ → Handled → ℕ
left d c (w, more) = drop d (hold_each more w.refs) c

browser-owned : (b : Bool) (c d : ℕ) → owned_all c (browser_call b d) ≡ 0
browser-owned true c d = refl
browser-owned false c d = refl

pub loads-each :
    (d c : ℕ) (base_dn : Option Bytes) (p : Profile) (refs : ℕ → ℕ)
    → hold_each (loads d base_dn p) refs c ≡ refs c + tasks c (loads d base_dn p)
loads-each d c base_dn p refs =
    omega (arith, hold_each_lem c (loads d base_dn p) refs, browser-owned (is_filled base_dn) c d)

-- What `on_connected` and the release of one reference after it do to the count of `c`.
connected-each :
    (principal : Option Bytes) (d c n : ℕ) (p : Profile) (w : Window)
    → w.refs c ≡ held c w + ((if d == c then 2 else 0) + n)
    → Result
        (λ s. left d c s ≡ held c s.0 + (tasks c s.1 + n))
        (and_drop d (on_connected principal d (some p) w))
unfolding on_connected update_identity
connected-each principal d c n p w h = elim (Option-cases w.conn) [
  | inl e ↦ ground (arith, e, loads-each d c (w.base_dns d) p (drop d (swap_refs d w.conn w.refs)))
  | inr (d', e) ↦
      ground (arith, e, loads-each d c (w.base_dns d) p (drop d (swap_refs d w.conn w.refs)))
]

answer-each :
    (q : Request) (r : ReplyTo q) (w : Window) (c n : ℕ)
    → IsSpared q r
    → w.refs c ≡ held c w + (weight c q + n)
    → Result (λ s. left (source q) c s ≡ held c s.0 + (tasks c s.1 + n)) (answer q r w)
unfolding answer krb_connect_done password_connect_done dialog_connect_done idmap_loaded hold_each
answer-each (krb_connect d p) (none, principal) w c n spared h =
    connected-each principal d c n p (with_host d p w) (ground arith)
answer-each (krb_connect d p) (some m, principal) w c n spared h = ground arith
answer-each (password_connect d p) (none, principal) w c n spared h = absurd (spared refl)
answer-each (password_connect d p) (some m, principal) w c n spared h = ground arith
answer-each (dialog_connect d p) (none, _, _, _) w c n spared h = absurd (spared refl)
answer-each (dialog_connect d p) (some m, _, _, _) w c n spared h = ground arith
answer-each (hints_query d p) r w c n spared h = ground arith
answer-each (panel_call d) r w c n spared h = ground arith

loads-other :
    (d c : ℕ) (b : Bool) (p : Profile) (refs : ℕ → ℕ)
    → (d == c) ≡ false
    → hold_each (browser_call b d) refs c ≡ refs c
unfolding hold_each
loads-other d c true p refs h = ground arith
loads-other d c false p refs h = ground arith

connected-fresh :
    (principal : Option Bytes) (d c : ℕ) (p : Profile) (w : Window)
    → (d == c) ≡ false
    → w.refs c ≡ 0
    → Result (λ s. left d c s ≡ 0) (and_drop d (on_connected principal d (some p) w))
unfolding on_connected update_identity hold_each
connected-fresh principal d c p w other h = elim (Option-cases w.conn) [
  | inl e ↦
      ground (
        arith,
        e,
        loads-other d c (is_filled (w.base_dns d)) p (drop d (swap_refs d w.conn w.refs)),
      )
  | inr (d', e) ↦
      ground (
        arith,
        e,
        loads-other d c (is_filled (w.base_dns d)) p (drop d (swap_refs d w.conn w.refs)),
      )
]

answer-fresh :
    (q : Request) (r : ReplyTo q) (w : Window) (c : ℕ)
    → IsSpared q r
    → (source q == c) ≡ false
    → w.refs c ≡ 0
    → Result (λ s. left (source q) c s ≡ 0) (answer q r w)
unfolding answer krb_connect_done password_connect_done dialog_connect_done idmap_loaded hold_each
answer-fresh (krb_connect d p) (none, principal) w c spared other h =
    connected-fresh principal d c p (with_host d p w) other h
answer-fresh (krb_connect d p) (some m, principal) w c spared other h = ground arith
answer-fresh (password_connect d p) (none, principal) w c spared other h = absurd (spared refl)
answer-fresh (password_connect d p) (some m, principal) w c spared other h = ground arith
answer-fresh (dialog_connect d p) (none, _, _, _) w c spared other h = absurd (spared refl)
answer-fresh (dialog_connect d p) (some m, _, _, _) w c spared other h = ground arith
answer-fresh (hints_query d p) r w c spared other h = ground arith
answer-fresh (panel_call d) r w c spared other h = ground arith

answer-unused :
    (q : Request) (r : ReplyTo q) (w : Window)
    → IsSpared q r
    → Result (λ s. s.0.unused ≡ w.unused) (answer q r w)
unfolding answer krb_connect_done password_connect_done dialog_connect_done idmap_loaded
    on_connected update_identity
answer-unused (krb_connect d p) (none, principal) w spared = refl
answer-unused (krb_connect d p) (some m, principal) w spared = refl
answer-unused (password_connect d p) (none, principal) w spared = absurd (spared refl)
answer-unused (password_connect d p) (some m, principal) w spared = refl
answer-unused (dialog_connect d p) (none, _, _, _) w spared = absurd (spared refl)
answer-unused (dialog_connect d p) (some m, _, _, _) w spared = refl
answer-unused (hints_query d p) r w spared = ground arith
answer-unused (panel_call d) r w spared = refl

pub tasks-cut :
    (c : ℕ) (before : List Request) (q : Request) (after : List Request)
    → tasks c (before ++ (q ∷ after)) ≡ weight c q + tasks c (before ++ after)
tasks-cut c before q after =
    omega (arith, tasks-append c before (q ∷ after), tasks-append c before after)

-- The connection of a call in flight is made already.
source_made :
    (q : Request) (w : Window) (c n m : ℕ)
    → w.refs c ≡ n + (weight c q + m)
    → w.refs c ≡ 0
    → (source q == c) ≡ false
source_made q w c n m e z = ground arith

Step-IsCounted : {s t : Handled} → Step IsSpared s t → IsCounted s → IsCounted t
Step-IsCounted (event e w qs can) v = record {
  each = λ c. omega (
    arith,
    handle-each e w c (tasks c qs) can (v.each c) (v.fresh c),
    hold_each_lem c (handle e w).1 (handle e w).0.refs,
    tasks-append c (handle e w).1 qs,
  );
  fresh = λ c h. handle-fresh e w c can v.fresh h;
}
Step-IsCounted (reply before q after r w w' more spared e) v = record {
  each = λ c.
      let cut = tasks-cut c before q after in
      let kept =
        result_at _ (answer q r w) (w', more) e
          (answer-each q r w c (tasks c (before ++ after)) spared (omega (arith, v.each c))) in
      kept ∙ ap (λ n. held c w' + n) (sym (tasks-append c more (before ++ after)));
  fresh = λ c h.
      let same = result_at _ (answer q r w) (w', more) e (answer-unused q r w spared) in
      let zero = v.fresh c (omega (arith, h, same)) in
      result_at _ (answer q r w) (w', more) e
        (answer-fresh q r w c spared
          (source_made q w c (held c w) (tasks c (before ++ after))
            (v.each c ∙ ap (λ n. held c w + n) (tasks-cut c before q after)) zero)
          zero);
}

-- In every state that a window comes to, by any handlers and any replies in any order, but for a
-- connect from a dialog that succeeds: each connection has as many references as it has holders,
-- which are the window, the two dialogs, and the calls in flight on it, a connect by Kerberos
-- twice.
pub Leads-IsCounted :
    {s : Handled}
    → Leads IsSpared (new_window, []) s
    → (c : ℕ) → s.0.refs c ≡ held c s.0 + tasks c s.1
Leads-IsCounted r c = (counted r).each c
  where
    counted : {t : Handled} → Leads IsSpared (new_window, []) t → IsCounted t
    counted begin = record { each = λ d. refl; fresh = λ d h. refl }
    counted (next l st) = Step-IsCounted st (counted l)
