-- ===== src/Window/Shown.antt =====
-- src/ui/sbv-window.c: what the window has after a connect.
use sambervise.Base.{ℕ, Option, some, ◌≡◌, refl, ap, ◌∙◌}
use sambervise.Base.Bytes.{Bytes}
use sambervise.Profile.{Profile}
use sambervise.Window.{Window, Handled, loads, on_connected, drop, swap_refs}
use sambervise.Window.Connecting.{and_drop}

-- The result of `on_connected` with a profile, after which a reference to `c` is let go.
pub record Shows (c : ℕ) (p : Profile) (w : Window) (o : Option Handled) : Type 0 where
  pub result : Handled
  pub reached : o ≡ some result
  pub conn : result.0.conn ≡ some c
  pub active : result.0.active_profile ≡ some p
  pub calls : result.1 ≡ loads c (w.base_dns c) p
  pub refs : result.0.refs ≡ drop c (swap_refs c w.conn w.refs)
  pub password : result.0.password ≡ w.password

pub on_connected-Shows :
    (principal : Option Bytes) (c : ℕ) (p : Profile) (w : Window)
    → Shows c p w (and_drop c (on_connected principal c (some p) w))
unfolding on_connected
on_connected-Shows principal c p w = record {
  result = _;
  reached = refl;
  conn = refl;
  active = refl;
  calls = refl;
  refs = refl;
  password = refl;
}

-- The same, with a profile that is known by an equation.
pub on_connected-Shows_at :
    (principal : Option Bytes) (c : ℕ) (o : Option Profile) (p : Profile) (w : Window)
    → o ≡ some p
    → Shows c p w (and_drop c (on_connected principal c o w))
on_connected-Shows_at principal c o p w e =
    let v = on_connected-Shows principal c p w in
    record {
      result = v.result;
      reached = ap (λ x. and_drop c (on_connected principal c x w)) e ∙ v.reached;
      conn = v.conn;
      active = v.active;
      calls = v.calls;
      refs = v.refs;
      password = v.password;
    }
