-- ===== src/Window/Races.antt =====
-- src/ui/sbv-window.c and src/ui/sbv-connect-dialog.c: which profile a connection is shown with.
use sambervise.Base.{
  ℕ, suc, Bool, true, false, Option, none, some, [], ◌∷◌, ◌≡◌, ◌⊎◌, ◌≢◌, inl, inr, refl, ap, ◌∙◌,
  arith,
}
use sambervise.Base.Bytes.{Bytes}
use sambervise.Profile.{Profile, kerberos, simple}
use sambervise.ConnectDialog.{Form, build_profile}
use sambervise.Window.Shown.{on_connected-Shows, on_connected-Shows_at}
use sambervise.Window.{
  Window, Handled, krb_connect, password_connect, loads, on_connected, update_identity,
}
use sambervise.Window.Connecting.{
  connect_to_profile, password_entered, krb_connect_done, password_connect_done,
  dialog_connect_done, close_password, close_dialog, saved_profile, and_drop, with_host,
}

own_base_dn :
    (c : ℕ) (p : Profile) (w : Window) → (close_password (with_host c p w)).base_dns c ≡ p.base_dn
unfolding close_password
own_base_dn c p w = ground arith

-- The profile `b` is activated while the connect of `a` by Kerberos is under way, and the password
-- is entered before `a` is connected. When both have succeeded, in this order, the window has the
-- connection of `b` with the profile `a`, and asks for the hints of that profile on it.
pub password_connected_as :
    (principal principal' : Option Bytes) (a b : Profile) (w : Window)
    → a.auth_type ≡ kerberos
    → b.auth_type ≡ simple
    → let w₁ = (connect_to_profile a w).0 in
      let w₂ = (connect_to_profile b w₁).0 in
      let w₃ = (password_entered w₂).0 in
      ((connect_to_profile a w).1 ≡ krb_connect w.unused a ∷ [])
      × ((password_entered w₂).1 ≡ password_connect (suc w.unused) b ∷ [])
      × (s : Handled) × (krb_connect_done principal w.unused a none w₃ ≡ some s)
      × (t : Handled) × (password_connect_done principal' (suc w.unused) b none s.0 ≡ some t)
      × (t.0.conn ≡ some (suc w.unused))
      × (t.0.active_profile ≡ some a)
      × (t.1 ≡ loads (suc w.unused) b.base_dn a)
unfolding connect_to_profile password_entered krb_connect_done password_connect_done on_connected
    update_identity close_password
password_connected_as principal principal' a b w krb plain =
    let w₃ = (password_entered (connect_to_profile b (connect_to_profile a w).0).0).0 in
    let v = on_connected-Shows principal w.unused a (with_host w.unused a w₃) in
    let w₅ = close_password (with_host (suc w.unused) b v.result.0) in
    let u =
      on_connected-Shows_at principal' (suc w.unused) v.result.0.active_profile a w₅ v.active in
    (
      ground arith,
      ground arith,
      v.result,
      v.reached,
      u.result,
      u.reached,
      u.conn,
      u.active,
      u.calls ∙ ap (λ dn. loads (suc w.unused) dn a) (own_base_dn (suc w.unused) b v.result.0),
    )

saved_cases :
    (f : Form) (saves : Bool)
    → (((f.name ≡ []) ⊎ (saves ≡ false)) × (saved_profile saves (build_profile f) ≡ none))
      ⊎ ((f.name ≢ [])
          × (saves ≡ true)
          × (saved_profile saves (build_profile f) ≡ some (build_profile f)))
unfolding build_profile
saved_cases f saves = go f.name saves refl refl
  where
    go :
        (s : Bytes) (b : Bool)
        → f.name ≡ s
        → saves ≡ b
        → (((f.name ≡ []) ⊎ (saves ≡ false)) × (saved_profile saves (build_profile f) ≡ none))
          ⊎ ((f.name ≢ [])
              × (saves ≡ true)
              × (saved_profile saves (build_profile f) ≡ some (build_profile f)))
    go [] b e h = inl (inl e, ground (arith, e))
    go (x ∷ s) false e h = inl (inr h, ground (arith, e, h))
    go (x ∷ s) true e h = inr (λ n. ground (arith, e, n), h, ground (arith, e, h))

connected-none :
    (principal : Option Bytes) (c : ℕ) (o : Option Profile) (w : Window)
    → o ≡ none
    → and_drop c (on_connected principal c o w) ≡ none
unfolding on_connected
connected-none principal c o w e = ap (λ x. and_drop c (on_connected principal c x w)) e

-- A connect of the connect dialog that succeeds, with the form as it is then: the window's handler
-- has a result, the new connection with the profile, if the form has a name and the profiles are
-- saved; otherwise it reads a profile that is NULL.
pub dialog_connect_done_cases :
    (principal : Option Bytes) (c : ℕ) (p : Profile) (f : Form) (saves : Bool) (w : Window)
    → let done = dialog_connect_done principal c p (build_profile f) saves none w in
      (((f.name ≡ []) ⊎ (saves ≡ false)) × (done ≡ none))
      ⊎ ((f.name ≢ [])
          × (saves ≡ true)
          × (s : Handled) × (done ≡ some s)
          × (s.0.conn ≡ some c)
          × (s.0.active_profile ≡ some (build_profile f)))
unfolding dialog_connect_done close_dialog
dialog_connect_done_cases principal c p f saves w = elim (saved_cases f saves) [
  | inl (why, e) ↦ inl (why, connected-none principal c _ (close_dialog (with_host c p w)) e)
  | inr (named, kept, e) ↦
      let v =
        on_connected-Shows_at principal c (saved_profile saves (build_profile f)) (build_profile f)
          (close_dialog (with_host c p w)) e in
      inr (named, kept, v.result, v.reached, v.conn, v.active)
]
