-- ===== src/Panel/Aim.antt =====
-- src/ui/sbv-users-panel.c: the user that is selected while the dialog for a deletion is open, and
-- the handlers that leave both alone.
use sambervise.Base.{
  ℕ, suc, ◌<◌, ◌≤◌, Bool, true, false, Option, none, some, List, [], ◌∷◌, ◌≡◌, refl, sym, ap, ◌∙◌,
  if◌then◌else◌, arith,
}
use sambervise.Base.Bytes.{Bytes, or_empty, bytes_eq_iff}
use sambervise.Editor.{is_nonempty}
use sambervise.Users.{User}
use sambervise.Panel.{Panel, split}
use sambervise.Panel.Expiry.{Dates}
use sambervise.Panel.Detail.{
  load_user_into_detail, row_selected, add_row, add_rows, users_loaded, Target, is_target,
  reload_target, selected_target, target_or, sam_target, page_of, chosen,
}

-- The dialog expects the name of the user that is selected, no user has been created since the list
-- was loaded, and the number of the selected user is in use.
pub record IsAimed (p : Panel) : Type 0 where
  pub known : (r : ℕ) → p.selected_user ≡ some r → r < p.unused
  pub aimed :
      (x : Bytes × Bool) (r : ℕ)
      → p.confirm ≡ some x
      → p.selected_user ≡ some r
      → or_empty (p.users r).sam ≡ x.0
  pub named : (x : Bytes × Bool) → p.confirm ≡ some x → is_nonempty x.0 ≡ true
  pub settled : (x : Bytes × Bool) → p.confirm ≡ some x → p.pending_select_dn ≡ none
  pub paged : p.outer ≡ split → p.pending_select_dn ≡ none

-- Nothing that the dialog rests on is different, at the user `r`.
abbrev pub SameAim : Panel → Panel → ℕ → Type 0
SameAim p p' r =
    (p'.confirm ≡ p.confirm)
    × (p'.selected_user ≡ p.selected_user)
    × (p'.pending_select_dn ≡ p.pending_select_dn)
    × ((p'.outer ≡ split) → p.outer ≡ split)
    × (p'.unused ≡ p.unused)
    × (or_empty (p'.users r).sam ≡ or_empty (p.users r).sam)

pub SameAim-IsAimed : (p p' : Panel) → ((r : ℕ) → SameAim p p' r) → IsAimed p → IsAimed p'
SameAim-IsAimed p p' same v =
    let (confirm, selected, pending, outer, unused, _) = same 0 in
    record {
      known = λ r e. rw unused (v.known r (sym selected ∙ e));
      aimed = λ x r c e.
          let (_, _, _, _, _, sam) = same r in
          sam ∙ v.aimed x r (sym confirm ∙ c) (sym selected ∙ e);
      named = λ x c. v.named x (sym confirm ∙ c);
      settled = λ x c. pending ∙ v.settled x (sym confirm ∙ c);
      paged = λ e. pending ∙ v.paged (outer e);
    }

-- What the loop of `on_users_loaded` keeps of the users that were there, and what it selects.
record IsExtended (t : Target) (p : Panel) (q : Panel × Option ℕ) : Type 0 where
  selected : q.0.selected_user ≡ p.selected_user
  pending : q.0.pending_select_dn ≡ p.pending_select_dn
  confirm : q.0.confirm ≡ p.confirm
  grown : p.unused ≤ q.0.unused
  old : (r : ℕ) → r < p.unused → q.0.users r ≡ p.users r
  found : (r : ℕ) → q.1 ≡ some r → (r < q.0.unused) × (is_target t (q.0.users r) ≡ true)

chose : (b : Bool) (m r : ℕ) → (if b then some m else none) ≡ some r → (b ≡ true) × (r ≡ m)
chose true m r e = ground (arith, e)
chose false m r e = ground (arith, e)

chosen-found :
    (t : Target) (u : User) (p : Panel) (reselect : Option ℕ)
    → ((r : ℕ) → reselect ≡ some r → (r < p.unused) × (is_target t (p.users r) ≡ true))
    → (r : ℕ) → chosen t u p.unused reselect ≡ some r
    → (r < suc p.unused) × (is_target t ((add_row u p).users r) ≡ true)
unfolding add_row
chosen-found t u p none h r e = ground (arith, chose (is_target t u) p.unused r e)
chosen-found t u p (some r') h r e = ground (arith, h r e)

add_rows-IsExtended :
    (t : Target) (us : List User) (p : Panel) (reselect : Option ℕ)
    → ((r : ℕ) → reselect ≡ some r → (r < p.unused) × (is_target t (p.users r) ≡ true))
    → IsExtended t p (add_rows t us p reselect)
unfolding add_rows add_row
add_rows-IsExtended t [] p reselect h = record {
  selected = refl;
  pending = refl;
  confirm = refl;
  grown = omega arith;
  old = λ r _. refl;
  found = h;
}
add_rows-IsExtended t (u ∷ us) p reselect h =
    let rest =
      add_rows-IsExtended t us (add_row u p) (chosen t u p.unused reselect)
        (chosen-found t u p reselect h) in
    record {
      selected = rest.selected;
      pending = rest.pending;
      confirm = rest.confirm;
      grown = omega (arith, rest.grown);
      old = λ r lt. rest.old r (omega arith) ∙ ground arith;
      found = rest.found;
    }

-- The user that a list selects has the name that the dialog expects.
named_target :
    (t : Option Bytes) (u : User) (expected : Bytes)
    → or_empty t ≡ expected
    → is_nonempty expected ≡ true
    → is_target (sam_target t) u ≡ true
    → or_empty u.sam ≡ expected
named_target none u expected e h i = ground (arith, i)
named_target (some sam) u expected e h i = (bytes_eq_iff _ _).0 i ∙ e

selected_named :
    (p : Panel) (y : Bytes × Bool) (u : User) (selected : Option ℕ)
    → p.selected_user ≡ selected
    → IsAimed p
    → p.confirm ≡ some y
    → is_target (selected_target p selected) u ≡ true
    → or_empty u.sam ≡ y.0
selected_named p y u none s v c i = ground (arith, i)
selected_named p y u (some r) s v c i =
    named_target (p.users r).sam u y.0 (v.aimed y r c s) (v.named y c) i

reload_named :
    (p : Panel) (y : Bytes × Bool) (u : User)
    → IsAimed p
    → p.confirm ≡ some y
    → is_target (reload_target p) u ≡ true
    → or_empty u.sam ≡ y.0
unfolding reload_target
reload_named p y u v c i = selected_named p y u p.selected_user refl v c (
    ap (λ o. is_target (target_or (selected_target p p.selected_user) o) u) (sym (v.settled y c))
    ∙ i)

pub row_selected-IsAimed :
    (d : Dates) (r : Option ℕ) (p : Panel)
    → IsAimed p
    → ((s : ℕ) → r ≡ some s → s < p.unused)
    → ((x : Bytes × Bool) (s : ℕ)
        → p.confirm ≡ some x
        → r ≡ some s
        → or_empty (p.users s).sam ≡ x.0)
    → IsAimed (row_selected d r p)
unfolding row_selected load_user_into_detail
row_selected-IsAimed d none p v known aimed = record {
  known = v.known;
  aimed = v.aimed;
  named = v.named;
  settled = v.settled;
  paged = v.paged;
}
row_selected-IsAimed d (some r) p v known aimed = record {
  known = known;
  aimed = aimed;
  named = v.named;
  settled = v.settled;
  paged = v.paged;
}

-- A list that arrives while the dialog is open selects a user with the name that it expects.
pub users_loaded-IsAimed :
    (d : Dates) (us : List User) (p : Panel) → IsAimed p → IsAimed (users_loaded d us p)
unfolding users_loaded
users_loaded-IsAimed d us p v =
    let p0 = record p { rows = []; pending_select_dn = none } in
    let t = reload_target p in
    let x = add_rows-IsExtended t us p0 none (λ r e. ground (arith, e)) in
    let (loaded, reselect) = add_rows t us p0 none in
    row_selected-IsAimed d reselect (record loaded { outer = page_of us })
      (record {
        known = λ r e. omega (arith, v.known r (sym x.selected ∙ e), x.grown);
        aimed = λ y r c e.
            ap (λ u. or_empty u.sam) (x.old r (v.known r (sym x.selected ∙ e)))
            ∙ v.aimed y r (sym x.confirm ∙ c) (sym x.selected ∙ e);
        named = λ y c. v.named y (sym x.confirm ∙ c);
        settled = λ y c. x.pending;
        paged = λ e. x.pending;
      })
      (λ s e. (x.found s e).0) (λ y s c e. reload_named p y _ v (sym x.confirm ∙ c) (x.found s e).1)
