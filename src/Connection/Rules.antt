-- ===== src/Connection/Rules.antt =====
-- A rule for sequences of actions: what a part leaves where it goes on, and where it fails.
use sambervise.Ldap.{Library}
use sambervise.Connection.Monad.{World, Outcome, ok, err, blocked, undefined, Action, ◌>>=◌}

-- `Q` of the value and the world where the part goes on, `E` of the world where it ends in an error.
abbrev pub Leaves :
    {A : Type 0} → (World → Type 0) → (A → World → Type 0) → Outcome A × World → Type 0
Leaves E Q (ok a, w) = Q a w
Leaves E Q (err _, w) = E w
Leaves E Q (blocked, w) = ⊥
Leaves E Q (undefined, w) = ⊥

pub Leaves-bind :
    {A B : Type 0} (E : World → Type 0) (Q : A → World → Type 0) (R : B → World → Type 0)
    (m : Action A) (f : A → Action B) (lib : Library) (w : World)
    → Leaves E Q (m lib w)
    → ((a : A) (w' : World) → Q a w' → Leaves E R (f a lib w'))
    → Leaves E R ((m >>= f) lib w)
Leaves-bind {A} {B} E Q R m f lib w first rest = on_result (m lib w) first
  where
    on_result :
        (r : Outcome A × World) → Leaves E Q r → Leaves E R (◌>>=◌ {A = A} (λ lib' w'. r) f lib w)
    on_result (ok a, w') q = rest a w' q
    on_result (err e, w') q = q
    on_result (blocked, w') q = q
    on_result (undefined, w') q = q
