-- ===== src/Connection/Valid.antt =====
-- The discipline of the shared connection: the mutex is free between operations, no handle leaks,
-- and no call is made on a handle that was unbound.
use sambervise.Base.{
  ℕ, ◌<◌, ◌≡◌, Bool, true, false, ◌||◌, Option, none, some, List, [], ◌∷◌, ◌==◌, if◌then◌else◌,
}
use sambervise.Base.Lists.{length}
use sambervise.Ldap.{Call, Handle, Library, succeeded}
use sambervise.Connection.Monad.{World, Outcome, ok, err, blocked, undefined, Action}

abbrev pub erase : Handle → List Handle → List Handle
erase h [] = []
erase h (k ∷ hs) = let rest = erase h hs in if k == h then rest else k ∷ rest

abbrev pub contains : Handle → List Handle → Bool
contains h [] = false
contains h (k ∷ hs) = k == h || contains h hs

-- The open handles after a call, from whether it succeeded, its number, and those before it.
abbrev pub after_call : Call → Bool → ℕ → List Handle → List Handle
after_call (Call.initialize _) true n hs = n ∷ hs
after_call (Call.unbind h) s n hs = erase h hs
after_call _ _ _ hs = hs

-- The handles that a log leaves open.
abbrev pub open_handles : Library → List Call → List Handle
open_handles lib [] = []
open_handles lib (c ∷ cs) =
    after_call c (succeeded (lib.reply cs c)) (length cs) (open_handles lib cs)

-- The handle that a call is made on.
abbrev pub handle_of : Call → Option Handle
handle_of (Call.initialize _) = none
handle_of (Call.skip_cert h) = some h
handle_of (Call.start_tls h) = some h
handle_of (Call.gssapi_bind h) = some h
handle_of (Call.simple_bind h _ _) = some h
handle_of (Call.unbind h) = some h
handle_of (Call.search h _) = some h
handle_of (Call.modify h _ _) = some h
handle_of (Call.add_entry h _ _) = some h
handle_of (Call.delete_entry h _) = some h
handle_of (Call.rename h _ _) = some h
handle_of (Call.whoami h) = some h

abbrev pub is_among : Option Handle → List Handle → Bool
is_among none hs = true
is_among (some h) hs = contains h hs

-- Every call of a log was made on a handle that was open at that time.
abbrev pub UsesOpen : Library → List Call → Type 0
UsesOpen lib [] = Unit
UsesOpen lib (c ∷ cs) = (is_among (handle_of c) (open_handles lib cs) ≡ true) × UsesOpen lib cs

abbrev pub as_list : Option Handle → List Handle
as_list none = []
as_list (some h) = h ∷ []

abbrev pub is_some : Option Handle → Bool
is_some none = false
is_some (some _) = true

abbrev pub IsBelow : Option Handle → ℕ → Type 0
IsBelow none n = Unit
IsBelow (some h) n = h < n

pub record IsValid (lib : Library) (w : World) : Type 0 where
  -- The mutex is free.
  pub free : w.conn.locked ≡ false
  -- The handle that is stored is the only one open.
  pub no_leak : open_handles lib w.calls ≡ as_list w.conn.ld
  pub older : IsBelow w.conn.ld (length w.calls)
  pub uses_open : UsesOpen lib w.calls
  pub connected_iff : w.conn.connected ≡ is_some w.conn.ld

-- A thread that ended, with a value or an error.
abbrev pub Ended : {A : Type 0} → Outcome A → Type 0
Ended (ok _) = Unit
Ended (err _) = Unit
Ended blocked = ⊥
Ended undefined = ⊥

abbrev pub Keeps : {A : Type 0} → Action A → Type 0
Keeps m = (lib : Library) (w : World) → IsValid lib w → Ended (m lib w).0 × IsValid lib (m lib w).1

-- The mutex is free and the connection holds the handle `h`.
pub record IsReady (h : Handle) (w : World) : Type 0 where
  pub free : w.conn.locked ≡ false
  pub holds : w.conn.ld ≡ some h

-- The mutex is free and there is no handle.
pub record IsOffline (w : World) : Type 0 where
  pub free : w.conn.locked ≡ false
  pub holds : w.conn.ld ≡ none
