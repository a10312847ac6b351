-- ===== src/Connection/Monad.antt =====
-- Programs over the connection: each reads what the libraries answer, changes the connection, and
-- logs the calls that it makes.
use sambervise.Base.{Bool, true, false, Option, none, some, List, ◌∷◌, if◌then◌else◌}
use sambervise.Base.Int.{ℤ}
use sambervise.Base.Lists.{length}
use sambervise.Base.Bytes.{Bytes}
use sambervise.Ldap.{Call, Handle, Reply, Library, succeeded, connection, Error, failed, refused}
use sambervise.Profile.{Profile}

-- `struct _SbvConnection`; `locked` is the state of its mutex.
pub record Connection : Type 0 where
  pub locked : Bool
  pub ld : Option Handle
  pub host : Option Bytes
  pub base_dn : Option Bytes
  pub port : ℤ
  pub connected : Bool
  pub profile : Option Profile

-- The connection, and the calls made so far, the newest first.
pub record World : Type 0 where
  pub conn : Connection
  pub calls : List Call

-- How a thread ends: with a value or an error for its task, waiting for ever on the mutex, or
-- with what C or GLib leave undefined, such as the unlock of a mutex that is not locked.
pub data Outcome (A : Type 0) : Type 0 where
  ok : A → Outcome A
  err : Error → Outcome A
  blocked : Outcome A
  undefined : Outcome A

abbrev pub Action : Type 0 → Type 0
Action A = Library → World → Outcome A × World

infixl 5 ◌>>=◌ ◌>>◌
abbrev pub ◌>>=◌ : {A B : Type 0} → Action A → (A → Action B) → Action B
◌>>=◌ m f lib w =
    let (r, w') = m lib w in
    elim r [
      | ok a ↦ f a lib w'
      | err e ↦ (err e, w')
      | blocked ↦ (blocked, w')
      | undefined ↦ (undefined, w')
    ]

abbrev pub ◌>>◌ : {A B : Type 0} → Action A → Action B → Action B
m >> k = m >>= λ _. k

module _ {A : Type 0} where
  abbrev pub pure : A → Action A
  pure a lib w = (ok a, w)

  -- `g_task_return_new_error`, and the return after it.
  abbrev pub raise : Error → Action A
  raise e lib w = (err e, w)

  -- What C leaves undefined.
  abbrev pub crash : Action A
  crash lib w = (undefined, w)

  -- A value of one of the library's functions.
  abbrev pub ask : (Library → A) → Action A
  ask f lib w = (ok (f lib), w)

abbrev pub when : Bool → Action (Unit {0}) → Action (Unit {0})
when c m = if c then m else pure tt

abbrev pub get_connection : Action Connection
get_connection lib w = (ok w.conn, w)

abbrev pub set_connection : Connection → Action (Unit {0})
set_connection c lib w = (ok tt, record w { conn = c })

abbrev pub issue : Call → Action Reply
issue c lib w = (ok (lib.reply w.calls c), record w { calls = c ∷ w.calls })

abbrev pub issue_ : Call → Action (Unit {0})
issue_ c = issue c >> pure tt

-- `g_mutex_lock (&self->mutex)` and `g_mutex_unlock`.
abbrev pub lock : Action (Unit {0})
lock lib w =
    if w.conn.locked
    then (blocked, w)
    else (ok tt, record w { conn = record (w.conn) { locked = true } })

abbrev pub unlock : Action (Unit {0})
unlock lib w =
    if w.conn.locked
    then (ok tt, record w { conn = record (w.conn) { locked = false } })
    else (undefined, w)

-- `sbv_connection_acquire_ldap` and `sbv_connection_release_ldap`.
abbrev pub acquire_ldap : Action (Option Handle)
acquire_ldap = lock >> (get_connection >>= λ c. pure c.ld)

abbrev pub release : Action (Unit {0})
release = unlock

abbrev pub not_connected : Error
not_connected = refused connection "Not connected"

-- The opening lines of almost every worker thread: take the handle; where there is none, release
-- it and fail.
abbrev pub handle_or_release : Option Handle → Action Handle
handle_or_release none = release >> raise not_connected
handle_or_release (some h) = pure h

abbrev pub acquire : Action Handle
acquire = acquire_ldap >>= handle_or_release

-- `ldap_initialize`: the handle, or the error of the task.
abbrev pub open_handle : Bytes → Action Handle
open_handle uri lib w =
    let r = lib.reply w.calls (Call.initialize uri) in
    let w' : World = record w { calls = Call.initialize uri ∷ w.calls } in
    if succeeded r
    then (ok (length w.calls), w')
    else (err (failed connection "ldap_initialize: " r.rc), w')

-- `if (ld) ldap_unbind_ext_s (ld, NULL, NULL)`.
abbrev pub unbind_if : Option Handle → Action (Unit {0})
unbind_if none = pure tt
unbind_if (some h) = issue_ (Call.unbind h)
