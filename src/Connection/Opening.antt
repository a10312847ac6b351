-- ===== src/Connection/Opening.antt =====
-- A handle that is open and not yet stored: what the connect and the probe keep up until they store
-- or close it.
use sambervise.Base.{◌<◌, ◌≡◌, Bool, false, ◌∷◌, arith}
use sambervise.Base.Bytes.{Bytes}
use sambervise.Base.Lists.{length}
use sambervise.Ldap.{Handle, Library}
use sambervise.Connection.{World, Outcome, ok, err, blocked, undefined, secure, open_handle}
use sambervise.Connection.Rules.{Leaves}
use sambervise.Connection.Valid.{IsValid, Ended, open_handles, as_list, is_some, IsBelow, UsesOpen}

-- A new handle `h` is open beside the one that is stored, and not yet stored itself.
pub record IsOpening (lib : Library) (h : Handle) (w : World) : Type 0 where
  pub free : w.conn.locked ≡ false
  pub beside : open_handles lib w.calls ≡ h ∷ as_list w.conn.ld
  pub fresh : IsBelow w.conn.ld h
  pub older : h < length w.calls
  pub uses_open : UsesOpen lib w.calls
  pub connected_iff : w.conn.connected ≡ is_some w.conn.ld

pub open_handle-IsOpening :
    (lib : Library) (uri : Bytes) (w : World)
    → IsValid lib w
    → Leaves (IsValid lib) (IsOpening lib) (open_handle uri lib w)
open_handle-IsOpening lib uri w v = ground arith

pub secure-IsOpening :
    (lib : Library) (h : Handle) (skip tls : Bool) (w : World)
    → IsOpening lib h w
    → Leaves (IsValid lib) (λ _. IsOpening lib h) (secure h skip tls lib w)
unfolding secure
secure-IsOpening lib h skip tls w v = ground arith

pub Ended-Leaves :
    {A : Type 0} (lib : Library) (r : Outcome A × World)
    → Leaves (IsValid lib) (λ _. IsValid lib) r
    → Ended r.0 × IsValid lib r.1
Ended-Leaves lib (ok a, w) v = (tt, v)
Ended-Leaves lib (err e, w) v = (tt, v)
Ended-Leaves lib (blocked, w) v = absurd v
Ended-Leaves lib (undefined, w) v = absurd v
