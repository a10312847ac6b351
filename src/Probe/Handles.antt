-- ===== src/Probe/Handles.antt =====
-- The probe closes its own handle, and touches nothing else.
use sambervise.Base.{arith}
use sambervise.Ldap.{Handle, Library}
use sambervise.Connection.{World, open_handle, secure, ◌>>=◌, ◌>>◌}
use sambervise.Connection.Rules.{Leaves, Leaves-bind}
use sambervise.Connection.Opening.{IsOpening, open_handle-IsOpening, secure-IsOpening, Ended-Leaves}
use sambervise.Connection.Valid.{IsValid, Keeps}
use sambervise.Backend.Attrs.{Table}
use sambervise.Probe.{
  ProbeTarget, ProbeResult, read_rootdse, bind_and_fetch, close_probe, probe_thread, probe_dc,
}

module _ (lib : Library) (h : Handle) (t : ProbeTarget) (w : World) (v : IsOpening lib h w) where
  read_rootdse-IsOpening : Leaves (IsValid lib) (λ _. IsOpening lib h) (read_rootdse h lib w)
  unfolding read_rootdse
  read_rootdse-IsOpening = ground arith

  bind_and_fetch-IsOpening :
      (raw : Table) → Leaves (IsValid lib) (λ _. IsOpening lib h) (bind_and_fetch h t raw lib w)
  unfolding bind_and_fetch
  bind_and_fetch-IsOpening raw = ground arith

  close_probe-IsValid :
      (out : ProbeResult) → Leaves (IsValid lib) (λ _. IsValid lib) (close_probe h out lib w)
  unfolding close_probe
  close_probe-IsValid out = ground arith

probe-Leaves :
    (lib : Library) (t : ProbeTarget) (w : World)
    → IsValid lib w
    → Leaves (IsValid lib) (λ _. IsValid lib) (probe_thread t lib w)
unfolding probe_thread
probe-Leaves lib t w v =
    Leaves-bind (IsValid lib) (IsOpening lib) (λ _. IsValid lib) (open_handle _)
      (λ h.
        secure h t.skip_cert t.use_starttls
        >> (read_rootdse h >>= λ raw. bind_and_fetch h t raw >>= close_probe h))
      lib w (open_handle-IsOpening lib _ w v)
      λ h w₁ v₁.
        Leaves-bind (IsValid lib) (λ _. IsOpening lib h) (λ _. IsValid lib)
          (secure h t.skip_cert t.use_starttls)
          (λ _. read_rootdse h >>= λ raw. bind_and_fetch h t raw >>= close_probe h) lib w₁
          (secure-IsOpening lib h t.skip_cert t.use_starttls w₁ v₁)
          λ _ w₂ v₂.
            Leaves-bind (IsValid lib) (λ _. IsOpening lib h) (λ _. IsValid lib) (read_rootdse h)
              (λ raw. bind_and_fetch h t raw >>= close_probe h) lib w₂
              (read_rootdse-IsOpening lib h t w₂ v₂)
              λ raw w₃ v₃.
                Leaves-bind (IsValid lib) (λ _. IsOpening lib h) (λ _. IsValid lib)
                  (bind_and_fetch h t raw) (close_probe h) lib w₃
                  (bind_and_fetch-IsOpening lib h t w₃ v₃ raw)
                  λ out w₄ v₄. close_probe-IsValid lib h t w₄ v₄ out

-- From a valid shared connection, a probe ends whatever the controller answers, unbinds the handle that it opened, on every path,
-- and leaves the shared connection valid.
pub probe_dc-Keeps : (t : ProbeTarget) → Keeps (probe_dc t)
unfolding probe_dc
probe_dc-Keeps t lib w v = Ended-Leaves lib _ (probe-Leaves lib _ w v)
