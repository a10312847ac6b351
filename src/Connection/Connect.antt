-- ===== src/Connection/Connect.antt =====
-- Connecting, disconnecting and asking for the identity keep the discipline of the connection.
use sambervise.Base.{◌≡◌, Option, some, true, false, arith}
use sambervise.Base.Bytes.{Bytes}
use sambervise.Base.Lists.{length}
use sambervise.Ldap.{Handle, Library}
use sambervise.Profile.{Profile}
use sambervise.Connection.{
  Connection, World, disconnect, secure, bind_handle, install, connect, whoami, open_handle, ◌>>◌,
}
use sambervise.Connection.Rules.{Leaves, Leaves-bind}
use sambervise.Connection.Opening.{IsOpening, open_handle-IsOpening, secure-IsOpening, Ended-Leaves}
use sambervise.Connection.Valid.{IsValid, Keeps}

pub whoami-Keeps : Keeps whoami
unfolding whoami
whoami-Keeps lib w v = ground arith

pub disconnect-Keeps : Keeps disconnect
unfolding disconnect
disconnect-Keeps lib w v = ground arith

bind_handle-IsOpening :
    (lib : Library) (h : Handle) (p : Profile) (password : Option Bytes) (w : World)
    → IsOpening lib h w
    → Leaves (IsValid lib) (λ _. IsOpening lib h) (bind_handle h p password lib w)
unfolding bind_handle
bind_handle-IsOpening lib h p password w v = ground arith

install-IsValid :
    (lib : Library) (h : Handle) (p : Profile) (w : World)
    → IsOpening lib h w
    → Leaves (IsValid lib) (λ _. IsValid lib) (install h p lib w)
unfolding install
install-IsValid lib h p w v = ground arith

connect-Leaves :
    (lib : Library) (p : Profile) (password : Option Bytes) (w : World)
    → IsValid lib w
    → Leaves (IsValid lib) (λ _. IsValid lib) (connect p password lib w)
unfolding connect
connect-Leaves lib p password w v =
    Leaves-bind (IsValid lib) (IsOpening lib) (λ _. IsValid lib) (open_handle _)
      (λ h. secure h p.skip_cert p.use_tls >> (bind_handle h p password >> install h p)) lib w
      (open_handle-IsOpening lib _ w v)
      λ h w₁ v₁.
        Leaves-bind (IsValid lib) (λ _. IsOpening lib h) (λ _. IsValid lib)
          (secure h p.skip_cert p.use_tls) (λ _. bind_handle h p password >> install h p) lib w₁
          (secure-IsOpening lib h p.skip_cert p.use_tls w₁ v₁)
          λ _ w₂ v₂.
            Leaves-bind (IsValid lib) (λ _. IsOpening lib h) (λ _. IsValid lib)
              (bind_handle h p password) (λ _. install h p) lib w₂
              (bind_handle-IsOpening lib h p password w₂ v₂)
              λ _ w₃ v₃. install-IsValid lib h p w₃ v₃

-- Connecting, by any profile and on any answers of the libraries, ends, and keeps the discipline:
-- on each failure the new handle is unbound, and on success the old one is.
pub connect-Keeps : (p : Profile) (password : Option Bytes) → Keeps (connect p password)
connect-Keeps p password lib w v = Ended-Leaves lib _ (connect-Leaves lib p password w v)

-- The connection that a connect by profile `p` installs.
abbrev pub installed : Profile → Handle → Connection → Connection
installed p h c = record c {
  locked = false;
  ld = some h;
  connected = true;
  host = p.host;
  port = p.port;
  base_dn = p.base_dn;
  profile = some p;
}

step_same :
    (lib : Library) (h : Handle) (p : Profile) (password : Option Bytes) (w w₀ : World)
    → w.conn ≡ w₀.conn
    → Leaves
        (λ w'. w'.conn ≡ w₀.conn)
        (λ _ w'. w'.conn ≡ w₀.conn)
        (secure h p.skip_cert p.use_tls lib w)
      × Leaves
          (λ w'. w'.conn ≡ w₀.conn)
          (λ _ w'. w'.conn ≡ w₀.conn)
          (bind_handle h p password lib w)
unfolding secure bind_handle
step_same lib h p password w w₀ e = ground arith

install_lem :
    (lib : Library) (h : Handle) (p : Profile) (w w₀ : World)
    → w₀.conn.locked ≡ false
    → w.conn ≡ w₀.conn
    → Leaves (λ w'. w'.conn ≡ w₀.conn) (λ _ w'. w'.conn ≡ installed p h w₀.conn) (install h p lib w)
unfolding install
install_lem lib h p w w₀ free e = ground arith

-- From a free mutex, a connect that succeeds stores the new handle with the profile and its host,
-- port and base DN; one that fails leaves the connection exactly as it was. It never blocks.
pub connect_all_or_nothing :
    (p : Profile) (password : Option Bytes) (lib : Library) (w : World)
    → w.conn.locked ≡ false
    → Leaves
        (λ w'. w'.conn ≡ w.conn)
        (λ _ w'. w'.conn ≡ installed p (length w.calls) w.conn)
        (connect p password lib w)
unfolding connect
connect_all_or_nothing p password lib w free =
    Leaves-bind _ (λ h w'. (h ≡ length w.calls) × (w'.conn ≡ w.conn)) _ (open_handle _)
      (λ h. secure h p.skip_cert p.use_tls >> (bind_handle h p password >> install h p)) lib w
      (ground arith)
      λ h w₁ v₁.
        Leaves-bind _ (λ _ w'. w'.conn ≡ w.conn) _ (secure h p.skip_cert p.use_tls)
          (λ _. bind_handle h p password >> install h p) lib w₁
          (step_same lib h p password w₁ w v₁.1).0
          λ _ w₂ v₂.
            Leaves-bind _ (λ _ w'. w'.conn ≡ w.conn) _ (bind_handle h p password) (λ _. install h p)
              lib w₂ (step_same lib h p password w₂ w v₂).1
              λ _ w₃ v₃. rw (← v₁.0) (install_lem lib h p w₃ w free v₃)
