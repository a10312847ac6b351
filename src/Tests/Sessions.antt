-- ===== src/Tests/Sessions.antt =====
-- The theorems on sessions, connecting and probing, on a server that accepts everything.
use sambervise.Base.{arith, ◌⊎◌, ◌≡◌, ◌≢◌, refl, none, some, List, true, false}
use sambervise.Base.Int.{pos}
use sambervise.Base.Bytes.{codes}
use sambervise.Connection.{secure, bind_handle, install, World, connect, ok, err, not_connected}
use sambervise.Connection.Connect.{connect_all_or_nothing, installed}
use sambervise.Connection.Rules.{Leaves}
use sambervise.Connection.Valid.{IsValid, Ended}
use sambervise.Users.Edit.{UnixAttrs, set_unix_attrs}
use sambervise.Probe.{ProbeTarget, probe_dc}
use sambervise.Probe.Handles.{probe_dc-Keeps}
use sambervise.Session.{
  Op, connect_op, list_users_op, perform, perform_all, start, Reaches, begin, next,
  set_unix_attrs_op, Runs, launch, run,
}
use sambervise.Session.Valid.{Reaches-IsValid, Reaches-Ended}
use sambervise.Session.Stuck.{IsStuck}
use sambervise.Session.Unrestricted.{LocksUp, Runs-IsKept}
use sambervise.Connection.Valid.{UsesOpen}
use sambervise.Session.Locked.{set_unix_attrs_locks}
use sambervise.Tests.{accepts, start-IsOffline, jane, lab}

abbrev connected : World
connected = (perform (connect_op lab none) accepts start).1

session : Reaches accepts connected
session = next (connect_op lab none) begin tt

abbrev posix : UnixAttrs
posix = record {
  uid_number = pos 10000;
  gid_number = pos 10000;
  login_shell = some (codes "/bin/sh");
  unix_home_dir = none;
  gecos = none;
}

-- The POSIX attributes of a user are set before there is a handle, and then a connect waits for ever.
abbrev locked : World
locked = (perform (set_unix_attrs_op jane posix) accepts start).1

abbrev waiting : World
waiting = (perform (connect_op lab none) accepts locked).1

locked-Runs : Runs accepts locked
unfolding perform set_unix_attrs
locked-Runs = run (set_unix_attrs_op jane posix) launch (λ e. ground (arith, e))

waiting-Runs : Runs accepts waiting
unfolding perform connect set_unix_attrs secure bind_handle install
waiting-Runs = run (connect_op lab none) locked-Runs (λ e. ground (arith, e))

Runs-IsKept_example :
    UsesOpen accepts waiting.calls
    × (IsValid accepts waiting ⊎ (IsStuck accepts waiting × LocksUp waiting-Runs))
Runs-IsKept_example = Runs-IsKept accepts waiting-Runs

Reaches-Ended_example : Ended (perform list_users_op accepts connected).0
Reaches-Ended_example = Reaches-Ended accepts list_users_op session tt

connect_all_or_nothing_example :
    Leaves
      (λ w'. w'.conn ≡ start.conn)
      (λ _ w'. w'.conn ≡ installed lab 0 start.conn)
      (connect lab none accepts start)
connect_all_or_nothing_example = connect_all_or_nothing lab none accepts start refl

abbrev target : ProbeTarget
target = record {
  host = some (codes "dc1");
  port = pos 0;
  use_ldaps = true;
  use_starttls = false;
  skip_cert = true;
  bind_profile = some lab;
  bind_password = none;
}

probe_dc-Keeps_example :
    Ended (probe_dc target accepts connected).0
    × IsValid accepts (probe_dc target accepts connected).1
probe_dc-Keeps_example = probe_dc-Keeps target accepts connected (Reaches-IsValid accepts session)

set_unix_attrs_locks_example :
    ((set_unix_attrs jane posix accepts start).0 ≡ err not_connected)
    × ((ops : List Op) (op : Op)
        → (perform op accepts
            (perform_all ops accepts (set_unix_attrs jane posix accepts start).1)).0
          ≢ ok tt)
set_unix_attrs_locks_example = set_unix_attrs_locks accepts start jane posix start-IsOffline
