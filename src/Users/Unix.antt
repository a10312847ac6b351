-- ===== src/Users/Unix.antt =====
-- The changes of a user's names and POSIX attributes keep the discipline of the connection.
use sambervise.Base.{◌≡◌, some, arith}
use sambervise.Base.Bytes.{Bytes}
use sambervise.Ldap.{Handle, Library}
use sambervise.Connection.{World}
use sambervise.Connection.Valid.{IsValid, IsReady, Ended}
use sambervise.Users.{User}
use sambervise.Users.Edit.{Names, update_attrs, rename_user, UnixAttrs, set_unix_attrs, unix_mods}

-- With a handle, a change of the POSIX attributes ends and keeps the discipline of the connection.
pub set_unix_attrs-IsValid :
    (lib : Library) (w : World) (h : Handle) (u : User) (a : UnixAttrs)
    → IsValid lib w
    → IsReady h w
    → Ended (set_unix_attrs u a lib w).0 × IsValid lib (set_unix_attrs u a lib w).1
unfolding set_unix_attrs unix_mods
set_unix_attrs-IsValid lib w h u a v r = ground arith

-- A change of the names ends, and keeps the discipline, for every user that has a DN.
pub update_attrs-IsValid :
    (lib : Library) (w : World) (u : User) (n : Names) {dn : Bytes}
    → u.dn ≡ some dn
    → IsValid lib w
    → Ended (update_attrs u n lib w).0 × IsValid lib (update_attrs u n lib w).1
unfolding update_attrs rename_user
update_attrs-IsValid lib w u n e v = ground arith
