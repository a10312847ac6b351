-- ===== src/Groups/Keeps.antt =====
-- Every operation on groups ends, and leaves the shared connection as it should be.
use sambervise.Base.{Option, arith}
use sambervise.Base.Int.{ℤ}
use sambervise.Base.Bytes.{Bytes}
use sambervise.Ldap.{Handle, Library}
use sambervise.Connection.{World}
use sambervise.Connection.Valid.{Keeps, IsValid, IsReady, Ended}
use sambervise.Groups.{Group, list_groups}
use sambervise.Groups.Change.{add_member, remove_member, set_group_unix_attrs}
use sambervise.Groups.Create.{NewGroup, create_group, delete_group}

pub list_groups-Keeps : Keeps list_groups
unfolding list_groups
list_groups-Keeps lib w v = ground arith

pub add_member-Keeps : (g : Group) (dn : Option Bytes) → Keeps (add_member g dn)
unfolding add_member
add_member-Keeps g dn lib w v = ground arith

pub remove_member-Keeps : (g : Group) (dn : Option Bytes) → Keeps (remove_member g dn)
unfolding remove_member
remove_member-Keeps g dn lib w v = ground arith

pub create_group-Keeps : (n : NewGroup) → Keeps (create_group n)
unfolding create_group
create_group-Keeps n lib w v = ground arith

pub delete_group-Keeps : (g : Group) → Keeps (delete_group g)
unfolding delete_group
delete_group-Keeps g lib w v = ground arith

pub set_group_unix_attrs-IsValid :
    (lib : Library) (w : World) (h : Handle) (g : Group) (gid : ℤ)
    → IsValid lib w
    → IsReady h w
    → Ended (set_group_unix_attrs g gid lib w).0 × IsValid lib (set_group_unix_attrs g gid lib w).1
unfolding set_group_unix_attrs
set_group_unix_attrs-IsValid lib w h g gid v r = ground arith
