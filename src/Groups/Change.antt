-- ===== src/Groups/Change.antt =====
-- src/backend/sbv-groups-backend.c: the members and the POSIX attributes of a group.
use sambervise.Base.{Option, none, some, [], ◌∷◌}
use sambervise.Base.Int.{ℤ}
use sambervise.Base.Bytes.{Bytes, codes}
use sambervise.Ldap.{Call, Mod, ModOp, add, delete}
use sambervise.Connection.{Action, ◌>>=◌, ◌>>◌, issue, acquire, acquire_ldap, release}
use sambervise.Backend.{settle, id_mod, handle_or_leave}
use sambervise.Groups.{Group}

-- The one modification of `modify_member_thread`; a NULL member makes an empty list of values.
abbrev pub member_mod : ModOp → Option Bytes → Mod
member_mod op none = record { op = op; attr = codes "member"; values = some [] }
member_mod op (some dn) = record { op = op; attr = codes "member"; values = some (dn ∷ []) }

-- `modify_member_thread`.
unfoldable pub modify_member : Option Bytes → Option Bytes → ModOp → Action (Unit {0})
unfolding settle
modify_member group_dn member_dn op = do
  h ← acquire
  r ← issue (Call.modify h group_dn (member_mod op member_dn ∷ []))
  release
  settle "Modify failed: " r.rc

-- `sbv_groups_add_member_async` and `sbv_groups_remove_member_async`.
unfoldable pub add_member : Group → Option Bytes → Action (Unit {0})
unfolding modify_member
add_member g member_dn = modify_member g.dn member_dn add

unfoldable pub remove_member : Group → Option Bytes → Action (Unit {0})
unfolding modify_member
remove_member g member_dn = modify_member g.dn member_dn delete

-- `set_group_unix_thread`, which returns with no release where there is no handle.
unfoldable pub set_group_unix_attrs : Group → ℤ → Action (Unit {0})
unfolding settle
set_group_unix_attrs g gid_number = do
  h ← (acquire_ldap >>= handle_or_leave)
  r ← issue (Call.modify h g.dn (id_mod "gidNumber" gid_number ∷ []))
  release
  settle "Failed to set Unix attributes: " r.rc
