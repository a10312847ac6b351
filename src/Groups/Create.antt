-- ===== src/Groups/Create.antt =====
-- src/backend/sbv-groups-backend.c: creating and deleting a group.
use sambervise.Base.{not, ◌||◌, Option, some, List, [], ◌∷◌, map, if◌then◌else◌}
use sambervise.Base.Int.{ℤ}
use sambervise.Base.Bytes.{Bytes, codes, is_filled, or_empty}
use sambervise.Base.Decimal.{print_ℤ}
use sambervise.Ldap.{Call, Mod, add, ldap, refused}
use sambervise.Connection.{Action, ◌>>=◌, ◌>>◌, pure, raise, issue, acquire, release}
use sambervise.Backend.{settle, put, add_if_filled, child_dn}
use sambervise.Groups.{Group}

-- The arguments of `sbv_groups_create_async`.
pub record NewGroup : Type 0 where
  pub sam : Option Bytes
  pub description : Option Bytes
  pub group_type : ℤ
  pub container_dn : Option Bytes

unfoldable pub new_group_mods : NewGroup → List Mod
new_group_mods n =
    record {
      op = add;
      attr = codes "objectClass";
      values = some (map codes ("top" ∷ "group" ∷ []));
    }
    ∷ put add "sAMAccountName" (or_empty n.sam)
    ∷ put add "groupType" (print_ℤ n.group_type)
    ∷ add_if_filled "description" n.description

-- `create_group_thread`.
unfoldable pub create_group_thread : NewGroup → Action Bytes
unfolding settle
create_group_thread n = do
  h ← acquire
  let dn = child_dn n.sam n.container_dn
  r ← issue (Call.add_entry h dn (new_group_mods n))
  release
  settle "Create failed: " r.rc
  pure dn

-- `sbv_groups_create_async`.
unfoldable pub create_group : NewGroup → Action Bytes
unfolding create_group_thread
create_group n =
    if not (is_filled n.sam) || not (is_filled n.container_dn)
    then raise (refused ldap "Group name and container are required")
    else create_group_thread n

-- `delete_group_thread`, on the DN that `sbv_groups_delete_async` captures.
unfoldable pub delete_group : Group → Action (Unit {0})
unfolding settle
delete_group g = do
  h ← acquire
  r ← issue (Call.delete_entry h g.dn)
  release
  settle "Delete failed: " r.rc
