-- ===== src/Users/Create.antt =====
-- src/backend/sbv-users-backend.c: creating and deleting a user.
use sambervise.Base.{not, ◌||◌, Option, some, List, [], ◌∷◌, ◌++◌, map, if◌then◌else◌}
use sambervise.Base.Int.{pos}
use sambervise.Base.Bytes.{Bytes, codes, is_filled, or_empty}
use sambervise.Base.Decimal.{print_ℤ}
use sambervise.Base.Flags.{set_flag}
use sambervise.Ldap.{Call, Mod, add, ldap, refused}
use sambervise.Connection.{Action, ◌>>=◌, ◌>>◌, pure, raise, issue, acquire, release}
use sambervise.Backend.{settle, put, add_if_filled, child_dn}
use sambervise.Users.{User, uac_normal_account, uac_accountdisable}

-- The arguments of `sbv_users_create_async`.
pub record NewUser : Type 0 where
  pub sam : Option Bytes
  pub cn : Option Bytes
  pub given_name : Option Bytes
  pub sn : Option Bytes
  pub container_dn : Option Bytes

abbrev pub user_classes : List Bytes
user_classes = map codes ("top" ∷ "person" ∷ "organizationalPerson" ∷ "user" ∷ [])

unfoldable pub new_user_mods : NewUser → List Mod
new_user_mods n =
    record { op = add; attr = codes "objectClass"; values = some user_classes }
    ∷ put add "cn" (or_empty n.cn)
    ∷ put add "sAMAccountName" (or_empty n.sam)
    ∷ put add "userAccountControl" (print_ℤ (set_flag uac_accountdisable (pos uac_normal_account)))
    ∷ (add_if_filled "givenName" n.given_name ++ add_if_filled "sn" n.sn)

-- `create_user_thread`.
unfoldable pub create_user_thread : NewUser → Action Bytes
unfolding settle
create_user_thread n = do
  h ← acquire
  let dn = child_dn n.cn n.container_dn
  r ← issue (Call.add_entry h dn (new_user_mods n))
  release
  settle "Create failed: " r.rc
  pure dn

-- `sbv_users_create_async`: what is required is checked before the thread starts.
unfoldable pub create_user : NewUser → Action Bytes
unfolding create_user_thread
create_user n =
    if not (is_filled n.sam) || (not (is_filled n.cn) || not (is_filled n.container_dn))
    then raise (refused ldap "Username, full name and container are required")
    else create_user_thread n

-- `delete_user_thread`, on the DN that `sbv_users_delete_async` captures.
unfoldable pub delete_user : User → Action (Unit {0})
unfolding settle
delete_user u = do
  h ← acquire
  r ← issue (Call.delete_entry h u.dn)
  release
  settle "Delete failed: " r.rc
