-- ===== src/Session/Locked.antt =====
-- src/backend/sbv-users-backend.c and sbv-groups-backend.c: `set_unix_attrs_thread` and
-- `set_group_unix_thread` return without `sbv_connection_release_ldap` where there is no handle.
-- What follows for the operations after them.
use sambervise.Base.{List, [], ◌∷◌, ◌≡◌, ◌≢◌, true, arith}
use sambervise.Base.Int.{ℤ}
use sambervise.Ldap.{Library}
use sambervise.Connection.{World, ok, err, not_connected}
use sambervise.Connection.{connect, disconnect, whoami, secure, bind_handle, install}
use sambervise.Connection.Valid.{IsOffline}
use sambervise.Users.{User, list_users}
use sambervise.Users.Account.{set_enabled, reset_password, set_password_flags}
use sambervise.Users.Edit.{update_attrs, rename_user, UnixAttrs, set_unix_attrs}
use sambervise.Users.Create.{create_user, delete_user}
use sambervise.Groups.{Group, list_groups}
use sambervise.Groups.Change.{add_member, remove_member, set_group_unix_attrs}
use sambervise.Groups.Create.{create_group, delete_group}
use sambervise.Computers.{list_computers}
use sambervise.Computers.Change.{
  set_computer_enabled, update_computer, set_spn, create_computer, delete_computer,
}
use sambervise.Contacts.{list_contacts}
use sambervise.Contacts.Change.{create_contact, delete_contact, update_contact}
use sambervise.Collisions.{uid_check, gid_check, next_free_uid, next_free_gid}
use sambervise.Idmap.{query}
use sambervise.Browse.{browse_children, browse_attrs, browse_search, search_thread, browse_modify}
use sambervise.Session.{
  Op, list_contacts_op, create_contact_op, delete_contact_op, update_contact_op, connect_op,
  disconnect_op, whoami_op, list_users_op, list_groups_op, list_computers_op, set_enabled_op,
  reset_password_op, set_password_flags_op, update_attrs_op, set_unix_attrs_op, create_user_op,
  delete_user_op, add_member_op, remove_member_op, set_group_unix_attrs_op, create_group_op,
  delete_group_op, set_computer_enabled_op, update_computer_op, set_spn_op, create_computer_op,
  delete_computer_op, uid_check_op, gid_check_op, next_free_uid_op, next_free_gid_op, query_op,
  browse_children_op, browse_attrs_op, browse_search_op, browse_modify_op, perform, perform_all,
}

-- What is asked while the mutex is locked never succeeds, and leaves it locked.
locked_fails :
    (lib : Library) (w : World) (op : Op)
    → w.conn.locked ≡ true
    → ((perform op lib w).0 ≢ ok tt) × ((perform op lib w).1.conn.locked ≡ true)
unfolding perform connect disconnect whoami list_users list_groups list_computers set_enabled
    reset_password set_password_flags update_attrs rename_user set_unix_attrs create_user
    delete_user add_member remove_member set_group_unix_attrs create_group delete_group
    set_computer_enabled update_computer set_spn create_computer delete_computer list_contacts
    create_contact delete_contact update_contact uid_check gid_check next_free_uid next_free_gid
    query browse_children browse_attrs browse_search search_thread browse_modify secure bind_handle
    install
locked_fails lib w (connect_op p password) e = ground arith
locked_fails lib w disconnect_op e = ground arith
locked_fails lib w whoami_op e = ground arith
locked_fails lib w list_users_op e = ground arith
locked_fails lib w list_groups_op e = ground arith
locked_fails lib w list_computers_op e = ground arith
locked_fails lib w list_contacts_op e = ground arith
locked_fails lib w (set_enabled_op u enabled) e = ground arith
locked_fails lib w (reset_password_op u password) e = ground arith
locked_fails lib w (set_password_flags_op u force never expires) e = ground arith
locked_fails lib w (update_attrs_op u n) e = ground arith
locked_fails lib w (set_unix_attrs_op u a) e = ground arith
locked_fails lib w (create_user_op n) e = ground arith
locked_fails lib w (delete_user_op u) e = ground arith
locked_fails lib w (add_member_op g dn) e = ground arith
locked_fails lib w (remove_member_op g dn) e = ground arith
locked_fails lib w (set_group_unix_attrs_op g gid) e = ground arith
locked_fails lib w (create_group_op n) e = ground arith
locked_fails lib w (delete_group_op g) e = ground arith
locked_fails lib w (set_computer_enabled_op k enabled) e = ground arith
locked_fails lib w (update_computer_op k description dns_hostname) e = ground arith
locked_fails lib w (set_spn_op k spns) e = ground arith
locked_fails lib w (create_computer_op n) e = ground arith
locked_fails lib w (delete_computer_op k) e = ground arith
locked_fails lib w (create_contact_op n) e = ground arith
locked_fails lib w (delete_contact_op k) e = ground arith
locked_fails lib w (update_contact_op k d) e = ground arith
locked_fails lib w (uid_check_op uid dn) e = ground arith
locked_fails lib w (gid_check_op gid dn) e = ground arith
locked_fails lib w (next_free_uid_op lo hi) e = ground arith
locked_fails lib w (next_free_gid_op lo hi) e = ground arith
locked_fails lib w (query_op p) e = ground arith
locked_fails lib w (browse_children_op c parent_dn) e = ground arith
locked_fails lib w (browse_attrs_op dn) e = ground arith
locked_fails lib w (browse_search_op c base_dn filter) e = ground arith
locked_fails lib w (browse_modify_op dn mods) e = ground arith

locked_for_ever :
    (lib : Library) (ops : List Op) (w : World)
    → w.conn.locked ≡ true
    → (perform_all ops lib w).conn.locked ≡ true
unfolding perform_all
locked_for_ever lib [] w e = e
locked_for_ever lib (op ∷ ops) w e = locked_for_ever lib ops _ (locked_fails lib w op e).1

-- If the POSIX attributes of a user are set while there is no handle, the task gets the error "Not
-- connected", and from then on, after any further operations, no operation succeeds: not even a
-- connect.
pub set_unix_attrs_locks :
    (lib : Library) (w : World) (u : User) (a : UnixAttrs)
    → IsOffline w
    → let (r, w') = set_unix_attrs u a lib w in
      (r ≡ err not_connected)
      × ((ops : List Op) (op : Op) → (perform op lib (perform_all ops lib w')).0 ≢ ok tt)
unfolding set_unix_attrs
set_unix_attrs_locks lib w u a off =
    (ground arith, λ ops op. (locked_fails lib _ op (locked_for_ever lib ops _ (ground arith))).0)

-- If the POSIX attribute of a group is set while there is no handle, the task gets the error "Not
-- connected", and from then on, after any further operations, no operation succeeds.
set_group_unix_attrs_locks :
    (lib : Library) (w : World) (g : Group) (gid : ℤ)
    → IsOffline w
    → let (r, w') = set_group_unix_attrs g gid lib w in
      (r ≡ err not_connected)
      × ((ops : List Op) (op : Op) → (perform op lib (perform_all ops lib w')).0 ≢ ok tt)
unfolding set_group_unix_attrs
set_group_unix_attrs_locks lib w g gid off =
    (ground arith, λ ops op. (locked_fails lib _ op (locked_for_ever lib ops _ (ground arith))).0)
