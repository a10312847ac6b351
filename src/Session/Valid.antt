-- ===== src/Session/Valid.antt =====
-- Every session keeps the discipline of the shared connection.
use sambervise.Base.{◌≡◌, ◌≢◌, refl, Option, none, some}
use sambervise.Ldap.{Library}
use sambervise.Connection.{Action, World, Outcome, ok, err, blocked, undefined}
use sambervise.Connection.Connect.{connect-Keeps, disconnect-Keeps, whoami-Keeps}
use sambervise.Connection.Valid.{IsValid, Keeps, Ended}
use sambervise.Users.Keeps.{
  list_users-Keeps, set_enabled-Keeps, reset_password-Keeps, set_password_flags-Keeps,
  create_user-Keeps, delete_user-Keeps,
}
use sambervise.Users.Unix.{set_unix_attrs-IsValid, update_attrs-IsValid}
use sambervise.Groups.Keeps.{
  list_groups-Keeps, add_member-Keeps, remove_member-Keeps, create_group-Keeps, delete_group-Keeps,
  set_group_unix_attrs-IsValid,
}
use sambervise.Computers.Keeps.{
  list_computers-Keeps, set_computer_enabled-Keeps, update_computer-Keeps, set_spn-Keeps,
  create_computer-Keeps, delete_computer-Keeps,
}
use sambervise.Contacts.Keeps.{
  list_contacts-Keeps, create_contact-Keeps, delete_contact-Keeps, update_contact-IsValid,
}
use sambervise.Collisions.NextFree.{
  uid_check-Keeps, gid_check-Keeps, next_free_uid-Keeps, next_free_gid-Keeps,
}
use sambervise.Idmap.Ranges.{query-Keeps}
use sambervise.Browse.Keeps.{
  browse_children-Keeps, browse_attrs-Keeps, browse_search-Keeps, browse_modify-Keeps,
}
use sambervise.Session.{
  Op, list_contacts_op, create_contact_op, delete_contact_op, update_contact_op, connect_op,
  disconnect_op, whoami_op, list_users_op, list_groups_op, list_computers_op, set_enabled_op,
  reset_password_op, set_password_flags_op, update_attrs_op, set_unix_attrs_op, create_user_op,
  delete_user_op, add_member_op, remove_member_op, set_group_unix_attrs_op, create_group_op,
  delete_group_op, set_computer_enabled_op, update_computer_op, set_spn_op, create_computer_op,
  delete_computer_op, uid_check_op, gid_check_op, next_free_uid_op, next_free_gid_op, query_op,
  browse_children_op, browse_attrs_op, browse_search_op, browse_modify_op, forget, perform,
  IsAllowed, start, Reaches, begin, next,
}

filled : {A : Type 0} (o : Option A) → o ≢ none → (a : A) × (o ≡ some a)
filled none h = absurd (h refl)
filled (some a) h = (a, refl)

forget-Keeps : {A : Type 0} (m : Action A) → Keeps m → Keeps (forget m)
forget-Keeps {A} m keeps lib w v = on_run (m lib w) (keeps lib w v)
  where
    on_run :
        (r : Outcome A × World)
        → Ended r.0 × IsValid lib r.1
        → Ended (forget (λ _ _. r) lib w).0 × IsValid lib (forget (λ _ _. r) lib w).1
    on_run (ok a, w') v' = v'
    on_run (err e, w') v' = v'
    on_run (blocked, w') v' = v'
    on_run (undefined, w') v' = v'

-- An operation that may start ends, and keeps the discipline of the connection.
pub perform-IsValid :
    (lib : Library) (w : World) (op : Op)
    → IsAllowed op w
    → IsValid lib w
    → Ended (perform op lib w).0 × IsValid lib (perform op lib w).1
unfolding perform
perform-IsValid lib w (connect_op p password) a v = connect-Keeps p password lib w v
perform-IsValid lib w disconnect_op a v = disconnect-Keeps lib w v
perform-IsValid lib w whoami_op a v = forget-Keeps _ whoami-Keeps lib w v
perform-IsValid lib w list_users_op a v = forget-Keeps _ list_users-Keeps lib w v
perform-IsValid lib w list_groups_op a v = forget-Keeps _ list_groups-Keeps lib w v
perform-IsValid lib w list_computers_op a v = forget-Keeps _ list_computers-Keeps lib w v
perform-IsValid lib w list_contacts_op a v = forget-Keeps _ list_contacts-Keeps lib w v
perform-IsValid lib w (set_enabled_op u enabled) a v = set_enabled-Keeps u enabled lib w v
perform-IsValid lib w (reset_password_op u password) a v = reset_password-Keeps u password lib w v
perform-IsValid lib w (set_password_flags_op u force never expires) a v =
    set_password_flags-Keeps u force never expires lib w v
perform-IsValid lib w (update_attrs_op u n) a v =
    let (dn, e) = filled u.dn a in update_attrs-IsValid lib w u n e v
perform-IsValid lib w (set_unix_attrs_op u attrs) a v =
    let (h, e) = filled w.conn.ld a in
    set_unix_attrs-IsValid lib w h u attrs v (record { free = v.free; holds = e })
perform-IsValid lib w (create_user_op n) a v = forget-Keeps _ (create_user-Keeps n) lib w v
perform-IsValid lib w (delete_user_op u) a v = delete_user-Keeps u lib w v
perform-IsValid lib w (add_member_op g dn) a v = add_member-Keeps g dn lib w v
perform-IsValid lib w (remove_member_op g dn) a v = remove_member-Keeps g dn lib w v
perform-IsValid lib w (set_group_unix_attrs_op g gid) a v =
    let (h, e) = filled w.conn.ld a in
    set_group_unix_attrs-IsValid lib w h g gid v (record { free = v.free; holds = e })
perform-IsValid lib w (create_group_op n) a v = forget-Keeps _ (create_group-Keeps n) lib w v
perform-IsValid lib w (delete_group_op g) a v = delete_group-Keeps g lib w v
perform-IsValid lib w (set_computer_enabled_op k enabled) a v =
    set_computer_enabled-Keeps k enabled lib w v
perform-IsValid lib w (update_computer_op k description host) a v =
    update_computer-Keeps k description host lib w v
perform-IsValid lib w (set_spn_op k spns) a v = set_spn-Keeps k spns lib w v
perform-IsValid lib w (create_computer_op n) a v = forget-Keeps _ (create_computer-Keeps n) lib w v
perform-IsValid lib w (delete_computer_op k) a v = delete_computer-Keeps k lib w v
perform-IsValid lib w (create_contact_op n) a v = forget-Keeps _ (create_contact-Keeps n) lib w v
perform-IsValid lib w (delete_contact_op k) a v = delete_contact-Keeps k lib w v
perform-IsValid lib w (update_contact_op k d) a v =
    let (dn, e) = filled k.dn a in update_contact-IsValid lib w k d e v
perform-IsValid lib w (uid_check_op uid dn) a v = forget-Keeps _ (uid_check-Keeps uid dn) lib w v
perform-IsValid lib w (gid_check_op gid dn) a v = forget-Keeps _ (gid_check-Keeps gid dn) lib w v
perform-IsValid lib w (next_free_uid_op lo hi) a v =
    forget-Keeps _ (next_free_uid-Keeps lo hi) lib w v
perform-IsValid lib w (next_free_gid_op lo hi) a v =
    forget-Keeps _ (next_free_gid-Keeps lo hi) lib w v
perform-IsValid lib w (query_op p) a v = forget-Keeps _ (query-Keeps p) lib w v
perform-IsValid lib w (browse_children_op c parent_dn) a v =
    forget-Keeps _ (browse_children-Keeps c parent_dn) lib w v
perform-IsValid lib w (browse_attrs_op dn) a v = forget-Keeps _ (browse_attrs-Keeps dn) lib w v
perform-IsValid lib w (browse_search_op c base_dn filter) a v =
    forget-Keeps _ (browse_search-Keeps c base_dn filter) lib w v
perform-IsValid lib w (browse_modify_op dn mods) a v = browse_modify-Keeps dn mods lib w v

pub start-IsValid : (lib : Library) → IsValid lib start
start-IsValid lib = record {
  free = refl;
  no_leak = refl;
  older = tt;
  uses_open = tt;
  connected_iff = refl;
}

-- In every world that a session reaches by operations that may start, on any answers of the libraries,
-- the mutex is free, the stored handle is the only one open, no call was made on a handle that was
-- closed or never opened, and the connection says it is connected exactly if it has a handle.
pub Reaches-IsValid : (lib : Library) {w : World} → Reaches lib w → IsValid lib w
Reaches-IsValid lib begin = start-IsValid lib
Reaches-IsValid lib (next {w} op r a) = (perform-IsValid lib w op a (Reaches-IsValid lib r)).1

-- In every world that a session reaches, every operation that may start ends, with a value or an error: it does not wait
-- for ever on the mutex and does nothing that C leaves undefined.
pub Reaches-Ended :
    (lib : Library) {w : World} (op : Op)
    → Reaches lib w
    → IsAllowed op w
    → Ended (perform op lib w).0
Reaches-Ended lib {w} op r a = (perform-IsValid lib w op a (Reaches-IsValid lib r)).0
