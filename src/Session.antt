-- ===== src/Session.antt =====
-- The operations of src/backend on one shared connection, one after another, each to its end: those
-- that may start by `IsAllowed`, and in `Runs` all of them. `Session.Locked` has what the two that
-- set POSIX attributes do without a handle.
pub mod Valid
pub mod Locked
pub mod Stuck
pub mod Unrestricted
use sambervise.Base.{Bool, Option, none, List, [], ◌∷◌, false, ◌≢◌}
use sambervise.Base.Int.{ℤ, pos}
use sambervise.Base.Bytes.{Bytes}
use sambervise.Ldap.{Library}
use sambervise.Profile.{Profile}
use sambervise.Connection.{Action, ◌>>◌, pure, World, undefined, connect, disconnect, whoami}
use sambervise.Users.{User, list_users}
use sambervise.Users.Account.{set_enabled, reset_password, set_password_flags}
use sambervise.Users.Edit.{Names, update_attrs, UnixAttrs, set_unix_attrs}
use sambervise.Users.Create.{NewUser, create_user, delete_user}
use sambervise.Groups.{Group, list_groups}
use sambervise.Groups.Change.{add_member, remove_member, set_group_unix_attrs}
use sambervise.Groups.Create.{NewGroup, create_group, delete_group}
use sambervise.Computers.{Computer, list_computers}
use sambervise.Computers.Change.{
  set_computer_enabled, update_computer, set_spn, NewComputer, create_computer, delete_computer,
}
use sambervise.Contacts.{Contact, list_contacts}
use sambervise.Contacts.Change.{NewContact, create_contact, delete_contact, update_contact}
use sambervise.Collisions.{uid_check, gid_check, next_free_uid, next_free_gid}
use sambervise.Idmap.{query}
use sambervise.Browse.{
  Collation, browse_children, browse_attrs, browse_search, StagedMod, browse_modify,
}

pub data Op : Type 0 where
  connect_op : Profile → Option Bytes → Op
  disconnect_op whoami_op : Op
  list_users_op list_groups_op list_computers_op list_contacts_op : Op
  set_enabled_op : User → Bool → Op
  reset_password_op : User → Option Bytes → Op
  set_password_flags_op : User → Bool → Bool → ℤ → Op
  update_attrs_op : User → Names → Op
  set_unix_attrs_op : User → UnixAttrs → Op
  create_user_op : NewUser → Op
  delete_user_op : User → Op
  add_member_op remove_member_op : Group → Option Bytes → Op
  set_group_unix_attrs_op : Group → ℤ → Op
  create_group_op : NewGroup → Op
  delete_group_op : Group → Op
  set_computer_enabled_op : Computer → Bool → Op
  update_computer_op : Computer → Option Bytes → Option Bytes → Op
  set_spn_op : Computer → Option (List Bytes) → Op
  create_computer_op : NewComputer → Op
  delete_computer_op : Computer → Op
  create_contact_op : NewContact → Op
  delete_contact_op : Contact → Op
  update_contact_op : Contact → Contact → Op
  uid_check_op gid_check_op : ℤ → Option Bytes → Op
  next_free_uid_op next_free_gid_op : ℤ → ℤ → Op
  query_op : Profile → Op
  browse_children_op : Collation → Option Bytes → Op
  browse_attrs_op : Option Bytes → Op
  browse_search_op : Collation → Option Bytes → Option Bytes → Op
  browse_modify_op : Option Bytes → List StagedMod → Op

abbrev pub forget : {A : Type 0} → Action A → Action (Unit {0})
forget m = m >> pure tt

-- What an operation does; its result is left out here.
unfoldable pub perform : Op → Action (Unit {0})
perform (connect_op p password) = connect p password
perform disconnect_op = disconnect
perform whoami_op = forget whoami
perform list_users_op = forget list_users
perform list_groups_op = forget list_groups
perform list_computers_op = forget list_computers
perform list_contacts_op = forget list_contacts
perform (set_enabled_op u enabled) = set_enabled u enabled
perform (reset_password_op u password) = reset_password u password
perform (set_password_flags_op u force never expires) = set_password_flags u force never expires
perform (update_attrs_op u n) = update_attrs u n
perform (set_unix_attrs_op u a) = set_unix_attrs u a
perform (create_user_op n) = forget (create_user n)
perform (delete_user_op u) = delete_user u
perform (add_member_op g dn) = add_member g dn
perform (remove_member_op g dn) = remove_member g dn
perform (set_group_unix_attrs_op g gid) = set_group_unix_attrs g gid
perform (create_group_op n) = forget (create_group n)
perform (delete_group_op g) = delete_group g
perform (set_computer_enabled_op k enabled) = set_computer_enabled k enabled
perform (update_computer_op k description dns_hostname) = update_computer k description dns_hostname
perform (set_spn_op k spns) = set_spn k spns
perform (create_computer_op n) = forget (create_computer n)
perform (delete_computer_op k) = delete_computer k
perform (create_contact_op n) = forget (create_contact n)
perform (delete_contact_op k) = delete_contact k
perform (update_contact_op k d) = update_contact k d
perform (uid_check_op uid dn) = forget (uid_check uid dn)
perform (gid_check_op gid dn) = forget (gid_check gid dn)
perform (next_free_uid_op lo hi) = forget (next_free_uid lo hi)
perform (next_free_gid_op lo hi) = forget (next_free_gid lo hi)
perform (query_op p) = forget (query p)
perform (browse_children_op c parent_dn) = forget (browse_children c parent_dn)
perform (browse_attrs_op dn) = forget (browse_attrs dn)
perform (browse_search_op c base_dn filter) = forget (browse_search c base_dn filter)
perform (browse_modify_op dn mods) = browse_modify dn mods

-- The world after some operations, the first of the list first.
unfoldable pub perform_all : List Op → Library → World → World
perform_all [] lib w = w
perform_all (op ∷ ops) lib w = perform_all ops lib (perform op lib w).1

-- The operations that `Reaches` starts: the two that set POSIX attributes with a handle only, and a
-- change of names on a user or contact that has a DN. Nothing in the source keeps the others from
-- being started, and `Runs` starts all.
abbrev pub IsAllowed : Op → World → Type 0
IsAllowed (set_unix_attrs_op _ _) w = w.conn.ld ≢ none
IsAllowed (set_group_unix_attrs_op _ _) w = w.conn.ld ≢ none
IsAllowed (update_attrs_op u _) w = u.dn ≢ none
IsAllowed (update_contact_op k _) w = k.dn ≢ none
IsAllowed _ w = Unit

-- `sbv_connection_new`, before any call.
abbrev pub start : World
start = record {
  conn = record {
    locked = false;
    ld = none;
    host = none;
    base_dn = none;
    port = pos 0;
    connected = false;
    profile = none;
  };
  calls = [];
}

-- The worlds that a session of such operations comes to, on some behaviour of the libraries.
pub data Reaches (lib : Library) : World → Type 0 where
  begin : Reaches lib start
  next : {w : World} (op : Op) → Reaches lib w → IsAllowed op w → Reaches lib (perform op lib w).1

-- The worlds that any operations lead to, on any arguments. The program goes on after an operation
-- unless that did something that C leaves undefined.
pub data Runs (lib : Library) : World → Type 0 where
  launch : Runs lib start
  run :
      {w : World} (op : Op)
      → Runs lib w
      → (perform op lib w).0 ≢ undefined
      → Runs lib (perform op lib w).1
