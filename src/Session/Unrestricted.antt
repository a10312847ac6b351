-- ===== src/Session/Unrestricted.antt =====
-- Sessions of any operations on the shared connection, the two that set POSIX attributes without a
-- handle among them, which leave its mutex locked.
use sambervise.Base.{◌≡◌, ◌≢◌, ◌⊎◌, inl, inr, none, arith, Option-cases}
use sambervise.Base.Int.{ℤ}
use sambervise.Ldap.{Library}
use sambervise.Connection.{World, undefined}
use sambervise.Connection.Valid.{IsValid, UsesOpen}
use sambervise.Users.{User}
use sambervise.Users.Unix.{set_unix_attrs-IsValid}
use sambervise.Groups.Keeps.{set_group_unix_attrs-IsValid}
use sambervise.Users.Edit.{Names, update_attrs, rename_user, UnixAttrs, set_unix_attrs}
use sambervise.Groups.{Group}
use sambervise.Groups.Change.{set_group_unix_attrs}
use sambervise.Contacts.{Contact}
use sambervise.Contacts.Change.{update_contact}
use sambervise.Session.{
  Op, list_contacts_op, create_contact_op, delete_contact_op, update_contact_op, connect_op,
  disconnect_op, whoami_op, list_users_op, list_groups_op, list_computers_op, set_enabled_op,
  reset_password_op, set_password_flags_op, update_attrs_op, set_unix_attrs_op, create_user_op,
  delete_user_op, add_member_op, remove_member_op, set_group_unix_attrs_op, create_group_op,
  delete_group_op, set_computer_enabled_op, update_computer_op, set_spn_op, create_computer_op,
  delete_computer_op, uid_check_op, gid_check_op, next_free_uid_op, next_free_gid_op, query_op,
  browse_children_op, browse_attrs_op, browse_search_op, browse_modify_op, perform, Runs, launch,
  run,
}
use sambervise.Session.Valid.{perform-IsValid, start-IsValid}
use sambervise.Session.Stuck.{IsStuck, perform-IsStuck}

-- The two operations that set POSIX attributes.
abbrev pub SetsPosix : Op → Type 0
SetsPosix (set_unix_attrs_op _ _) = Unit
SetsPosix (set_group_unix_attrs_op _ _) = Unit
SetsPosix _ = ⊥

-- One of them was run while there was no handle.
abbrev pub LocksUp : {lib : Library} {w : World} → Runs lib w → Type 0
LocksUp launch = ⊥
LocksUp (run {w} op r d) = LocksUp r ⊎ (SetsPosix op × (w.conn.ld ≡ none))

-- Free after an operation, or stuck by it.
abbrev IsKept : Library → World → Op → World → Type 0
IsKept lib w op w' = IsValid lib w' ⊎ (IsStuck lib w' × SetsPosix op × (w.conn.ld ≡ none))

-- The two operations that set POSIX attributes get stuck without a handle.
unix_attrs-IsKept :
    (lib : Library) (w : World) (u : User) (a : UnixAttrs)
    → IsValid lib w
    → IsKept lib w (set_unix_attrs_op u a) (set_unix_attrs u a lib w).1
unfolding set_unix_attrs
unix_attrs-IsKept lib w u a v = elim (Option-cases w.conn.ld) [
  | inl none_held ↦ inr (
    record {
      locked = ground (arith, none_held);
      no_handle = ground (arith, none_held);
      offline = ground (arith, none_held, v.connected_iff);
      uses_open = ground (arith, none_held, v.uses_open);
    },
    tt,
    none_held,
  )
  | inr (h, held) ↦
      inl (set_unix_attrs-IsValid lib w h u a v (record { free = v.free; holds = held })).1
]

group_unix_attrs-IsKept :
    (lib : Library) (w : World) (g : Group) (gid : ℤ)
    → IsValid lib w
    → IsKept lib w (set_group_unix_attrs_op g gid) (set_group_unix_attrs g gid lib w).1
unfolding set_group_unix_attrs
group_unix_attrs-IsKept lib w g gid v = elim (Option-cases w.conn.ld) [
  | inl none_held ↦ inr (
    record {
      locked = ground (arith, none_held);
      no_handle = ground (arith, none_held);
      offline = ground (arith, none_held, v.connected_iff);
      uses_open = ground (arith, none_held, v.uses_open);
    },
    tt,
    none_held,
  )
  | inr (h, held) ↦
      inl (set_group_unix_attrs-IsValid lib w h g gid v (record { free = v.free; holds = held })).1
]

-- A change of names with a NULL DN, where it does nothing undefined.
update_attrs-defined :
    (lib : Library) (w : World) (u : User) (n : Names)
    → IsValid lib w
    → (update_attrs u n lib w).0 ≢ undefined
    → IsValid lib (update_attrs u n lib w).1
unfolding update_attrs rename_user
update_attrs-defined lib w u n v defined = ground arith

update_contact-defined :
    (lib : Library) (w : World) (k d : Contact)
    → IsValid lib w
    → (update_contact k d lib w).0 ≢ undefined
    → IsValid lib (update_contact k d lib w).1
unfolding update_contact rename_user
update_contact-defined lib w k d v defined = ground arith

perform-IsKept :
    (lib : Library) (w : World) (op : Op)
    → (perform op lib w).0 ≢ undefined
    → IsValid lib w
    → IsKept lib w op (perform op lib w).1
unfolding perform
perform-IsKept lib w (update_attrs_op u n) d v = inl (update_attrs-defined lib w u n v d)
perform-IsKept lib w (update_contact_op k n) d v = inl (update_contact-defined lib w k n v d)
perform-IsKept lib w (set_unix_attrs_op u a) d v = unix_attrs-IsKept lib w u a v
perform-IsKept lib w (set_group_unix_attrs_op g gid) d v = group_unix_attrs-IsKept lib w g gid v
perform-IsKept lib w (connect_op p password) d v =
    inl (perform-IsValid lib w (connect_op p password) tt v).1
perform-IsKept lib w disconnect_op d v = inl (perform-IsValid lib w disconnect_op tt v).1
perform-IsKept lib w whoami_op d v = inl (perform-IsValid lib w whoami_op tt v).1
perform-IsKept lib w list_users_op d v = inl (perform-IsValid lib w list_users_op tt v).1
perform-IsKept lib w list_groups_op d v = inl (perform-IsValid lib w list_groups_op tt v).1
perform-IsKept lib w list_computers_op d v = inl (perform-IsValid lib w list_computers_op tt v).1
perform-IsKept lib w list_contacts_op d v = inl (perform-IsValid lib w list_contacts_op tt v).1
perform-IsKept lib w (set_enabled_op u enabled) d v =
    inl (perform-IsValid lib w (set_enabled_op u enabled) tt v).1
perform-IsKept lib w (reset_password_op u password) d v =
    inl (perform-IsValid lib w (reset_password_op u password) tt v).1
perform-IsKept lib w (set_password_flags_op u force never expires) d v =
    inl (perform-IsValid lib w (set_password_flags_op u force never expires) tt v).1
perform-IsKept lib w (create_user_op n) d v = inl (perform-IsValid lib w (create_user_op n) tt v).1
perform-IsKept lib w (delete_user_op u) d v = inl (perform-IsValid lib w (delete_user_op u) tt v).1
perform-IsKept lib w (add_member_op g dn) d v =
    inl (perform-IsValid lib w (add_member_op g dn) tt v).1
perform-IsKept lib w (remove_member_op g dn) d v =
    inl (perform-IsValid lib w (remove_member_op g dn) tt v).1
perform-IsKept lib w (create_group_op n) d v =
    inl (perform-IsValid lib w (create_group_op n) tt v).1
perform-IsKept lib w (delete_group_op g) d v =
    inl (perform-IsValid lib w (delete_group_op g) tt v).1
perform-IsKept lib w (set_computer_enabled_op k enabled) d v =
    inl (perform-IsValid lib w (set_computer_enabled_op k enabled) tt v).1
perform-IsKept lib w (update_computer_op k description dns_hostname) d v =
    inl (perform-IsValid lib w (update_computer_op k description dns_hostname) tt v).1
perform-IsKept lib w (set_spn_op k spns) d v =
    inl (perform-IsValid lib w (set_spn_op k spns) tt v).1
perform-IsKept lib w (create_computer_op n) d v =
    inl (perform-IsValid lib w (create_computer_op n) tt v).1
perform-IsKept lib w (delete_computer_op k) d v =
    inl (perform-IsValid lib w (delete_computer_op k) tt v).1
perform-IsKept lib w (create_contact_op n) d v =
    inl (perform-IsValid lib w (create_contact_op n) tt v).1
perform-IsKept lib w (delete_contact_op k) d v =
    inl (perform-IsValid lib w (delete_contact_op k) tt v).1
perform-IsKept lib w (uid_check_op uid dn) d v =
    inl (perform-IsValid lib w (uid_check_op uid dn) tt v).1
perform-IsKept lib w (gid_check_op gid dn) d v =
    inl (perform-IsValid lib w (gid_check_op gid dn) tt v).1
perform-IsKept lib w (next_free_uid_op lo hi) d v =
    inl (perform-IsValid lib w (next_free_uid_op lo hi) tt v).1
perform-IsKept lib w (next_free_gid_op lo hi) d v =
    inl (perform-IsValid lib w (next_free_gid_op lo hi) tt v).1
perform-IsKept lib w (query_op p) d v = inl (perform-IsValid lib w (query_op p) tt v).1
perform-IsKept lib w (browse_children_op c parent_dn) d v =
    inl (perform-IsValid lib w (browse_children_op c parent_dn) tt v).1
perform-IsKept lib w (browse_attrs_op dn) d v =
    inl (perform-IsValid lib w (browse_attrs_op dn) tt v).1
perform-IsKept lib w (browse_search_op c base_dn filter) d v =
    inl (perform-IsValid lib w (browse_search_op c base_dn filter) tt v).1
perform-IsKept lib w (browse_modify_op dn mods) d v =
    inl (perform-IsValid lib w (browse_modify_op dn mods) tt v).1

-- In every world that any operations lead to, on any arguments and any answers of the libraries, as
-- long as none did something that C leaves undefined: every call was made on a handle that was open at
-- that time. Either the mutex is free, the stored handle is the only one open, and the connection says
-- it is connected exactly if it has one; or POSIX attributes were set while there was no handle, the
-- mutex was left locked, no handle is stored, and the connection says it is not connected.
pub Runs-IsKept :
    (lib : Library) {w : World} (r : Runs lib w)
    → UsesOpen lib w.calls × (IsValid lib w ⊎ (IsStuck lib w × LocksUp r))
Runs-IsKept lib r = let k = kept r in (used r k, k)
  where
    kept : {w : World} (r : Runs lib w) → IsValid lib w ⊎ (IsStuck lib w × LocksUp r)
    kept launch = inl (start-IsValid lib)
    kept (run {w} op r d) = elim (kept r) [
      | inl v ↦ elim (perform-IsKept lib w op d v) [
        | inl v' ↦ inl v'
        | inr (stuck, sets, held) ↦ inr (stuck, inr (sets, held))
      ]
      | inr (v, why) ↦ inr (perform-IsStuck lib w op v, inl why)
    ]

    used :
        {w : World} (r : Runs lib w)
        → IsValid lib w ⊎ (IsStuck lib w × LocksUp r)
        → UsesOpen lib w.calls
    used r (inl v) = v.uses_open
    used r (inr (v, why)) = v.uses_open
