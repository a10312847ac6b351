-- ===== src/Session/Stuck.antt =====
-- The shared connection once its mutex was left locked.
use sambervise.Base.{◌≡◌, Option, none, true, false, arith, Bool}
use sambervise.Base.Bytes.{Bytes}
use sambervise.Profile.{Profile}
use sambervise.Ldap.{Handle, Library}
use sambervise.Connection.{
  World, Outcome, Action, ◌>>=◌, ◌>>◌, ok, err, blocked, undefined, open_handle,
}
use sambervise.Connection.{connect, disconnect, whoami, secure, bind_handle, install}
use sambervise.Connection.Valid.{UsesOpen, open_handles, contains}
use sambervise.Users.{list_users}
use sambervise.Users.Account.{set_enabled, reset_password, set_password_flags}
use sambervise.Users.Edit.{update_attrs, rename_user, set_unix_attrs}
use sambervise.Users.Create.{create_user, delete_user}
use sambervise.Groups.{list_groups}
use sambervise.Groups.Change.{add_member, remove_member, set_group_unix_attrs}
use sambervise.Groups.Create.{create_group, delete_group}
use sambervise.Computers.{list_computers}
use sambervise.Computers.Change.{
  set_computer_enabled, update_computer, set_spn, create_computer, delete_computer,
}
use sambervise.Contacts.{list_contacts}
use sambervise.Contacts.Change.{create_contact, delete_contact, update_contact}
use sambervise.Collisions.{uid_check, gid_check, next_free_uid, next_free_gid}
use sambervise.Idmap.{query}
use sambervise.Browse.{browse_children, browse_attrs, browse_search, search_thread, browse_modify}
use sambervise.Session.{
  Op, list_contacts_op, create_contact_op, delete_contact_op, update_contact_op, connect_op,
  disconnect_op, whoami_op, list_users_op, list_groups_op, list_computers_op, set_enabled_op,
  reset_password_op, set_password_flags_op, update_attrs_op, set_unix_attrs_op, create_user_op,
  delete_user_op, add_member_op, remove_member_op, set_group_unix_attrs_op, create_group_op,
  delete_group_op, set_computer_enabled_op, update_computer_op, set_spn_op, create_computer_op,
  delete_computer_op, uid_check_op, gid_check_op, next_free_uid_op, next_free_gid_op, query_op,
  browse_children_op, browse_attrs_op, browse_search_op, browse_modify_op, perform,
}

-- The mutex was left locked: no handle is stored, and the connection says it is not connected.
pub record IsStuck (lib : Library) (w : World) : Type 0 where
  pub locked : w.conn.locked ≡ true
  pub no_handle : w.conn.ld ≡ none
  pub offline : w.conn.connected ≡ false
  pub uses_open : UsesOpen lib w.calls

-- A connect in that state has opened `h`, which nothing will store.
record IsOpened (lib : Library) (h : Handle) (w : World) : Type 0 where
  stuck : IsStuck lib w
  is_open : contains h (open_handles lib w.calls) ≡ true

-- A part may also wait for ever.
abbrev Comes : {A : Type 0} → (World → Type 0) → (A → World → Type 0) → Outcome A × World → Type 0
Comes E Q (ok a, w) = Q a w
Comes E Q (err _, w) = E w
Comes E Q (blocked, w) = E w
Comes E Q (undefined, w) = E w

Comes-bind :
    {A B : Type 0} (E : World → Type 0) (Q : A → World → Type 0) (R : B → World → Type 0)
    (m : Action A) (f : A → Action B) (lib : Library) (w : World)
    → Comes E Q (m lib w)
    → ((a : A) (w' : World) → Q a w' → Comes E R (f a lib w'))
    → Comes E R ((m >>= f) lib w)
Comes-bind {A} {B} E Q R m f lib w first rest = on_result (m lib w) first
  where
    on_result :
        (r : Outcome A × World) → Comes E Q r → Comes E R (◌>>=◌ {A = A} (λ lib' w'. r) f lib w)
    on_result (ok a, w') q = rest a w' q
    on_result (err e, w') q = q
    on_result (blocked, w') q = q
    on_result (undefined, w') q = q

open_handle-IsOpened :
    (lib : Library) (uri : Bytes) (w : World)
    → IsStuck lib w
    → Comes (IsStuck lib) (IsOpened lib) (open_handle uri lib w)
open_handle-IsOpened lib uri w v = ground arith

secure-IsOpened :
    (lib : Library) (h : Handle) (skip tls : Bool) (w : World)
    → IsOpened lib h w
    → Comes (IsStuck lib) (λ _. IsOpened lib h) (secure h skip tls lib w)
unfolding secure
secure-IsOpened lib h skip tls w v = ground arith

bind_handle-IsOpened :
    (lib : Library) (h : Handle) (p : Profile) (password : Option Bytes) (w : World)
    → IsOpened lib h w
    → Comes (IsStuck lib) (λ _. IsOpened lib h) (bind_handle h p password lib w)
unfolding bind_handle
bind_handle-IsOpened lib h p password w v = ground arith

install-IsStuck :
    (lib : Library) (h : Handle) (p : Profile) (w : World)
    → IsOpened lib h w
    → Comes (IsStuck lib) (λ _. IsStuck lib) (install h p lib w)
unfolding install
install-IsStuck lib h p w v = ground (arith, v.stuck)

connect-Comes :
    (lib : Library) (p : Profile) (password : Option Bytes) (w : World)
    → IsStuck lib w
    → Comes (IsStuck lib) (λ _. IsStuck lib) (connect p password lib w)
unfolding connect
connect-Comes lib p password w v =
    Comes-bind (IsStuck lib) (IsOpened lib) (λ _. IsStuck lib) (open_handle _)
      (λ h. secure h p.skip_cert p.use_tls >> (bind_handle h p password >> install h p)) lib w
      (open_handle-IsOpened lib _ w v)
      λ h w₁ v₁.
        Comes-bind (IsStuck lib) (λ _. IsOpened lib h) (λ _. IsStuck lib)
          (secure h p.skip_cert p.use_tls) (λ _. bind_handle h p password >> install h p) lib w₁
          (secure-IsOpened lib h p.skip_cert p.use_tls w₁ v₁)
          λ _ w₂ v₂.
            Comes-bind (IsStuck lib) (λ _. IsOpened lib h) (λ _. IsStuck lib)
              (bind_handle h p password) (λ _. install h p) lib w₂
              (bind_handle-IsOpened lib h p password w₂ v₂) λ _ w₃ v₃. install-IsStuck lib h p w₃ v₃

ended :
    (lib : Library) (r : Outcome (Unit {0}) × World)
    → Comes (IsStuck lib) (λ _. IsStuck lib) r
    → IsStuck lib r.1
ended lib (ok a, w) v = v
ended lib (err e, w) v = v
ended lib (blocked, w) v = v
ended lib (undefined, w) v = v

-- What is asked while the mutex is locked changes nothing, but for the calls of a connect.
pub perform-IsStuck :
    (lib : Library) (w : World) (op : Op) → IsStuck lib w → IsStuck lib (perform op lib w).1
unfolding perform connect disconnect whoami list_users list_groups list_computers set_enabled
    reset_password set_password_flags update_attrs rename_user set_unix_attrs create_user
    delete_user add_member remove_member set_group_unix_attrs create_group delete_group
    set_computer_enabled update_computer set_spn create_computer delete_computer list_contacts
    create_contact delete_contact update_contact uid_check gid_check next_free_uid next_free_gid
    query browse_children browse_attrs browse_search search_thread browse_modify secure bind_handle
    install
perform-IsStuck lib w (connect_op p password) v = ended lib _ (connect-Comes lib p password w v)
perform-IsStuck lib w disconnect_op v = ground (arith, v.locked, v)
perform-IsStuck lib w whoami_op v = ground (arith, v.locked, v)
perform-IsStuck lib w list_users_op v = ground (arith, v.locked, v)
perform-IsStuck lib w list_groups_op v = ground (arith, v.locked, v)
perform-IsStuck lib w list_computers_op v = ground (arith, v.locked, v)
perform-IsStuck lib w list_contacts_op v = ground (arith, v.locked, v)
perform-IsStuck lib w (set_enabled_op u enabled) v = ground (arith, v.locked, v)
perform-IsStuck lib w (reset_password_op u password) v = ground (arith, v.locked, v)
perform-IsStuck lib w (set_password_flags_op u force never expires) v = ground (arith, v.locked, v)
perform-IsStuck lib w (update_attrs_op u n) v = ground (arith, v.locked, v)
perform-IsStuck lib w (set_unix_attrs_op u a) v = ground (arith, v.locked, v)
perform-IsStuck lib w (create_user_op n) v = ground (arith, v.locked, v)
perform-IsStuck lib w (delete_user_op u) v = ground (arith, v.locked, v)
perform-IsStuck lib w (add_member_op g dn) v = ground (arith, v.locked, v)
perform-IsStuck lib w (remove_member_op g dn) v = ground (arith, v.locked, v)
perform-IsStuck lib w (set_group_unix_attrs_op g gid) v = ground (arith, v.locked, v)
perform-IsStuck lib w (create_group_op n) v = ground (arith, v.locked, v)
perform-IsStuck lib w (delete_group_op g) v = ground (arith, v.locked, v)
perform-IsStuck lib w (set_computer_enabled_op k enabled) v = ground (arith, v.locked, v)
perform-IsStuck lib w (update_computer_op k description dns_hostname) v =
    ground (arith, v.locked, v)
perform-IsStuck lib w (set_spn_op k spns) v = ground (arith, v.locked, v)
perform-IsStuck lib w (create_computer_op n) v = ground (arith, v.locked, v)
perform-IsStuck lib w (delete_computer_op k) v = ground (arith, v.locked, v)
perform-IsStuck lib w (create_contact_op n) v = ground (arith, v.locked, v)
perform-IsStuck lib w (delete_contact_op k) v = ground (arith, v.locked, v)
perform-IsStuck lib w (update_contact_op k d) v = ground (arith, v.locked, v)
perform-IsStuck lib w (uid_check_op uid dn) v = ground (arith, v.locked, v)
perform-IsStuck lib w (gid_check_op gid dn) v = ground (arith, v.locked, v)
perform-IsStuck lib w (next_free_uid_op lo hi) v = ground (arith, v.locked, v)
perform-IsStuck lib w (next_free_gid_op lo hi) v = ground (arith, v.locked, v)
perform-IsStuck lib w (query_op p) v = ground (arith, v.locked, v)
perform-IsStuck lib w (browse_children_op c parent_dn) v = ground (arith, v.locked, v)
perform-IsStuck lib w (browse_attrs_op dn) v = ground (arith, v.locked, v)
perform-IsStuck lib w (browse_search_op c base_dn filter) v = ground (arith, v.locked, v)
perform-IsStuck lib w (browse_modify_op dn mods) v = ground (arith, v.locked, v)
