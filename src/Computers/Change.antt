-- ===== src/Computers/Change.antt =====
-- src/backend/sbv-computers-backend.c: the changes of a computer account.
use sambervise.Base.{Bool, not, ◌||◌, Option, none, some, List, [], ◌∷◌, ◌++◌, map, if◌then◌else◌}
use sambervise.Base.Int.{ℤ, pos}
use sambervise.Base.Bytes.{Bytes, codes, is_filled, or_empty}
use sambervise.Base.Decimal.{print_ℤ}
use sambervise.Base.Flags.{set_flag}
use sambervise.Ldap.{Call, Mod, add, replace, Entry, ldap, refused}
use sambervise.Connection.{Action, ◌>>=◌, ◌>>◌, pure, raise, issue, acquire, release}
use sambervise.Backend.{
  fetch, settle, number_value, number_or, put, read_entry, edit_mod, modify_if_any, add_if_filled,
  child_dn,
}
use sambervise.Users.Account.{toggled_uac}
use sambervise.Computers.{Computer, uac_accountdisable, uac_workstation_trust_acct}

-- The number that is changed: that of the entry, or 0 where there is none.
unfoldable pub computer_uac : List Entry → ℤ
unfolding number_value
computer_uac [] = pos 0
computer_uac (e ∷ _) = number_or (pos 0) (number_value (codes "userAccountControl") e)

-- `sbv_computers_set_enabled_async` and its `set_enabled_thread`.
unfoldable pub set_computer_enabled : Computer → Bool → Action (Unit {0})
unfolding fetch settle
set_computer_enabled k enabled = do
  h ← acquire
  es ← fetch h (read_entry k.dn (codes "userAccountControl" ∷ []) 10) "Read failed: "
  let uac = toggled_uac enabled (computer_uac es)
  r ← issue (Call.modify h k.dn (put replace "userAccountControl" (print_ℤ uac) ∷ []))
  release
  settle "Modify failed: " r.rc

-- `sbv_computers_update_attrs_async` and its `update_attrs_thread`: the description and the host name.
unfoldable pub update_computer : Computer → Option Bytes → Option Bytes → Action (Unit {0})
unfolding settle modify_if_any
update_computer k description dns_hostname = do
  h ← acquire
  rc ←
      modify_if_any h k.dn
        (edit_mod "description" description ++ edit_mod "dNSHostName" dns_hostname)
  release
  settle "Attribute update failed: " rc

-- The one modification of `set_spn_thread`: NULL or an empty list removes the attribute.
abbrev pub spn_values : Option (List Bytes) → Option (List Bytes)
spn_values none = none
spn_values (some []) = none
spn_values (some (s ∷ ss)) = some (s ∷ ss)

abbrev pub spn_mod : Option (List Bytes) → Mod
spn_mod spns = record {
  op = replace;
  attr = codes "servicePrincipalName";
  values = spn_values spns;
}

-- `sbv_computers_set_spn_async` and `set_spn_thread`.
unfoldable pub set_spn : Computer → Option (List Bytes) → Action (Unit {0})
unfolding settle
set_spn k spns = do
  h ← acquire
  r ← issue (Call.modify h k.dn (spn_mod spns ∷ []))
  release
  settle "SPN update failed: " r.rc

-- The arguments of `sbv_computers_create_async`.
pub record NewComputer : Type 0 where
  pub cn : Option Bytes
  pub dns_hostname : Option Bytes
  pub description : Option Bytes
  pub container_dn : Option Bytes

abbrev pub computer_classes : List Bytes
computer_classes = map codes ("top" ∷ "person" ∷ "organizationalPerson" ∷ "user" ∷ "computer" ∷ [])

unfoldable pub new_computer_mods : NewComputer → List Mod
new_computer_mods n =
    record { op = add; attr = codes "objectClass"; values = some computer_classes }
    ∷ put add "cn" (or_empty n.cn)
    ∷ put add "sAMAccountName" (or_empty n.cn ++ codes "$")
    ∷ put add "userAccountControl"
        (print_ℤ (set_flag uac_accountdisable (pos uac_workstation_trust_acct)))
    ∷ (add_if_filled "dNSHostName" n.dns_hostname ++ add_if_filled "description" n.description)

-- `create_computer_thread`.
unfoldable pub create_computer_thread : NewComputer → Action Bytes
unfolding settle
create_computer_thread n = do
  h ← acquire
  let dn = child_dn n.cn n.container_dn
  r ← issue (Call.add_entry h dn (new_computer_mods n))
  release
  settle "Create failed: " r.rc
  pure dn

-- `sbv_computers_create_async`.
unfoldable pub create_computer : NewComputer → Action Bytes
unfolding create_computer_thread
create_computer n =
    if not (is_filled n.cn) || not (is_filled n.container_dn)
    then raise (refused ldap "Computer name and container are required")
    else create_computer_thread n

-- `delete_computer_thread`, on the DN that `sbv_computers_delete_async` captures.
unfoldable pub delete_computer : Computer → Action (Unit {0})
unfolding settle
delete_computer k = do
  h ← acquire
  r ← issue (Call.delete_entry h k.dn)
  release
  settle "Delete failed: " r.rc
