-- ===== src/Contacts/Change.antt =====
-- src/backend/sbv-contacts-backend.c: creating, deleting and changing a contact.
use sambervise.Base.{not, ◌||◌, Option, none, some, List, [], ◌∷◌, ◌++◌, map, if◌then◌else◌}
use sambervise.Base.Bytes.{Bytes, codes, is_filled, or_empty}
use sambervise.Ldap.{Call, Mod, add, replace, ldap, refused}
use sambervise.Connection.{Action, ◌>>=◌, ◌>>◌, pure, raise, issue, acquire, release}
use sambervise.Backend.{settle, put, edit_mod, modify_if_any, add_if_filled, child_dn}
use sambervise.Users.Edit.{rename_user}
use sambervise.Contacts.{Contact}

-- The arguments of `sbv_contacts_create_async`.
pub record NewContact : Type 0 where
  pub cn : Option Bytes
  pub given_name : Option Bytes
  pub sn : Option Bytes
  pub mail : Option Bytes
  pub telephone_number : Option Bytes
  pub container_dn : Option Bytes

abbrev pub contact_classes : List Bytes
contact_classes = map codes ("top" ∷ "person" ∷ "organizationalPerson" ∷ "contact" ∷ [])

unfoldable pub new_contact_mods : NewContact → List Mod
new_contact_mods n =
    record { op = add; attr = codes "objectClass"; values = some contact_classes }
    ∷ put add "cn" (or_empty n.cn)
    ∷ (add_if_filled "givenName" n.given_name
        ++ (add_if_filled "sn" n.sn
            ++ (add_if_filled "mail" n.mail ++ add_if_filled "telephoneNumber" n.telephone_number)))

-- `create_thread`.
unfoldable pub create_contact_thread : NewContact → Action Bytes
unfolding settle
create_contact_thread n = do
  h ← acquire
  let dn = child_dn n.cn n.container_dn
  r ← issue (Call.add_entry h dn (new_contact_mods n))
  release
  settle "Create failed: " r.rc
  pure dn

-- `sbv_contacts_create_async`.
unfoldable pub create_contact : NewContact → Action Bytes
unfolding create_contact_thread
create_contact n =
    if not (is_filled n.cn) || not (is_filled n.container_dn)
    then raise (refused ldap "Name and container are required")
    else create_contact_thread n

-- `delete_thread`, on the DN that `sbv_contacts_delete_async` captures.
unfoldable pub delete_contact : Contact → Action (Unit {0})
unfolding settle
delete_contact k = do
  h ← acquire
  r ← issue (Call.delete_entry h k.dn)
  release
  settle "Delete failed: " r.rc

-- The values of the modification of proxyAddresses: an empty vector removes the attribute.
abbrev pub proxy_mod : Option (List Bytes) → List Mod
proxy_mod none = []
proxy_mod (some []) = record { op = replace; attr = codes "proxyAddresses"; values = none } ∷ []
proxy_mod (some (a ∷ rest)) =
    record { op = replace; attr = codes "proxyAddresses"; values = some (a ∷ rest) } ∷ []

-- The modifications of `update_thread`. The new fields come as a contact, whose `dn` and
-- `ldap_attrs` are not looked at; NULL leaves an attribute alone.
unfoldable pub contact_mods : Contact → List Mod
contact_mods d =
    edit_mod "displayName" d.display_name
    ++ (edit_mod "givenName" d.given_name
        ++ (edit_mod "sn" d.sn
            ++ (edit_mod "description" d.description
                ++ (edit_mod "mail" d.mail
                    ++ (edit_mod "telephoneNumber" d.telephone_number
                        ++ (edit_mod "mobile" d.mobile
                            ++ (edit_mod "facsimileTelephoneNumber" d.fax
                                ++ (edit_mod "physicalDeliveryOfficeName" d.office
                                    ++ (edit_mod "streetAddress" d.street_address
                                        ++ (edit_mod "l" d.locality
                                            ++ (edit_mod "st" d.state
                                                ++ (edit_mod "postalCode" d.postal_code
                                                    ++ (edit_mod "co" d.country
                                                        ++ proxy_mod d.proxy_addresses)))))))))))))

-- `sbv_contacts_update_async` and `update_thread`. The rename has the same lines as that of a user.
unfoldable pub update_contact : Contact → Contact → Action (Unit {0})
unfolding settle modify_if_any
update_contact k d = do
  h ← acquire
  dn ← (if is_filled d.cn then rename_user h k.dn (or_empty d.cn) else pure k.dn)
  rc ← modify_if_any h dn (contact_mods d)
  release
  settle "Attribute update failed: " rc
