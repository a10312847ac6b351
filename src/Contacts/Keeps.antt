-- ===== src/Contacts/Keeps.antt =====
-- Every operation on contacts ends, and leaves the shared connection as it should be.
use sambervise.Base.{◌≡◌, some, arith}
use sambervise.Base.Bytes.{Bytes}
use sambervise.Ldap.{Library}
use sambervise.Connection.{World}
use sambervise.Connection.Valid.{Keeps, IsValid, Ended}
use sambervise.Users.Edit.{rename_user}
use sambervise.Contacts.{Contact, list_contacts}
use sambervise.Contacts.Change.{NewContact, create_contact, delete_contact, update_contact}

pub list_contacts-Keeps : Keeps list_contacts
unfolding list_contacts
list_contacts-Keeps lib w v = ground arith

pub create_contact-Keeps : (n : NewContact) → Keeps (create_contact n)
unfolding create_contact
create_contact-Keeps n lib w v = ground arith

pub delete_contact-Keeps : (k : Contact) → Keeps (delete_contact k)
unfolding delete_contact
delete_contact-Keeps k lib w v = ground arith

pub update_contact-IsValid :
    (lib : Library) (w : World) (k d : Contact) {dn : Bytes}
    → k.dn ≡ some dn
    → IsValid lib w
    → Ended (update_contact k d lib w).0 × IsValid lib (update_contact k d lib w).1
unfolding update_contact rename_user
update_contact-IsValid lib w k d e v = ground arith
