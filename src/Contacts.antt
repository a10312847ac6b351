-- ===== src/Contacts.antt =====
-- src/backend/sbv-contacts-backend.c and src/model/sbv-contact.{h,c}: contacts of the directory.
pub mod Change
pub mod Keeps
use sambervise.Base.{Option, List, [], ◌∷◌, map}
use sambervise.Base.Bytes.{Bytes, codes}
use sambervise.Ldap.{Search, subtree, Entry, Library}
use sambervise.Connection.{Action, ◌>>=◌, ◌>>◌, pure, ask, get_connection, acquire, release}
use sambervise.Backend.{fetch, text_value, text_values, no_limit}
use sambervise.Backend.Attrs.{Table, collect_attrs}

pub record Contact : Type 0 where
  pub dn : Option Bytes
  pub cn : Option Bytes
  pub display_name : Option Bytes
  pub given_name : Option Bytes
  pub sn : Option Bytes
  pub description : Option Bytes
  pub mail : Option Bytes
  pub proxy_addresses : Option (List Bytes)
  pub telephone_number : Option Bytes
  pub mobile : Option Bytes
  pub fax : Option Bytes
  pub office : Option Bytes
  pub street_address : Option Bytes
  pub locality : Option Bytes
  pub state : Option Bytes
  pub postal_code : Option Bytes
  pub country : Option Bytes
  pub ldap_attrs : Table

-- The body of the loop of `list_thread`, on a contact with all fields NULL.
unfoldable pub read_contact : Library → Entry → Contact
read_contact lib e = record {
  dn = text_value (codes "distinguishedName") e;
  cn = text_value (codes "cn") e;
  display_name = text_value (codes "displayName") e;
  given_name = text_value (codes "givenName") e;
  sn = text_value (codes "sn") e;
  description = text_value (codes "description") e;
  mail = text_value (codes "mail") e;
  proxy_addresses = text_values (codes "proxyAddresses") e;
  telephone_number = text_value (codes "telephoneNumber") e;
  mobile = text_value (codes "mobile") e;
  fax = text_value (codes "facsimileTelephoneNumber") e;
  office = text_value (codes "physicalDeliveryOfficeName") e;
  street_address = text_value (codes "streetAddress") e;
  locality = text_value (codes "l") e;
  state = text_value (codes "st") e;
  postal_code = text_value (codes "postalCode") e;
  country = text_value (codes "co") e;
  ldap_attrs = collect_attrs lib e;
}

-- The search of `list_thread`, for `CONTACT_ATTRS`.
abbrev pub contact_search : Option Bytes → Search
contact_search base_dn = record {
  base_dn = base_dn;
  scope = subtree;
  filter = codes "(&(objectClass=contact)(!(objectClass=user)))";
  attrs = map codes (
      "distinguishedName" ∷ "cn" ∷ "displayName" ∷ "givenName" ∷ "sn" ∷ "description" ∷ "mail"
      ∷ "proxyAddresses" ∷ "telephoneNumber" ∷ "mobile" ∷ "facsimileTelephoneNumber"
      ∷ "physicalDeliveryOfficeName" ∷ "streetAddress" ∷ "l" ∷ "st" ∷ "postalCode" ∷ "co" ∷ []);
  seconds = 30;
  limit = no_limit;
}

-- `list_thread`.
unfoldable pub list_contacts : Action (List Contact)
unfolding fetch
list_contacts = do
  h ← acquire
  c ← get_connection
  es ← fetch h (contact_search c.base_dn) "Search failed: "
  contacts ← ask (λ lib. map (read_contact lib) es)
  release
  pure contacts
