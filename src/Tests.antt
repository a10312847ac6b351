-- ===== src/Tests.antt =====
-- Concrete libraries, connections and entries, on which the theorems are applied.
pub mod Sorting
mod Sessions
mod Accounts
mod Ids
mod Stores
mod Browsing
mod Panels
mod GroupPanels
pub mod Names
mod Windows
pub mod Contacting
mod Listing
use sambervise.Base.{refl, ℕ, Bool, true, false, Option, none, some, List, [], ◌∷◌, if◌then◌else◌}
use sambervise.Base.Int.{ℤ, pos, negsuc}
use sambervise.Base.Bytes.{Bytes, codes, bytes_eq}
use sambervise.Ldap.{Call, Entry, Reply, Library}
use sambervise.Connection.{World}
use sambervise.Connection.Valid.{IsReady, IsOffline}
use sambervise.Profile.{Profile, new_profile}
use sambervise.Users.{User}
use sambervise.Groups.{Group}
use sambervise.Idmap.{Hints, directory_source}
use sambervise.Session.{start}
use sambervise.Tests.Sorting.{insertion_sort}

-- An entry with one attribute, which has one value.
abbrev pub entry_of : Bytes → Bytes → Entry
entry_of attr value = record {
  dn = some (codes "CN=jane,DC=x");
  names = attr ∷ [];
  values = λ name. if bytes_eq name attr then some (value ∷ []) else none;
}

-- Every call has the same result code, and every search the same entries.
abbrev pub answers : ℤ → List Entry → Library
answers rc entries = record {
  reply = λ log call. record { rc = rc; entries = entries; authzid = some (codes "u:DOM\\jane") };
  utf8_validate = λ s. true;
  to_utf16le = λ s. some s;
  sort = insertion_sort;
}

abbrev pub uid_entries : List Entry
uid_entries =
    entry_of (codes "uidNumber") (codes "10001") ∷ entry_of (codes "uidNumber") (codes "10000") ∷ []

abbrev pub uids : Library
uids = answers (pos 0) uid_entries

abbrev pub accepts : Library
accepts = answers (pos 0) []

-- Every call fails, by LDAP_INSUFFICIENT_ACCESS.
abbrev pub denies : Library
denies = answers (pos 50) []

abbrev pub online : World
online = record start { conn = record (start.conn) { ld = some 0; connected = true } }

abbrev pub online-IsReady : IsReady 0 online
online-IsReady = record { free = refl; holds = refl }

abbrev pub start-IsOffline : IsOffline start
start-IsOffline = record { free = refl; holds = refl }

abbrev pub jane_with : Option Bytes → User
jane_with dn = record {
  dn = dn;
  sam = some (codes "jane");
  cn = some (codes "jane");
  display_name = none;
  given_name = none;
  sn = none;
  email = none;
  description = none;
  enabled = true;
  uac = pos 512;
  pwd_last_set = pos 0;
  account_expires = pos 0;
  uid_number = negsuc 0;
  gid_number = negsuc 0;
  login_shell = none;
  unix_home_dir = none;
  gecos = none;
  ldap_attrs = [];
}

abbrev pub jane : User
jane = jane_with (some (codes "CN=jane,DC=x"))

abbrev pub staff : Group
staff = record {
  dn = some (codes "CN=staff,DC=x");
  sam = some (codes "staff");
  display_name = none;
  description = none;
  group_type = pos 2;
  members = none;
  gid_number = negsuc 0;
  rid = pos 0;
  member_uid = none;
  ldap_attrs = [];
}

abbrev pub lab : Profile
lab = record new_profile { name = some (codes "lab"); host = some (codes "dc1"); use_tls = true }

-- A range of three uids, with a published hint at the second.
abbrev pub hints : Hints
hints = record {
  uid_min = pos 9999;
  uid_max = pos 10001;
  gid_min = pos 10000;
  gid_max = pos 10001;
  next_uid_hint = pos 10000;
  next_gid_hint = negsuc 0;
  source = directory_source;
}
