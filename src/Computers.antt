-- ===== src/Computers.antt =====
-- src/backend/sbv-computers-backend.c and src/model/sbv-computer.{h,c}: computer accounts.
pub mod Change
pub mod Keeps
pub mod Enabling
use sambervise.Base.{ℕ, Bool, true, not, Option, none, some, List, [], ◌∷◌, map}
use sambervise.Base.Int.{ℤ, pos}
use sambervise.Base.Bytes.{Bytes, codes}
use sambervise.Base.Flags.{has_flag}
use sambervise.Ldap.{Search, subtree, Entry, Library}
use sambervise.Connection.{Action, ◌>>=◌, ◌>>◌, pure, ask, get_connection, acquire, release}
use sambervise.Backend.{fetch, text_value, text_values, number_value, number_or, no_limit}
use sambervise.Backend.Attrs.{Table, collect_attrs}

pub record Computer : Type 0 where
  pub dn : Option Bytes
  pub sam : Option Bytes
  pub cn : Option Bytes
  pub description : Option Bytes
  pub dns_hostname : Option Bytes
  pub os : Option Bytes
  pub os_version : Option Bytes
  pub os_service_pack : Option Bytes
  pub enabled : Bool
  pub uac : ℤ
  pub pwd_last_set : ℤ
  pub spn : Option (List Bytes)
  pub ldap_attrs : Table

-- `UAC_ACCOUNTDISABLE` and `UAC_WORKSTATION_TRUST_ACCT`.
abbrev pub uac_accountdisable : ℕ
uac_accountdisable = 0x0002

abbrev pub uac_workstation_trust_acct : ℕ
uac_workstation_trust_acct = 0x1000

abbrev uac_enabled : Option ℤ → Bool
uac_enabled none = true
uac_enabled (some uac) = not (has_flag uac_accountdisable uac)

-- The body of the loop of `list_thread`, on a computer that `sbv_computer_init` has set up.
unfoldable pub read_computer : Library → Entry → Computer
read_computer lib e = record {
  dn = text_value (codes "distinguishedName") e;
  sam = text_value (codes "sAMAccountName") e;
  cn = text_value (codes "cn") e;
  description = text_value (codes "description") e;
  dns_hostname = text_value (codes "dNSHostName") e;
  os = text_value (codes "operatingSystem") e;
  os_version = text_value (codes "operatingSystemVersion") e;
  os_service_pack = text_value (codes "operatingSystemServicePack") e;
  enabled = uac_enabled (number_value (codes "userAccountControl") e);
  uac = number_or (pos 0) (number_value (codes "userAccountControl") e);
  pwd_last_set = number_or (pos 0) (number_value (codes "pwdLastSet") e);
  spn = text_values (codes "servicePrincipalName") e;
  ldap_attrs = collect_attrs lib e;
}

abbrev pub computer_search : Option Bytes → Search
computer_search base_dn = record {
  base_dn = base_dn;
  scope = subtree;
  filter = codes "(objectClass=computer)";
  attrs = map codes (
      "distinguishedName" ∷ "sAMAccountName" ∷ "cn" ∷ "description" ∷ "dNSHostName"
      ∷ "operatingSystem" ∷ "operatingSystemVersion" ∷ "operatingSystemServicePack"
      ∷ "userAccountControl" ∷ "pwdLastSet" ∷ "servicePrincipalName" ∷ []);
  seconds = 30;
  limit = no_limit;
}

-- `list_thread`.
unfoldable pub list_computers : Action (List Computer)
unfolding fetch
list_computers = do
  h ← acquire
  c ← get_connection
  es ← fetch h (computer_search c.base_dn) "Search failed: "
  computers ← ask (λ lib. map (read_computer lib) es)
  release
  pure computers
