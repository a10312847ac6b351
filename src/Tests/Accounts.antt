-- ===== src/Tests/Accounts.antt =====
-- The theorems on accounts, on a connection that is up.
use sambervise.Base.{◌≡◌, ◌≢◌, arith, refl, none, some, [], ◌∷◌, true, false}
use sambervise.Base.Int.{ℤ, pos}
use sambervise.Base.Bytes.{Bytes, codes, bytes_eq}
use sambervise.Base.Decimal.{print_ℤ, strtoll}
use sambervise.Base.Flags.{has_flag, SameBut}
use sambervise.Ldap.{Call, replace}
use sambervise.Backend.{put}
use sambervise.Users.{User, uac_accountdisable, uac_dont_expire_passwd, read_user}
use sambervise.Users.Account.{current_uac, set_enabled, set_password_flags, toggled_uac}
use sambervise.Users.Edit.{Names, names_mods, update_attrs}
use sambervise.Users.Enabling.{uac_read, set_enabled_writes, read_user-toggled_uac}
use sambervise.Users.Policy.{pwd_last_set, set_password_flags_writes}
use sambervise.Users.Renaming.{named, update_attrs_renamed, update_attrs_comma}
use sambervise.Computers.{Computer}
use sambervise.Groups.{parse_rid}
use sambervise.Groups.Rid.{encode_sid, parse_rid-encode_sid}
use sambervise.Tests.{accepts, entry_of, online, online-IsReady, jane, jane_with}

set_enabled_writes_example :
    (new : ℤ) × ((set_enabled jane false accepts online).1.calls
      ≡ Call.modify 0 jane.dn (put replace "userAccountControl" (print_ℤ new) ∷ [])
        ∷ uac_read 0 jane
        ∷ [])
    × (has_flag uac_accountdisable new ≡ true)
    × SameBut uac_accountdisable new (current_uac [])
    × (strtoll (print_ℤ new) ≡ new)
set_enabled_writes_example = set_enabled_writes accepts online 0 jane false online-IsReady refl

read_user-toggled_uac_example :
    let e = entry_of (codes "userAccountControl") (print_ℤ (toggled_uac false (pos 512))) in
    ((read_user accepts e).enabled ≡ false)
    × ((read_user accepts e).uac ≡ toggled_uac false (pos 512))
unfolding bytes_eq
read_user-toggled_uac_example =
    read_user-toggled_uac accepts
      (entry_of (codes "userAccountControl") (print_ℤ (toggled_uac false (pos 512)))) false
      (pos 512) [] refl

set_password_flags_writes_example :
    (new : ℤ) × ((set_password_flags jane true false (pos 0) accepts online).1.calls
      ≡ Call.modify 0 jane.dn (
          put replace "userAccountControl" (print_ℤ new)
          ∷ put replace "pwdLastSet" (print_ℤ (pwd_last_set true))
          ∷ put replace "accountExpires" (print_ℤ (pos 0))
          ∷ [])
        ∷ [])
    × (has_flag uac_dont_expire_passwd new ≡ false)
    × SameBut uac_dont_expire_passwd new (pos 512)
    × (has_flag uac_accountdisable new ≡ has_flag uac_accountdisable (pos 512))
    × (strtoll (print_ℤ new) ≡ new)
set_password_flags_writes_example =
    set_password_flags_writes accepts online 0 jane true false (pos 0) online-IsReady

abbrev doe : Names
doe = record {
  cn = some (codes "doe");
  display_name = some (codes "Jane Doe");
  given_name = none;
  sn = some [];
  email = none;
}

update_attrs_renamed_example :
    (update_attrs jane doe accepts online).1.calls
    ≡ Call.modify 0 (some (named (codes "doe") (codes "DC=x"))) (names_mods doe)
      ∷ Call.rename 0 jane.dn (codes "CN=doe")
      ∷ []
unfolding names_mods
update_attrs_renamed_example =
    update_attrs_renamed accepts online 0 jane doe online-IsReady (codes "CN=jane") (codes "DC=x")
      refl (ground arith) refl refl refl

-- The DN of "Smith, Jane", whose comma is escaped.
abbrev smith : User
smith = jane_with (some (codes "CN=Smith\\, Jane,DC=x"))

update_attrs_comma_example :
    (used : Bytes) × ((update_attrs smith doe accepts online).1.calls
      ≡ Call.modify 0 (some used) (names_mods doe) ∷ Call.rename 0 smith.dn (codes "CN=doe") ∷ [])
    × (used ≡ codes "CN=doe, Jane,DC=x")
    × (used ≢ named (codes "doe") (codes "DC=x"))
unfolding names_mods
update_attrs_comma_example =
    update_attrs_comma accepts online 0 smith doe online-IsReady (codes "CN=Smith\\")
      (codes " Jane") (codes "DC=x") refl (ground arith) refl refl refl

-- S-1-5-21-1-2-3-1104.
parse_rid-encode_sid_example :
    parse_rid (encode_sid (0 ∷ 0 ∷ 0 ∷ 0 ∷ 0 ∷ 5 ∷ []) (21 ∷ 1 ∷ 2 ∷ 3 ∷ []) 1104) ≡ some 1104
parse_rid-encode_sid_example =
    parse_rid-encode_sid (0 ∷ 0 ∷ 0 ∷ 0 ∷ 0 ∷ 5 ∷ []) (21 ∷ 1 ∷ 2 ∷ 3 ∷ []) 1104 refl (omega arith)

abbrev desk : Computer
desk = record {
  dn = some (codes "CN=desk,DC=x");
  sam = some (codes "desk$");
  cn = some (codes "desk");
  description = none;
  dns_hostname = none;
  os = none;
  os_version = none;
  os_service_pack = none;
  enabled = true;
  uac = pos 4096;
  pwd_last_set = pos 0;
  spn = none;
  ldap_attrs = [];
}
