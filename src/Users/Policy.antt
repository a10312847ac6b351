-- ===== src/Users/Policy.antt =====
-- What the password policy writes to userAccountControl.
use sambervise.Base.{refl, if◌then◌else◌, ◌≡◌, Bool, true, false, [], ◌∷◌, arith}
use sambervise.Base.Int.{ℤ, pos, negsuc, IsInt64}
use sambervise.Base.Bytes.{codes}
use sambervise.Base.Decimal.{print_ℤ, strtoll, strtoll-print_ℤ}
use sambervise.Base.Flags.{has_flag, SameBut, FlagLaws-65536}
use sambervise.Ldap.{Call, Handle, Library, replace}
use sambervise.Connection.{World}
use sambervise.Connection.Valid.{IsReady}
use sambervise.Backend.{put}
use sambervise.Users.{User, uac_accountdisable, uac_dont_expire_passwd}
use sambervise.Users.Account.{policy_uac, policy_mods, set_password_flags}
open FlagLaws-65536 use {set_has, clear_has, set_others, clear_others, set-IsInt64, clear-IsInt64}

pub has_flag-policy_uac :
    (never : Bool) (z : ℤ) → has_flag uac_dont_expire_passwd (policy_uac never z) ≡ never
unfolding policy_uac
has_flag-policy_uac true z = set_has z
has_flag-policy_uac false z = clear_has z

policy_uac-SameBut : (never : Bool) (z : ℤ) → SameBut uac_dont_expire_passwd (policy_uac never z) z
unfolding policy_uac
policy_uac-SameBut true z = set_others z
policy_uac-SameBut false z = clear_others z

policy_uac-IsInt64 : (never : Bool) (z : ℤ) → IsInt64 (policy_uac never z)
unfolding policy_uac
policy_uac-IsInt64 true z = set-IsInt64 z
policy_uac-IsInt64 false z = clear-IsInt64 z

-- The disable bit lies below the bit that the policy changes.
disable_bit_kept :
    (a b : ℤ)
    → SameBut uac_dont_expire_passwd a b
    → has_flag uac_accountdisable a ≡ has_flag uac_accountdisable b
unfolding has_flag
disable_bit_kept a b same = ground arith

abbrev pub pwd_last_set : Bool → ℤ
pwd_last_set force = if force then pos 0 else negsuc 0

pwd_text : (force : Bool) → codes (if force then "0" else "-1") ≡ print_ℤ (pwd_last_set force)
unfolding print_ℤ
pwd_text true = refl
pwd_text false = refl

-- On a connection that is up, the policy is one modification of three attributes. The number that
-- it writes to userAccountControl has the never-expires bit as asked for and every other bit, the
-- disable bit among them, of the number that was listed; it is not read again. pwdLastSet is 0 if
-- the password must be changed and -1 if not.
pub set_password_flags_writes :
    (lib : Library) (w : World) (h : Handle) (u : User) (force never : Bool) (expires : ℤ)
    → IsReady h w
    → (new : ℤ) × ((set_password_flags u force never expires lib w).1.calls
        ≡ Call.modify h u.dn (
            put replace "userAccountControl" (print_ℤ new)
            ∷ put replace "pwdLastSet" (print_ℤ (pwd_last_set force))
            ∷ put replace "accountExpires" (print_ℤ expires)
            ∷ [])
          ∷ w.calls)
      × (has_flag uac_dont_expire_passwd new ≡ never)
      × SameBut uac_dont_expire_passwd new u.uac
      × (has_flag uac_accountdisable new ≡ has_flag uac_accountdisable u.uac)
      × (strtoll (print_ℤ new) ≡ new)
unfolding set_password_flags policy_mods
set_password_flags_writes lib w h u force never expires ready = (
  policy_uac never u.uac,
  ground (arith, pwd_text force),
  has_flag-policy_uac never u.uac,
  policy_uac-SameBut never u.uac,
  disable_bit_kept _ u.uac (policy_uac-SameBut never u.uac),
  strtoll-print_ℤ _ (policy_uac-IsInt64 never u.uac),
)
