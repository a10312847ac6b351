-- ===== src/Users/Enabling.antt =====
-- What enabling and disabling an account writes, and how it is read back.
use sambervise.Base.{◌≡◌, Bool, true, false, not, some, List, [], ◌∷◌, arith}
use sambervise.Base.Int.{ℤ, IsInt64}
use sambervise.Base.Bytes.{Bytes, codes}
use sambervise.Base.Decimal.{print_ℤ, strtoll-print_ℤ, strtoll}
use sambervise.Base.Flags.{has_flag, SameBut, FlagLaws-2}
use sambervise.Ldap.{Call, Handle, replace, Entry, Library, succeeded, failed, ldap}
use sambervise.Connection.{World, err}
use sambervise.Connection.Valid.{IsReady}
use sambervise.Backend.{put, read_entry, number_value-eq}
use sambervise.Users.{User, uac_accountdisable, read_user}
use sambervise.Users.Account.{toggled_uac, current_uac, set_enabled}
open FlagLaws-2 use {set_has, clear_has, set_others, clear_others, set-IsInt64, clear-IsInt64}

pub has_flag-toggled_uac :
    (enabled : Bool) (z : ℤ) → has_flag uac_accountdisable (toggled_uac enabled z) ≡ not enabled
unfolding toggled_uac
has_flag-toggled_uac true z = clear_has z
has_flag-toggled_uac false z = set_has z

pub toggled_uac-SameBut :
    (enabled : Bool) (z : ℤ) → SameBut uac_accountdisable (toggled_uac enabled z) z
unfolding toggled_uac
toggled_uac-SameBut true z = clear_others z
toggled_uac-SameBut false z = set_others z

pub toggled_uac-IsInt64 : (enabled : Bool) (z : ℤ) → IsInt64 (toggled_uac enabled z)
unfolding toggled_uac
toggled_uac-IsInt64 true z = clear-IsInt64 z
toggled_uac-IsInt64 false z = set-IsInt64 z

-- The first call of `set_enabled`: the read of the entry's number.
abbrev pub uac_read : Handle → User → Call
uac_read h u = Call.search h (read_entry u.dn (codes "userAccountControl" ∷ []) 10)

module _ (lib : Library) (w : World) (h : Handle) (u : User) (enabled : Bool)
    (ready : IsReady h w) where
  -- On a connection that is up, if the read of the account's number succeeds, exactly one
  -- modification follows. It replaces userAccountControl by the decimal text of a number whose
  -- disable bit says what was asked for and whose other bits are those that were read,
  -- or those of a normal account where none was. The text is read back as that number.
  pub set_enabled_writes :
      succeeded (lib.reply w.calls (uac_read h u)) ≡ true
      → let old = current_uac (lib.reply w.calls (uac_read h u)).entries in
        (new : ℤ) × ((set_enabled u enabled lib w).1.calls
          ≡ Call.modify h u.dn (put replace "userAccountControl" (print_ℤ new) ∷ [])
            ∷ uac_read h u
            ∷ w.calls)
        × (has_flag uac_accountdisable new ≡ not enabled)
        × SameBut uac_accountdisable new old
        × (strtoll (print_ℤ new) ≡ new)
  unfolding set_enabled
  set_enabled_writes e =
      let old = current_uac (lib.reply w.calls (uac_read h u)).entries in
      (
        toggled_uac enabled old,
        ground arith,
        has_flag-toggled_uac enabled old,
        toggled_uac-SameBut enabled old,
        strtoll-print_ℤ _ (toggled_uac-IsInt64 enabled old),
      )

  -- On a connection that is up, if the read of the account's number fails, nothing is written and the task gets the error of the read.
  pub set_enabled_unread :
      succeeded (lib.reply w.calls (uac_read h u)) ≡ false
      → ((set_enabled u enabled lib w).0
          ≡ err (failed ldap "Read failed: " (lib.reply w.calls (uac_read h u)).rc))
        × ((set_enabled u enabled lib w).1.calls ≡ uac_read h u ∷ w.calls)
  unfolding set_enabled
  set_enabled_unread e = ground arith

-- An account whose number is the one that `set_enabled` writes is listed as enabled or disabled
-- as it was asked for, and with that number.
pub read_user-toggled_uac :
    (lib : Library) (e : Entry) (enabled : Bool) (old : ℤ) (more : List Bytes)
    → e.values (codes "userAccountControl") ≡ some (print_ℤ (toggled_uac enabled old) ∷ more)
    → ((read_user lib e).enabled ≡ enabled) × ((read_user lib e).uac ≡ toggled_uac enabled old)
unfolding read_user
read_user-toggled_uac lib e enabled old more h =
    let written = print_ℤ (toggled_uac enabled old) in
    rw (number_value-eq _ e written more h) (
      rw (strtoll-print_ℤ _ (toggled_uac-IsInt64 enabled old))
        (ground (arith, has_flag-toggled_uac enabled old)))
