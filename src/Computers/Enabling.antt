-- ===== src/Computers/Enabling.antt =====
-- What enabling and disabling a computer account writes.
use sambervise.Base.{◌≡◌, Bool, true, not, [], ◌∷◌, arith}
use sambervise.Base.Int.{ℤ}
use sambervise.Base.Bytes.{codes}
use sambervise.Base.Decimal.{print_ℤ, strtoll-print_ℤ, strtoll}
use sambervise.Base.Flags.{has_flag, SameBut}
use sambervise.Ldap.{Call, Handle, replace, Library, succeeded}
use sambervise.Connection.{World}
use sambervise.Connection.Valid.{IsReady}
use sambervise.Backend.{put, read_entry}
use sambervise.Users.Account.{toggled_uac}
use sambervise.Users.Enabling.{has_flag-toggled_uac, toggled_uac-SameBut, toggled_uac-IsInt64}
use sambervise.Computers.{Computer, uac_accountdisable}
use sambervise.Computers.Change.{computer_uac, set_computer_enabled}

-- The first call: the read of the entry's number.
abbrev pub computer_read : Handle → Computer → Call
computer_read h k = Call.search h (read_entry k.dn (codes "userAccountControl" ∷ []) 10)

-- On a connection that is up, if the read of the computer's number succeeds, exactly one
-- modification follows. It replaces userAccountControl by the decimal text of a number whose
-- disable bit says what was asked for and whose other bits are those that were read, or none where
-- the entry has no number. The text is read back as that number.
set_computer_enabled_writes :
    (lib : Library) (w : World) (h : Handle) (k : Computer) (enabled : Bool)
    → IsReady h w
    → succeeded (lib.reply w.calls (computer_read h k)) ≡ true
    → let old = computer_uac (lib.reply w.calls (computer_read h k)).entries in
      (new : ℤ) × ((set_computer_enabled k enabled lib w).1.calls
        ≡ Call.modify h k.dn (put replace "userAccountControl" (print_ℤ new) ∷ [])
          ∷ computer_read h k
          ∷ w.calls)
      × (has_flag uac_accountdisable new ≡ not enabled)
      × SameBut uac_accountdisable new old
      × (strtoll (print_ℤ new) ≡ new)
unfolding set_computer_enabled
set_computer_enabled_writes lib w h k enabled ready e =
    let old = computer_uac (lib.reply w.calls (computer_read h k)).entries in
    (
      toggled_uac enabled old,
      ground arith,
      has_flag-toggled_uac enabled old,
      toggled_uac-SameBut enabled old,
      strtoll-print_ℤ _ (toggled_uac-IsInt64 enabled old),
    )
