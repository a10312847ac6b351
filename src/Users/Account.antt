-- ===== src/Users/Account.antt =====
-- src/backend/sbv-users-backend.c: enabling and disabling, the password, and its policy.
use sambervise.Base.{Bool, Option, none, some, List, [], ◌∷◌, ◌++◌, if◌then◌else◌}
use sambervise.Base.Int.{ℤ, pos}
use sambervise.Base.Bytes.{Bytes, codes}
use sambervise.Base.Decimal.{print_ℤ}
use sambervise.Base.Flags.{set_flag, clear_flag}
use sambervise.Ldap.{Call, Mod, replace, Entry, convert}
use sambervise.Connection.{
  Action, ◌>>=◌, ◌>>◌, pure, raise, ask, issue, acquire, release, print_text,
}
use sambervise.Backend.{fetch, settle, number_value, number_or, put, read_entry}
use sambervise.Users.{User, uac_accountdisable, uac_normal_account, uac_dont_expire_passwd}

-- The number that is changed: that of the entry, or a normal account's where there is none.
unfoldable pub current_uac : List Entry → ℤ
unfolding number_value
current_uac [] = pos uac_normal_account
current_uac (e ∷ _) =
    number_or (pos uac_normal_account) (number_value (codes "userAccountControl") e)

unfoldable pub toggled_uac : Bool → ℤ → ℤ
toggled_uac enabled uac =
    if enabled then clear_flag uac_accountdisable uac else set_flag uac_accountdisable uac

-- `set_enabled_thread`.
unfoldable pub set_enabled_thread : Option Bytes → Bool → Action (Unit {0})
unfolding fetch settle
set_enabled_thread dn enabled = do
  h ← acquire
  es ← fetch h (read_entry dn (codes "userAccountControl" ∷ []) 10) "Read failed: "
  let uac = toggled_uac enabled (current_uac es)
  r ← issue (Call.modify h dn (put replace "userAccountControl" (print_ℤ uac) ∷ []))
  release
  settle "Modify failed: " r.rc

-- `sbv_users_set_enabled_async`.
unfoldable pub set_enabled : User → Bool → Action (Unit {0})
unfolding set_enabled_thread
set_enabled u enabled = set_enabled_thread u.dn enabled

-- The password in double quotes, as UTF-16.
abbrev pub quoted : Option Bytes → Bytes
quoted password = codes "\"" ++ (print_text password ++ codes "\"")

abbrev pub converted : Option Bytes → Action Bytes
converted none = release >> raise convert
converted (some s) = pure s

-- `reset_pw_thread`, on a user's DN as `sbv_users_reset_password_async` captures it.
unfoldable pub reset_password : User → Option Bytes → Action (Unit {0})
unfolding settle
reset_password u password = do
  h ← acquire
  utf16 ← (ask (λ lib. lib.to_utf16le (quoted password)) >>= converted)
  r ← issue (Call.modify h u.dn (put replace "unicodePwd" utf16 ∷ []))
  release
  settle "Password reset failed: " r.rc

unfoldable pub policy_uac : Bool → ℤ → ℤ
policy_uac never_expires uac =
    if never_expires
    then set_flag uac_dont_expire_passwd uac
    else clear_flag uac_dont_expire_passwd uac

-- The three modifications of `set_pw_flags_thread`.
unfoldable pub policy_mods : ℤ → Bool → Bool → ℤ → List Mod
policy_mods current_uac force_change never_expires account_expires =
    put replace "userAccountControl" (print_ℤ (policy_uac never_expires current_uac))
    ∷ put replace "pwdLastSet" (codes (if force_change then "0" else "-1"))
    ∷ put replace "accountExpires" (print_ℤ account_expires)
    ∷ []

-- `sbv_users_set_password_flags_async` and `set_pw_flags_thread`: the number that is changed is the
-- one that the list held, and not read again.
unfoldable pub set_password_flags : User → Bool → Bool → ℤ → Action (Unit {0})
unfolding settle
set_password_flags u force_change never_expires account_expires = do
  h ← acquire
  r ← issue (Call.modify h u.dn (policy_mods u.uac force_change never_expires account_expires))
  release
  settle "Policy update failed: " r.rc
