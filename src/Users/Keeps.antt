-- ===== src/Users/Keeps.antt =====
-- Every operation on users ends, and leaves the shared connection as it should be.
use sambervise.Base.{Bool, Option, arith}
use sambervise.Base.Int.{ℤ}
use sambervise.Base.Bytes.{Bytes}
use sambervise.Connection.Valid.{Keeps}
use sambervise.Users.{User, list_users}
use sambervise.Users.Account.{set_enabled, reset_password, set_password_flags}
use sambervise.Users.Create.{NewUser, create_user, delete_user}

pub list_users-Keeps : Keeps list_users
unfolding list_users
list_users-Keeps lib w v = ground arith

pub set_enabled-Keeps : (u : User) (enabled : Bool) → Keeps (set_enabled u enabled)
unfolding set_enabled
set_enabled-Keeps u enabled lib w v = ground arith

pub reset_password-Keeps : (u : User) (password : Option Bytes) → Keeps (reset_password u password)
unfolding reset_password
reset_password-Keeps u password lib w v = ground arith

pub set_password_flags-Keeps :
    (u : User) (force never : Bool) (expires : ℤ) → Keeps (set_password_flags u force never expires)
unfolding set_password_flags
set_password_flags-Keeps u force never expires lib w v = ground arith

pub create_user-Keeps : (n : NewUser) → Keeps (create_user n)
unfolding create_user
create_user-Keeps n lib w v = ground arith

pub delete_user-Keeps : (u : User) → Keeps (delete_user u)
unfolding delete_user
delete_user-Keeps u lib w v = ground arith
