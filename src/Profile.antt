-- ===== src/Profile.antt =====
-- src/model/sbv-profile.{h,c}: a connection profile. The getters and setters are the fields.
use sambervise.Base.{Bool, false, Option, none}
use sambervise.Base.Int.{ℤ, pos, negsuc}
use sambervise.Base.Bytes.{Bytes}

pub data AuthType : Type 0 where
  kerberos simple : AuthType

-- A NULL text is `none`; an id of -1 is unset.
pub record Profile : Type 0 where
  pub name : Option Bytes
  pub host : Option Bytes
  pub port : ℤ
  pub base_dn : Option Bytes
  pub auth_type : AuthType
  pub bind_dn : Option Bytes
  pub use_tls : Bool
  pub use_ldaps : Bool
  pub skip_cert : Bool
  pub uid_min : ℤ
  pub uid_max : ℤ
  pub gid_min : ℤ
  pub gid_max : ℤ

-- `sbv_profile_new`: what `g_object_new` zeroes, and what `sbv_profile_init` sets.
abbrev pub new_profile : Profile
new_profile = record {
  name = none;
  host = none;
  port = pos 389;
  base_dn = none;
  auth_type = kerberos;
  bind_dn = none;
  use_tls = false;
  use_ldaps = false;
  skip_cert = false;
  uid_min = negsuc 0;
  uid_max = negsuc 0;
  gid_min = negsuc 0;
  gid_max = negsuc 0;
}
