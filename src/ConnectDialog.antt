-- ===== src/ConnectDialog.antt =====
-- src/ui/sbv-connect-dialog.c: the dialog in which a profile is entered, edited and connected with.
-- The widgets are kept as what they hold.
pub mod Local
pub mod Probing
pub mod Editing
use sambervise.Base.{
  ℕ, zero, suc, ◌==◌, ltb, Bool, true, false, not, ◌&&◌, ◌||◌, Option, none, some, List, [], ◌∷◌,
  ◌++◌, if◌then◌else◌,
}
use sambervise.Base.Int.{ℤ, pos, negsuc, pos_part, ltb_ℤ}
use sambervise.Base.Bytes.{Bytes, codes, bytes_eq, or_empty}
use sambervise.Profile.{Profile, AuthType, kerberos, simple, new_profile}
use sambervise.Profiles.{upsert, remove}
use sambervise.Profiles.Ini.{KeyFile}
use sambervise.Idmap.{Hints}
use sambervise.Dns.{DcTarget}
use sambervise.Editor.{is_nonempty}
use sambervise.Editor.Text.{split_on}

-- What the entries, boxes and spinners of `DialogData` hold.
pub record Form : Type 0 where
  pub name : Bytes
  pub host : Bytes
  pub port : ℕ
  pub base_dn : Bytes
  pub domain : Bytes
  pub is_simple : Bool
  pub bind_dn : Bytes
  pub password : Bytes
  pub use_tls : Bool
  pub use_ldaps : Bool
  pub skip_cert : Bool
  pub uid_min : ℕ
  pub uid_max : ℕ
  pub gid_min : ℕ
  pub gid_max : ℕ

abbrev base_dn_of : List Bytes → Bytes
base_dn_of [] = []
base_dn_of (d ∷ []) = codes "DC=" ++ d
base_dn_of (d ∷ e ∷ ds) = codes "DC=" ++ (d ++ (codes "," ++ base_dn_of (e ∷ ds)))

-- `domain_to_base_dn`.
unfoldable pub domain_to_base_dn : Bytes → Option Bytes
unfolding split_on
domain_to_base_dn [] = none
domain_to_base_dn (c ∷ s) = some (base_dn_of (split_on b'.' (c ∷ s)))

-- `on_ldaps_toggled`: the usual port follows the box.
unfoldable pub ldaps_toggled : Bool → Form → Form
ldaps_toggled true f = record f { use_ldaps = true; port = if f.port == 389 then 636 else f.port }
ldaps_toggled false f = record f { use_ldaps = false; port = if f.port == 636 then 389 else f.port }

-- `on_discover_clicked`: the base DN is filled in where there is none. The result is the form with
-- the domain to look for, or the text of the error.
unfoldable pub discover_clicked : Form → Form × Option Bytes
discover_clicked f = (
  if is_nonempty f.domain && not (is_nonempty f.base_dn)
      then record f { base_dn = or_empty (domain_to_base_dn f.domain) }
      else f,
  if is_nonempty f.domain then some f.domain else none,
)

-- `on_dc_row_activated`.
unfoldable pub dc_row_activated : DcTarget → Form → Form
dc_row_activated t f = record f { host = t.hostname; port = if t.port == 0 then f.port else t.port }

-- `on_discover_done`, with the controllers: a single one is taken at once.
unfoldable pub discover_done : List DcTarget → Form → Form
unfolding dc_row_activated
discover_done (t ∷ []) f = dc_row_activated t f
discover_done _ f = f

abbrev pub unset_or : ℕ → ℤ
unset_or n = if n == 0 then negsuc 0 else pos n

abbrev pub name_or_null : Bytes → Option Bytes
name_or_null [] = none
name_or_null (c ∷ s) = some (c ∷ s)

-- `build_profile`.
unfoldable pub build_profile : Form → Profile
build_profile f = record {
  name = name_or_null f.name;
  host = some f.host;
  port = pos f.port;
  base_dn = some f.base_dn;
  auth_type = if f.is_simple then simple else kerberos;
  bind_dn = if f.is_simple then some f.bind_dn else none;
  use_tls = f.use_tls;
  use_ldaps = f.use_ldaps;
  skip_cert = f.skip_cert;
  uid_min = unset_or f.uid_min;
  uid_max = unset_or f.uid_max;
  gid_min = unset_or f.gid_min;
  gid_max = unset_or f.gid_max;
}

abbrev pub is_simple_auth : AuthType → Bool
is_simple_auth kerberos = false
is_simple_auth simple = true

-- `gtk_spin_button_set_value`: a value outside of the bounds of the spinner, which
-- data/ui/connect-dialog.ui sets, becomes the nearest bound.
abbrev pub port_value : ℤ → ℕ
port_value z =
    if ltb (pos_part z) 1 then 1 else if ltb 65535 (pos_part z) then 65535 else pos_part z

abbrev pub id_value : ℤ → ℕ
id_value z = if ltb 2147483647 (pos_part z) then 2147483647 else pos_part z

-- `build_dialog`, with a profile to edit.
unfoldable pub populate : Profile → Form
populate p = record {
  name = or_empty p.name;
  host = or_empty p.host;
  port = port_value p.port;
  base_dn = or_empty p.base_dn;
  domain = [];
  is_simple = is_simple_auth p.auth_type;
  bind_dn = if is_simple_auth p.auth_type then or_empty p.bind_dn else [];
  password = [];
  use_tls = p.use_tls;
  use_ldaps = p.use_ldaps;
  skip_cert = p.skip_cert;
  uid_min = id_value p.uid_min;
  uid_max = id_value p.uid_max;
  gid_min = id_value p.gid_min;
  gid_max = id_value p.gid_max;
}

abbrev is_reversed : ℕ → ℕ → Bool
is_reversed low high = ltb 0 low && (ltb 0 high && ltb high low)

-- `validate_inputs`: the text of the error, or `none` where the input will do.
unfoldable pub validate_inputs : Bool → Form → Option Bytes
validate_inputs require_password f =
    if not (is_nonempty f.host) || not (is_nonempty f.base_dn)
    then some (codes "Host and Base DN are required.")
    else if f.is_simple && (require_password && not (is_nonempty f.bind_dn))
    then some (codes "Bind DN / UPN is required for simple auth.")
    else if is_reversed f.uid_min f.uid_max || is_reversed f.gid_min f.gid_max
    then some (codes "POSIX range max must be greater than or equal to min.")
    else none

-- The arguments of the connect that `on_connect_clicked` starts, or the text of the error.
pub data Connecting : Type 0 where
  refused : Bytes → Connecting
  started : Profile → Option Bytes → Connecting

unfoldable pub connect_clicked : Form → Connecting
connect_clicked f = elim (validate_inputs true f) [
  | some message ↦ refused message
  | none ↦ started (build_profile f) (if f.is_simple then some f.password else none)
]

abbrev fill_range : ℤ → ℕ → ℕ
fill_range z n = if ltb_ℤ (pos 0) z && (n == 0) then id_value z else n

abbrev fill_ranges : Hints → Form → Form
fill_ranges h f = record f {
  uid_min = fill_range h.uid_min f.uid_min;
  uid_max = fill_range h.uid_max f.uid_max;
  gid_min = fill_range h.gid_min f.gid_min;
  gid_max = fill_range h.gid_max f.gid_max;
}

-- `on_probe_done`: ranges that were not entered are filled in from the hints, if there are any.
unfoldable pub probe_done : Option Hints → Form → Form
probe_done none f = f
probe_done (some h) f = fill_ranges h f

module _ {K : Type 0} (kf : KeyFile K) where
  -- The old entry is dropped where the name was changed.
  abbrev pub drop_old : Option Bytes → Bytes → List Profile → List Profile
  drop_old none new ps = ps
  drop_old (some old) new ps = if bytes_eq old new then ps else (remove kf (some old) ps).0

  -- `on_save_clicked`, with the error of the write, if there is one: the error that is shown, or
  -- `none` where the dialog closes, and the profiles.
  unfoldable pub save_clicked :
      Option Bytes → Option Bytes → Form → List Profile → Option Bytes × List Profile
  save_clicked original_name write_error f ps = elim (validate_inputs false f) [
    | some message ↦ (some message, ps)
    | none ↦
        if is_nonempty f.name
        then (write_error, (upsert kf (build_profile f) (drop_old original_name f.name ps)).0)
        else (some (codes "A profile name is required when saving."), ps)
  ]
