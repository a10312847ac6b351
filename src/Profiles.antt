-- ===== src/Profiles.antt =====
-- src/backend/sbv-profiles.c: the stored connection profiles, and the key file they are kept in.
pub mod Ini
pub mod Store
pub mod Keys
pub mod Reading
pub mod RoundTrip
use sambervise.Base.{
  Bool, true, false, not, Option, none, some, List, [], ◌∷◌, ◌++◌, map, if◌then◌else◌,
}
use sambervise.Base.Int.{ℤ, pos, negsuc, leb_ℤ}
use sambervise.Base.Bytes.{Bytes, codes, bytes_eq, is_filled, or_empty}
use sambervise.Profile.{Profile, AuthType, kerberos, simple}
use sambervise.Profiles.Ini.{KeyFile, Value, text, integer, boolean, int64, Setting}

-- `g_str_equal (sbv_profile_get_name (p) ?: "", name ?: "")`.
abbrev pub has_name : Option Bytes → Profile → Bool
has_name name p = bytes_eq (or_empty p.name) (or_empty name)

-- The loop of `sbv_profiles_upsert`: the first profile of that name is replaced where it stands; if
-- there is none the profile is appended.
unfoldable pub upserted : Profile → List Profile → List Profile
upserted p [] = p ∷ []
upserted p (q ∷ ps) = let rest = upserted p ps in if has_name p.name q then p ∷ ps else q ∷ rest

-- The loop of `sbv_profiles_remove`; `none` where no profile has the name.
unfoldable pub removed : Option Bytes → List Profile → Option (List Profile)
removed name [] = none
removed name (q ∷ ps) =
    let rest = removed name ps in
    if has_name name q then some ps else elim rest [ none ↦ none | some qs ↦ some (q ∷ qs) ]

-- A range key is written only if it is set.
abbrev range_setting : Bytes → ℤ → List Setting
range_setting key z = if leb_ℤ (pos 0) z then (key, int64 z) ∷ [] else []

abbrev pub auth_text : AuthType → Bytes
auth_text simple = codes "simple"
auth_text kerberos = codes "kerberos"

-- The settings that `sbv_profiles_save` makes of one profile, in their order.
unfoldable pub settings : Profile → List Setting
settings p =
    (codes "host", text (or_empty p.host))
    ∷ (codes "port", integer p.port)
    ∷ (codes "base-dn", text (or_empty p.base_dn))
    ∷ (codes "auth-type", text (auth_text p.auth_type))
    ∷ (codes "bind-dn", text (or_empty p.bind_dn))
    ∷ (codes "use-tls", boolean p.use_tls)
    ∷ (codes "use-ldaps", boolean p.use_ldaps)
    ∷ (codes "skip-cert", boolean p.skip_cert)
    ∷ (range_setting (codes "uid-min") p.uid_min
        ++ (range_setting (codes "uid-max") p.uid_max
            ++ (range_setting (codes "gid-min") p.gid_min
                ++ range_setting (codes "gid-max") p.gid_max)))

abbrev pub auth_of : Option Bytes → AuthType
auth_of none = kerberos
auth_of (some s) = if bytes_eq s (codes "simple") then simple else kerberos

abbrev pub int_or : ℤ → Option ℤ → ℤ
int_or z none = z
int_or _ (some z) = z

module _ {K : Type 0} (kf : KeyFile K) where
  unfoldable pub set_all : Bytes → List Setting → K → K
  set_all group [] k = k
  set_all group ((key, v) ∷ rest) k = set_all group rest (kf.set group key v k)

  -- One round of the loop of `sbv_profiles_save`; a profile with no name is passed over.
  unfoldable pub save_profile : Profile → K → K
  unfolding set_all
  save_profile p k = if is_filled p.name then set_all (or_empty p.name) (settings p) k else k

  unfoldable pub save_all : List Profile → K → K
  save_all [] k = k
  save_all (p ∷ ps) k = save_all ps (save_profile p k)

  -- The key file that `sbv_profiles_save` writes.
  abbrev pub saved : List Profile → K
  saved ps = save_all ps kf.empty

  -- One round of the loop of `sbv_profiles_load`, on a profile of `sbv_profile_new`.
  unfoldable pub load_profile : K → Bytes → Profile
  load_profile k name = record {
    name = some name;
    host = kf.get_string name (codes "host") k;
    port = int_or (pos 389) (kf.get_integer name (codes "port") k);
    base_dn = kf.get_string name (codes "base-dn") k;
    auth_type = auth_of (kf.get_string name (codes "auth-type") k);
    bind_dn = kf.get_string name (codes "bind-dn") k;
    use_tls = kf.get_boolean name (codes "use-tls") k;
    use_ldaps = kf.get_boolean name (codes "use-ldaps") k;
    skip_cert = kf.get_boolean name (codes "skip-cert") k;
    uid_min = int_or (negsuc 0) (kf.get_int64 name (codes "uid-min") k);
    uid_max = int_or (negsuc 0) (kf.get_int64 name (codes "uid-max") k);
    gid_min = int_or (negsuc 0) (kf.get_int64 name (codes "gid-min") k);
    gid_max = int_or (negsuc 0) (kf.get_int64 name (codes "gid-max") k);
  }

  -- `sbv_profiles_load`; `none` is a file that cannot be loaded.
  unfoldable pub load : Option K → List Profile
  load none = []
  load (some k) = map (load_profile k) (kf.groups k)

  -- `sbv_profiles_upsert` and `sbv_profiles_remove`: the new store, and the key file that
  -- `g_key_file_save_to_file` is asked to write, if any.
  unfoldable pub upsert : Profile → List Profile → List Profile × Option K
  unfolding upserted
  upsert p store = let store' = upserted p store in (store', some (saved store'))

  unfoldable pub remove : Option Bytes → List Profile → List Profile × Option K
  unfolding removed
  remove name store = elim (removed name store) [
    | none ↦ (store, none)
    | some store' ↦ (store', some (saved store'))
  ]
