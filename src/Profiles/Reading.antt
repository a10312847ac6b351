-- ===== src/Profiles/Reading.antt =====
-- src/backend/sbv-profiles.c: what the round of `sbv_profiles_load` reads of the settings that the
-- round of `sbv_profiles_save` made of one profile.
use sambervise.Base.{
  ◌≡◌, ◌≢◌, refl, ◌∙◌, true, false, none, some, List, [], ◌∷◌, arith, if◌then◌else◌, inl, inr,
  Bool-cases,
}
use sambervise.Base.Int.{ℤ, pos, negsuc, leb_ℤ}
use sambervise.Base.Bytes.{Bytes, codes, bytes_eq, or_empty, is_filled}
use sambervise.Profile.{Profile, AuthType, kerberos, simple}
use sambervise.Profiles.{
  settings, auth_text, set_all, save_profile, save_all, auth_of, int_or, load_profile,
}
use sambervise.Profiles.Ini.{KeyFile, KeyFileLaws, Value, text, integer, boolean, int64, among}
use sambervise.Profiles.Keys.{
  last_of, AllFit, Reads, Gives, set_all-other, set_all-unset, set_all-Gives,
}
use sambervise.Profiles.Store.{names}

abbrev normal_id : ℤ → ℤ
normal_id z = if leb_ℤ (pos 0) z then z else negsuc 0

-- What a profile comes back as: a NULL text is "", and a negative id is -1.
abbrev pub normal : Profile → Profile
normal p = record {
  name = some (or_empty p.name);
  host = some (or_empty p.host);
  port = p.port;
  base_dn = some (or_empty p.base_dn);
  auth_type = p.auth_type;
  bind_dn = some (or_empty p.bind_dn);
  use_tls = p.use_tls;
  use_ldaps = p.use_ldaps;
  skip_cert = p.skip_cert;
  uid_min = normal_id p.uid_min;
  uid_max = normal_id p.uid_max;
  gid_min = normal_id p.gid_min;
  gid_max = normal_id p.gid_max;
}

-- The store's profiles have names, and GLib takes what is written of them.
abbrev pub AreStorable : {K : Type 0} → KeyFile K → List Profile → Type 0
AreStorable kf [] = Unit
AreStorable kf (p ∷ ps) =
    (is_filled p.name ≡ true) × AllFit kf (or_empty p.name) (settings p) × AreStorable kf ps

-- What the last setting of each key is.
last_of-settings :
    (p : Profile)
    → (last_of (codes "host") (settings p) ≡ some (text (or_empty p.host)))
      × (last_of (codes "port") (settings p) ≡ some (integer p.port))
      × (last_of (codes "base-dn") (settings p) ≡ some (text (or_empty p.base_dn)))
      × (last_of (codes "auth-type") (settings p) ≡ some (text (auth_text p.auth_type)))
      × (last_of (codes "bind-dn") (settings p) ≡ some (text (or_empty p.bind_dn)))
      × (last_of (codes "use-tls") (settings p) ≡ some (boolean p.use_tls))
      × (last_of (codes "use-ldaps") (settings p) ≡ some (boolean p.use_ldaps))
      × (last_of (codes "skip-cert") (settings p) ≡ some (boolean p.skip_cert))
unfolding settings bytes_eq
last_of-settings p = ground arith

last_of-ranges :
    (p : Profile)
    → (last_of (codes "uid-min") (settings p)
        ≡ (if leb_ℤ (pos 0) p.uid_min then some (int64 p.uid_min) else none))
      × (last_of (codes "uid-max") (settings p)
          ≡ (if leb_ℤ (pos 0) p.uid_max then some (int64 p.uid_max) else none))
      × (last_of (codes "gid-min") (settings p)
          ≡ (if leb_ℤ (pos 0) p.gid_min then some (int64 p.gid_min) else none))
      × (last_of (codes "gid-max") (settings p)
          ≡ (if leb_ℤ (pos 0) p.gid_max then some (int64 p.gid_max) else none))
unfolding settings bytes_eq
last_of-ranges p = ground arith

auth_of_text : (a : AuthType) → auth_of (some (auth_text a)) ≡ a
unfolding bytes_eq
auth_of_text simple = refl
auth_of_text kerberos = refl

int_or_normal : (z : ℤ) → int_or (negsuc 0) (if leb_ℤ (pos 0) z then some z else none) ≡ normal_id z
int_or_normal z = ground arith

pub settings-ne : (p : Profile) → settings p ≢ []
unfolding settings
settings-ne p e = cc

module _ {K : Type 0} (kf : KeyFile K) (laws : KeyFileLaws kf) where
  pub load_profile_same :
      (n : Bytes) (k k' : K)
      → ((key : Bytes) → Reads kf n key k k')
      → load_profile kf k n ≡ load_profile kf k' n
  unfolding load_profile
  load_profile_same n k k' r = rw (
    (r (codes "host")).0,
    (r (codes "port")).1,
    (r (codes "base-dn")).0,
    (r (codes "auth-type")).0,
    (r (codes "bind-dn")).0,
    (r (codes "use-tls")).2,
    (r (codes "use-ldaps")).2,
    (r (codes "skip-cert")).2,
    (r (codes "uid-min")).3,
    (r (codes "uid-max")).3,
    (r (codes "gid-min")).3,
    (r (codes "gid-max")).3,
  )

  pub save_profile-other :
      (n key : Bytes) (p : Profile) (k : K)
      → bytes_eq n (or_empty p.name) ≡ false
      → Reads kf n key (save_profile kf p k) k
  unfolding save_profile
  save_profile-other n key p k e = elim (Bool-cases (is_filled p.name)) [
    | inl named ↦ rw named (set_all-other kf laws n (or_empty p.name) key (settings p) k e)
    | inr unnamed ↦ rw unnamed (refl, refl, refl, refl)
  ]

  pub save_all-other :
      (n key : Bytes) (ps : List Profile) (k : K)
      → among n (names ps) ≡ false
      → Reads kf n key (save_all kf ps k) k
  unfolding save_all
  save_all-other n key [] k e = (refl, refl, refl, refl)
  save_all-other n key (p ∷ ps) k e =
      let later = save_all-other n key ps (save_profile kf p k) (ground arith) in
      let here = save_profile-other n key p k (ground arith) in
      (later.0 ∙ here.0, later.1 ∙ here.1, later.2 ∙ here.2, later.3 ∙ here.3)

  read_id :
      (g key : Bytes) (p : Profile) (z : ℤ) (k : K)
      → AllFit kf g (settings p)
      → ((key' : Bytes) → kf.get_int64 g key' k ≡ none)
      → last_of key (settings p) ≡ (if leb_ℤ (pos 0) z then some (int64 z) else none)
      → kf.get_int64 g key (set_all kf g (settings p) k)
        ≡ (if leb_ℤ (pos 0) z then some z else none)
  read_id g key p z k fit blank e = elim (Bool-cases (leb_ℤ (pos 0) z)) [
    | inl set ↦ rw set (set_all-Gives kf laws g key (settings p) k (int64 z) fit (ground arith))
    | inr unset ↦
        rw unset ((set_all-unset kf laws g key (settings p) k (ground arith)).3 ∙ blank key)
  ]

  pub load_profile-save_profile :
      (p : Profile) (k : K)
      → is_filled p.name ≡ true
      → AllFit kf (or_empty p.name) (settings p)
      → ((key : Bytes) → kf.get_int64 (or_empty p.name) key k ≡ none)
      → load_profile kf (save_profile kf p k) (or_empty p.name) ≡ normal p
  unfolding save_profile load_profile
  load_profile-save_profile p k named fit blank =
      let give : (key : Bytes) (v : Value)
          → last_of key (settings p) ≡ some v
          → Gives kf (or_empty p.name) key (set_all kf (or_empty p.name) (settings p) k) v =
        λ key v e. set_all-Gives kf laws (or_empty p.name) key (settings p) k v fit e in
      let l = last_of-settings p in
      let r = last_of-ranges p in
      let ids : (key : Bytes) (z : ℤ)
          → last_of key (settings p) ≡ (if leb_ℤ (pos 0) z then some (int64 z) else none)
          → kf.get_int64 (or_empty p.name) key (set_all kf (or_empty p.name) (settings p) k)
            ≡ (if leb_ℤ (pos 0) z then some z else none) =
        λ key z e. read_id (or_empty p.name) key p z k fit blank e in
      rw named (
        rw
          (
            give (codes "host") (text (or_empty p.host)) l.0,
            give (codes "port") (integer p.port) l.1,
            give (codes "base-dn") (text (or_empty p.base_dn)) l.2,
            give (codes "auth-type") (text (auth_text p.auth_type)) l.3,
            give (codes "bind-dn") (text (or_empty p.bind_dn)) l.4,
            give (codes "use-tls") (boolean p.use_tls) l.5,
            give (codes "use-ldaps") (boolean p.use_ldaps) l.6,
            give (codes "skip-cert") (boolean p.skip_cert) l.7,
            ids (codes "uid-min") p.uid_min r.0,
            ids (codes "uid-max") p.uid_max r.1,
            ids (codes "gid-min") p.gid_min r.2,
            ids (codes "gid-max") p.gid_max r.3,
          )
          (rw (
            auth_of_text p.auth_type,
            int_or_normal p.uid_min,
            int_or_normal p.uid_max,
            int_or_normal p.gid_min,
            int_or_normal p.gid_max,
          )))
