-- ===== src/Profiles/RoundTrip.antt =====
-- What `sbv_profiles_load` reads of the key file that `sbv_profiles_save` made.
use sambervise.Base.{
  ◌≡◌, ◌≢◌, refl, sym, ◌∙◌, true, false, none, some, List, [], ◌∷◌, ◌++◌, map, arith,
}
use mathlib.Core.List.{append_assoc, append-nil}
use sambervise.Base.Bytes.{Bytes, bytes_eq_iff, bytes_eq_refl, or_empty, is_filled}
use sambervise.Profile.{Profile}
use sambervise.Profiles.{settings, set_all, save_profile, save_all, saved, load_profile, load}
use sambervise.Profiles.Ini.{KeyFile, KeyFileLaws, Setting, among}
use sambervise.Profiles.Keys.{AllFit}
use sambervise.Profiles.Store.{names, AreUnique, among-append}
use sambervise.Profiles.Reading.{
  normal, AreStorable, settings-ne, load_profile_same, save_profile-other, save_all-other,
  load_profile-save_profile,
}

module _ {K : Type 0} (kf : KeyFile K) (laws : KeyFileLaws kf) where
  groups-set_all :
      (g : Bytes) (ss : List Setting) (k : K)
      → AllFit kf g ss
      → among g (kf.groups k) ≡ true
      → kf.groups (set_all kf g ss k) ≡ kf.groups k
  unfolding set_all
  groups-set_all g [] k fit e = refl
  groups-set_all g ((key, v) ∷ ss) k (f, fit) e =
      let same : kf.groups (kf.set g key v k) ≡ kf.groups k =
        rw (laws.groups_set g key v k f) (ground arith) in
      groups-set_all g ss (kf.set g key v k) fit (rw same e) ∙ same

  groups-set_all_new :
      (g : Bytes) (ss : List Setting) (k : K)
      → AllFit kf g ss
      → ss ≢ []
      → among g (kf.groups k) ≡ false
      → kf.groups (set_all kf g ss k) ≡ kf.groups k ++ (g ∷ [])
  unfolding set_all
  groups-set_all_new g [] k fit some_set new = absurd (some_set refl)
  groups-set_all_new g ((key, v) ∷ ss) k (f, fit) some_set new =
      let added : kf.groups (kf.set g key v k) ≡ kf.groups k ++ (g ∷ []) =
        rw (laws.groups_set g key v k f) (ground arith) in
      groups-set_all g ss (kf.set g key v k) fit
        (rw added (ground (arith, among-append g g (kf.groups k), bytes_eq_refl g)))
      ∙ added

  groups-save_profile :
      (p : Profile) (k : K)
      → is_filled p.name ≡ true
      → AllFit kf (or_empty p.name) (settings p)
      → among (or_empty p.name) (kf.groups k) ≡ false
      → kf.groups (save_profile kf p k) ≡ kf.groups k ++ (or_empty p.name ∷ [])
  unfolding save_profile
  groups-save_profile p k named fit new =
      rw named (groups-set_all_new (or_empty p.name) (settings p) k fit (settings-ne p) new)

  -- The profiles that are read of the groups that were saved onto a key file `k`.
  load_saved :
      (ps : List Profile) (k : K)
      → AreUnique (names ps)
      → AreStorable kf ps
      → ((n key : Bytes) → among n (names ps) ≡ true → kf.get_int64 n key k ≡ none)
      → map (load_profile kf (save_all kf ps k)) (names ps) ≡ map normal ps
  unfolding save_all
  load_saved [] k u s blank = refl
  load_saved (p ∷ ps) k u (named, fit, s) blank =
      let k' = save_profile kf p k in
      let n = or_empty p.name in
      let head : load_profile kf (save_all kf ps k') n ≡ normal p =
        load_profile_same kf laws n (save_all kf ps k') k'
          (λ key. save_all-other kf laws n key ps k' u.0)
        ∙ load_profile-save_profile kf laws p k named fit
            (λ key. blank n key (ground (arith, bytes_eq_refl n))) in
      let tail = load_saved ps k' u.1 s λ m key h.
        (save_profile-other kf laws m key p k (ground (arith, bytes_eq_iff m n))).3
        ∙ blank m key (ground arith) in
      cc

  groups-save_all :
      (ps : List Profile) (k : K)
      → AreUnique (names ps)
      → AreStorable kf ps
      → ((n : Bytes) → among n (names ps) ≡ true → among n (kf.groups k) ≡ false)
      → kf.groups (save_all kf ps k) ≡ kf.groups k ++ names ps
  unfolding save_all
  groups-save_all [] k u s new = sym (append-nil (kf.groups k))
  groups-save_all (p ∷ ps) k u (named, fit, s) new =
      let n = or_empty p.name in
      let k' = save_profile kf p k in
      let here = groups-save_profile p k named fit (new n (ground (arith, bytes_eq_refl n))) in
      let later =
        groups-save_all ps k' u.1 s λ m h.
          rw here (ground (arith, among-append m n (kf.groups k), bytes_eq_iff m n, new m)) in
      later ∙ rw here (append_assoc (kf.groups k) (n ∷ []) (names ps))

  -- With a key file that does what is relied on: if all profiles of the store have names, all different, and GLib takes what is written of them,
  -- then loading what was saved gives the same profiles in the same order, but that a NULL text is
  -- read as "" and a negative id as -1.
  pub load-saved :
      (ps : List Profile)
      → AreUnique (names ps)
      → AreStorable kf ps
      → load kf (some (saved kf ps)) ≡ map normal ps
  unfolding load
  load-saved ps u s =
      let groups : kf.groups (saved kf ps) ≡ names ps =
        groups-save_all ps kf.empty u s (λ n h. rw laws.groups_empty refl)
        ∙ rw laws.groups_empty refl in
      rw groups (load_saved ps kf.empty u s λ n key h. laws.int64_empty n key)
