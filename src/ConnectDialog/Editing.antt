-- ===== src/ConnectDialog/Editing.antt =====
-- src/ui/sbv-connect-dialog.c: a profile that is edited and saved.
use sambervise.Base.{
  ℕ, ◌≤◌, true, false, Option, none, some, List, [], ◌∷◌, ◌≡◌, refl, ap, ◌∙◌, if◌then◌else◌, arith,
  Bool-cases, inl, inr,
}
use sambervise.Base.Int.{pos}
use sambervise.Base.Bytes.{Bytes, bytes_eq, bytes_eq_iff, or_empty}
use sambervise.Profile.{Profile}
use sambervise.Profiles.{upsert, has_name}
use sambervise.Profiles.Ini.{KeyFile}
use sambervise.Profiles.Store.{find, names, AreUnique, upsert_lem, upsert-AreUnique, remove_lem}
use sambervise.Editor.{is_nonempty}
use sambervise.ConnectDialog.{
  Form, build_profile, populate, validate_inputs, save_clicked, drop_old, name_or_null, unset_or,
  id_value, port_value,
}

name_back : (name : Bytes) → or_empty (name_or_null name) ≡ name
name_back [] = refl
name_back (c ∷ s) = refl

id_back : (n : ℕ) → n ≤ 2147483647 → id_value (unset_or n) ≡ n
id_back n h = ground arith

port_back : (n : ℕ) → 1 ≤ n → n ≤ 65535 → port_value (pos n) ≡ n
port_back n lo hi = ground arith

-- The spinners hold values between their bounds.
pub record IsBounded (f : Form) : Type 0 where
  pub port_low : 1 ≤ f.port
  pub port_high : f.port ≤ 65535
  pub uid_min : f.uid_min ≤ 2147483647
  pub uid_max : f.uid_max ≤ 2147483647
  pub gid_min : f.gid_min ≤ 2147483647
  pub gid_max : f.gid_max ≤ 2147483647

-- What the dialog shows of a profile that was built from a form.
populate_back :
    (f : Form)
    → IsBounded f
    → populate (build_profile f)
      ≡ record f { domain = []; password = []; bind_dn = if f.is_simple then f.bind_dn else [] }
unfolding populate build_profile
populate_back f b = rw (name_back f.name) (
    rw (port_back f.port b.port_low b.port_high) (
      rw (id_back f.uid_min b.uid_min) (
        rw (id_back f.uid_max b.uid_max)
          (rw (id_back f.gid_min b.gid_min) (rw (id_back f.gid_max b.gid_max) (ground arith))))))

-- A profile that was made in the dialog is shown there for editing as it is.
build_profile-populate :
    (f : Form) → IsBounded f → build_profile (populate (build_profile f)) ≡ build_profile f
unfolding build_profile
build_profile-populate f b = rw (populate_back f b) (ground arith)

dropped :
    {K : Type 0} (kf : KeyFile K) (o new : Bytes) (ps : List Profile) (m : Option Bytes)
    → AreUnique (names ps)
    → bytes_eq new (or_empty m) ≡ false
    → find m (drop_old kf (some o) new ps) ≡ (if bytes_eq (or_empty m) o then none else find m ps)
dropped kf o new ps m u other = ground (
  arith,
  (remove_lem kf (some o) ps u).0 m,
  bytes_eq_iff o new,
  bytes_eq_iff new (or_empty m),
  bytes_eq_iff (or_empty m) o,
)

drop_old-AreUnique :
    {K : Type 0} (kf : KeyFile K) (o new : Bytes) (ps : List Profile)
    → AreUnique (names ps)
    → AreUnique (names (drop_old kf (some o) new ps))
drop_old-AreUnique kf o new ps u = elim (Bool-cases (bytes_eq o new)) [
  | inl e ↦ rw e u
  | inr e ↦ rw e (remove_lem kf (some o) ps u).1
]

found :
    {K : Type 0} (kf : KeyFile K) (o : Bytes) (f : Form) (ps : List Profile) (m : Option Bytes)
    → AreUnique (names ps)
    → (if has_name m (build_profile f)
        then some (build_profile f)
        else find m (drop_old kf (some o) f.name ps))
      ≡ (if bytes_eq f.name (or_empty m)
          then some (build_profile f)
          else if bytes_eq (or_empty m) o
          then none
          else find m ps)
unfolding build_profile
found kf o f ps m u = elim (Bool-cases (bytes_eq f.name (or_empty m))) [
  | inl e ↦ rw (name_back f.name) (rw e refl)
  | inr e ↦ rw (name_back f.name) (rw e (dropped kf o f.name ps m u e))
]

saved_store :
    {K : Type 0} (kf : KeyFile K) (o : Bytes) (e : Option Bytes) (f : Form) (ps : List Profile)
    → validate_inputs false f ≡ none
    → is_nonempty f.name ≡ true
    → (save_clicked kf (some o) e f ps).1
      ≡ (upsert kf (build_profile f) (drop_old kf (some o) f.name ps)).0
unfolding save_clicked
saved_store kf o e f ps valid named = ground arith

-- If a profile is edited and saved, with all that is needed filled in, the spinners between their
-- bounds and the names in the store all different, then the profile of the name that was entered is the one that was entered, no
-- profile has the name that it had before unless that is the same, and every other name has the
-- profile that it had; the names are still all different; and the dialog, opened on the profile
-- again, makes the same profile of what it shows.
pub save_clicked_renames :
    {K : Type 0} (kf : KeyFile K) (o : Bytes) (e : Option Bytes) (f : Form) (ps : List Profile)
    → IsBounded f
    → AreUnique (names ps)
    → validate_inputs false f ≡ none
    → is_nonempty f.name ≡ true
    → (m : Option Bytes)
    → (find m (save_clicked kf (some o) e f ps).1 ≡ (
        if bytes_eq f.name (or_empty m)
        then some (build_profile f)
        else if bytes_eq (or_empty m) o
        then none
        else find m ps))
      × AreUnique (names (save_clicked kf (some o) e f ps).1)
      × (build_profile (populate (build_profile f)) ≡ build_profile f)
save_clicked_renames kf o e f ps b u valid named m = (
  ap (find m) (saved_store kf o e f ps valid named)
      ∙ (upsert_lem kf (build_profile f) (drop_old kf (some o) f.name ps) m ∙ found kf o f ps m u),
  rw (saved_store kf o e f ps valid named) (
      upsert-AreUnique kf (build_profile f) (drop_old kf (some o) f.name ps)
        (drop_old-AreUnique kf o f.name ps u)),
  build_profile-populate f b,
)
