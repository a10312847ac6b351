-- ===== src/Profiles/Ini.antt =====
-- GLib's GKeyFile, as far as src/backend/sbv-profiles.c uses it: a parameter of the model. How it
-- is written as text and parsed is GLib's own and not part of the model.
use sambervise.Base.{
  ◌≡◌, Bool, true, false, ◌&&◌, ◌||◌, Option, none, some, List, [], ◌∷◌, ◌++◌, if◌then◌else◌,
}
use sambervise.Base.Int.{ℤ}
use sambervise.Base.Bytes.{Bytes, bytes_eq}

-- What `g_key_file_set_string`, `set_integer`, `set_boolean` and `set_int64` put.
pub data Value : Type 0 where
  text : Bytes → Value
  integer : ℤ → Value
  boolean : Bool → Value
  int64 : ℤ → Value

abbrev pub Setting : Type 0
Setting = Bytes × Value

-- The operations, each with the group before the key. A getter that sets its GError gives `none`,
-- and `get_boolean`, which is called with none, FALSE.
pub record KeyFile (K : Type 0) : Type 0 where
  -- Whether GLib takes the group's name and the value's text: a group's name without brackets and
  -- control characters, and UTF-8.
  pub fits : Bytes → Value → Bool
  pub empty : K
  pub set : Bytes → Bytes → Value → K → K
  pub groups : K → List Bytes
  pub get_string : Bytes → Bytes → K → Option Bytes
  pub get_integer : Bytes → Bytes → K → Option ℤ
  pub get_boolean : Bytes → Bytes → K → Bool
  pub get_int64 : Bytes → Bytes → K → Option ℤ

abbrev pub among : Bytes → List Bytes → Bool
among g [] = false
among g (h ∷ hs) = bytes_eq g h || among g hs

-- Whether a setting is the one that is read: the keys first, then the groups.
abbrev pub same_entry : Bytes → Bytes → Bytes → Bytes → Bool
same_entry g key g' key' = bytes_eq key key' && bytes_eq g g'

-- What is relied on: a value that GLib takes is read back once it is set, the other entries stay as they were, and
-- `g_key_file_get_groups` lists the groups in the order in which they were first set.
pub record KeyFileLaws {K : Type 0} (kf : KeyFile K) : Type 0 where
  pub groups_empty : kf.groups kf.empty ≡ []
  pub int64_empty : (g key : Bytes) → kf.get_int64 g key kf.empty ≡ none
  pub groups_set :
      (g key : Bytes) (v : Value) (k : K)
      → kf.fits g v ≡ true
      → kf.groups (kf.set g key v k)
        ≡ (if among g (kf.groups k) then kf.groups k else kf.groups k ++ (g ∷ []))
  pub string_set :
      (g key s : Bytes) (k : K)
      → kf.fits g (text s) ≡ true
      → kf.get_string g key (kf.set g key (text s) k) ≡ some s
  pub integer_set :
      (g key : Bytes) (z : ℤ) (k : K)
      → kf.fits g (integer z) ≡ true
      → kf.get_integer g key (kf.set g key (integer z) k) ≡ some z
  pub boolean_set :
      (g key : Bytes) (b : Bool) (k : K)
      → kf.fits g (boolean b) ≡ true
      → kf.get_boolean g key (kf.set g key (boolean b) k) ≡ b
  pub int64_set :
      (g key : Bytes) (z : ℤ) (k : K)
      → kf.fits g (int64 z) ≡ true
      → kf.get_int64 g key (kf.set g key (int64 z) k) ≡ some z
  pub others :
      (g key g' key' : Bytes) (v : Value) (k : K)
      → same_entry g key g' key' ≡ false
      → (kf.get_string g key (kf.set g' key' v k) ≡ kf.get_string g key k)
        × (kf.get_integer g key (kf.set g' key' v k) ≡ kf.get_integer g key k)
        × (kf.get_boolean g key (kf.set g' key' v k) ≡ kf.get_boolean g key k)
        × (kf.get_int64 g key (kf.set g' key' v k) ≡ kf.get_int64 g key k)
