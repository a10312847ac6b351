-- ===== src/Tests/Stores.antt =====
-- The theorems on the stored profiles, on a key file kept as a function, and on the local domain.
use sambervise.Base.{
  ◌⊎◌, ◌≢◌, ◌≡◌, refl, Bool, true, false, Option, none, some, List, [], ◌∷◌, ◌++◌, arith, map,
  if◌then◌else◌,
}
use sambervise.Base.Int.{ℤ}
use sambervise.Base.Bytes.{Bytes, codes, bytes_eq, bytes_eq_refl}
use sambervise.Profile.{Profile, new_profile}
use sambervise.Profiles.{saved, load, settings}
use sambervise.Profiles.Ini.{
  KeyFile, KeyFileLaws, Value, text, integer, boolean, int64, among, same_entry,
}
use sambervise.Profiles.Store.{find, names, AreUnique}
use sambervise.Profiles.Reading.{normal}
use sambervise.Profiles.RoundTrip.{load-saved}
use sambervise.ConnectDialog.{Form, build_profile, populate, validate_inputs, save_clicked}
use sambervise.ConnectDialog.Editing.{IsBounded, save_clicked_renames}
use sambervise.Editor.Text.{split_on, chug, chomp}
use sambervise.ConnectDialog.Local.{
  AreOthers, FirstDirective, first_token, host_domain, behind, directive, domain_of_lines,
  detect_local_domain, detect_local_domain_cases,
}
use sambervise.Tests.{lab}

record File : Type 0 where
  list : List Bytes
  value : Bytes → Bytes → Option Value

abbrev as_text : Option Value → Option Bytes
as_text (some (text s)) = some s
as_text _ = none

abbrev as_integer : Option Value → Option ℤ
as_integer (some (integer z)) = some z
as_integer _ = none

abbrev as_boolean : Option Value → Bool
as_boolean (some (boolean b)) = b
as_boolean _ = false

abbrev as_int64 : Option Value → Option ℤ
as_int64 (some (int64 z)) = some z
as_int64 _ = none

abbrev file : KeyFile File
file = record {
  fits = λ g v. true;
  empty = record { list = []; value = λ g key. none };
  set = λ g key v k. record {
    list = if among g k.list then k.list else k.list ++ (g ∷ []);
    value = λ g' key'. if same_entry g' key' g key then some v else k.value g' key';
  };
  groups = λ k. k.list;
  get_string = λ g key k. as_text (k.value g key);
  get_integer = λ g key k. as_integer (k.value g key);
  get_boolean = λ g key k. as_boolean (k.value g key);
  get_int64 = λ g key k. as_int64 (k.value g key);
}

file-KeyFileLaws : KeyFileLaws file
file-KeyFileLaws = record {
  groups_empty = refl;
  int64_empty = λ g key. refl;
  groups_set = λ g key v k fit. refl;
  string_set = λ g key s k fit. ground (arith, bytes_eq_refl g, bytes_eq_refl key);
  integer_set = λ g key z k fit. ground (arith, bytes_eq_refl g, bytes_eq_refl key);
  boolean_set = λ g key b k fit. ground (arith, bytes_eq_refl g, bytes_eq_refl key);
  int64_set = λ g key z k fit. ground (arith, bytes_eq_refl g, bytes_eq_refl key);
  others = λ g key g' key' v k e. ground arith;
}

abbrev office : Profile
office = record new_profile { name = some (codes "office") }

abbrev store : List Profile
store = lab ∷ office ∷ []

store-AreUnique : AreUnique (names store)
unfolding bytes_eq
store-AreUnique = ground arith

load-saved_example : load file (some (saved file store)) ≡ map normal store
unfolding settings
load-saved_example = load-saved file file-KeyFileLaws store store-AreUnique (ground arith)

-- The profile "lab" is renamed to "old".
abbrev edited : Form
edited = record (populate lab) { name = codes "old"; base_dn = codes "DC=x" }

edited-IsBounded : IsBounded edited
unfolding populate
edited-IsBounded = record {
  port_low = omega arith;
  port_high = omega arith;
  uid_min = omega arith;
  uid_max = omega arith;
  gid_min = omega arith;
  gid_max = omega arith;
}

save_clicked_renames_example :
    (find (some (codes "lab")) (save_clicked file (some (codes "lab")) none edited store).1 ≡ none)
    × AreUnique (names (save_clicked file (some (codes "lab")) none edited store).1)
    × (build_profile (populate (build_profile edited)) ≡ build_profile edited)
unfolding bytes_eq populate validate_inputs
save_clicked_renames_example =
    save_clicked_renames file (codes "lab") none edited store edited-IsBounded store-AreUnique refl
      refl (some (codes "lab"))

-- There are two spaces behind the keyword on the second line.
abbrev resolv : Bytes
resolv = codes "nameserver ns1" ++ (10 ∷ codes "search  example.com")

detect_local_domain_cases_example :
    let ls = split_on 10 resolv in
    let r = detect_local_domain (some resolv) (some (codes "pc.example.com")) in
    (AreOthers ls × (r ≡ some (host_domain (some (codes "pc.example.com")))))
    ⊎ ((d : FirstDirective ls) × (((first_token d.value ≢ [])
            × (r ≡ some (some (first_token d.value))))
          ⊎ ((first_token d.value ≡ []) × (r ≡ none))))
detect_local_domain_cases_example = detect_local_domain_cases resolv (some (codes "pc.example.com"))

resolv_freed : detect_local_domain (some resolv) (some (codes "pc.example.com")) ≡ none
unfolding detect_local_domain domain_of_lines directive behind first_token split_on chug chomp
resolv_freed = refl
