-- ===== src/Groups/Rid.antt =====
-- The relative id that is read from the binary form of a security identifier (MS-DTYP 2.4.2.2).
use sambervise.Base.{
  ℕ, zero, suc, ◌+◌, ◌-◌, ◌*◌, ◌/◌, ◌%◌, ◌^◌, ◌<◌, ◌⊎◌, ◌≡◌, refl, none, some, List, [], ◌∷◌, ◌++◌,
  arith,
}
use mathlib.Core.List.{append_assoc}
use sambervise.Base.Bytes.{Bytes}
use sambervise.Base.Lists.{length, drop, length-append}
use sambervise.Groups.{little_endian, sub_count, parse_rid}

-- A number as four bytes, the lowest first.
abbrev pub le32 : ℕ → Bytes
le32 n = (n % 256) ∷ (n / 256 % 256) ∷ (n / 65536 % 256) ∷ (n / 16777216 % 256) ∷ []

abbrev pub encode_subs : List ℕ → Bytes
encode_subs [] = []
encode_subs (n ∷ ns) = le32 n ++ encode_subs ns

-- The revision, the number of sub-authorities, the six bytes of the authority, and the
-- sub-authorities, of which `rid` is the last.
abbrev pub encode_sid : Bytes → List ℕ → ℕ → Bytes
encode_sid authority subs rid =
    1 ∷ suc (length subs) ∷ (authority ++ (encode_subs subs ++ le32 rid))

length-encode_subs : (ns : List ℕ) → length (encode_subs ns) ≡ length ns * 4
length-encode_subs [] = omega arith
length-encode_subs (n ∷ ns) = omega (arith, length-encode_subs ns)

drop-append : (n : ℕ) (xs ys : Bytes) → n ≡ length xs → drop n (xs ++ ys) ≡ ys
drop-append zero [] ys e = refl
drop-append zero (x ∷ xs) ys e = absurd (omega arith)
drop-append (suc n) [] ys e = absurd (omega arith)
drop-append (suc n) (x ∷ xs) ys e = drop-append n xs ys (omega arith)

little_endian-le32 : (n : ℕ) → n < 2 ^ 32 → little_endian (le32 n) ≡ n
unfolding little_endian
little_endian-le32 n h = omega arith

length-encode_sid :
    (authority : Bytes) (subs : List ℕ) (rid : ℕ)
    → length authority ≡ 6
    → length (encode_sid authority subs rid) ≡ 8 + suc (length subs) * 4
length-encode_sid authority subs rid six = omega (
  arith,
  length-append {0} authority (encode_subs subs ++ le32 rid),
  length-append {0} (encode_subs subs) (le32 rid),
  length-encode_subs subs,
)

drop_header :
    (authority : Bytes) (subs : List ℕ) (rid : ℕ)
    → length authority ≡ 6
    → drop (8 + (suc (length subs) - 1) * 4) (encode_sid authority subs rid) ≡ le32 rid
drop_header authority subs rid six =
    let front : Bytes = 1 ∷ suc (length subs) ∷ (authority ++ encode_subs subs) in
    rw (← append_assoc authority (encode_subs subs) (le32 rid)) (
      drop-append (8 + (suc (length subs) - 1) * 4) front (le32 rid)
        (omega (arith, length-append {0} authority (encode_subs subs), length-encode_subs subs)))

-- From the binary form of a security identifier with an authority of six bytes and a last
-- sub-authority below 2 ^ 32, after any others, the code reads the last one.
pub parse_rid-encode_sid :
    (authority : Bytes) (subs : List ℕ) (rid : ℕ)
    → length authority ≡ 6
    → rid < 2 ^ 32
    → parse_rid (encode_sid authority subs rid) ≡ some rid
unfolding parse_rid
parse_rid-encode_sid authority subs rid six fits =
    rw (length-encode_sid authority subs rid six)
      (rw (drop_header authority subs rid six) (rw (little_endian-le32 rid fits) (ground arith)))

-- Bytes that are shorter than their own count of sub-authorities says, or that count none, give no
-- result.
parse_rid_short :
    (raw : Bytes)
    → (length raw < 8 + sub_count raw * 4) ⊎ (sub_count raw ≡ 0)
    → parse_rid raw ≡ none
unfolding parse_rid
parse_rid_short raw short = ground arith
