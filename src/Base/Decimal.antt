-- ===== src/Base/Decimal.antt =====
-- Decimal numbers: `%d`, `%ld` and `G_GINT64_FORMAT` of printf, and `strtoll` in base 10, which
-- `strtol` on a 64-bit `long` and `g_ascii_strtoll` agree with.
use sambervise.Base.Compare.{ltb, leb, ◌==◌, if◌then◌else◌, Bool-cases}
use sambervise.Base.Int.{ℤ, pos, negsuc, max_int64, min_int64, IsInt64}
use sambervise.Base.Bytes.{Bytes}
use Prim.Native.Nat.{ℕ, zero, suc, ◌+◌, ◌-◌, ◌*◌, ◌/◌, ◌%◌, ◌^◌, ◌≤◌, ◌<◌}
use mathlib.Core.Path.{◌≡◌, refl, ◌∙◌}
use mathlib.Core.Logic.{inl, inr}
use mathlib.Core.Bool.{Bool, ◌&&◌, ◌||◌}
use mathlib.Core.List.{[], ◌∷◌, ◌++◌}
use native.Mathlib.Omega.{arith}

-- The digits of `n` before `acc`. The fuel counts the digits that may still come.
unfoldable pub print_fuel : ℕ → ℕ → Bytes → Bytes
print_fuel zero n acc = acc
print_fuel (suc f) n acc =
    let rest = print_fuel f (n / 10) ((48 + n % 10) ∷ acc) in
    if ltb n 10 then (48 + n) ∷ acc else rest

unfoldable pub print_ℕ : ℕ → Bytes
unfolding print_fuel
print_ℕ n = print_fuel (suc n) n []

unfoldable pub print_ℤ : ℤ → Bytes
unfolding print_ℕ
print_ℤ (pos n) = print_ℕ n
print_ℤ (negsuc n) = b'-' ∷ print_ℕ (suc n)

-- Two numbers with an en dash, of three bytes, between them.
abbrev pub range_text : ℤ → ℤ → Bytes
range_text low high = print_ℤ low ++ (0xe2 ∷ 0x80 ∷ 0x93 ∷ print_ℤ high)

abbrev pub is_digit : ℕ → Bool
is_digit c = leb b'0' c && leb c b'9'

abbrev pub is_space : ℕ → Bool
is_space c = c == 32 || (leb 9 c && leb c 13)

unfoldable pub parse_digits : ℕ → Bytes → ℕ
parse_digits acc [] = acc
parse_digits acc (c ∷ s) =
    let rest = parse_digits (acc * 10 + (c - 48)) s in if is_digit c then rest else acc

-- On overflow the nearest `gint64` is given.
abbrev pub clamp_pos : ℕ → ℤ
clamp_pos n = if ltb n (2 ^ 63) then pos n else max_int64

abbrev pub clamp_neg : ℕ → ℤ
clamp_neg zero = pos 0
clamp_neg (suc n) = if ltb n (2 ^ 63) then negsuc n else min_int64

unfoldable pub parse_signed : Bytes → ℤ
parse_signed [] = pos 0
parse_signed (c ∷ s) =
    if c == b'-'
    then clamp_neg (parse_digits 0 s)
    else if c == b'+'
    then clamp_pos (parse_digits 0 s)
    else clamp_pos (parse_digits 0 (c ∷ s))

unfoldable pub strtoll : Bytes → ℤ
unfolding parse_signed
strtoll [] = pos 0
strtoll (c ∷ s) = let rest = strtoll s in if is_space c then rest else parse_signed (c ∷ s)

pub parse_digits-print_fuel :
    (f n : ℕ) (acc : Bytes) → n < f → parse_digits 0 (print_fuel f n acc) ≡ parse_digits n acc
unfolding parse_digits print_fuel
parse_digits-print_fuel zero n acc h = elim h [ ]
parse_digits-print_fuel (suc f) n acc h = elim (Bool-cases (ltb n 10)) [
  | inl small ↦ ground arith
  | inr large ↦
      rw large
        (parse_digits-print_fuel f (n / 10) ((48 + n % 10) ∷ acc) (ground arith) ∙ ground arith)
]

-- Printing begins with a digit.
print_fuel_head :
    (f n : ℕ) (acc : Bytes)
    → n < f
    → (c : ℕ) × (s : Bytes) × (print_fuel f n acc ≡ c ∷ s) × (48 ≤ c) × (c ≤ 57)
unfolding print_fuel
print_fuel_head zero n acc h = elim h [ ]
print_fuel_head (suc f) n acc h = elim (Bool-cases (ltb n 10)) [
  | inl small ↦ (48 + n, acc, rw small, omega arith, ground arith)
  | inr large ↦ rw large (print_fuel_head f (n / 10) ((48 + n % 10) ∷ acc) (ground arith))
]

parse_signed-digit :
    (c : ℕ) (s : Bytes)
    → 48 ≤ c
    → c ≤ 57
    → parse_signed (c ∷ s) ≡ clamp_pos (parse_digits 0 (c ∷ s))
unfolding parse_signed
parse_signed-digit c s lo hi = ground arith

strtoll-digit :
    (c : ℕ) (s : Bytes) → 48 ≤ c → c ≤ 57 → strtoll (c ∷ s) ≡ clamp_pos (parse_digits 0 (c ∷ s))
unfolding strtoll
strtoll-digit c s lo hi = ground (arith, parse_signed-digit c s lo hi)

parse_digits-print_ℕ : (n : ℕ) → parse_digits 0 (print_ℕ n) ≡ n
unfolding print_ℕ parse_digits
parse_digits-print_ℕ n = parse_digits-print_fuel (suc n) n [] (omega arith)

strtoll-minus : (s : Bytes) → strtoll (b'-' ∷ s) ≡ clamp_neg (parse_digits 0 s)
unfolding strtoll parse_signed
strtoll-minus s = refl

-- A number that is printed is read back, if a `gint64` holds it.
pub strtoll-print_ℤ : (z : ℤ) → IsInt64 z → strtoll (print_ℤ z) ≡ z
unfolding print_ℤ
strtoll-print_ℤ (pos n) h =
    let (c, s, e, lo, hi) = print_fuel_head (suc n) n [] (omega arith) in
    rw e (rw (strtoll-digit c s lo hi) (rw (← e) (rw (parse_digits-print_ℕ n) (ground arith))))
strtoll-print_ℤ (negsuc n) h =
    rw (strtoll-minus (print_ℕ (suc n))) (rw (parse_digits-print_ℕ (suc n)) (ground arith))
