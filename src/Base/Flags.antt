-- ===== src/Base/Flags.antt =====
-- One-bit flags of a 64-bit two's complement number, as `userAccountControl` holds them.
-- A flag is given by its mask, a power of two.
use sambervise.Base.Compare.{ltb, ◌==◌, if◌then◌else◌}
use sambervise.Base.Int.{ℤ, pos, negsuc, pos_part, neg_part, IsInt64}
use Prim.Native.Nat.{ℕ, ◌+◌, ◌-◌, ◌*◌, ◌/◌, ◌%◌, ◌^◌, ◌≤◌, ◌<◌}
use mathlib.Core.Path.{◌≡◌}
use mathlib.Core.Bool.{Bool, true, false}
use native.Mathlib.Omega.{arith}

-- The bit pattern of a number, and the number of a bit pattern.
unfoldable pub to_word : ℤ → ℕ
to_word (pos n) = n % 2 ^ 64
to_word (negsuc n) = 2 ^ 64 - 1 - n % 2 ^ 64

unfoldable pub of_word : ℕ → ℤ
of_word w = if ltb w (2 ^ 63) then pos w else negsuc (2 ^ 64 - 1 - w)

pub of_word-to_word : (z : ℤ) → IsInt64 z → of_word (to_word z) ≡ z
unfolding of_word to_word
of_word-to_word z h = ground arith

pub to_word-of_word : (w : ℕ) → w < 2 ^ 64 → to_word (of_word w) ≡ w
unfolding of_word to_word
to_word-of_word w h = ground arith

pub to_word-lt : (z : ℤ) → to_word z < 2 ^ 64
unfolding to_word
to_word-lt z = ground arith

pub of_word-IsInt64 : (w : ℕ) → w < 2 ^ 64 → IsInt64 (of_word w)
unfolding of_word
of_word-IsInt64 w h = ground arith

-- `w & mask` is not 0, `w | mask` and `w & ~mask`, on bit patterns.
abbrev pub word_has : ℕ → ℕ → Bool
word_has mask w = (w / mask) % 2 == 1

abbrev pub word_or : ℕ → ℕ → ℕ
word_or mask w = if word_has mask w then w else w + mask

abbrev pub word_and_not : ℕ → ℕ → ℕ
word_and_not mask w = if word_has mask w then w - mask else w

-- The same on signed numbers: `z & mask`, `z |= mask`, `z &= ~mask`.
unfoldable pub has_flag : ℕ → ℤ → Bool
has_flag mask z = word_has mask (to_word z)

unfoldable pub set_flag : ℕ → ℤ → ℤ
set_flag mask z = of_word (word_or mask (to_word z))

unfoldable pub clear_flag : ℕ → ℤ → ℤ
clear_flag mask z = of_word (word_and_not mask (to_word z))

-- `(gint) z`: the low 32 bits, as a signed number.
unfoldable pub to_int32 : ℤ → ℤ
unfolding to_word
to_int32 z =
    let low = to_word z % 2 ^ 32 in if ltb low (2 ^ 31) then pos low else negsuc (2 ^ 32 - 1 - low)

-- The values that a `gint` holds.
abbrev pub IsInt32 : ℤ → Type 0
IsInt32 a = (pos_part a < 2 ^ 31) × (neg_part a ≤ 2 ^ 31)

pub to_int32-IsInt32 : (z : ℤ) → IsInt32 (to_int32 z)
unfolding to_int32
to_int32-IsInt32 z = ground arith

pub to_int32_id : (z : ℤ) → IsInt32 z → to_int32 z ≡ z
unfolding to_int32
to_int32_id z h = ground arith

-- Two numbers whose bits agree but for the bit of the mask.
abbrev pub SameBut : ℕ → ℤ → ℤ → Type 0
SameBut mask a b =
    (to_word a / (2 * mask) ≡ to_word b / (2 * mask)) × (to_word a % mask ≡ to_word b % mask)

-- What the flag operations promise for one mask.
pub record FlagLaws (mask : ℕ) : Type 0 where
  pub set_has : (z : ℤ) → has_flag mask (set_flag mask z) ≡ true
  pub clear_has : (z : ℤ) → has_flag mask (clear_flag mask z) ≡ false
  pub set_others : (z : ℤ) → SameBut mask (set_flag mask z) z
  pub clear_others : (z : ℤ) → SameBut mask (clear_flag mask z) z
  pub set-IsInt64 : (z : ℤ) → IsInt64 (set_flag mask z)
  pub clear-IsInt64 : (z : ℤ) → IsInt64 (clear_flag mask z)

-- The laws of one mask on bit patterns, which are linear arithmetic at a numeral.
abbrev WordLaws : ℕ → Type 0
WordLaws mask =
    (w : ℕ)
    → w < 2 ^ 64
    → (word_or mask w < 2 ^ 64)
      × (word_and_not mask w < 2 ^ 64)
      × (word_has mask (word_or mask w) ≡ true)
      × (word_has mask (word_and_not mask w) ≡ false)
      × (word_or mask w / (2 * mask) ≡ w / (2 * mask))
      × (word_or mask w % mask ≡ w % mask)
      × (word_and_not mask w / (2 * mask) ≡ w / (2 * mask))
      × (word_and_not mask w % mask ≡ w % mask)

flag_laws : (mask : ℕ) → WordLaws mask → FlagLaws mask
unfolding has_flag set_flag clear_flag
flag_laws mask laws = record {
  set_has = λ z. let l = laws (to_word z) (to_word-lt z) in rw (to_word-of_word _ l.0) l.2;
  clear_has = λ z. let l = laws (to_word z) (to_word-lt z) in rw (to_word-of_word _ l.1) l.3;
  set_others =
      λ z. let l = laws (to_word z) (to_word-lt z) in rw (to_word-of_word _ l.0) (l.4, l.5);
  clear_others =
      λ z. let l = laws (to_word z) (to_word-lt z) in rw (to_word-of_word _ l.1) (l.6, l.7);
  set-IsInt64 = λ z. of_word-IsInt64 _ (laws (to_word z) (to_word-lt z)).0;
  clear-IsInt64 = λ z. of_word-IsInt64 _ (laws (to_word z) (to_word-lt z)).1;
}

WordLaws-2 : WordLaws 2
WordLaws-2 w h = ground arith

WordLaws-65536 : WordLaws 65536
WordLaws-65536 w h = ground arith

-- `UAC_ACCOUNTDISABLE` and `UAC_DONT_EXPIRE_PASSWD`.
pub FlagLaws-2 : FlagLaws 2
FlagLaws-2 = flag_laws 2 WordLaws-2

pub FlagLaws-65536 : FlagLaws 65536
FlagLaws-65536 = flag_laws 65536 WordLaws-65536
