-- ===== src/Base/Bytes.antt =====
-- C strings as lists of bytes, and what the sources call of <string.h> on them.
use sambervise.Base.Compare.{◌==◌, if◌then◌else◌}
use Prim.Native.Nat.{ℕ}
use Prim.Native.Char.{code}
use Prim.Native.String.{String}
use mathlib.Core.Path.{◌≡◌, refl}
use mathlib.Core.Logic.{◌↔◌, ◌≢◌}
use mathlib.Core.Bool.{Bool, true, false, ◌&&◌}
use mathlib.Core.Option.{Option, none, some}
use mathlib.Core.List.{List, [], ◌∷◌, ◌++◌}
use native.Mathlib.Omega.{arith}

abbrev pub Bytes : Type 0
Bytes = List ℕ

-- The bytes of a literal of the sources (all are ASCII).
abbrev pub codes : String → Bytes
codes String.[] = []
codes (String.◌∷◌ c s) = code c ∷ codes s

-- `g_str_equal`.
unfoldable pub bytes_eq : Bytes → Bytes → Bool
bytes_eq [] [] = true
bytes_eq [] (d ∷ t) = false
bytes_eq (c ∷ s) [] = false
bytes_eq (c ∷ s) (d ∷ t) = c == d && bytes_eq s t

pub bytes_eq_iff : (s t : Bytes) → (bytes_eq s t ≡ true) ↔ (s ≡ t)
unfolding bytes_eq
bytes_eq_iff [] [] = (λ _. refl, λ _. refl)
bytes_eq_iff [] (d ∷ t) = (λ h. cc, λ h. cc)
bytes_eq_iff (c ∷ s) [] = (λ h. cc, λ h. cc)
bytes_eq_iff (c ∷ s) (d ∷ t) = ground (arith, bytes_eq_iff s t)

pub bytes_eq_refl : (s : Bytes) → bytes_eq s s ≡ true
bytes_eq_refl s = (bytes_eq_iff s s).1 refl

-- What `g_strdup` and `g_strndup` keep of a counted value: the bytes before the first NUL.
unfoldable pub c_string : Bytes → Bytes
c_string [] = []
c_string (c ∷ s) = let rest = c_string s in if c == 0 then [] else c ∷ rest

-- `s && *s`, on a pointer that may be NULL.
abbrev pub is_filled : Option Bytes → Bool
is_filled none = false
is_filled (some []) = false
is_filled (some (_ ∷ _)) = true

-- `s ?: ""`.
abbrev pub or_empty : Option Bytes → Bytes
or_empty none = []
or_empty (some s) = s

-- The text behind the first `c`, as `strchr (s, c) + 1`, or `none` for NULL.
unfoldable pub after_char : ℕ → Bytes → Option Bytes
after_char c [] = none
after_char c (d ∷ s) = let rest = after_char c s in if d == c then some s else rest

-- The text before the first `c`, or all of it.
unfoldable pub before_char : ℕ → Bytes → Bytes
before_char c [] = []
before_char c (d ∷ s) = let rest = before_char c s in if d == c then [] else d ∷ rest

-- `c` does not occur.
abbrev pub Lacks : ℕ → Bytes → Type 0
Lacks c [] = Unit
Lacks c (d ∷ s) = (d ≢ c) × Lacks c s

pub after_char-append : (c : ℕ) (s t : Bytes) → Lacks c s → after_char c (s ++ (c ∷ t)) ≡ some t
unfolding after_char
after_char-append c [] t h = ground arith
after_char-append c (d ∷ s) t h = ground (arith, after_char-append c s t h.1)

pub before_char-append : (c : ℕ) (s t : Bytes) → Lacks c s → before_char c (s ++ (c ∷ t)) ≡ s
unfolding before_char
before_char-append c [] t h = ground arith
before_char-append c (d ∷ s) t h = ground (arith, before_char-append c s t h.1)

pub before_char-Lacks : (c : ℕ) (s : Bytes) → Lacks c s → before_char c s ≡ s
unfolding before_char
before_char-Lacks c [] h = refl
before_char-Lacks c (d ∷ s) h = ground (arith, before_char-Lacks c s h.1)

pub after_char-Lacks : (c : ℕ) (s : Bytes) → Lacks c s → after_char c s ≡ none
unfolding after_char
after_char-Lacks c [] h = refl
after_char-Lacks c (d ∷ s) h = ground (arith, after_char-Lacks c s h.1)
