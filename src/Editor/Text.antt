-- ===== src/Editor/Text.antt =====
-- src/ui/sbv-ldap-panel.c: how the values of an attribute are shown on one line, and read back.
use sambervise.Base.{ℕ, Bool, true, false, ◌&&◌, ◌||◌, ◌==◌, List, [], ◌∷◌, ◌++◌, if◌then◌else◌}
use sambervise.Base.Lists.{length}
use sambervise.Base.Bytes.{Bytes, codes, bytes_eq}

-- The characters that `g_strstrip` takes off: space, tab, newline, form feed and carriage return.
abbrev pub is_white : ℕ → Bool
is_white c = c == 32 || (c == 9 || (c == 10 || (c == 12 || c == 13)))

-- `g_strchug` and `g_strchomp`.
unfoldable pub chug : Bytes → Bytes
chug [] = []
chug (c ∷ s) = let rest = chug s in if is_white c then rest else c ∷ s

abbrev pub white_or : ℕ → Bytes → Bytes
white_or c [] = if is_white c then [] else c ∷ []
white_or c (d ∷ t) = c ∷ d ∷ t

unfoldable pub chomp : Bytes → Bytes
chomp [] = []
chomp (c ∷ s) = white_or c (chomp s)

-- `g_strstrip`.
abbrev pub strip : Bytes → Bytes
strip s = chug (chomp s)

-- `g_strsplit (s, c, -1)` at a single character, for a text that is not empty.
abbrev pub prepend : ℕ → List Bytes → List Bytes
prepend d [] = (d ∷ []) ∷ []
prepend d (t ∷ ts) = (d ∷ t) ∷ ts

unfoldable pub split_on : ℕ → Bytes → List Bytes
split_on c [] = [] ∷ []
split_on c (d ∷ s) = let rest = split_on c s in if d == c then [] ∷ rest else prepend d rest

-- The loop of `split_values` over the tokens: stripped, and dropped where nothing is left.
abbrev pub keep_filled : Bytes → List Bytes → List Bytes
keep_filled [] vs = vs
keep_filled (c ∷ s) vs = (c ∷ s) ∷ vs

unfoldable pub kept_tokens : List Bytes → List Bytes
kept_tokens [] = []
kept_tokens (t ∷ ts) = keep_filled (strip t) (kept_tokens ts)

-- `split_values`; NULL, which it gives where no value is left, is the empty list.
unfoldable pub split_values : Bytes → List Bytes
unfolding split_on kept_tokens
split_values [] = []
split_values (c ∷ s) = kept_tokens (split_on b';' (c ∷ s))

-- `join_values`: the values with "; " between them.
unfoldable pub join_values : List Bytes → Bytes
join_values [] = []
join_values (v ∷ []) = v
join_values (v ∷ u ∷ vs) = v ++ (codes "; " ++ join_values (u ∷ vs))

abbrev pub member : Bytes → List Bytes → Bool
member v [] = false
member v (u ∷ us) = bytes_eq v u || member v us

abbrev pub all_members : List Bytes → List Bytes → Bool
all_members [] us = true
all_members (v ∷ vs) us = member v us && all_members vs us

-- `values_equal_set`; NULL has no values.
unfoldable pub values_equal_set : List Bytes → List Bytes → Bool
values_equal_set a b = length a == length b && all_members a b
