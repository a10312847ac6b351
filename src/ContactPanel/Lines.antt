-- ===== src/ContactPanel/Lines.antt =====
-- src/ui/sbv-contacts-panel.c: the addresses as lines of a text.
use sambervise.Base.{◌≡◌, ◌≢◌, refl, List, [], ◌∷◌, ◌++◌}
use sambervise.Base.Bytes.{Bytes, Lacks}
use sambervise.Editor.Text.{split_on, strip, kept_tokens, keep_filled, chug, chomp}
use sambervise.Editor.Loading.{split_on-append, split_on-Lacks}

abbrev pub newline : Bytes
newline = 10 ∷ []

-- `strv_to_lines`; NULL has no values.
unfoldable pub strv_to_lines : List Bytes → Bytes
strv_to_lines [] = []
strv_to_lines (v ∷ []) = v
strv_to_lines (v ∷ u ∷ vs) = v ++ (newline ++ strv_to_lines (u ∷ vs))

-- `lines_to_strv`: what stands between newlines is stripped, and dropped where nothing is left.
unfoldable pub lines_to_strv : Bytes → List Bytes
unfolding split_on kept_tokens
lines_to_strv text = kept_tokens (split_on 10 text)

-- A value that a line keeps: some text with no newline and nothing to strip.
pub record IsLine (v : Bytes) : Type 0 where
  pub filled : v ≢ []
  pub lacks : Lacks 10 v
  pub stripped : strip v ≡ v

abbrev pub AreLines : List Bytes → Type 0
AreLines [] = Unit
AreLines (v ∷ vs) = IsLine v × AreLines vs

keep_filled-IsLine : (v : Bytes) (vs : List Bytes) → IsLine v → keep_filled (strip v) vs ≡ v ∷ vs
keep_filled-IsLine [] vs p = absurd (p.filled refl)
keep_filled-IsLine (c ∷ v) vs p = rw p.stripped refl

lines_none : lines_to_strv [] ≡ []
unfolding lines_to_strv chug chomp
lines_none = refl

-- Addresses that have some text, no newline and no white space at their ends are read back from the
-- text that shows them.
pub lines_to_strv-strv_to_lines :
    (vs : List Bytes) → AreLines vs → lines_to_strv (strv_to_lines vs) ≡ vs
unfolding lines_to_strv strv_to_lines
lines_to_strv-strv_to_lines [] p = lines_none
lines_to_strv-strv_to_lines (v ∷ []) (p, _) =
    rw (split_on-Lacks 10 v p.lacks) (keep_filled-IsLine v [] p)
lines_to_strv-strv_to_lines (v ∷ u ∷ vs) (p, ps) =
    rw (split_on-append 10 v (strv_to_lines (u ∷ vs)) p.lacks)
      (rw (lines_to_strv-strv_to_lines (u ∷ vs) ps) (keep_filled-IsLine v (u ∷ vs) p))
