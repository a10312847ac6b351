-- ===== src/ConnectDialog/Local.antt =====
-- src/ui/sbv-connect-dialog.c: the guess at the local domain, from /etc/resolv.conf and the name of
-- the host.
use sambervise.Base.{
  ◌≡◌, ◌≢◌, ◌⊎◌, inl, inr, refl, ap, ◌∙◌, ◌==◌, ◌||◌, Option, none, some, List, [], ◌∷◌, ◌++◌,
  if◌then◌else◌, Option-cases, arith,
}
use sambervise.Base.Bytes.{Bytes, codes, after_char}
use sambervise.Editor.Text.{split_on, strip}

-- `g_str_has_prefix`, with the text behind the prefix.
unfoldable pub behind : Bytes → Bytes → Option Bytes
behind [] s = some s
behind (c ∷ t) [] = none
behind (c ∷ t) (d ∷ s) = let rest = behind t s in if c == d then rest else none

abbrev or_else : Option Bytes → Option Bytes → Option Bytes
or_else (some v) o = some v
or_else none o = o

-- `val`: what follows "domain " or "search " on a line.
unfoldable pub directive : Bytes → Option Bytes
unfolding behind
directive line =
    or_else (behind (codes "domain ") (strip line)) (behind (codes "search ") (strip line))

-- The first token of `g_strsplit_set` at spaces and tabs.
unfoldable pub first_token : Bytes → Bytes
first_token [] = []
first_token (c ∷ s) = let rest = first_token s in if c == 32 || c == 9 then [] else c ∷ rest

-- The domain of the host's name.
abbrev pub domain_of_text : Option Bytes → Option Bytes
domain_of_text none = none
domain_of_text (some []) = none
domain_of_text (some (c ∷ s)) = some (c ∷ s)

abbrev pub host_domain : Option Bytes → Option Bytes
host_domain none = none
host_domain (some name) = domain_of_text (after_char b'.' name)

-- The lines are freed at the first directive. Where its token is empty the loop goes on, and reads
-- them: `none`.
abbrev found : Bytes → Option (Option Bytes)
found [] = none
found (c ∷ d) = some (some (c ∷ d))

abbrev found_or : Option Bytes → Option (Option Bytes) → Option (Option Bytes)
found_or none rest = rest
found_or (some v) rest = found (first_token v)

unfoldable pub domain_of_lines : List Bytes → Option (Option Bytes)
unfolding directive first_token
domain_of_lines [] = some none
domain_of_lines (l ∷ ls) = found_or (directive l) (domain_of_lines ls)

abbrev or_host : Option Bytes → Option (Option Bytes) → Option (Option Bytes)
or_host name none = none
or_host name (some none) = some (host_domain name)
or_host name (some (some d)) = some (some d)

-- `detect_local_domain`, with the contents of the file, if it can be read, and the name of the host.
unfoldable pub detect_local_domain : Option Bytes → Option Bytes → Option (Option Bytes)
unfolding domain_of_lines split_on
detect_local_domain none name = some (host_domain name)
detect_local_domain (some contents) name = or_host name (domain_of_lines (split_on 10 contents))

-- No line is a directive.
abbrev pub AreOthers : List Bytes → Type 0
AreOthers [] = Unit
AreOthers (l ∷ ls) = (directive l ≡ none) × AreOthers ls

-- The first directive among lines.
pub record FirstDirective (ls : List Bytes) : Type 0 where
  pub before : List Bytes
  pub line : Bytes
  pub after : List Bytes
  pub value : Bytes
  pub is_split : ls ≡ before ++ (line ∷ after)
  pub others : AreOthers before
  pub is_directive : directive line ≡ some value

domain_of_lines_cases :
    (ls : List Bytes)
    → (AreOthers ls × (domain_of_lines ls ≡ some none))
      ⊎ ((d : FirstDirective ls) × (domain_of_lines ls ≡ found (first_token d.value)))
unfolding domain_of_lines
domain_of_lines_cases [] = inl (tt, refl)
domain_of_lines_cases (l ∷ ls) = elim (Option-cases (directive l)) [
  | inl e ↦ elim (domain_of_lines_cases ls) [
    | inl (others, same) ↦ inl ((e, others), ap (λ o. found_or o (domain_of_lines ls)) e ∙ same)
    | inr (d, same) ↦ inr (
      record {
        before = l ∷ d.before;
        line = d.line;
        after = d.after;
        value = d.value;
        is_split = ap (λ us. l ∷ us) d.is_split;
        others = (e, d.others);
        is_directive = d.is_directive;
      },
      ap (λ o. found_or o (domain_of_lines ls)) e ∙ same,
    )
  ]
  | inr (v, e) ↦ inr (
    record {
      before = [];
      line = l;
      after = ls;
      value = v;
      is_split = refl;
      others = tt;
      is_directive = e;
    },
    ap (λ o. found_or o (domain_of_lines ls)) e,
  )
]

found_cases :
    (name : Option Bytes) (t : Bytes)
    → ((t ≢ []) × (or_host name (found t) ≡ some (some t)))
      ⊎ ((t ≡ []) × (or_host name (found t) ≡ none))
found_cases name [] = inr (refl, refl)
found_cases name (c ∷ t) = inl (λ e. ground (arith, e), refl)

-- With the contents of the file: if no line is a directive, the domain is that of the host's name.
-- Otherwise it is the first token of the first directive, if that token is not empty; if it is empty,
-- as after two spaces, the lines are read after they were freed.
pub detect_local_domain_cases :
    (contents : Bytes) (name : Option Bytes)
    → let ls = split_on 10 contents in
      let r = detect_local_domain (some contents) name in
      (AreOthers ls × (r ≡ some (host_domain name)))
      ⊎ ((d : FirstDirective ls) × (((first_token d.value ≢ [])
              × (r ≡ some (some (first_token d.value))))
            ⊎ ((first_token d.value ≡ []) × (r ≡ none))))
unfolding detect_local_domain
detect_local_domain_cases contents name = elim (domain_of_lines_cases (split_on 10 contents)) [
  | inl (others, same) ↦ inl (others, ap (or_host name) same)
  | inr (d, same) ↦ inr (
    d,
    elim (found_cases name (first_token d.value)) [
      | inl (filled, e) ↦ inl (filled, ap (or_host name) same ∙ e)
      | inr (empty, e) ↦ inr (empty, ap (or_host name) same ∙ e)
    ],
  )
]
