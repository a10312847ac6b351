-- ===== src/Collisions/Hits.antt =====
-- Which entries are reported as collisions.
use sambervise.Base.{
  ◌≡◌, ◌≢◌, refl, Bool, not, none, some, List, [], ◌∷◌, arith, inl, inr, Option-cases,
}
use sambervise.Base.Bytes.{Bytes, codes, bytes_eq, bytes_eq_iff}
use sambervise.Base.Lists.{keep}
use sambervise.Ldap.{Entry}
use sambervise.Backend.{text_value}
use sambervise.Collisions.{Hit, add_hit, collect_hits}

abbrev pub DnsDiffer : Bytes → List Hit → Type 0
DnsDiffer x [] = Unit
DnsDiffer x (t ∷ ts) = (t.dn ≢ x) × DnsDiffer x ts

abbrev pub differs : Bytes → Hit → Bool
differs x t = not (bytes_eq t.dn x)

-- The entries with a DN, as hits, with nothing excluded.
abbrev pub all_hits : List Entry → List Hit
all_hits es = collect_hits none es

-- The entry that is edited is never reported as its own collision, and every other entry with a DN
-- is reported, in the order of the result.
collect_hits-excluded :
    (x : Bytes) (es : List Entry)
    → DnsDiffer x (collect_hits (some x) es)
      × (collect_hits (some x) es ≡ keep (differs x) (all_hits es))
unfolding collect_hits add_hit
collect_hits-excluded x [] = (tt, refl)
collect_hits-excluded x (e ∷ es) = elim (Option-cases (text_value (codes "distinguishedName") e)) [
  | inl absent ↦ ground (arith, collect_hits-excluded x es)
  | inr (dn, present) ↦ ground (arith, bytes_eq_iff dn x, collect_hits-excluded x es)
]
