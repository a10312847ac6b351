-- ===== src/Dns.antt =====
-- src/backend/sbv-dns.c: which controllers a domain has, by its SRV records.
use sambervise.Base.{ℕ, List, [], ◌∷◌, ◌++◌, map, ◌≡◌, ◌≢◌, ◌⊎◌, ◌↔◌, refl, ap, arith}
use sambervise.Base.Bytes.{Bytes, codes}

-- `SbvDcTarget`, and what it is made of.
pub record DcTarget : Type 0 where
  pub hostname : Bytes
  pub port : ℕ
  pub priority : ℕ
  pub weight : ℕ

-- `g_resolver_lookup_service` for the service `_ldap._tcp` of a domain, which is either an error or
-- the records in the order of RFC 2782.
pub data Answer : Type 0 where
  error : Bytes → Answer
  targets : List DcTarget → Answer

-- How the task ends.
pub data Discovery : Type 0 where
  found : List DcTarget → Discovery
  lookup_error : Bytes → Discovery
  not_found : Bytes → Discovery

-- `sbv_dc_target_from_srv`.
unfoldable pub from_srv : DcTarget → DcTarget
from_srv srv = record {
  hostname = srv.hostname;
  port = srv.port;
  priority = srv.priority;
  weight = srv.weight;
}

abbrev pub msdcs : Bytes → Bytes
msdcs domain = codes "dc._msdcs." ++ domain

-- The second lookup is made where the first had an error or no record.
abbrev pub or_fallback : Answer → Answer → Answer
or_fallback (error _) other = other
or_fallback (targets []) other = other
or_fallback (targets (t ∷ ts)) _ = targets (t ∷ ts)

abbrev pub report : Bytes → Answer → Discovery
report domain (error e) = lookup_error e
report domain (targets []) = not_found domain
report domain (targets (t ∷ ts)) = found (map from_srv (t ∷ ts))

-- `discover_thread`.
unfoldable pub discover : (Bytes → Answer) → Bytes → Discovery
discover lookup domain = report domain (or_fallback (lookup (msdcs domain)) (lookup domain))

abbrev pub HasNone : Answer → Type 0
HasNone (error _) = Unit
HasNone (targets ts) = ts ≡ []

from_srv-map : (ts : List DcTarget) → map from_srv ts ≡ ts
unfolding from_srv
from_srv-map [] = refl
from_srv-map (t ∷ ts) = ap (λ us. t ∷ us) (from_srv-map ts)

-- What is left of an answer for the report.
abbrev Chosen : Answer → Answer → List DcTarget → Type 0
Chosen a b ts = (ts ≢ []) × ((a ≡ targets ts) ⊎ (HasNone a × (b ≡ targets ts)))

report_iff :
    (domain : Bytes) (b : Answer) (ts : List DcTarget)
    → (report domain b ≡ found ts) ↔ ((ts ≢ []) × (b ≡ targets ts))
report_iff domain (error e) ts = ground arith
report_iff domain (targets []) ts = ground arith
report_iff domain (targets (t ∷ us)) ts = ground (arith, from_srv-map (t ∷ us))

fallback_iff :
    (domain : Bytes) (a b : Answer) (ts : List DcTarget)
    → (report domain (or_fallback a b) ≡ found ts) ↔ Chosen a b ts
fallback_iff domain (error e) b ts = ground (arith, report_iff domain b ts)
fallback_iff domain (targets []) b ts = ground (arith, report_iff domain b ts)
fallback_iff domain (targets (t ∷ us)) b ts =
    ground (arith, report_iff domain (targets (t ∷ us)) ts)

-- Discovery finds the controllers `ts` exactly if `ts` is not empty and is the answer for
-- `dc._msdcs.<domain>`, or that answer is an error or has no record and `ts` is the answer for the
-- domain itself.
pub discover_found_iff :
    (lookup : Bytes → Answer) (domain : Bytes) (ts : List DcTarget)
    → (discover lookup domain ≡ found ts) ↔ (
        (ts ≢ [])
        × ((lookup (msdcs domain) ≡ targets ts)
            ⊎ (HasNone (lookup (msdcs domain)) × (lookup domain ≡ targets ts))))
unfolding discover
discover_found_iff lookup domain ts = fallback_iff domain (lookup (msdcs domain)) (lookup domain) ts
