-- ===== src/Idmap/Ranges.antt =====
-- The ranges that the hints give, and where the hints come from.
use text.Mathlib.TextEquality.{eq_iff}
use sambervise.Base.{ℕ, ◌≡◌, ◌≢◌, ◌↔◌, ◌⊎◌, ap, ◌∙◌, true, some, List, ◌∷◌, arith}
use sambervise.Base.Int.{ℤ, pos, ◌≤ℤ◌, ◌<ℤ◌, IsInt64}
use sambervise.Base.Bytes.{Bytes, codes}
use sambervise.Base.Decimal.{print_ℤ, strtoll-print_ℤ}
use sambervise.Ldap.{Call, Entry, Handle, Library, Reply, succeeded}
use sambervise.Profile.{Profile}
use sambervise.Connection.{World, ok, print_text}
use sambervise.Connection.Valid.{Keeps, IsReady}
use sambervise.Backend.{number_value, number_value-eq}
use sambervise.Idmap.{
  Hints, from_profile, merge_reply, query, yp_search, profile_source, directory_source,
}

sources_differ : profile_source ≢ directory_source
sources_differ = ground (arith, eq_iff profile_source directory_source)

-- The entry in which a directory publishes two numbers.
pub record Publishes (e : Entry) (uid gid : ℤ) : Type 0 where
  pub uid_held : IsInt64 uid
  pub gid_held : IsInt64 gid
  pub more_uids : List Bytes
  pub more_gids : List Bytes
  pub uid_text : e.values (codes "msSFU30MaxUidNumber") ≡ some (print_ℤ uid ∷ more_uids)
  pub gid_text : e.values (codes "msSFU30MaxGidNumber") ≡ some (print_ℤ gid ∷ more_gids)

-- A bound is that of the profile, if it is not negative, and otherwise the default.
abbrev pub IsBound : ℤ → ℕ → ℤ → Type 0
IsBound of_profile default z =
    ((pos 0 ≤ℤ of_profile) × (z ≡ of_profile)) ⊎ ((of_profile <ℤ pos 0) × (z ≡ pos default))

pub record AreHints (p : Profile) (uid gid : ℤ) (h : Hints) : Type 0 where
  pub next_uid : h.next_uid_hint ≡ uid
  pub next_gid : h.next_gid_hint ≡ gid
  pub uid_min : IsBound p.uid_min 10000 h.uid_min
  pub uid_max : IsBound p.uid_max 29999 h.uid_max
  pub gid_min : IsBound p.gid_min 10000 h.gid_min
  pub gid_max : IsBound p.gid_max 29999 h.gid_max
  pub source_iff : (h.source ≡ directory_source) ↔ ((pos 0 ≤ℤ uid) ⊎ (pos 0 ≤ℤ gid))

merge_reply-AreHints :
    (p : Profile) (r : Reply) (e : Entry) (es : List Entry) (uid gid : ℤ)
    → succeeded r ≡ true
    → r.entries ≡ e ∷ es
    → number_value (codes "msSFU30MaxUidNumber") e ≡ some uid
    → number_value (codes "msSFU30MaxGidNumber") e ≡ some gid
    → AreHints p uid gid (merge_reply (from_profile p) r)
unfolding merge_reply from_profile
merge_reply-AreHints p r e es uid gid done found u g = record {
  next_uid = ground (arith, found, u, g);
  next_gid = ground (arith, found, u, g);
  uid_min = ground (arith, found, u, g);
  uid_max = ground (arith, found, u, g);
  gid_min = ground (arith, found, u, g);
  gid_max = ground (arith, found, u, g);
  source_iff = ground (arith, found, u, g, sources_differ);
}

-- On a connection that is up, if the search succeeds and its first entry publishes two numbers as
-- decimal texts, each of which a `gint64` holds: the query makes that one search and returns hints.
-- The next uid and the next gid of the hints are the two numbers, each in its place; each bound is
-- that of the profile, or where it is negative the default, 10000 or 29999; and the hints are said to
-- come from the directory exactly if one of the two numbers is not negative.
pub query_published :
    (p : Profile) (lib : Library) (w : World) (h : Handle) (e : Entry) (es : List Entry)
    (uid gid : ℤ)
    → IsReady h w
    → let q = Call.search h (yp_search (print_text w.conn.base_dn)) in
      succeeded (lib.reply w.calls q) ≡ true
      → (lib.reply w.calls q).entries ≡ e ∷ es
      → Publishes e uid gid
      → (hints : Hints) × ((query p lib w).0 ≡ ok hints)
        × ((query p lib w).1.calls ≡ q ∷ w.calls)
        × AreHints p uid gid hints
unfolding query
query_published p lib w h e es uid gid ready done found v =
    let q = Call.search h (yp_search (print_text w.conn.base_dn)) in
    (
      merge_reply (from_profile p) (lib.reply w.calls q),
      ground arith,
      ground arith,
      merge_reply-AreHints p (lib.reply w.calls q) e es uid gid done found
          (number_value-eq (codes "msSFU30MaxUidNumber") e (print_ℤ uid) v.more_uids v.uid_text
            ∙ ap some (strtoll-print_ℤ uid v.uid_held))
          (number_value-eq (codes "msSFU30MaxGidNumber") e (print_ℤ gid) v.more_gids v.gid_text
            ∙ ap some (strtoll-print_ℤ gid v.gid_held)),
    )

pub query-Keeps : (p : Profile) → Keeps (query p)
unfolding query
query-Keeps p lib w v = ground arith
