-- ===== src/Backend/Attrs.antt =====
-- The dump of an entry's attributes, `collect_attrs`, whose text stands in several backends.
use sambervise.Base.{Option, none, some, List, [], ◌∷◌, ◌++◌, map, if◌then◌else◌}
use sambervise.Base.Lists.{length}
use sambervise.Base.Bytes.{Bytes, codes, bytes_eq, c_string}
use sambervise.Base.Decimal.{print_ℕ}
use sambervise.Ldap.{Entry, Library}

-- A `GHashTable` from names to `GStrv`s. The order of the pairs means nothing.
abbrev pub Table : Type 0
Table = List (Bytes × List Bytes)

-- `g_hash_table_insert`: a name that is there gets the new value.
unfoldable pub insert : Bytes → List Bytes → Table → Table
unfolding bytes_eq
insert k v [] = (k, v) ∷ []
insert k v ((j, u) ∷ t) =
    let rest = insert k v t in if bytes_eq j k then (k, v) ∷ t else (j, u) ∷ rest

-- `g_hash_table_lookup`.
unfoldable pub lookup : Bytes → Table → Option (List Bytes)
unfolding bytes_eq
lookup k [] = none
lookup k ((j, u) ∷ t) = let rest = lookup k t in if bytes_eq j k then some u else rest

-- A value as it is shown: its text, or its size where it is not UTF-8.
unfoldable pub display : Library → Bytes → Bytes
unfolding c_string print_ℕ
display lib v =
    if lib.utf8_validate v
    then c_string v
    else codes "<binary " ++ (print_ℕ (length v) ++ codes " bytes>")

-- The loop over the names that the entry lists.
unfoldable pub collect_names : Library → Entry → List Bytes → Table → Table
unfolding insert display
collect_names lib e [] t = t
collect_names lib e (name ∷ names) t =
    collect_names lib e names
      (elim (e.values name) [ none ↦ t | some vs ↦ insert name (map (display lib) vs) t ])

unfoldable pub collect_attrs : Library → Entry → Table
unfolding collect_names
collect_attrs lib e = collect_names lib e e.names []
