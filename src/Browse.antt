-- ===== src/Browse.antt =====
-- src/backend/sbv-ldap-browse.c and src/model/sbv-ldap-node.{h,c}: browsing the directory, and
-- changing any attribute of an entry.
pub mod Keeps
pub mod Found
use sambervise.Base.{
  ℕ, Bool, ◌||◌, ltb, ◌&&◌, ◌+◌, ◌-◌, Option, none, some, List, [], ◌∷◌, ◌++◌, map, if◌then◌else◌,
}
use sambervise.Base.Int.{ℤ, pos, negsuc, eq_ℤ}
use sambervise.Base.Bytes.{Bytes, codes, bytes_eq, is_filled, or_empty, after_char, before_char}
use sambervise.Ldap.{
  Call, Mod, ModOp, Search, base, onelevel, subtree, Entry, Library, is_success, failed, ldap,
}
use sambervise.Connection.{Action, ◌>>=◌, ◌>>◌, pure, raise, ask, issue, acquire, release}
use sambervise.Backend.{fetch, settle, no_limit, read_entry}
use sambervise.Backend.Attrs.{Table, lookup, collect_attrs}

-- `SbvLdapNode`, without its lazily made list of children. `has_children` is -1 where it is unknown.
pub record Node : Type 0 where
  pub dn : Bytes
  pub label : Bytes
  pub has_children : ℤ
  pub attrs : Table

-- The value of the leftmost RDN: what stands between the first '=' and the first ',' behind it.
unfoldable pub extract_label : Option Bytes → Bytes
unfolding after_char before_char
extract_label none = []
extract_label (some dn) = elim (after_char b'=' dn) [
  | none ↦ dn
  | some start ↦ before_char b',' start
]

-- An ASCII letter as a small one.
abbrev pub lower : ℕ → ℕ
lower c = if ltb 64 c && ltb c 91 then c + 32 else c

-- `g_ascii_strcasecmp (s, t) == 0`.
abbrev pub same_text : Bytes → Bytes → Bool
same_text s t = bytes_eq (map lower s) (map lower t)

-- `parse_has_subordinates`, on a table that is not NULL.
unfoldable pub parse_has_subordinates : Table → ℤ
unfolding lookup bytes_eq
parse_has_subordinates attrs = elim (lookup (codes "hasSubordinates") attrs) [
  | none ↦ negsuc 0
  | some vs ↦ elim vs [
    | [] ↦ negsuc 0
    | v ∷ _ ↦
        if same_text v (codes "TRUE")
        then pos 1
        else if same_text v (codes "FALSE")
        then pos 0
        else negsuc 0
  ]
]

-- What the order of the nodes rests on: `g_utf8_collate` and `g_list_store_sort`.
pub record Collation : Type 0 where
  pub collate : Bytes → Bytes → ℤ
  pub sort : (Node → Node → ℤ) → List Node → List Node

unfoldable pub compare_nodes_by_label : Collation → Node → Node → ℤ
compare_nodes_by_label c a b = c.collate a.label b.label

-- One round of the loops of `children_thread` and `search_thread`: an entry without a DN is passed
-- over. The label is made of the DN by `label`.
unfoldable pub add_node : (Bytes → Bytes) → Library → Entry → List Node → List Node
add_node label lib e nodes = elim e.dn [
  | none ↦ nodes
  | some dn ↦
      record {
        dn = dn;
        label = label dn;
        has_children = parse_has_subordinates (collect_attrs lib e);
        attrs = collect_attrs lib e;
      }
      ∷ nodes
]

unfoldable pub collect_nodes : (Bytes → Bytes) → Library → List Entry → List Node
collect_nodes label lib [] = []
collect_nodes label lib (e ∷ es) = add_node label lib e (collect_nodes label lib es)

abbrev pub node_label : Bytes → Bytes
node_label dn = extract_label (some dn)

-- The label in a flat list of results: the DN itself.
unfoldable pub whole_dn : Bytes → Bytes
whole_dn dn = dn

abbrev pub all_attrs : List Bytes
all_attrs = codes "*" ∷ codes "hasSubordinates" ∷ []

abbrev pub children_search : Option Bytes → Search
children_search parent_dn = record {
  base_dn = parent_dn;
  scope = onelevel;
  filter = codes "(objectClass=*)";
  attrs = all_attrs;
  seconds = 30;
  limit = no_limit;
}

-- `children_thread`.
unfoldable pub browse_children : Collation → Option Bytes → Action (List Node)
unfolding fetch
browse_children c parent_dn = do
  h ← acquire
  es ← fetch h (children_search parent_dn) "Browse failed: "
  nodes ← ask (λ lib. collect_nodes node_label lib es)
  release
  pure (c.sort (compare_nodes_by_label c) nodes)

abbrev pub first_attrs : Library → List Entry → Table
first_attrs lib [] = []
first_attrs lib (e ∷ _) = collect_attrs lib e

-- `attrs_thread`.
unfoldable pub browse_attrs : Option Bytes → Action Table
unfolding fetch
browse_attrs dn = do
  h ← acquire
  es ← fetch h (read_entry dn all_attrs 10) "Read failed: "
  attrs ← ask (λ lib. first_attrs lib es)
  release
  pure attrs

-- `SBV_BROWSE_SEARCH_LIMIT`.
abbrev pub search_limit : ℕ
search_limit = 500

abbrev pub filter_search : Option Bytes → Bytes → Search
filter_search base_dn filter = record {
  base_dn = base_dn;
  scope = subtree;
  filter = filter;
  attrs = all_attrs;
  seconds = 30;
  limit = search_limit;
}

-- The filter that `sbv_ldap_browse_search_async` hands on.
abbrev pub filter_or_all : Option Bytes → Bytes
filter_or_all filter = if is_filled filter then or_empty filter else codes "(objectClass=*)"

-- LDAP_SIZELIMIT_EXCEEDED is 4.
abbrev pub is_tolerated : ℤ → Bool
is_tolerated rc = is_success rc || eq_ℤ rc (pos 4)

-- `search_thread`: a result that was cut at the limit is returned.
unfoldable pub search_thread : Collation → Option Bytes → Bytes → Action (List Node)
search_thread c base_dn filter = do
  h ← acquire
  r ← issue (Call.search h (filter_search base_dn filter))
  if is_tolerated r.rc
      then (ask (λ lib. collect_nodes whole_dn lib r.entries) >>= λ nodes.
          release >> pure (c.sort (compare_nodes_by_label c) nodes))
      else release >> raise (failed ldap "Search failed: " r.rc)

-- `sbv_ldap_browse_search_async`.
unfoldable pub browse_search : Collation → Option Bytes → Option Bytes → Action (List Node)
unfolding search_thread
browse_search c base_dn filter = search_thread c base_dn (filter_or_all filter)

-- `SbvLdapModOp` and `SbvLdapMod`.
pub data StagedOp : Type 0 where
  add_op replace_op delete_op : StagedOp

pub record StagedMod : Type 0 where
  pub op : StagedOp
  pub attr : Bytes
  pub values : Option (List Bytes)

-- `values && values[0]`, of a vector that may be NULL.
abbrev pub kept_values : List Bytes → Option (List Bytes)
kept_values [] = none
kept_values (v ∷ vs) = some (v ∷ vs)

-- `sbv_ldap_mod_new`; a NULL vector is the empty list.
unfoldable pub new_mod : StagedOp → Bytes → List Bytes → StagedMod
new_mod op attr values = record { op = op; attr = attr; values = kept_values values }

abbrev pub op_to_ldap : StagedOp → ModOp
op_to_ldap add_op = ModOp.add
op_to_ldap replace_op = ModOp.replace
op_to_ldap delete_op = ModOp.delete

abbrev pub or_nil : Option (List Bytes) → List Bytes
or_nil none = []
or_nil (some vs) = vs

unfoldable pub copy_mods : List StagedMod → List StagedMod
copy_mods = map (λ m. new_mod m.op m.attr (or_nil m.values))

abbrev pub to_ldap : StagedMod → Mod
to_ldap m = record { op = op_to_ldap m.op; attr = m.attr; values = m.values }

-- `sbv_ldap_browse_modify_async` and `modify_thread`: with nothing staged no call is made.
unfoldable pub browse_modify : Option Bytes → List StagedMod → Action (Unit {0})
unfolding settle
browse_modify dn mods = do
  h ← acquire
  elim (copy_mods mods) [
    | [] ↦ release
    | m ∷ ms ↦ issue (Call.modify h dn (map to_ldap (m ∷ ms))) >>= λ r.
        release >> settle "Modify failed: " r.rc
  ]
