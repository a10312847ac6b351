-- ===== src/Browse/Found.antt =====
-- What a search of the browser returns.
use sambervise.Base.{
  ◌≡◌, ◌≢◌, refl, ◌⊎◌, inl, inr, Option, none, some, List, [], ◌∷◌, arith, Bool-cases,
}
use sambervise.Base.Int.{pos}
use sambervise.Base.Bytes.{Bytes}
use sambervise.Ldap.{Call, Handle, Library, Entry, failed, ldap}
use sambervise.Connection.{World, ok, err}
use sambervise.Connection.Valid.{IsReady}
use sambervise.Browse.{
  Node, Collation, compare_nodes_by_label, collect_nodes, add_node, whole_dn, search_thread,
  filter_search, is_tolerated,
}

-- The DNs of the entries that have one, and of nodes.
abbrev pub entry_dns : List Entry → List Bytes
entry_dns [] = []
entry_dns (e ∷ es) = let rest = entry_dns es in elim e.dn [ none ↦ rest | some dn ↦ dn ∷ rest ]

abbrev pub node_dns : List Node → List Bytes
node_dns [] = []
node_dns (n ∷ ns) = n.dn ∷ node_dns ns

node_dns-collect_nodes :
    (label : Bytes → Bytes) (lib : Library) (es : List Entry)
    → node_dns (collect_nodes label lib es) ≡ entry_dns es
unfolding collect_nodes add_node
node_dns-collect_nodes label lib [] = refl
node_dns-collect_nodes label lib (e ∷ es) = ground (arith, node_dns-collect_nodes label lib es)

-- On a connection that is up, there are two cases: the search succeeds, or the server cuts it at its
-- size limit, and it gives the sorted nodes of the entries that came, one for each that has a DN; or
-- the result code is another one, and it is the error of the search.
pub search_thread_cases :
    (lib : Library) (w : World) (h : Handle) (c : Collation) (base : Option Bytes) (filter : Bytes)
    → IsReady h w
    → let r = lib.reply w.calls (Call.search h (filter_search base filter)) in
      let result = (search_thread c base filter lib w).0 in
      (((r.rc ≡ pos 0) ⊎ (r.rc ≡ pos 4))
        × (nodes : List Node) × (result ≡ ok (c.sort (compare_nodes_by_label c) nodes))
        × (node_dns nodes ≡ entry_dns r.entries))
      ⊎ ((r.rc ≢ pos 0) × (r.rc ≢ pos 4) × (result ≡ err (failed ldap "Search failed: " r.rc)))
unfolding search_thread
search_thread_cases lib w h c base filter ready =
    let r = lib.reply w.calls (Call.search h (filter_search base filter)) in
    elim (Bool-cases (is_tolerated r.rc)) [
      | inl e ↦ inl (
        ground arith,
        collect_nodes whole_dn lib r.entries,
        ground arith,
        node_dns-collect_nodes whole_dn lib r.entries,
      )
      | inr e ↦ inr (ground arith)
    ]
