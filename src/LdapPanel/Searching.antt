-- ===== src/LdapPanel/Searching.antt =====
-- src/ui/sbv-ldap-panel.c: the search, and the load of the panel.
use sambervise.Base.{
  ℕ, ◌==◌, leb, Bool, true, false, not, Option, none, some, List, [], ◌∷◌, ◌++◌, if◌then◌else◌,
}
use sambervise.Base.Int.{negsuc}
use sambervise.Base.Bytes.{Bytes, codes, is_filled, or_empty}
use sambervise.Base.Decimal.{print_ℕ}
use sambervise.Base.Lists.{length}
use sambervise.Backend.Attrs.{Table}
use sambervise.Browse.{Node}
use sambervise.Editor.{is_nonempty}
use sambervise.LdapPanel.{
  LdapPanel, root_attrs_request, search_request, Handled, is_in, numbers, add_nodes,
  load_node_into_editor,
}

-- The texts that `on_search_done` puts together; the dash is its three bytes.
abbrev truncated : Bytes
truncated = codes " " ++ (0xe2 ∷ 0x80 ∷ 0x94 ∷ codes " truncated, refine the filter")

abbrev pub matches_text : ℕ → Bytes
matches_text n =
    print_ℕ n
    ++ (codes " match"
        ++ ((if n == 1 then [] else codes "es") ++ (if leb 500 n then truncated else [])))

abbrev searching : Bytes
searching = codes "Searching" ++ (0xe2 ∷ 0x80 ∷ 0xa6 ∷ [])

-- `on_search_stopped`, and what an empty filter does.
abbrev pub to_tree : LdapPanel → LdapPanel
to_tree p = record p { active_filter = none; results = []; status = []; shows_results = false }

abbrev searched : Option ℕ → Option Bytes → Bytes → LdapPanel → Handled
searched none base_dn filter p = (p, [])
searched (some c) base_dn filter p =
    if not (is_filled base_dn)
    then (p, [])
    else if not (is_nonempty filter)
    then (to_tree p, [])
    else (
      record p { active_filter = some filter; status = searching; shows_results = true },
      search_request c (or_empty base_dn) filter ∷ [],
    )

-- `on_search_activated`, with the base DN of the connection.
unfoldable pub search_activated : Option Bytes → Bytes → LdapPanel → Handled
search_activated base_dn filter p = searched p.conn base_dn filter p

abbrev root_of : Bytes → Node
root_of base = record { dn = base; label = base; has_children = negsuc 0; attrs = [] }

-- `sbv_ldap_panel_load`, with the base DN of the connection. The nodes of the tree before are freed,
-- and the root is selected after it.
unfoldable pub load_ldap : ℕ → Option Bytes → LdapPanel → Handled
unfolding add_nodes
load_ldap c base_dn p =
    if is_filled base_dn
    then (
      record (add_nodes (root_of (or_empty base_dn) ∷ []) p) {
        conn = some c;
        active_filter = none;
        results = [];
        status = [];
        shows_results = false;
        tree = p.unused ∷ [];
        shows_split = true;
      },
      root_attrs_request c (or_empty base_dn) p.unused ∷ [],
    )
    else (record p { conn = some c; shows_split = false }, [])

-- `g_list_sort` of the keys of a table by `g_strcmp0`.
module _ (sorted_keys : Table → List Bytes) where
  -- `on_search_done`, with the hits or the error. The first hit is selected after it.
  unfoldable pub search_done : Option (List Node) → Bytes → LdapPanel → LdapPanel
  unfolding load_node_into_editor add_nodes
  search_done none message p = record p { status = message }
  search_done (some []) message p =
      load_node_into_editor sorted_keys none (record p { results = []; status = matches_text 0 })
  search_done (some (n ∷ ns)) message p = record (add_nodes (n ∷ ns) p) {
    results = numbers p.unused (n ∷ ns);
    status = matches_text (length (n ∷ ns));
  }

  -- `on_root_attrs_loaded`, with the attributes if they came; `is_selected` says whether the root is
  -- what the tree has selected. A root of an earlier load is used after it was freed.
  unfoldable pub root_attrs_loaded : ℕ → Option Table → Bool → LdapPanel → Option LdapPanel
  unfolding load_node_into_editor
  root_attrs_loaded r none is_selected p = some p
  root_attrs_loaded r (some t) is_selected p =
      let p' = record p {
        nodes = λ r'. if r' == r then record (p.nodes r) { attrs = t } else p.nodes r';
      } in
      if is_in r p.tree
      then some (if is_selected then load_node_into_editor sorted_keys (some r) p' else p')
      else none
