-- ===== src/LdapPanel.antt =====
-- src/ui/sbv-ldap-panel.c: the panel of the directory browser around the editor of Editor: the tree,
-- the search and the selection. A node is a number, as a pointer is. What a GtkSingleSelection says
-- when its list or its selection changes is an event of its own, `node_selected`.
pub mod Searching
pub mod Races
use sambervise.Base.{
  ℕ, suc, ◌+◌, ◌==◌, leb, Bool, true, false, not, ◌&&◌, ◌||◌, Option, none, some, List, [], ◌∷◌,
  ◌++◌, map, if◌then◌else◌,
}
use sambervise.Base.Int.{ℤ, pos, negsuc, eq_ℤ}
use sambervise.Base.Bytes.{Bytes, codes, is_filled, or_empty}
use sambervise.Base.Decimal.{print_ℕ}
use sambervise.Base.Lists.{length}
use sambervise.Backend.Attrs.{Table}
use sambervise.Browse.{Node, StagedMod}
use sambervise.Editor.{
  Row, blank_row, rebuild_attr_rows, remove_clicked, editor_is_dirty, staged_mods, is_nonempty,
}

-- `SbvLdapPanel`. `nodes` is what a node holds and `unused` the first number without one; `tree` are
-- the nodes of the tree and `results` those of the search. `children` and `loaded` are fields of the
-- nodes. `status` is the text of `search_status`, and `shows_results` the page of `left_stack`.
pub record LdapPanel : Type 0 where
  pub nodes : ℕ → Node
  pub children : ℕ → List ℕ
  pub loaded : ℕ → Bool
  pub unused : ℕ
  pub tree : List ℕ
  pub results : List ℕ
  pub active_filter : Option Bytes
  pub status : Bytes
  pub shows_results : Bool
  pub shows_split : Bool
  pub detail_shown : Bool
  pub loaded_dn : Option Bytes
  pub loaded_attrs : Table
  pub rows : List Row
  pub save_sensitive : Bool
  pub save_error : Option Bytes
  pub conn : Option ℕ

-- The asynchronous calls, with the connection first, and what the callback is given with the reply.
pub data Request : Type 0 where
  children_request : ℕ → Bytes → ℕ → Request
  root_attrs_request : ℕ → Bytes → ℕ → Request
  search_request : ℕ → Bytes → Bytes → Request
  modify_request : ℕ → Bytes → List StagedMod → Request
  refresh_request : ℕ → Bytes → Request

abbrev pub Handled : Type 0
Handled = LdapPanel × List Request

abbrev pub is_in : ℕ → List ℕ → Bool
is_in n [] = false
is_in n (m ∷ ms) = n == m || is_in n ms

-- New numbers for nodes, in their order.
abbrev pub numbers : ℕ → List Node → List ℕ
numbers k [] = []
numbers k (n ∷ ns) = k ∷ numbers (suc k) ns

abbrev pub nodes_from : ℕ → List Node → (ℕ → Node) → ℕ → Node
nodes_from k [] old r = old r
nodes_from k (n ∷ ns) old r = let rest = nodes_from (suc k) ns old r in if r == k then n else rest

-- New nodes have no children yet.
unfoldable pub add_nodes : List Node → LdapPanel → LdapPanel
add_nodes ns p = record p {
  nodes = nodes_from p.unused ns p.nodes;
  children = λ r. if leb p.unused r then [] else p.children r;
  loaded = λ r. if leb p.unused r then false else p.loaded r;
  unused = p.unused + length ns;
}

-- `create_child_model`: a node that may have children and was not loaded asks for them, once.
unfoldable pub expanded : ℕ → LdapPanel → Handled
expanded r p =
    if eq_ℤ (p.nodes r).has_children (pos 0) || p.loaded r then (p, []) else elim p.conn [
      | none ↦ (p, [])
      | some c ↦ (
        record p { loaded = λ r'. if r' == r then true else p.loaded r' },
        children_request c (p.nodes r).dn r ∷ [],
      )
    ]

-- `on_children_loaded`, with the children or without: `none` where the node is used after it was
-- freed, since the call has no reference to it.
abbrev children_or : Option (List Node) → List Node
children_or none = []
children_or (some ns) = ns

unfoldable pub children_loaded : ℕ → Option (List Node) → LdapPanel → Option LdapPanel
unfolding add_nodes
children_loaded r reply p =
    let ns = children_or reply in
    let p' = add_nodes ns p in
    if is_in r p.tree
    then some (record p' {
      loaded = λ r'. if r' == r then true else p'.loaded r';
      children = λ r'. if r' == r then p.children r ++ numbers p.unused ns else p'.children r';
      tree = p.tree ++ numbers p.unused ns;
    })
    else none

-- `g_list_sort` of the keys of a table by `g_strcmp0`.
module _ (sorted_keys : Table → List Bytes) where
  -- `rebuild_attr_rows` and `update_save_sensitive`, on other attributes.
  unfoldable pub show_attrs : Table → LdapPanel → LdapPanel
  unfolding rebuild_attr_rows editor_is_dirty
  show_attrs t p =
      let rows = rebuild_attr_rows t (sorted_keys t) in
      record p { loaded_attrs = t; rows = rows; save_sensitive = editor_is_dirty t rows }

  -- `load_node_into_editor`.
  unfoldable pub load_node_into_editor : Option ℕ → LdapPanel → LdapPanel
  unfolding show_attrs
  load_node_into_editor none p = record p {
    detail_shown = false;
    loaded_dn = none;
    loaded_attrs = [];
  }
  load_node_into_editor (some r) p = record (show_attrs (p.nodes r).attrs p) {
    loaded_dn = some (p.nodes r).dn;
    save_error = none;
    detail_shown = true;
  }

  -- `on_tree_selection_changed` and `on_results_selection_changed`.
  unfoldable pub node_selected : Option ℕ → LdapPanel → LdapPanel
  unfolding load_node_into_editor
  node_selected r p = load_node_into_editor r p

  -- An edit of the rows: `on_attr_value_changed`.
  unfoldable pub rows_edited : List Row → LdapPanel → LdapPanel
  unfolding editor_is_dirty
  rows_edited rs p = record p { rows = rs; save_sensitive = editor_is_dirty p.loaded_attrs rs }

  -- `on_new_attr_clicked`.
  unfoldable pub new_attr_clicked : LdapPanel → LdapPanel
  unfolding rows_edited
  new_attr_clicked p = rows_edited (p.rows ++ (blank_row ∷ [])) p

  -- `on_attr_remove_clicked`, at the row behind those of `before`.
  unfoldable pub attr_remove_clicked : List Row → Row → List Row → LdapPanel → LdapPanel
  unfolding rows_edited remove_clicked
  attr_remove_clicked before r after p = rows_edited (before ++ (remove_clicked r ++ after)) p

  abbrev modify_if_staged : ℕ → Bytes → List StagedMod → LdapPanel → Handled
  modify_if_staged c dn [] p = (record p { save_error = none }, [])
  modify_if_staged c dn (m ∷ ms) p =
      (record p { save_error = none; save_sensitive = false }, modify_request c dn (m ∷ ms) ∷ [])

  abbrev saved_on : Option ℕ → Option Bytes → LdapPanel → Handled
  saved_on none _ p = (p, [])
  saved_on (some c) none p = (p, [])
  saved_on (some c) (some dn) p = modify_if_staged c dn (staged_mods p.loaded_attrs p.rows) p

  -- `on_save_clicked`.
  unfoldable pub ldap_save_clicked : LdapPanel → Handled
  unfolding staged_mods
  ldap_save_clicked p = saved_on p.conn p.loaded_dn p

  abbrev refresh_calls : ℕ → Option Bytes → List Request
  refresh_calls c none = []
  refresh_calls c (some dn) = refresh_request c dn ∷ []

  -- `on_save_done`.
  unfoldable pub ldap_save_done : ℕ → Option Bytes → LdapPanel → Handled
  ldap_save_done c (some message) p =
      (record p { save_sensitive = true; save_error = some message }, [])
  ldap_save_done c none p = (record p { save_sensitive = true }, refresh_calls c p.loaded_dn)

  -- `on_attrs_refreshed_after_save`.
  unfoldable pub attrs_refreshed : Option Table → LdapPanel → LdapPanel
  unfolding show_attrs
  attrs_refreshed none p = p
  attrs_refreshed (some t) p = show_attrs t p
