-- ===== src/LdapPanel/Races.antt =====
-- src/ui/sbv-ldap-panel.c: replies that come after another node was selected.
use sambervise.Base.{ℕ, none, some, List, [], ◌∷◌, ◌≡◌, refl, arith}
use sambervise.Base.Bytes.{Bytes}
use sambervise.Backend.Attrs.{Table}
use sambervise.Browse.{StagedMod}
use sambervise.Editor.{Row, rebuild_attr_rows, staged_mods}
use sambervise.LdapPanel.{
  LdapPanel, modify_request, refresh_request, show_attrs, load_node_into_editor, node_selected,
  rows_edited, ldap_save_clicked, ldap_save_done, attrs_refreshed,
}

-- A save of the entry `a` has succeeded, and its attributes are read again. If the node `s` is
-- selected before they come, then the editor shows the attributes of `a` under the DN of `s`, and
-- after an edit of these rows a save sends what was changed, measured by the attributes of `a`, as a
-- modification of `s`.
pub attrs_refreshed_elsewhere :
    (sorted_keys : Table → List Bytes) (p : LdapPanel) (c s : ℕ) (a : Bytes) (t : Table)
    (rs : List Row) (m : StagedMod) (ms : List StagedMod)
    → p.conn ≡ some c
    → p.loaded_dn ≡ some a
    → staged_mods t rs ≡ m ∷ ms
    → let (p₁, qs₁) = ldap_save_done sorted_keys c none p in
      let p₂ = attrs_refreshed sorted_keys (some t) (node_selected sorted_keys (some s) p₁) in
      (qs₁ ≡ refresh_request c a ∷ [])
      × (p₂.loaded_dn ≡ some (p.nodes s).dn)
      × (p₂.rows ≡ rebuild_attr_rows t (sorted_keys t))
      × ((ldap_save_clicked sorted_keys (rows_edited sorted_keys rs p₂)).1
          ≡ modify_request c (p.nodes s).dn (m ∷ ms) ∷ [])
unfolding ldap_save_done node_selected load_node_into_editor attrs_refreshed show_attrs
    ldap_save_clicked rows_edited
attrs_refreshed_elsewhere sorted_keys p c s a t rs m ms conn loaded staged =
    (ground arith, refl, refl, ground arith)
