-- ===== src/Tests/Browsing.antt =====
-- The theorems on the browser, its editor and the discovery of controllers.
use sambervise.Base.{
  ◌≡◌, ◌≢◌, ◌⊎◌, ◌↔◌, inr, refl, true, false, if◌then◌else◌, none, some, List, [], ◌∷◌, ◌++◌, arith,
}
use sambervise.Base.Int.{pos}
use sambervise.Base.Bytes.{Bytes, codes, bytes_eq}
use sambervise.Ldap.{Call, Mod, failed, ldap}
use sambervise.Connection.{ok, err}
use sambervise.Backend.Attrs.{Table, lookup}
use sambervise.Browse.{
  Collation, Node, compare_nodes_by_label, search_thread, filter_search, new_mod, replace_op,
}
use sambervise.Browse.Found.{search_thread_cases, node_dns, entry_dns}
use sambervise.Editor.{
  Row, values_of, rebuild_attr_rows, editor_is_dirty, staged_mods, save_clicked, make_attr_row,
}
use sambervise.Editor.Text.{chug, chomp}
use sambervise.Editor.Loading.{rebuild_attr_rows-clean, rebuild_attr_rows_splits}
use sambervise.Editor.Sets.{SameValues}
use sambervise.Editor.Saving.{apply_all, shown_all, Attrs}
use sambervise.Editor.Refines.{save_clicked_refines, modify_calls}
use sambervise.Dns.{DcTarget, Answer, found, discover, discover_found_iff, msdcs, HasNone}
use sambervise.Tests.{accepts, uids, online, online-IsReady}

abbrev collation : Collation
collation = record { collate = λ s t. pos 0; sort = λ f ns. ns }

abbrev phone : Bytes
phone = codes "phone"

-- An entry with two telephone numbers.
abbrev table : Table
table = (phone, codes "12" ∷ codes "34" ∷ []) ∷ []

abbrev remark : Table
remark = (phone, codes "a;b" ∷ []) ∷ []

-- The second number is changed in the editor.
abbrev rows : List Row
rows = make_attr_row phone (codes "12; 56") ∷ []

abbrev entry : Attrs
entry b = if bytes_eq b phone then codes "12" ∷ codes "34" ∷ [] else []

save_clicked_refines_example :
    (ms : List Mod) × ((save_clicked (some (codes "CN=a")) table rows accepts online).1.calls
      ≡ modify_calls 0 (codes "CN=a") ms ++ online.calls)
    × ((b : Bytes) → SameValues (apply_all ms entry b) (shown_all rows entry b))
unfolding make_attr_row bytes_eq lookup values_of
save_clicked_refines_example =
    save_clicked_refines accepts online 0 (codes "CN=a") table rows entry online-IsReady (refl, tt)
      (inr (refl, (refl, (refl, tt))), tt)

rebuild_attr_rows-clean_example :
    (editor_is_dirty table (rebuild_attr_rows table (phone ∷ [])) ≡ false)
    × (staged_mods table (rebuild_attr_rows table (phone ∷ [])) ≡ [])
unfolding values_of lookup bytes_eq chug chomp
rebuild_attr_rows-clean_example = rebuild_attr_rows-clean table (phone ∷ []) (
  (
    record { filled = λ e. ground (arith, e); lacks = ground arith; stripped = refl },
    (record { filled = λ e. ground (arith, e); lacks = ground arith; stripped = refl }, tt),
  ),
  tt,
)

rebuild_attr_rows_splits_example :
    let rows = rebuild_attr_rows remark (codes "cn" ∷ phone ∷ codes "mail" ∷ []) in
    (editor_is_dirty remark rows ≡ true)
    × (staged_mods remark rows
        ≡ staged_mods remark (rebuild_attr_rows remark (codes "cn" ∷ []))
          ++ (new_mod replace_op phone (codes "a" ∷ codes "b" ∷ [])
              ∷ staged_mods remark (rebuild_attr_rows remark (codes "mail" ∷ []))))
unfolding values_of lookup bytes_eq chug chomp
rebuild_attr_rows_splits_example =
    rebuild_attr_rows_splits remark (codes "cn" ∷ []) phone (codes "mail" ∷ []) (codes "a")
      (codes "b") refl (ground arith) (ground arith) (λ e. ground (arith, e))
      (λ e. ground (arith, e))

search_thread_cases_example :
    let r = uids.reply online.calls (Call.search 0 (filter_search none (codes "(cn=*)"))) in
    let result = (search_thread collation none (codes "(cn=*)") uids online).0 in
    (((r.rc ≡ pos 0) ⊎ (r.rc ≡ pos 4))
      × (nodes : List Node) × (result
          ≡ ok (collation.sort (compare_nodes_by_label collation) nodes))
      × (node_dns nodes ≡ entry_dns r.entries))
    ⊎ ((r.rc ≢ pos 0) × (r.rc ≢ pos 4) × (result ≡ err (failed ldap "Search failed: " r.rc)))
search_thread_cases_example =
    search_thread_cases uids online 0 collation none (codes "(cn=*)") online-IsReady

abbrev dc1 : DcTarget
dc1 = record { hostname = codes "dc1"; port = 389; priority = 0; weight = 100 }

-- A resolver that knows the records of the domain only.
abbrev resolver : Bytes → Answer
resolver name =
    if bytes_eq name (codes "x") then Answer.targets (dc1 ∷ []) else Answer.error (codes "no such")

discover_found_iff_example : (discover resolver (codes "x") ≡ found (dc1 ∷ [])) ↔ (
    (dc1 ∷ [] ≢ [])
    × ((resolver (msdcs (codes "x")) ≡ Answer.targets (dc1 ∷ []))
        ⊎ (HasNone (resolver (msdcs (codes "x")))
            × (resolver (codes "x") ≡ Answer.targets (dc1 ∷ [])))))
discover_found_iff_example = discover_found_iff resolver (codes "x") (dc1 ∷ [])
