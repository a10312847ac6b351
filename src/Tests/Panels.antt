-- ===== src/Tests/Panels.antt =====
-- The theorems on the panel of the users, with the user of the tests in the first row.
use sambervise.Base.{ℕ, ◌+◌, ◌<◌, ◌≡◌, ◌⊎◌, inr, refl, true, false, none, some, [], ◌∷◌, arith}
use sambervise.Base.Int.{pos, ◌≤ℤ◌, pos_part, neg_part}
use sambervise.Base.Bytes.{codes, or_empty, bytes_eq}
use sambervise.Panel.{
  Panel, Form, new_panel, blank_form, delete_btn, split, load, list_request, update_attrs_request,
  set_enabled_request, delete_request,
}
use sambervise.Panel.Syncing.{sync_names}
use sambervise.Panel.Expiry.{Dates, date_entry_to_filetime, shown_date, unix_time, expires_by_day}
use sambervise.Panel.Detail.{
  row_selected, users_loaded, load_user_into_detail, add_rows, add_row, reload_target,
}
use sambervise.Panel.Saving.{Handled, save_clicked, names_of, update_attrs_done}
use sambervise.Panel.Steps.{
  Leads, begin, next, event, reply, connected, select_row, click, type_name, confirm_delete_clicked,
  handle, answer, delete_btn_clicked, confirm_entered,
}
use sambervise.Panel.Buttons.{IsSteady}
use sambervise.Panel.Reached.{Leads-IsSteady, confirm_delete_clicked_lem}
use sambervise.Panel.Races.{save_enables_selected, set_enabled_at_old_dn}
use sambervise.Ldap.{failed, ldap}
use sambervise.Connection.{err}
use sambervise.Users.Account.{set_enabled}
use sambervise.Users.Enabling.{uac_read}
use sambervise.Tests.{jane, denies, online, online-IsReady}

-- Every time is shown as the same day, whose midnight is the start of 2020.
abbrev dates : Dates
dates = record {
  scan = λ text. some (pos 2020, pos 1, pos 1);
  unix_of = λ y m day. some (pos 1577836800);
  date_text = λ t. some (codes "2020-01-01");
}

-- One hour after that midnight.
abbrev expiry : ℕ
expiry = 132223140000000000

expires_by_day_example :
    let t = date_entry_to_filetime dates (shown_date dates [] (pos expiry)) in
    (t ≤ℤ pos expiry) × (expiry + neg_part t < pos_part t + 864000000000)
unfolding unix_time
expires_by_day_example = expires_by_day dates [] expiry refl (record {
  text = codes "2020-01-01";
  shown = refl;
  year = pos 2020;
  month = pos 1;
  day = pos 1;
  scanned = refl;
  midnight = pos 1577836800;
  made = refl;
  not_after = omega arith;
  same_day = omega arith;
})

abbrev jane_doe : Form
jane_doe = record blank_form { given_name = codes "Jane"; sn = codes "van Dam" }

-- Two users, of whom the first is selected; the box "enabled" has been cleared.
abbrev panel : Panel
panel = record (new_panel (λ r. jane)) {
  conn = some 0;
  outer = split;
  selected_user = some 0;
  rows = 0 ∷ 1 ∷ [];
  unused = 2;
  form = jane_doe;
}

save_enables_selected_example :
    let (p', qs) = save_clicked panel in
    let f = sync_names false false jane_doe in
    (qs ≡ update_attrs_request 0 0 (names_of f) true false ∷ [])
    × ((update_attrs_done 0 true false none (row_selected dates (some 1) p')).1
        ≡ set_enabled_request 0 (some 1) false ∷ [])
save_enables_selected_example = save_enables_selected dates panel 0 0 1 refl refl refl

set_enabled_at_old_dn_example :
    let (p', qs) = update_attrs_done 0 true false none panel in
    (qs ≡ set_enabled_request 0 (some 0) false ∷ [])
    × ((p'.users 0).cn ≡ some jane_doe.cn)
    × ((set_enabled (p'.users 0) false denies online).0
        ≡ err (failed ldap "Read failed: " (pos 50)))
    × ((set_enabled (p'.users 0) false denies online).1.calls ≡ uac_read 0 jane ∷ [])
set_enabled_at_old_dn_example =
    set_enabled_at_old_dn denies online 0 panel 0 0 false online-IsReady refl refl

-- A connection is made and its list comes, with one user, whose row is selected.
abbrev connected_to : Handled
connected_to = handle dates (connected 0) (new_panel (λ r. jane))

abbrev listed : Panel
listed = (answer dates (list_request 0) (inr (jane ∷ [])) connected_to.0).0

abbrev selected : Panel
selected = (handle dates (select_row (some 0)) listed).0

-- The button for a deletion is clicked, and the name is typed.
abbrev asked : Panel
asked = (handle dates (click delete_btn) selected).0

abbrev typed : Panel
typed = (handle dates (type_name (codes "jane")) asked).0

typed-Leads : Leads dates (new_panel (λ r. jane), []) (typed, [])
unfolding handle load answer users_loaded row_selected load_user_into_detail add_rows add_row
    reload_target delete_btn_clicked confirm_entered
typed-Leads =
    next
      (next
        (next
          (next (next begin (event (connected 0) (new_panel (λ r. jane)) [] tt))
            (reply [] (list_request 0) [] (inr (jane ∷ [])) connected_to.0))
          (event (select_row (some 0)) listed [] (refl, refl, omega arith)))
        (event (click delete_btn) selected [] (refl, refl, refl)))
      (event (type_name (codes "jane")) asked [] (λ e. ground (arith, e)))

Leads-IsSteady_example : IsSteady (typed, [])
Leads-IsSteady_example = Leads-IsSteady dates (λ r. jane) (typed, []) typed-Leads

confirm_delete_clicked_lem_example :
    let new = (confirm_delete_clicked typed).1 in
    (new ≡ [])
    ⊎ ((c : ℕ) × (r : ℕ) × (new ≡ delete_request c r ∷ [])
        × (or_empty (typed.users r).sam ≡ codes "jane"))
unfolding handle load answer users_loaded row_selected load_user_into_detail add_rows add_row
    reload_target delete_btn_clicked confirm_entered bytes_eq
confirm_delete_clicked_lem_example =
    confirm_delete_clicked_lem dates (λ r. jane) typed [] (codes "jane") typed-Leads refl
