-- ===== src/GroupPanel/Members.antt =====
-- src/ui/sbv-groups-panel.c: members that are removed and added. A handler that uses what has been
-- freed gives `none`.
use sambervise.Base.{
  ℕ, suc, ◌==◌, Bool, true, false, Option, none, some, List, [], ◌∷◌, if◌then◌else◌,
}
use sambervise.Base.Bytes.{Bytes}
use sambervise.Users.{User}
use sambervise.Panel.{both}
use sambervise.GroupPanel.{
  GroupPanel, Handled, AddDialog, list_users_request, add_member_request, remove_member_request,
  load_groups,
}

abbrev remove_for : Option (ℕ × ℕ) → Bytes → ℕ → GroupPanel → Handled
remove_for none member x p = (p, [])
remove_for (some (c, r)) member x p =
    (record p { member_error = none }, remove_member_request c r member x ∷ [])

-- `on_remove_clicked`, on the context of the button.
unfoldable pub remove_clicked : ℕ → GroupPanel → Option Handled
remove_clicked x p = elim (p.contexts x) [
  | none ↦ none
  | some member ↦ some (remove_for (both p.conn p.selected_group) member x p)
]

abbrev pub free_context : ℕ → GroupPanel → GroupPanel
free_context x p = record p { contexts = λ y. if y == x then none else p.contexts y }

abbrev remove_shown : ℕ → Option Bytes → GroupPanel → Handled
remove_shown c (some message) p = (record p { member_error = some message }, [])
remove_shown c none p = load_groups c p

-- `on_remove_done`: after an error the rows of members stay.
unfoldable pub remove_done : ℕ → ℕ → Option Bytes → GroupPanel → Option Handled
unfolding load_groups
remove_done c x err p = elim (p.contexts x) [
  | none ↦ none
  | some member ↦ some (remove_shown c err (free_context x p))
]

-- `on_add_member_btn_clicked` with `show_add_member_dialog`.
abbrev open_add : Option ℕ → GroupPanel → Handled
open_add none p = (p, [])
open_add (some c) p = (
  record p {
    add_dialog =
        some
          (record { number = p.unused_dialog; users = []; selected = none; add_sensitive = false });
    unused_dialog = suc p.unused_dialog;
  },
  list_users_request c p.unused_dialog ∷ [],
)

unfoldable pub add_member_btn_clicked : GroupPanel → Handled
add_member_btn_clicked p = open_add p.conn p

-- The dialog with a number, where it is still there.
abbrev live : ℕ → Option AddDialog → Option AddDialog
live n none = none
live n (some a) = if a.number == n then some a else none

-- `on_add_dialog_users_loaded`, with the users, or none after an error.
unfoldable pub add_dialog_users_loaded : ℕ → List User → GroupPanel → Option GroupPanel
add_dialog_users_loaded n us p = elim (live n p.add_dialog) [
  | none ↦ none
  | some a ↦ some (record p { add_dialog = some (record a { users = us }) })
]

abbrev is_some : Option User → Bool
is_some none = false
is_some (some _) = true

-- `on_add_dialog_row_selected`.
unfoldable pub add_dialog_row_selected : Option User → GroupPanel → GroupPanel
add_dialog_row_selected u p = elim p.add_dialog [
  | none ↦ p
  | some a ↦ record p { add_dialog = some (record a { selected = u; add_sensitive = is_some u }) }
]

abbrev add_for : Option (ℕ × ℕ) → Option Bytes → AddDialog → GroupPanel → Handled
add_for (some (c, r)) (some dn) a p = (
  record p { add_dialog = some (record a { add_sensitive = false }) },
  add_member_request c r dn a.number ∷ [],
)
add_for (some _) none a p = (p, [])
add_for none _ a p = (p, [])

-- `on_add_btn_clicked`, in the dialog.
unfoldable pub add_btn_clicked : GroupPanel → Handled
add_btn_clicked p = elim p.add_dialog [
  | none ↦ (p, [])
  | some a ↦ elim a.selected [
    | none ↦ (p, [])
    | some u ↦ add_for (both p.conn p.selected_group) u.dn a p
  ]
]

-- The window of the dialog is closed, and `on_add_dialog_destroy` frees its context.
abbrev pub close_add : GroupPanel → GroupPanel
close_add p = record p { add_dialog = none }

-- `on_add_member_done`: the window of the dialog is used where the member was added.
unfoldable pub add_member_done : ℕ → ℕ → Option Bytes → GroupPanel → Option Handled
unfolding load_groups
add_member_done c n (some message) p = some (record p { member_error = some message }, [])
add_member_done c n none p = elim (live n p.add_dialog) [
  | none ↦ none
  | some a ↦ some (load_groups c (close_add p))
]
