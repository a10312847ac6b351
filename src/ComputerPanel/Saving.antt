-- ===== src/ComputerPanel/Saving.antt =====
-- src/ui/sbv-computers-panel.c: the buttons that change a computer, and what their callbacks do.
use sambervise.Base.{
  ℕ, ◌==◌, Bool, true, false, not, Option, none, some, List, [], ◌∷◌, if◌then◌else◌,
}
use sambervise.Base.Bytes.{Bytes, bytes_eq, is_filled, or_empty}
use sambervise.Computers.{Computer}
use sambervise.Panel.{ButtonState, both}
use sambervise.SpnEditor.{SpnEditor, save_clicked, save_failed}
use sambervise.ComputerPanel.{
  ComputerPanel, Handled, Request, update_computer_request, set_enabled_request, set_spn_request,
  delete_computer_request, load_computers,
}

abbrev pub idle : ButtonState
idle = record { sensitive = true; error = none }

abbrev pub busy : ButtonState
busy = record { sensitive = false; error = none }

abbrev pub failed : Bytes → ButtonState
failed message = record { sensitive = true; error = some message }

abbrev bool_neq : Bool → Bool → Bool
bool_neq a b = if a then not b else b

-- `on_save_clicked`.
unfoldable pub attrs_save_clicked : ComputerPanel → Handled
attrs_save_clicked p = elim (both p.conn p.selected_computer) [
  | none ↦ (p, [])
  | some (c, r) ↦ (
    record p { save_btn = busy },
    update_computer_request c r p.description p.dns_hostname
          (bool_neq p.enabled (p.computers r).enabled) p.enabled
        ∷ [],
  )
]

-- The value of a computer is written.
abbrev put_computer : ℕ → Computer → ComputerPanel → ComputerPanel
put_computer r k p = record p { computers = λ r'. if r' == r then k else p.computers r' }

-- The texts go to the computer that is selected.
unfoldable pub update_model : ComputerPanel → ComputerPanel
update_model p = elim p.selected_computer [
  | none ↦ p
  | some r ↦
      put_computer r
        (record (p.computers r) {
          description = some p.description;
          dns_hostname = some p.dns_hostname;
        })
        p
]

-- `on_update_attrs_done`.
unfoldable pub attrs_done : ℕ → Bool → Bool → Option Bytes → ComputerPanel → Handled
unfolding update_model load_computers
attrs_done c need_enabled_change new_enabled (some message) p =
    (record p { save_btn = failed message }, [])
attrs_done c need_enabled_change new_enabled none p =
    if need_enabled_change
    then (update_model p, set_enabled_request c p.selected_computer new_enabled ∷ [])
    else load_computers c (record (update_model p) {
      save_btn = record { sensitive = true; error = p.save_btn.error };
    })

unfoldable pub enable_model : Bool → ComputerPanel → ComputerPanel
enable_model enabled p = elim p.selected_computer [
  | none ↦ p
  | some r ↦ put_computer r (record (p.computers r) { enabled = enabled }) p
]

-- `on_set_enabled_after_save`.
unfoldable pub enabled_done : ℕ → Bool → Option Bytes → ComputerPanel → Handled
unfolding enable_model load_computers
enabled_done c enabled (some message) p = (record p { save_btn = failed message }, [])
enabled_done c enabled none p = load_computers c (
    enable_model enabled
      (record p { save_btn = record { sensitive = true; error = p.save_btn.error } }))

-- `on_computer_created`.
unfoldable pub computer_created : ℕ → Bytes → ComputerPanel → Handled
unfolding load_computers
computer_created c new_dn p = load_computers c (record p { pending_select_dn = some new_dn })

abbrev opened_if : Bool → Bytes → ComputerPanel → ComputerPanel
opened_if true sam p = record p { confirm = some (sam, false) }
opened_if false sam p = p

-- `show_computer_delete_confirm`.
abbrev pub show_computer_delete_confirm : Option ℕ → ComputerPanel → ComputerPanel
show_computer_delete_confirm none p = p
show_computer_delete_confirm (some r) p =
    opened_if (is_filled (p.computers r).sam) (or_empty (p.computers r).sam) p

-- `on_delete_computer_btn_clicked`.
unfoldable pub computer_delete_clicked : ComputerPanel → ComputerPanel
computer_delete_clicked p = show_computer_delete_confirm p.selected_computer p

abbrev typed_name : Bytes → Option (Bytes × Bool) → Option (Bytes × Bool)
typed_name typed none = none
typed_name typed (some (expected, _)) = some (expected, bytes_eq typed expected)

-- `on_confirm_computer_entry_changed`.
unfoldable pub computer_confirm_entered : Bytes → ComputerPanel → ComputerPanel
computer_confirm_entered typed p = record p { confirm = typed_name typed p.confirm }

-- `on_confirm_computer_delete_clicked`.
unfoldable pub computer_delete_confirmed : ComputerPanel → Handled
computer_delete_confirmed p = elim (both p.conn p.selected_computer) [
  | none ↦ (record p { confirm = none }, [])
  | some (c, r) ↦ (record p { confirm = none; delete_btn = busy }, delete_computer_request c r ∷ [])
]

-- `on_computer_delete_done`.
unfoldable pub computer_delete_done : ℕ → Option Bytes → ComputerPanel → Handled
unfolding load_computers
computer_delete_done c (some message) p = (record p { delete_btn = failed message }, [])
computer_delete_done c none p = load_computers c (record p {
  delete_btn = record { sensitive = true; error = p.delete_btn.error };
  selected_computer = none;
})

-- An edit of the names: `on_spn_add_clicked`, `on_spn_remove_clicked` and the entry.
unfoldable pub spn_edited : (SpnEditor → SpnEditor) → ComputerPanel → ComputerPanel
spn_edited f p = record p { editor = elim p.editor [ none ↦ none | some e ↦ some (f e) ] }

-- The calls of a click on "Save SPNs".
abbrev spn_calls : ℕ → ℕ → Option (List Bytes) → List Request
spn_calls c r none = []
spn_calls c r (some spns) = set_spn_request c r spns ∷ []

abbrev spn_saved_by : ℕ × ℕ → Option SpnEditor → ComputerPanel → Handled
spn_saved_by cr none p = (p, [])
spn_saved_by (c, r) (some e) p =
    (record p { editor = some (save_clicked e).0 }, spn_calls c r (save_clicked e).1)

-- `on_spn_save_clicked`.
unfoldable pub spn_save_clicked : ComputerPanel → Handled
unfolding save_clicked
spn_save_clicked p = elim (both p.conn p.selected_computer) [
  | none ↦ (p, [])
  | some cr ↦ spn_saved_by cr p.editor p
]

-- `on_spn_save_done`.
unfoldable pub spn_save_done : ℕ → Option Bytes → ComputerPanel → Handled
unfolding save_failed load_computers spn_edited
spn_save_done c (some message) p = (spn_edited (save_failed message) p, [])
spn_save_done c none p = load_computers c p
