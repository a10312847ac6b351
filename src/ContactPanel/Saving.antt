-- ===== src/ContactPanel/Saving.antt =====
-- src/ui/sbv-contacts-panel.c: the buttons that change a contact, and what their callbacks do.
use sambervise.Base.{ℕ, Bool, true, false, Option, none, some, [], ◌∷◌, if◌then◌else◌}
use sambervise.Base.Bytes.{Bytes, bytes_eq, is_filled, or_empty}
use sambervise.Contacts.{Contact}
use sambervise.Panel.{ButtonState, both}
use sambervise.ContactPanel.{
  ContactPanel, Form, Handled, update_contact_request, delete_contact_request, load_contacts,
}
use sambervise.ContactPanel.Lines.{lines_to_strv}

abbrev pub idle : ButtonState
idle = record { sensitive = true; error = none }

abbrev pub busy : ButtonState
busy = record { sensitive = false; error = none }

abbrev pub failed : Bytes → ButtonState
failed message = record { sensitive = true; error = some message }

-- The arguments of the update. The name is passed on only where it was changed; `dn` and
-- `ldap_attrs` are not looked at.
unfoldable pub update_of : Option Bytes → Form → Contact
unfolding lines_to_strv
update_of loaded_cn f = record {
  dn = none;
  cn = if bytes_eq f.cn (or_empty loaded_cn) then none else some f.cn;
  display_name = some f.display_name;
  given_name = some f.given_name;
  sn = some f.sn;
  description = some f.description;
  mail = some f.mail;
  proxy_addresses = some (lines_to_strv f.proxy);
  telephone_number = some f.telephone_number;
  mobile = some f.mobile;
  fax = some f.fax;
  office = some f.office;
  street_address = some f.street_address;
  locality = some f.locality;
  state = some f.state;
  postal_code = some f.postal_code;
  country = some f.country;
  ldap_attrs = [];
}

-- `on_save_clicked`.
unfoldable pub save_clicked : ContactPanel → Handled
unfolding update_of
save_clicked p = elim (both p.conn p.selected_contact) [
  | none ↦ (p, [])
  | some (c, r) ↦ (
    record p { save_btn = busy },
    update_contact_request c r (update_of (p.contacts r).cn p.form) ∷ [],
  )
]

-- `on_update_done`.
unfoldable pub update_done : ℕ → Option Bytes → ContactPanel → Handled
unfolding load_contacts
update_done c (some message) p = (record p { save_btn = failed message }, [])
update_done c none p =
    load_contacts c (record p { save_btn = record { sensitive = true; error = p.save_btn.error } })

-- `on_contact_created`.
unfoldable pub contact_created : ℕ → Bytes → ContactPanel → Handled
unfolding load_contacts
contact_created c new_dn p = load_contacts c (record p { pending_select_dn = some new_dn })

abbrev opened_if : Bool → Bytes → ContactPanel → ContactPanel
opened_if true cn p = record p { confirm = some (cn, false) }
opened_if false cn p = p

-- `show_delete_confirm`: a contact without a name has no dialog.
abbrev pub show_delete_confirm : Option ℕ → ContactPanel → ContactPanel
show_delete_confirm none p = p
show_delete_confirm (some r) p =
    opened_if (is_filled (p.contacts r).cn) (or_empty (p.contacts r).cn) p

-- `on_delete_btn_clicked`.
unfoldable pub delete_clicked : ContactPanel → ContactPanel
delete_clicked p = show_delete_confirm p.selected_contact p

abbrev typed_name : Bytes → Option (Bytes × Bool) → Option (Bytes × Bool)
typed_name typed none = none
typed_name typed (some (expected, _)) = some (expected, bytes_eq typed expected)

-- `on_confirm_entry_changed`.
unfoldable pub confirm_entered : Bytes → ContactPanel → ContactPanel
confirm_entered typed p = record p { confirm = typed_name typed p.confirm }

-- `on_confirm_delete_clicked`.
unfoldable pub delete_confirmed : ContactPanel → Handled
delete_confirmed p = elim (both p.conn p.selected_contact) [
  | none ↦ (record p { confirm = none }, [])
  | some (c, r) ↦ (record p { confirm = none; delete_btn = busy }, delete_contact_request c r ∷ [])
]

-- `on_delete_done`.
unfoldable pub delete_done : ℕ → Option Bytes → ContactPanel → Handled
unfolding load_contacts
delete_done c (some message) p = (record p { delete_btn = failed message }, [])
delete_done c none p = load_contacts c (record p {
  delete_btn = record { sensitive = true; error = p.delete_btn.error };
  selected_contact = none;
})
