-- ===== src/Filter.antt =====
-- The filters of the lists: `filter_func` and `on_search_changed` of src/ui/sbv-users-panel.c,
-- sbv-contacts-panel.c, sbv-computers-panel.c and sbv-groups-panel.c, and `add_dialog_filter` of the
-- last. `g_utf8_strdown` is a parameter.
pub mod Shown
use sambervise.Base.{
  Bool, true, false, not, ◌||◌, ◌&&◌, ◌==◌, Option, none, some, List, [], ◌∷◌, if◌then◌else◌,
}
use sambervise.Base.Bytes.{Bytes, is_filled, or_empty}
use sambervise.Users.{User}
use sambervise.Groups.{Group}
use sambervise.Computers.{Computer}
use sambervise.Contacts.{Contact}
use sambervise.Editor.{is_nonempty}

abbrev pub starts_with : Bytes → Bytes → Bool
starts_with [] s = true
starts_with (c ∷ t) [] = false
starts_with (c ∷ t) (d ∷ s) = c == d && starts_with t s

-- `strstr (s, t) != NULL`.
unfoldable pub contains : Bytes → Bytes → Bool
contains t [] = starts_with t []
contains t (c ∷ s) = starts_with t (c ∷ s) || contains t s

abbrev pub user_fields : User → List (Option Bytes)
user_fields u = u.display_name ∷ u.cn ∷ u.sam ∷ u.email ∷ []

abbrev pub contact_fields : Contact → List (Option Bytes)
contact_fields k = k.display_name ∷ k.cn ∷ k.mail ∷ k.telephone_number ∷ []

abbrev pub computer_fields : Computer → List (Option Bytes)
computer_fields k = k.cn ∷ k.sam ∷ k.dns_hostname ∷ k.description ∷ []

abbrev pub group_fields : Group → List (Option Bytes)
group_fields g = g.display_name ∷ g.sam ∷ []

abbrev pub candidate_fields : User → List (Option Bytes)
candidate_fields u = u.display_name ∷ u.cn ∷ u.sam ∷ []

module _ (strdown : Bytes → Bytes) where
  -- `on_search_changed`: no filter for no text.
  unfoldable pub filter_text : Bytes → Option Bytes
  filter_text typed = if is_nonempty typed then some (strdown typed) else none

  -- The loop that counts the fields, and skips those that are NULL.
  unfoldable pub any_field : Bytes → List (Option Bytes) → Bool
  any_field t [] = false
  any_field t (none ∷ fs) = any_field t fs
  any_field t (some s ∷ fs) = contains t (strdown s) || any_field t fs

  -- The loop that ends at the first NULL.
  unfoldable pub any_field_until_null : Bytes → List (Option Bytes) → Bool
  any_field_until_null t [] = false
  any_field_until_null t (none ∷ fs) = false
  any_field_until_null t (some s ∷ fs) = contains t (strdown s) || any_field_until_null t fs

  -- Whether the row of a user, a contact, a computer or a group is shown under a filter.
  unfoldable pub user_shown : Option Bytes → User → Bool
  unfolding any_field
  user_shown filter u = not (is_filled filter) || any_field (or_empty filter) (user_fields u)

  unfoldable pub contact_shown : Option Bytes → Contact → Bool
  unfolding any_field
  contact_shown filter k = not (is_filled filter) || any_field (or_empty filter) (contact_fields k)

  unfoldable pub computer_shown : Option Bytes → Computer → Bool
  unfolding any_field_until_null
  computer_shown filter k =
      not (is_filled filter) || any_field_until_null (or_empty filter) (computer_fields k)

  unfoldable pub group_shown : Option Bytes → Group → Bool
  unfolding any_field_until_null
  group_shown filter g =
      not (is_filled filter) || any_field_until_null (or_empty filter) (group_fields g)

  -- The row of a user in the dialog that adds a member.
  unfoldable pub candidate_shown : Option Bytes → User → Bool
  unfolding any_field_until_null
  candidate_shown filter u =
      not (is_filled filter) || any_field_until_null (or_empty filter) (candidate_fields u)
