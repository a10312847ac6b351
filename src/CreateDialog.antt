-- ===== src/CreateDialog.antt =====
-- The dialogs that create an entry: src/ui/sbv-create-user-dialog.c, sbv-create-contact-dialog.c,
-- sbv-create-group-dialog.c and sbv-create-computer-dialog.c. A form is what the entries hold.
pub mod Filling
pub mod Sending
use sambervise.Base.{
  ℕ, ◌+◌, ◌==◌, Bool, true, false, not, ◌&&◌, ◌||◌, Option, none, some, List, [], ◌∷◌, ◌++◌, ◌⊎◌,
  inl, inr, if◌then◌else◌,
}
use sambervise.Base.Int.{ℤ, pos}
use sambervise.Base.Flags.{to_int32}
use sambervise.Base.Bytes.{Bytes, codes}
use sambervise.Editor.{is_nonempty}
use sambervise.Users.Create.{NewUser}
use sambervise.Contacts.Change.{NewContact}
use sambervise.Groups.Create.{NewGroup}
use sambervise.Computers.Change.{NewComputer}

-- The names of a new user or contact, with `cn_manual`. While `on_name_part_changed` sets the full
-- name, `syncing` keeps `on_cn_changed` from taking that for an edit.
pub record NameParts : Type 0 where
  pub given : Bytes
  pub sn : Bytes
  pub cn : Bytes
  pub cn_manual : Bool

-- "%s%s%s" of the given name, a space where there are both, and the surname.
abbrev pub combined : Bytes → Bytes → Bytes
combined given sn = given ++ ((if is_nonempty given && is_nonempty sn then codes " " else []) ++ sn)

-- `on_name_part_changed`.
unfoldable pub name_part_changed : NameParts → NameParts
name_part_changed n = if n.cn_manual then n else record n { cn = combined n.given n.sn }

-- `on_cn_changed`, after an edit of the user of the program.
unfoldable pub cn_changed : NameParts → NameParts
cn_changed n = record n { cn_manual = is_nonempty n.cn }

-- What the user of the program changes: one of the three texts, to a new one.
pub data NameEdit : Type 0 where
  to_given to_sn to_cn : Bytes → NameEdit

-- The text is set, and its handler runs.
unfoldable pub edit_name : NameEdit → NameParts → NameParts
unfolding name_part_changed cn_changed
edit_name (to_given s) n = name_part_changed (record n { given = s })
edit_name (to_sn s) n = name_part_changed (record n { sn = s })
edit_name (to_cn s) n = cn_changed (record n { cn = s })

-- A new dialog after some edits, the last of the list first.
unfoldable pub after_edits : List NameEdit → NameParts
unfolding edit_name
after_edits [] = record { given = []; sn = []; cn = []; cn_manual = false }
after_edits (e ∷ es) = edit_name e (after_edits es)

pub record UserForm : Type 0 where
  pub sam : Bytes
  pub name : NameParts
  pub container : Bytes

pub record ContactForm : Type 0 where
  pub name : NameParts
  pub mail : Bytes
  pub tel : Bytes
  pub container : Bytes

-- With the rows that are selected in the lists of scopes and of types.
pub record GroupForm : Type 0 where
  pub sam : Bytes
  pub desc : Bytes
  pub container : Bytes
  pub scope : ℕ
  pub type : ℕ

pub record ComputerForm : Type 0 where
  pub cn : Bytes
  pub dns : Bytes
  pub desc : Bytes
  pub container : Bytes

-- The arguments of the calls that the four `on_create_clicked` make.
abbrev pub new_user_of : UserForm → NewUser
new_user_of f = record {
  sam = some f.sam;
  cn = some f.name.cn;
  given_name = some f.name.given;
  sn = some f.name.sn;
  container_dn = some f.container;
}

abbrev pub new_contact_of : ContactForm → NewContact
new_contact_of f = record {
  cn = some f.name.cn;
  given_name = some f.name.given;
  sn = some f.name.sn;
  mail = some f.mail;
  telephone_number = some f.tel;
  container_dn = some f.container;
}

-- `scope_index_to_bit`: SBV_GT_GLOBAL, SBV_GT_DOMAIN_LOCAL and SBV_GT_UNIVERSAL.
abbrev pub scope_index_to_bit : ℕ → ℕ
scope_index_to_bit i = if i == 0 then 2 else if i == 1 then 4 else if i == 2 then 8 else 2

-- `group_type |= SBV_GT_SECURITY` on a `gint32`: the bit 31, which no scope has.
unfoldable pub group_type_of : GroupForm → ℤ
group_type_of f =
    if f.type == 0
    then to_int32 (pos (scope_index_to_bit f.scope + 0x80000000))
    else pos (scope_index_to_bit f.scope)

abbrev pub new_group_of : GroupForm → NewGroup
new_group_of f = record {
  sam = some f.sam;
  description = some f.desc;
  group_type = group_type_of f;
  container_dn = some f.container;
}

abbrev pub new_computer_of : ComputerForm → NewComputer
new_computer_of f = record {
  cn = some f.cn;
  dns_hostname = some f.dns;
  description = some f.desc;
  container_dn = some f.container;
}

-- The checks of the four `on_create_clicked`: the error, or what is sent.
unfoldable pub user_args : UserForm → Bytes ⊎ NewUser
user_args f =
    if not (is_nonempty f.sam) || (not (is_nonempty f.name.cn) || not (is_nonempty f.container))
    then inl (codes "Username, full name and container are required.")
    else inr (new_user_of f)

unfoldable pub contact_args : ContactForm → Bytes ⊎ NewContact
contact_args f =
    if not (is_nonempty f.name.cn) || not (is_nonempty f.container)
    then inl (codes "Full name and container are required.")
    else inr (new_contact_of f)

unfoldable pub group_args : GroupForm → Bytes ⊎ NewGroup
group_args f =
    if not (is_nonempty f.sam) || not (is_nonempty f.container)
    then inl (codes "Group name and container are required.")
    else inr (new_group_of f)

unfoldable pub computer_args : ComputerForm → Bytes ⊎ NewComputer
computer_args f =
    if not (is_nonempty f.cn) || not (is_nonempty f.container)
    then inl (codes "Computer name and container are required.")
    else inr (new_computer_of f)

-- The `CreateCtx` of a dialog; it is `none` once the window is destroyed and the context freed.
pub record Dialog (F : Type 0) : Type 0 where
  pub form : F
  pub error : Option Bytes
  pub busy : Bool

module _ {F A : Type 0} where
  abbrev checked : Bytes ⊎ A → Dialog F → Dialog F × Option A
  checked (inl message) d = (record d { error = some message }, none)
  checked (inr args) d = (record d { error = none; busy = true }, some args)

  -- `on_create_clicked`.
  unfoldable pub create_clicked : (F → Bytes ⊎ A) → Dialog F → Dialog F × Option A
  create_clicked args d = checked (args d.form) d

module _ {F : Type 0} where
  -- `on_create_done`, with the error or the new DN: the dialog after it, and the DN that goes to the
  -- panel. A dialog that is destroyed is used after it was freed.
  unfoldable pub create_done :
      Bytes ⊎ Bytes → Option (Dialog F) → Option (Option (Dialog F) × Option Bytes)
  create_done r none = none
  create_done (inl message) (some d) =
      some (some (record d { error = some message; busy = false }), none)
  create_done (inr new_dn) (some d) = some (none, some new_dn)
