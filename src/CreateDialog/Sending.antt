-- ===== src/CreateDialog/Sending.antt =====
-- What the dialogs send, and what the backends make of it.
use sambervise.Base.{some, ◌≡◌, ◌⊎◌, inl, inr, refl, arith, [], ◌∷◌}
use sambervise.Base.Bytes.{Bytes, is_filled}
use sambervise.Ldap.{ldap, refused}
use sambervise.Connection.{Action, raise}
use sambervise.Users.Create.{create_user, create_user_thread}
use sambervise.Contacts.Change.{create_contact, create_contact_thread}
use sambervise.Groups.Create.{create_group, create_group_thread}
use sambervise.Computers.Change.{create_computer, create_computer_thread}
use sambervise.Editor.{is_nonempty}
use sambervise.CreateDialog.{
  UserForm, ContactForm, GroupForm, ComputerForm, new_user_of, new_contact_of, new_group_of,
  new_computer_of, user_args, contact_args, group_args, computer_args,
}

abbrev pub runs : {A : Type 0} → (A → Action Bytes) → Action Bytes → Bytes ⊎ A → Action Bytes
runs thread refusal (inl _) = refusal
runs thread refusal (inr args) = thread args

filled_text : (s : Bytes) → is_filled (some s) ≡ is_nonempty s
filled_text [] = refl
filled_text (c ∷ s) = refl

user_accepted :
    (f : UserForm)
    → create_user (new_user_of f)
      ≡ runs create_user_thread
          (raise (refused ldap "Username, full name and container are required"))
          (user_args f)
unfolding create_user user_args
user_accepted f = ground (arith, filled_text f.sam, filled_text f.name.cn, filled_text f.container)

contact_accepted :
    (k : ContactForm)
    → create_contact (new_contact_of k)
      ≡ runs create_contact_thread
          (raise (refused ldap "Name and container are required"))
          (contact_args k)
unfolding create_contact contact_args
contact_accepted k = ground (arith, filled_text k.name.cn, filled_text k.container)

group_accepted :
    (g : GroupForm)
    → create_group (new_group_of g)
      ≡ runs create_group_thread
          (raise (refused ldap "Group name and container are required"))
          (group_args g)
unfolding create_group group_args
group_accepted g = ground (arith, filled_text g.sam, filled_text g.container)

computer_accepted :
    (m : ComputerForm)
    → create_computer (new_computer_of m)
      ≡ runs create_computer_thread
          (raise (refused ldap "Computer name and container are required"))
          (computer_args m)
unfolding create_computer computer_args
computer_accepted m = ground (arith, filled_text m.cn, filled_text m.container)

-- In each of the four dialogs the check before the call is that of the backend: what the dialog sends
-- goes to the backend's thread, and what it does not send the backend would refuse.
pub args_accepted :
    (f : UserForm) (k : ContactForm) (g : GroupForm) (m : ComputerForm)
    → (create_user (new_user_of f)
        ≡ runs create_user_thread
            (raise (refused ldap "Username, full name and container are required"))
            (user_args f))
      × (create_contact (new_contact_of k)
          ≡ runs create_contact_thread
              (raise (refused ldap "Name and container are required"))
              (contact_args k))
      × (create_group (new_group_of g)
          ≡ runs create_group_thread
              (raise (refused ldap "Group name and container are required"))
              (group_args g))
      × (create_computer (new_computer_of m)
          ≡ runs create_computer_thread
              (raise (refused ldap "Computer name and container are required"))
              (computer_args m))
args_accepted f k g m = (user_accepted f, contact_accepted k, group_accepted g, computer_accepted m)
