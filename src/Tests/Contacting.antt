-- ===== src/Tests/Contacting.antt =====
-- The theorems on the panel of the contacts, on contacts of the same name.
use sambervise.Base.{if◌then◌else◌, arith, ℕ, ◌≡◌, refl, true, none, some, List, [], ◌∷◌}
use sambervise.Base.Bytes.{Bytes, codes, bytes_eq, c_string}
use sambervise.Ldap.{Call, Mod}
use sambervise.Panel.{split}
use sambervise.Contacts.{Contact, read_contact}
use sambervise.Contacts.Change.{update_contact}
use sambervise.Editor.Saving.{Attrs, apply_all}
use sambervise.Editor.Text.{chug, chomp}
use sambervise.ContactPanel.Lines.{AreLines, strv_to_lines}
use sambervise.ContactPanel.{
  ContactPanel, form_of, update_contact_request, delete_contact_request, contacts_loaded,
}
use sambervise.ContactPanel.Saving.{
  save_clicked, delete_clicked, confirm_entered, delete_confirmed, idle,
}
use sambervise.ContactPanel.Writing.{shown_values, replaced, save_clicked_writes}
use sambervise.ContactPanel.Reading.{entry_of, save_clicked_read_back}
use sambervise.ContactPanel.Homonyms.{delete_confirmed_homonym}
use sambervise.Tests.{accepts, online, online-IsReady}

abbrev pub ann_in : Bytes → Contact
ann_in dn = record {
  dn = some dn;
  cn = some (codes "ann");
  display_name = none;
  given_name = none;
  sn = none;
  description = none;
  mail = some (codes "ann@x");
  proxy_addresses = some (codes "smtp:ann@x" ∷ codes "smtp:a@x" ∷ []);
  telephone_number = none;
  mobile = none;
  fax = none;
  office = none;
  street_address = none;
  locality = none;
  state = none;
  postal_code = none;
  country = none;
  ldap_attrs = [];
}

abbrev ann : Contact
ann = ann_in (codes "CN=ann,OU=staff,DC=x")

abbrev other_ann : Contact
other_ann = ann_in (codes "CN=ann,OU=clients,DC=x")

-- One contact, which is selected.
abbrev panel : ContactPanel
panel = record {
  form = form_of ann;
  outer = split;
  detail_shown = true;
  save_btn = idle;
  delete_btn = idle;
  conn = some 0;
  selected_contact = some 0;
  pending_select_dn = none;
  rows = 0 ∷ [];
  contacts = λ r. ann;
  unused = 1;
  confirm = none;
}

save_clicked_writes_example :
    (d : Contact) × ((save_clicked panel).1 ≡ update_contact_request 0 0 d ∷ [])
    × (ms : List Mod) × ((update_contact ann d accepts online).1.calls
        ≡ Call.modify 0 ann.dn ms ∷ [])
    × ((b : Bytes)
        → apply_all ms (λ a. codes "old" ∷ []) b
          ≡ replaced (shown_values (form_of ann)) (λ a. codes "old" ∷ []) b)
unfolding form_of
save_clicked_writes_example =
    save_clicked_writes accepts online 0 panel 0 0 (λ a. codes "old" ∷ []) online-IsReady refl refl
      refl

-- The entry has the name, and other values of everything else.
abbrev old : Attrs
old b = (if bytes_eq b (codes "cn") then codes "ann" else codes "old") ∷ []

ann-AreLines : AreLines (codes "smtp:ann@x" ∷ codes "smtp:a@x" ∷ [])
unfolding chug chomp
ann-AreLines = (
  record { filled = λ e. ground (arith, e); lacks = ground arith; stripped = refl },
  (record { filled = λ e. ground (arith, e); lacks = ground arith; stripped = refl }, tt),
)

save_clicked_read_back_example :
    (d : Contact) × ((save_clicked panel).1 ≡ update_contact_request 0 0 d ∷ [])
    × (ms : List Mod) × ((update_contact ann d accepts online).1.calls
        ≡ Call.modify 0 ann.dn ms ∷ [])
    × (form_of (read_contact accepts (entry_of (apply_all ms old))) ≡ form_of ann)
unfolding form_of bytes_eq c_string strv_to_lines
save_clicked_read_back_example =
    save_clicked_read_back accepts online 0 panel 0 0 old
      (codes "smtp:ann@x" ∷ codes "smtp:a@x" ∷ []) online-IsReady refl refl refl refl
      (
        refl,
        (
          refl,
          (
            refl,
            (
              refl,
              (
                refl,
                (refl, (refl, (refl, (refl, (refl, (refl, (refl, (refl, (refl, (refl, tt)))))))))),
              ),
            ),
          ),
        ),
      )
      refl ann-AreLines (refl, (refl, tt))

delete_confirmed_homonym_example :
    let p₁ = contacts_loaded (other_ann ∷ ann ∷ []) panel in
    let p₂ = confirm_entered (codes "ann") (delete_clicked p₁) in
    (s : ℕ) × (p₁.selected_contact ≡ some s)
    × (p₁.contacts s ≡ other_ann)
    × (p₂.confirm ≡ some (codes "ann", true))
    × ((delete_confirmed p₂).1 ≡ delete_contact_request 0 s ∷ [])
delete_confirmed_homonym_example =
    delete_confirmed_homonym panel 0 0 (codes "ann") [] other_ann (ann ∷ []) refl refl refl refl
      refl tt refl
