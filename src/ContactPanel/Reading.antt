-- ===== src/ContactPanel/Reading.antt =====
-- src/ui/sbv-contacts-panel.c with src/backend/sbv-contacts-backend.c: a form that is saved, and the
-- form of the contact that is read from its entry afterwards.
use sambervise.Base.{◌≡◌, refl, ap, ◌∙◌, ℕ, Option, none, some, List, [], ◌∷◌, map}
use sambervise.Base.Bytes.{Bytes, codes, bytes_eq, c_string, or_empty}
use sambervise.Ldap.{Call, Entry, Handle, Library, Mod, first_value}
use sambervise.Connection.{World}
use sambervise.Connection.Valid.{IsReady}
use sambervise.Backend.{text_value, text_values}
use sambervise.Contacts.{Contact, read_contact}
use sambervise.Contacts.Change.{update_contact}
use sambervise.Editor.Saving.{Attrs, apply_all}
use sambervise.ContactPanel.{ContactPanel, Form, form_of, lines_of, update_contact_request}
use sambervise.ContactPanel.Lines.{
  strv_to_lines, lines_to_strv, AreLines, lines_to_strv-strv_to_lines,
}
use sambervise.ContactPanel.Saving.{save_clicked}
use sambervise.ContactPanel.Writing.{one, shown_values, replaced, save_clicked_writes}

-- What a search returns of the attributes of an entry: those without a value are not there.
abbrev or_absent : List Bytes → Option (List Bytes)
or_absent [] = none
or_absent (v ∷ vs) = some (v ∷ vs)

abbrev pub entry_of : Attrs → Entry
entry_of g = record { dn = none; names = []; values = λ b. or_absent (g b) }

-- Texts without a zero byte, as those of widgets are.
abbrev pub AreTexts : List Bytes → Type 0
AreTexts [] = Unit
AreTexts (t ∷ ts) = (c_string t ≡ t) × AreTexts ts

abbrev pub texts_of : Form → List Bytes
texts_of f =
    f.cn ∷ f.display_name ∷ f.given_name ∷ f.sn ∷ f.description ∷ f.mail ∷ f.telephone_number
    ∷ f.mobile ∷ f.fax ∷ f.office ∷ f.street_address ∷ f.locality ∷ f.state ∷ f.postal_code
    ∷ f.country ∷ []

text_read :
    (g : Attrs) (attr t : Bytes)
    → c_string t ≡ t
    → g attr ≡ one t
    → or_empty (text_value attr (entry_of g)) ≡ t
unfolding text_value first_value
text_read g attr [] text e = ap (λ vs. or_empty (text_value attr (entry_of (λ b. vs)))) e
text_read g attr (c ∷ t) text e =
    ap (λ vs. or_empty (text_value attr (entry_of (λ b. vs)))) e ∙ text

texts_kept : (us : List Bytes) → AreTexts us → map c_string us ≡ us
texts_kept [] h = refl
texts_kept (u ∷ us) (h, hs) = rw (h, texts_kept us hs) refl

lines_read :
    (g : Attrs) (attr : Bytes) (vs : List Bytes)
    → AreTexts vs
    → g attr ≡ vs
    → lines_of (text_values attr (entry_of g)) ≡ strv_to_lines vs
unfolding text_values strv_to_lines
lines_read g attr [] texts e = ap (λ us. lines_of (text_values attr (entry_of (λ b. us)))) e
lines_read g attr (v ∷ vs) texts e =
    ap (λ us. lines_of (text_values attr (entry_of (λ b. us)))) e
    ∙ ap strv_to_lines (texts_kept (v ∷ vs) texts)

-- The form of an entry that has what a form shows.
form_read :
    (lib : Library) (f : Form) (g h : Attrs) (vs : List Bytes)
    → ((b : Bytes) → h b ≡ replaced (shown_values f) g b)
    → g (codes "cn") ≡ one f.cn
    → AreTexts (texts_of f)
    → f.proxy ≡ strv_to_lines vs
    → AreLines vs
    → AreTexts vs
    → form_of (read_contact lib (entry_of h)) ≡ f
unfolding form_of read_contact bytes_eq
form_read lib f g h vs same cn
      (
        t,
        (t1, (t2, (t3, (t4, (t5, (t6, (t7, (t8, (t9, (t10, (t11, (t12, (t13, (t14, _)))))))))))))),
      )
      shown lines texts =
    rw
      (
        text_read h (codes "cn") f.cn t (same (codes "cn") ∙ cn),
        text_read h (codes "displayName") f.display_name t1 (same (codes "displayName")),
        text_read h (codes "givenName") f.given_name t2 (same (codes "givenName")),
        text_read h (codes "sn") f.sn t3 (same (codes "sn")),
        text_read h (codes "description") f.description t4 (same (codes "description")),
        text_read h (codes "mail") f.mail t5 (same (codes "mail")),
        text_read h (codes "telephoneNumber") f.telephone_number t6
            (same (codes "telephoneNumber")),
        text_read h (codes "mobile") f.mobile t7 (same (codes "mobile")),
        text_read h (codes "facsimileTelephoneNumber") f.fax t8
            (same (codes "facsimileTelephoneNumber")),
        text_read h (codes "physicalDeliveryOfficeName") f.office t9
            (same (codes "physicalDeliveryOfficeName")),
        text_read h (codes "streetAddress") f.street_address t10 (same (codes "streetAddress")),
        text_read h (codes "l") f.locality t11 (same (codes "l")),
        text_read h (codes "st") f.state t12 (same (codes "st")),
        text_read h (codes "postalCode") f.postal_code t13 (same (codes "postalCode")),
        text_read h (codes "co") f.country t14 (same (codes "co")),
        lines_read h (codes "proxyAddresses") vs texts (
            same (codes "proxyAddresses")
            ∙ (ap lines_to_strv shown ∙ lines_to_strv-strv_to_lines vs lines)),
        ← shown,
      )
      refl

-- On a connection that is up, with a contact selected whose name is as it was loaded and as the entry
-- has it, and a form of texts without a zero byte, in which the addresses stand one to a line with no
-- white space around them: a save makes one modification of the entry, and the form of the contact
-- that is read from the entry after it is the form that was saved.
pub save_clicked_read_back :
    (lib : Library) (w : World) (h : Handle) (p : ContactPanel) (c r : ℕ) (g : Attrs)
    (vs : List Bytes)
    → IsReady h w
    → p.conn ≡ some c
    → p.selected_contact ≡ some r
    → p.form.cn ≡ or_empty (p.contacts r).cn
    → g (codes "cn") ≡ one p.form.cn
    → AreTexts (texts_of p.form)
    → p.form.proxy ≡ strv_to_lines vs
    → AreLines vs
    → AreTexts vs
    → (d : Contact) × ((save_clicked p).1 ≡ update_contact_request c r d ∷ [])
      × (ms : List Mod) × ((update_contact (p.contacts r) d lib w).1.calls
          ≡ Call.modify h (p.contacts r).dn ms ∷ w.calls)
      × (form_of (read_contact lib (entry_of (apply_all ms g))) ≡ p.form)
save_clicked_read_back lib w h p c r g vs ready conn selected same cn texts shown lines kept =
    let (d, sent, ms, made, after) = save_clicked_writes lib w h p c r g ready conn selected same in
    (d, sent, ms, made, form_read lib p.form g (apply_all ms g) vs after cn texts shown lines kept)
