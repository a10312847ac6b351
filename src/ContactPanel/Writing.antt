-- ===== src/ContactPanel/Writing.antt =====
-- src/ui/sbv-contacts-panel.c with src/backend/sbv-contacts-backend.c: what a save of the form does
-- to the entry of the contact.
use sambervise.Base.{
  ◌≡◌, refl, sym, ap, ◌∙◌, false, inl, inr, ℕ, String, Option, some, List, [], ◌∷◌, ◌++◌, map,
  arith, Bool-cases, if◌then◌else◌,
}
use sambervise.Base.Bytes.{Bytes, codes, bytes_eq, bytes_eq_iff, bytes_eq_refl, is_filled, or_empty}
use sambervise.Ldap.{Call, Handle, Library, Mod}
use sambervise.Connection.{World}
use sambervise.Connection.Valid.{IsReady}
use sambervise.Backend.{edit_mod, modify_if_any}
use sambervise.Contacts.{Contact}
use sambervise.Contacts.Change.{proxy_mod, contact_mods, update_contact}
use sambervise.Editor.Text.{member}
use sambervise.Editor.Sets.{AreDistinct}
use sambervise.Editor.Saving.{Attrs, at, apply_all}
use sambervise.ContactPanel.{ContactPanel, Form, update_contact_request}
use sambervise.ContactPanel.Lines.{lines_to_strv}
use sambervise.ContactPanel.Saving.{update_of, save_clicked}

abbrev pub one : Bytes → List Bytes
one [] = []
one (c ∷ s) = (c ∷ s) ∷ []

-- The attributes that the form has, with the values that it shows.
abbrev pub shown_values : Form → List (Bytes × List Bytes)
shown_values f =
    (codes "displayName", one f.display_name)
    ∷ (codes "givenName", one f.given_name)
    ∷ (codes "sn", one f.sn)
    ∷ (codes "description", one f.description)
    ∷ (codes "mail", one f.mail)
    ∷ (codes "telephoneNumber", one f.telephone_number)
    ∷ (codes "mobile", one f.mobile)
    ∷ (codes "facsimileTelephoneNumber", one f.fax)
    ∷ (codes "physicalDeliveryOfficeName", one f.office)
    ∷ (codes "streetAddress", one f.street_address)
    ∷ (codes "l", one f.locality)
    ∷ (codes "st", one f.state)
    ∷ (codes "postalCode", one f.postal_code)
    ∷ (codes "co", one f.country)
    ∷ (codes "proxyAddresses", lines_to_strv f.proxy)
    ∷ []

-- The entry with these attributes in place of its own.
abbrev pub replaced : List (Bytes × List Bytes) → Attrs → Attrs
replaced [] g b = g b
replaced ((a, vs) ∷ ts) g b = let rest = replaced ts g b in if bytes_eq b a then vs else rest

-- The same, one after another.
abbrev assign_all : List (Bytes × List Bytes) → Attrs → Attrs
assign_all [] g = g
assign_all ((a, vs) ∷ ts) g = assign_all ts (at a vs g)

abbrev first_of : Bytes × List Bytes → Bytes
first_of t = t.0

assign_all-other :
    (ts : List (Bytes × List Bytes)) (g : Attrs) (b : Bytes)
    → member b (map first_of ts) ≡ false
    → assign_all ts g b ≡ g b
assign_all-other [] g b h = refl
assign_all-other ((a, vs) ∷ ts) g b h = ground (arith, assign_all-other ts (at a vs g) b)

replaced-congr :
    (ts : List (Bytes × List Bytes)) (g g' : Attrs) (b : Bytes)
    → g b ≡ g' b
    → replaced ts g b ≡ replaced ts g' b
replaced-congr [] g g' b h = h
replaced-congr ((a, vs) ∷ ts) g g' b h = ground (arith, replaced-congr ts g g' b h)

assign_all-replaced :
    (ts : List (Bytes × List Bytes)) (g : Attrs) (b : Bytes)
    → AreDistinct (map first_of ts)
    → assign_all ts g b ≡ replaced ts g b
assign_all-replaced [] g b d = refl
assign_all-replaced ((a, vs) ∷ ts) g b (lacks, d) = elim (Bool-cases (bytes_eq b a)) [
  | inl same ↦
      rw same
        (assign_all-other ts (at a vs g) b (rw ((bytes_eq_iff b a).0 same) lacks) ∙ rw same refl)
  | inr other ↦
      rw other
        (assign_all-replaced ts (at a vs g) b d ∙ replaced-congr ts (at a vs g) g b (rw other refl))
]

apply_edit :
    (a : String) (t : Bytes) (ms : List Mod) (g : Attrs)
    → apply_all (edit_mod a (some t) ++ ms) g ≡ apply_all ms (at (codes a) (one t) g)
apply_edit a [] ms g = refl
apply_edit a (c ∷ t) ms g = refl

apply_proxy :
    (vs : List Bytes) (g : Attrs)
    → apply_all (proxy_mod (some vs)) g ≡ at (codes "proxyAddresses") vs g
apply_proxy [] g = refl
apply_proxy (v ∷ vs) g = refl

abbrev more_scalars : Form → List (String × Bytes)
more_scalars f =
    ("givenName", f.given_name)
    ∷ ("sn", f.sn)
    ∷ ("description", f.description)
    ∷ ("mail", f.mail)
    ∷ ("telephoneNumber", f.telephone_number)
    ∷ ("mobile", f.mobile)
    ∷ ("facsimileTelephoneNumber", f.fax)
    ∷ ("physicalDeliveryOfficeName", f.office)
    ∷ ("streetAddress", f.street_address)
    ∷ ("l", f.locality)
    ∷ ("st", f.state)
    ∷ ("postalCode", f.postal_code)
    ∷ ("co", f.country)
    ∷ []

abbrev scalars : Form → List (String × Bytes)
scalars f = ("displayName", f.display_name) ∷ more_scalars f

abbrev edits : List (String × Bytes) → List Mod → List Mod
edits [] ms = ms
edits ((a, t) ∷ ts) ms = edit_mod a (some t) ++ edits ts ms

abbrev assigned : List (String × Bytes) → List (Bytes × List Bytes) → List (Bytes × List Bytes)
assigned [] rest = rest
assigned ((a, t) ∷ ts) rest = (codes a, one t) ∷ assigned ts rest

apply_edits :
    (ts : List (String × Bytes)) (vs : List Bytes) (g : Attrs)
    → apply_all (edits ts (proxy_mod (some vs))) g
      ≡ assign_all (assigned ts ((codes "proxyAddresses", vs) ∷ [])) g
apply_edits [] vs g = apply_proxy vs g
apply_edits ((a, t) ∷ ts) vs g =
    apply_edit a t (edits ts (proxy_mod (some vs))) g ∙ apply_edits ts vs (at (codes a) (one t) g)

contact_mods-edits :
    (loaded : Option Bytes) (f : Form)
    → contact_mods (update_of loaded f)
      ≡ edits (scalars f) (proxy_mod (some (lines_to_strv f.proxy)))
unfolding contact_mods update_of
contact_mods-edits loaded f = refl

names_distinct : (f : Form) → AreDistinct (map first_of (shown_values f))
unfolding bytes_eq
names_distinct f = (
  refl,
  (
    refl,
    (
      refl,
      (
        refl,
        (refl, (refl, (refl, (refl, (refl, (refl, (refl, (refl, (refl, (refl, (refl, tt))))))))))),
      ),
    ),
  ),
)

edits_nonempty :
    (a : String) (t : Bytes) (ts : List (String × Bytes)) (ms : List Mod)
    → (m : Mod) × (ms' : List Mod) × (edits ((a, t) ∷ ts) ms ≡ m ∷ ms')
edits_nonempty a [] ts ms = (_, _, refl)
edits_nonempty a (c ∷ t) ts ms = (_, _, refl)

update_contact-calls :
    (lib : Library) (w : World) (h : Handle) (k d : Contact) (m : Mod) (ms : List Mod)
    → IsReady h w
    → is_filled d.cn ≡ false
    → contact_mods d ≡ m ∷ ms
    → (update_contact k d lib w).1.calls ≡ Call.modify h k.dn (m ∷ ms) ∷ w.calls
unfolding update_contact modify_if_any
update_contact-calls lib w h k d m ms ready unnamed e = ground arith

unchanged_cn :
    (loaded : Option Bytes) (f : Form)
    → f.cn ≡ or_empty loaded
    → is_filled (update_of loaded f).cn ≡ false
unfolding update_of
unchanged_cn loaded f e = rw e (rw (bytes_eq_refl (or_empty loaded)) refl)

-- On a connection that is up, with a contact selected whose name is as it was loaded: a save starts
-- one update of that contact, and the update makes one call, a modification of the entry. After it
-- each attribute of the form has the value that the form shows, none where the text is empty, and
-- proxyAddresses those of the lines; every other attribute is as it was.
pub save_clicked_writes :
    (lib : Library) (w : World) (h : Handle) (p : ContactPanel) (c r : ℕ) (g : Attrs)
    → IsReady h w
    → p.conn ≡ some c
    → p.selected_contact ≡ some r
    → p.form.cn ≡ or_empty (p.contacts r).cn
    → (d : Contact) × ((save_clicked p).1 ≡ update_contact_request c r d ∷ [])
      × (ms : List Mod) × ((update_contact (p.contacts r) d lib w).1.calls
          ≡ Call.modify h (p.contacts r).dn ms ∷ w.calls)
      × ((b : Bytes) → apply_all ms g b ≡ replaced (shown_values p.form) g b)
unfolding save_clicked
save_clicked_writes lib w h p c r g ready conn selected same =
    let loaded = (p.contacts r).cn in
    let d = update_of loaded p.form in
    let (m, ms, e) =
      edits_nonempty "displayName" p.form.display_name (more_scalars p.form)
        (proxy_mod (some (lines_to_strv p.form.proxy))) in
    let mods = contact_mods-edits loaded p.form ∙ e in
    (
      d,
      rw (conn, selected) refl,
      m ∷ ms,
      update_contact-calls lib w h (p.contacts r) d m ms ready (unchanged_cn loaded p.form same)
          mods,
      λ b.
          ap (λ l. apply_all l g b) (sym e)
          ∙ ap (λ (k : Attrs). k b) (apply_edits (scalars p.form) (lines_to_strv p.form.proxy) g)
          ∙ assign_all-replaced (shown_values p.form) g b (names_distinct p.form),
    )
