-- ===== src/ConnectDialog/Probing.antt =====
-- src/ui/sbv-connect-dialog.c: the probe that the dialog starts, and the rows that it shows of the
-- result and of a stored profile. A row is a label and a value.
use sambervise.Base.{
  ◌≡◌, ◌⊎◌, inl, inr, refl, ap, Bool, true, false, not, ◌&&◌, ◌||◌, Option, none, some, List, [],
  ◌∷◌, ◌++◌, if◌then◌else◌,
}
use sambervise.Base.Int.{ℤ, pos, ltb_ℤ, leb_ℤ}
use sambervise.Base.Bytes.{Bytes, codes}
use sambervise.Base.Decimal.{print_ℤ, range_text}
use sambervise.Ldap.{Error, Handle, Library}
use sambervise.Connection.{World, ok}
use sambervise.Profile.{Profile, AuthType, kerberos, simple}
use sambervise.Idmap.{Hints}
use sambervise.Backend.Attrs.{Table, lookup}
use sambervise.Editor.{is_nonempty}
use sambervise.Probe.{ProbeResult, ProbeTarget, bind_and_fetch}
use sambervise.ConnectDialog.{Form, build_profile}

-- Whether there is enough to bind with.
abbrev pub can_bind : Form → Bool
can_bind f =
    is_nonempty f.base_dn && (not f.is_simple || (is_nonempty f.bind_dn && is_nonempty f.password))

-- The arguments of `sbv_probe_dc_async`, with or without a bind.
abbrev pub target_of : Bool → Form → ProbeTarget
target_of binds f = record {
  host = some f.host;
  port = pos f.port;
  use_ldaps = f.use_ldaps;
  use_starttls = f.use_tls;
  skip_cert = f.skip_cert;
  bind_profile = if binds then some (build_profile f) else none;
  bind_password = if binds && f.is_simple then some f.password else none;
}

-- `on_probe_clicked`: the error, or what is probed.
unfoldable pub probe_clicked : Form → Bytes ⊎ ProbeTarget
unfolding build_profile
probe_clicked f =
    if is_nonempty f.host then inr (target_of (can_bind f) f) else inl (codes "Enter a host first.")

abbrev pub Rows : Type 0
Rows = List (Bytes × Bytes)

-- `g_strjoinv (", ", vals)`.
unfoldable pub joined : List Bytes → Bytes
joined [] = []
joined (v ∷ []) = v
joined (v ∷ u ∷ vs) = v ++ (codes ", " ++ joined (u ∷ vs))

abbrev row_of_values : Bytes → Option (List Bytes) → Rows → Rows
row_of_values label none rows = rows
row_of_values label (some []) rows = rows
row_of_values label (some (v ∷ vs)) rows = (label, joined (v ∷ vs)) ∷ rows

-- The loop over the pairs.
unfoldable pub pair_rows : Table → List (Bytes × Bytes) → Rows
unfolding lookup
pair_rows t [] = []
pair_rows t ((attr, label) ∷ ps) =
    let rest = pair_rows t ps in row_of_values label (lookup attr t) rest

abbrev pub pairs : List (Bytes × Bytes)
pairs =
    (codes "dnsHostName", codes "DC Hostname")
    ∷ (codes "defaultNamingContext", codes "Default NC")
    ∷ (codes "domainFunctionality", codes "Domain Level")
    ∷ (codes "forestFunctionality", codes "Forest Level")
    ∷ (codes "domainControllerFunctionality", codes "DC Level")
    ∷ (codes "supportedLDAPVersion", codes "LDAP Version")
    ∷ (codes "supportedSASLMechanisms", codes "SASL Mechs")
    ∷ []

abbrev or_no_rows : Rows → Rows
or_no_rows [] = (codes "Result", codes "Reachable, but RootDSE is empty.") ∷ []
or_no_rows (r ∷ rs) = r ∷ rs

abbrev hint_row : Bytes → ℤ → Rows
hint_row label z = if leb_ℤ (pos 0) z then (label, print_ℤ z) ∷ [] else []

abbrev hint_rows : Hints → Rows
hint_rows h =
    (codes "UID range", range_text h.uid_min h.uid_max)
    ∷ (codes "GID range", range_text h.gid_min h.gid_max)
    ∷ (hint_row (codes "Next UID hint") h.next_uid_hint
        ++ (hint_row (codes "Next GID hint") h.next_gid_hint
            ++ ((codes "Source", codes h.source) ∷ [])))

-- The text of a `GError` is a parameter.
module _ (message : Error → Bytes) where
  abbrev idmap_rows : Option Hints → Option Error → Rows
  idmap_rows (some h) e = hint_rows h
  idmap_rows none none = []
  idmap_rows none (some e) = (codes "Idmap lookup", message e) ∷ []

  -- `probe_render_result`.
  unfoldable pub probe_rows : ProbeResult → Rows
  unfolding pair_rows
  probe_rows res = or_no_rows (pair_rows res.rootdse pairs) ++ idmap_rows res.idmap res.bind_error

-- `about_append_row`: an empty value has no row.
abbrev about_row : Bytes → Option Bytes → Rows
about_row label none = []
about_row label (some []) = []
about_row label (some (c ∷ v)) = (label, c ∷ v) ∷ []

abbrev auth_rows : AuthType → Option Bytes → Rows
auth_rows kerberos bind_dn = (codes "Auth", codes "Kerberos (GSSAPI)") ∷ []
auth_rows simple bind_dn = (codes "Auth", codes "Simple bind") ∷ about_row (codes "Bind DN") bind_dn

abbrev option_texts : Profile → List Bytes
option_texts p =
    (if p.use_ldaps then codes "LDAPS" ∷ [] else [])
    ++ ((if p.use_tls then codes "STARTTLS" ∷ [] else [])
        ++ (if p.skip_cert then codes "skip cert verify" ∷ [] else []))

abbrev or_cleartext : List Bytes → Bytes
or_cleartext [] = codes "Cleartext"
or_cleartext (t ∷ ts) = joined (t ∷ ts)

abbrev at_least_zero : ℤ → ℤ
at_least_zero z = if ltb_ℤ (pos 0) z then z else pos 0

abbrev range_row : Bytes → ℤ → ℤ → Rows
range_row label low high =
    if ltb_ℤ (pos 0) low || ltb_ℤ (pos 0) high
    then (label, range_text (at_least_zero low) (at_least_zero high)) ∷ []
    else []

abbrev host_or_mark : Option Bytes → Bytes
host_or_mark none = codes "?"
host_or_mark (some host) = host

-- The rows of `build_about_popover`.
unfoldable pub about_rows : Profile → Rows
unfolding joined
about_rows p =
    (codes "Host", host_or_mark p.host ++ (codes ":" ++ print_ℤ p.port))
    ∷ (about_row (codes "Base DN") p.base_dn
        ++ (auth_rows p.auth_type p.bind_dn
            ++ ((codes "Transport", or_cleartext (option_texts p))
                ∷ (range_row (codes "UID range") p.uid_min p.uid_max
                    ++ range_row (codes "GID range") p.gid_min p.gid_max))))

-- The row of a controller that `on_discover_done` makes.
unfoldable pub controller_text : Bytes → ℤ → Bytes
controller_text host port = host ++ (codes "  :" ++ print_ℤ port)

-- A probe that is started without a base DN, or with simple authentication without a DN or without a
-- password, neither binds nor reads the ranges: after the RootDSE it makes no call, and the rows of its
-- result are those of the RootDSE.
probe_clicked_unbound :
    (message : Error → Bytes) (lib : Library) (w : World) (h : Handle) (raw : Table) (f : Form)
    → is_nonempty f.host ≡ true
    → can_bind f ≡ false
    → (t : ProbeTarget) × (probe_clicked f ≡ inr t)
      × (res : ProbeResult) × (bind_and_fetch h t raw lib w ≡ (ok res, w))
      × (probe_rows message res ≡ or_no_rows (pair_rows raw pairs) ++ [])
unfolding probe_clicked bind_and_fetch probe_rows
probe_clicked_unbound message lib w h raw f host unbound = (
  target_of (can_bind f) f,
  rw host refl,
  record { rootdse = raw; idmap = none; bind_error = none },
  ap (λ b. bind_and_fetch h (target_of b f) raw lib w) unbound,
  refl,
)
