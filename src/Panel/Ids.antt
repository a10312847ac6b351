-- ===== src/Panel/Ids.antt =====
-- src/ui/sbv-users-panel.c: the checks of the ids that are entered, and the ids that are suggested.
use sambervise.Base.{
  ℕ, ◌-◌, ltb, Bool, true, false, Option, none, some, List, [], ◌∷◌, ◌++◌, if◌then◌else◌,
}
use sambervise.Base.Int.{ℤ, pos, negsuc, eq_ℤ}
use sambervise.Base.Bytes.{Bytes, codes}
use sambervise.Base.Lists.{length}
use sambervise.Base.Decimal.{print_ℤ, strtoll}
use sambervise.Connection.{Outcome}
use sambervise.Collisions.{Hit}
use sambervise.Idmap.{Hints}
use sambervise.Suggest.{scan_start, highest, suggested_text}
use sambervise.Panel.{
  Panel, Request, uid_check_request, gid_check_request, next_free_request, hints_request,
}
use sambervise.Panel.Saving.{Handled}

abbrev hit_name : Hit → Bytes
hit_name h = elim h.sam [ none ↦ h.dn | some sam ↦ sam ]

-- The first two names, and how many there are besides.
abbrev hit_names : List Hit → Bytes
hit_names [] = []
hit_names (h ∷ []) = hit_name h
hit_names (h ∷ g ∷ _) = hit_name h ++ (codes ", " ++ hit_name g)

abbrev more_text : ℕ → Bytes
more_text n = if ltb 2 n then codes " (+" ++ (print_ℤ (pos (n - 2)) ++ codes " more)") else []

-- `render_collision_label`: `none` where the label is hidden.
unfoldable pub collision_label : Bytes → List Hit → Option Bytes
collision_label kind [] = none
collision_label kind (h ∷ hs) =
    some (kind ++ (codes " in use by " ++ (hit_names (h ∷ hs) ++ more_text (length (h ∷ hs)))))

-- The number in an entry; -1 stands for no text.
abbrev pub entered : Bytes → ℤ
entered [] = negsuc 0
entered (c ∷ s) = strtoll (c ∷ s)

-- The hits where the check gave some, `none` after an error.
abbrev pub label_of : Bytes → Option (List Hit) → Option Bytes
label_of kind none = none
label_of kind (some hits) = collision_label kind hits

-- `on_collision_done`, for the uid and for the gid.
unfoldable pub uid_collision_done : ℤ → Option (List Hit) → Panel → Panel
uid_collision_done value hits p =
    if eq_ℤ (entered p.form.uid) value
    then record p { uid_collision = label_of (codes "UID") hits }
    else p

unfoldable pub gid_collision_done : ℤ → Option (List Hit) → Panel → Panel
gid_collision_done value hits p =
    if eq_ℤ (entered p.form.gid) value
    then record p { gid_collision = label_of (codes "GID") hits }
    else p

abbrev selected_dn : Panel → Option ℕ → Option Bytes
selected_dn p none = none
selected_dn p (some r) = (p.users r).dn

abbrev check_uid : ℕ → Bytes → Panel → Handled
check_uid c [] p = (record p { uid_collision = none }, [])
check_uid c (d ∷ s) p =
    (p, uid_check_request c (strtoll (d ∷ s)) (selected_dn p p.selected_user) ∷ [])

abbrev check_gid : ℕ → Bytes → Panel → Handled
check_gid c [] p = (record p { gid_collision = none }, [])
check_gid c (d ∷ s) p = (p, gid_check_request c (strtoll (d ∷ s)) none ∷ [])

-- `fire_uid_check` and `fire_gid_check`.
unfoldable pub fire_uid_check : Panel → Handled
fire_uid_check p = elim p.conn [
  | none ↦ (record p { uid_timer = false }, [])
  | some c ↦ check_uid c p.form.uid (record p { uid_timer = false })
]

unfoldable pub fire_gid_check : Panel → Handled
fire_gid_check p = elim p.conn [
  | none ↦ (record p { gid_timer = false }, [])
  | some c ↦ check_gid c p.form.gid (record p { gid_timer = false })
]

-- The text of the entry changes, by the user or by a suggestion, and its timer starts anew:
-- `on_uid_entry_changed` and `on_gid_entry_changed`.
unfoldable pub uid_entered : Bytes → Panel → Panel
uid_entered text p = record p { form = record (p.form) { uid = text }; uid_timer = true }

unfoldable pub gid_entered : Bytes → Panel → Panel
gid_entered text p = record p { form = record (p.form) { gid = text }; gid_timer = true }

abbrev pub set_suggest : Bool → Bool → Panel → Panel
set_suggest is_uid b p =
    if is_uid
    then record p { suggest_uid_sensitive = b }
    else record p { suggest_gid_sensitive = b }

abbrev fill_entry : Bool → Option Bytes → Panel → Panel
fill_entry is_uid none p = p
fill_entry is_uid (some text) p = if is_uid then uid_entered text p else gid_entered text p

-- `on_suggest_done`.
unfoldable pub suggest_done : Bool → Outcome ℤ → Panel → Panel
unfolding uid_entered gid_entered
suggest_done is_uid r p = fill_entry is_uid (suggested_text r) (set_suggest is_uid true p)

-- The scan that `suggest_with_hints` starts on a connection.
abbrev pub scan_request : Bool → ℕ → Hints → Request
scan_request is_uid c h = next_free_request is_uid c (scan_start is_uid h) (highest is_uid h)

abbrev scan_on : Bool → Option ℕ → Hints → List Request
scan_on is_uid none h = []
scan_on is_uid (some c) h = scan_request is_uid c h ∷ []

-- `do_suggest`.
unfoldable pub do_suggest : Bool → Panel → Handled
do_suggest is_uid p = elim p.conn [
  | none ↦ (p, [])
  | some c ↦ elim p.idmap_hints [
    | none ↦ (set_suggest is_uid false p, hints_request is_uid c ∷ [])
    | some h ↦ (set_suggest is_uid false p, scan_request is_uid c h ∷ [])
  ]
]

-- `on_hints_then_suggest`: the hints are those of the reply, or those of the profile after an error.
unfoldable pub hints_done : Bool → Hints → Panel → Handled
hints_done is_uid h p = (record p { idmap_hints = some h }, scan_on is_uid p.conn h)
