-- ===== src/Suggest.antt =====
-- The "Suggest" buttons of src/ui/sbv-users-panel.c and src/ui/sbv-groups-panel.c: a free id for
-- the entry, from the hints and a scan of the directory.
pub mod Range
use sambervise.Base.{Bool, true, false, ◌&&◌, Option, none, some, if◌then◌else◌}
use sambervise.Base.Int.{ℤ, pos, ltb_ℤ, leb_ℤ}
use sambervise.Base.Bytes.{Bytes}
use sambervise.Base.Decimal.{print_ℤ}
use sambervise.Connection.{Action, ◌>>=◌, pure, Outcome, ok, err, blocked, undefined}
use sambervise.Collisions.{next_free_uid, next_free_gid}
use sambervise.Idmap.{Hints}

abbrev pub lowest : Bool → Hints → ℤ
lowest is_uid h = if is_uid then h.uid_min else h.gid_min

abbrev pub highest : Bool → Hints → ℤ
highest is_uid h = if is_uid then h.uid_max else h.gid_max

abbrev pub next_hint : Bool → Hints → ℤ
next_hint is_uid h = if is_uid then h.next_uid_hint else h.next_gid_hint

-- `if (hint > lo && hint <= hi) lo = hint`.
unfoldable pub scan_start : Bool → Hints → ℤ
scan_start is_uid h =
    if ltb_ℤ (lowest is_uid h) (next_hint is_uid h) && leb_ℤ (next_hint is_uid h) (highest is_uid h)
    then next_hint is_uid h
    else lowest is_uid h

-- `suggest_with_hints`, and with `false` `group_suggest_with_hints`.
unfoldable pub suggest_with_hints : Bool → Hints → Action ℤ
suggest_with_hints is_uid h =
    if is_uid
    then next_free_uid (scan_start is_uid h) (highest is_uid h)
    else next_free_gid (scan_start is_uid h) (highest is_uid h)

-- `on_suggest_done`: the new text of the entry, or `none` where it is left alone.
unfoldable pub suggested_text : Outcome ℤ → Option Bytes
suggested_text (ok v) = if ltb_ℤ v (pos 0) then none else some (print_ℤ v)
suggested_text (err _) = none
suggested_text blocked = none
suggested_text undefined = none
