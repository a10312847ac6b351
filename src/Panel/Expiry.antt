-- ===== src/Panel/Expiry.antt =====
-- src/ui/sbv-users-panel.c: the day on which an account expires, as a date in an entry. `sscanf`
-- and `GDateTime` are parameters.
use sambervise.Base.{
  ℕ, ◌+◌, ◌-◌, ◌*◌, ◌/◌, ◌<◌, leb, ◌||◌, Bool, Option, none, some, [], ◌≡◌, refl, if◌then◌else◌,
  arith, false,
}
use sambervise.Base.Int.{ℤ, pos, negsuc, eq_ℤ, max_int64, ◌≤ℤ◌, pos_part, neg_part}
use sambervise.Base.Bytes.{Bytes}

-- `sscanf (text, "%d-%d-%d", ...)` where it reads three numbers, `g_date_time_new_utc` with
-- `g_date_time_to_unix`, and `g_date_time_new_from_unix_utc` with `g_date_time_format` and
-- "%Y-%m-%d"; `none` stands for NULL.
pub record Dates : Type 0 where
  pub scan : Bytes → Option (ℤ × ℤ × ℤ)
  pub unix_of : ℤ → ℤ → ℤ → Option ℤ
  pub date_text : ℤ → Option Bytes

-- `WIN_EPOCH_OFFSET` and `WIN_TICKS_PER_SEC`.
abbrev pub win_epoch_offset : ℕ
win_epoch_offset = 11644473600

abbrev pub win_ticks_per_sec : ℕ
win_ticks_per_sec = 10000000

abbrev minus : ℕ → ℕ → ℤ
minus a b = if leb b a then pos (a - b) else negsuc (b - a - 1)

-- `(unix_ts + WIN_EPOCH_OFFSET) * WIN_TICKS_PER_SEC`. The years of `GDateTime` end with 9999, which
-- keeps it within 64 bits.
abbrev times : ℤ → ℤ
times (pos n) = pos (n * win_ticks_per_sec)
times (negsuc n) = negsuc (n * win_ticks_per_sec + (win_ticks_per_sec - 1))

abbrev shift_up : ℤ → ℤ
shift_up (pos n) = pos (n + win_epoch_offset)
shift_up (negsuc n) = minus win_epoch_offset (n + 1)

unfoldable pub filetime : ℤ → ℤ
filetime unix_ts = times (shift_up unix_ts)

-- `(expires / WIN_TICKS_PER_SEC) - WIN_EPOCH_OFFSET`, with the division of C.
unfoldable pub unix_time : ℤ → ℤ
unix_time (pos n) = minus (n / win_ticks_per_sec) win_epoch_offset
unix_time (negsuc n) = minus 0 ((n + 1) / win_ticks_per_sec + win_epoch_offset)

abbrev or_max : Option ℤ → ℤ
or_max none = max_int64
or_max (some t) = filetime t

abbrev made_time : Dates → Option (ℤ × ℤ × ℤ) → ℤ
made_time d none = max_int64
made_time d (some (y, m, day)) = or_max (d.unix_of y m day)

-- `date_entry_to_filetime`.
unfoldable pub date_entry_to_filetime : Dates → Bytes → ℤ
date_entry_to_filetime d text = made_time d (d.scan text)

abbrev pub is_never : ℤ → Bool
is_never expires = eq_ℤ expires max_int64 || eq_ℤ expires (pos 0)

abbrev pub or_old : Bytes → Option Bytes → Bytes
or_old old none = old
or_old _ (some s) = s

-- The text that `load_user_into_detail` leaves in the entry, which held `old`.
unfoldable pub shown_date : Dates → Bytes → ℤ → Bytes
shown_date d old expires =
    if is_never expires then [] else or_old old (d.date_text (unix_time expires))

-- What `GDateTime` and `sscanf` do for a time from the years 1 to 9999: the text of a time stands
-- for the midnight before it.
pub record DateLaw (d : Dates) (t : ℤ) : Type 0 where
  pub text : Bytes
  pub shown : d.date_text t ≡ some text
  pub year : ℤ
  pub month : ℤ
  pub day : ℤ
  pub scanned : d.scan text ≡ some (year, month, day)
  pub midnight : ℤ
  pub made : d.unix_of year month day ≡ some midnight
  pub not_after : midnight ≤ℤ t
  pub same_day : pos_part t + neg_part midnight < pos_part midnight + neg_part t + 86400

shown :
    (d : Dates) (old : Bytes) (n : ℕ)
    → is_never (pos n) ≡ false
    → (l : DateLaw d (unix_time (pos n))) → shown_date d old (pos n) ≡ l.text
unfolding shown_date
shown d old n h l = rw h (rw l.shown refl)

scanned :
    (d : Dates) (t : ℤ) (l : DateLaw d t) → date_entry_to_filetime d l.text ≡ filetime l.midnight
unfolding date_entry_to_filetime
scanned d t l = rw l.scanned (rw l.made refl)

near :
    (n : ℕ) (m : ℤ)
    → m ≤ℤ unix_time (pos n)
    → let t = unix_time (pos n) in
      pos_part t + neg_part m < pos_part m + neg_part t + 86400
      → (filetime m ≤ℤ pos n) × (n + neg_part (filetime m) < pos_part (filetime m) + 864000000000)
unfolding filetime unix_time
near n (pos k) lo hi = ground arith
near n (negsuc k) lo hi = ground arith

-- If the account of a user expires at the time `n` and `GDateTime` knows the day, then saving the
-- date that the detail pane shows sets a time that is not later, and less than a day earlier.
pub expires_by_day :
    (d : Dates) (old : Bytes) (n : ℕ)
    → is_never (pos n) ≡ false
    → DateLaw d (unix_time (pos n))
    → let t = date_entry_to_filetime d (shown_date d old (pos n)) in
      (t ≤ℤ pos n) × (n + neg_part t < pos_part t + 864000000000)
expires_by_day d old n h l =
    rw (shown d old n h l) (rw (scanned d _ l) (near n l.midnight l.not_after l.same_day))
