-- ===== src/Util/Date.antt =====
-- util/date.go: Sundays, and ranges of dates. An instant is a number of nanoseconds since the epoch.
pub mod Range
mod Tests
use gframework.Base.{
  String, Bool, true, false, Option, none, some, ℤ, pos, negsuc, ltb_ℤ, eqb_ℤ, ◌-ℤ◌, ◌*ℤ◌, wrap_64,
  if◌then◌else◌,
}
use gframework.Errors.{GoError, sentinel, wrap, Result, ok, err}

-- `parse` is time.Parse for the layout 2006-01-02, `is_sunday` compares the day of the week.
module _ (parse : String → Result ℤ) (is_sunday : ℤ → Bool) where
  sunday : Result ℤ → Result ℤ
  sunday (err e) = err e
  sunday (ok t) = if is_sunday t then ok t else err (sentinel "ErrNotSunday")

  pub parse_sunday_date : String → Result ℤ
  parse_sunday_date text = sunday (parse text)

  error_of : Result ℤ → Option GoError
  error_of (err e) = some e
  error_of (ok t) = none

  pub validate_sunday : String → Option GoError
  validate_sunday text = error_of (parse_sunday_date text)

-- The method `Sub` of time.Time, which stops at the ends of a 64-bit duration.
sub_time : ℤ → ℤ → ℤ
sub_time t u =
    let d : ℤ = t -ℤ u in
    if ltb_ℤ (pos 9_223_372_036_854_775_807) d
    then pos 9_223_372_036_854_775_807
    else if ltb_ℤ d (negsuc 9_223_372_036_854_775_807)
    then negsuc 9_223_372_036_854_775_807
    else d

-- time.Duration(maxDays)*24*time.Hour
range_limit : ℤ → ℤ
range_limit max_days = wrap_64 (wrap_64 (max_days *ℤ pos 24) *ℤ pos 3_600_000_000_000)

pub validate_date_range : ℤ → ℤ → ℤ → Option GoError
validate_date_range from to max_days =
    if ltb_ℤ to from
    then some (wrap "from is after to" (sentinel "ErrFromAfterTo"))
    else if ltb_ℤ (range_limit max_days) (sub_time to from)
    then some (wrap "date range must not exceed" (sentinel "ErrDateRangeExceeded"))
    else none

pub record DateRange : Type 0 where
  pub from : ℤ
  pub to : ℤ
  pub max_days : ℤ

pub validate : DateRange → Option GoError
validate range =
    validate_date_range range.from range.to
      (if eqb_ℤ range.max_days (pos 0) then pos 93 else range.max_days)
