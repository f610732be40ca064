-- ===== src/Util/Date/Tests.antt =====
-- Runs of util/date.go, and concrete uses of what is proved of it.
use gframework.Base.{◌*◌, ◌≡◌, refl, false, ◌↔◌, none, some, pos, ◌≤ℤ◌, ◌-ℤ◌, arith, wrap_64, ◌*ℤ◌}
use gframework.Errors.{sentinel, wrap, ok}
use gframework.Util.Date.{
  validate_date_range, validate, validate_sunday, range_limit, sub_time, error_of,
  parse_sunday_date, sunday,
}
use gframework.Util.Date.Range.{validate_date_range-none_iff}

validate_date_range-none_iff_example :
    (validate_date_range (pos 5) (pos 86_400_000_000_006) (pos 1) ≡ none) ↔ (
      (pos 5 ≤ℤ pos 86_400_000_000_006)
      × ((pos 86_400_000_000_006 -ℤ pos 5) ≤ℤ pos (1 * 24 * 3_600_000_000_000)))
validate_date_range-none_iff_example =
    validate_date_range-none_iff (pos 5) (pos 86_400_000_000_006) 1 (omega arith)

-- A day and a nanosecond is more than a day, and less than the 93 days of a range without a limit. The
-- limit of 106752 days overflows: not even an empty range is within it.
runs :
    (validate_date_range (pos 5) (pos 86_400_000_000_006) (pos 1)
      ≡ some (wrap "date range must not exceed" (sentinel "ErrDateRangeExceeded")))
    × (validate (record { from = pos 5; to = pos 86_400_000_000_006; max_days = pos 0 }) ≡ none)
    × (validate_date_range (pos 5) (pos 5) (pos 106752)
        ≡ some (wrap "date range must not exceed" (sentinel "ErrDateRangeExceeded")))
    × (validate_sunday (λ text. ok (pos 0)) (λ t. false) "1970-01-01"
        ≡ some (sentinel "ErrNotSunday"))
unfolding validate_date_range validate validate_sunday range_limit wrap_64 ◌*ℤ◌ sub_time ◌-ℤ◌
    error_of parse_sunday_date sunday
runs = (refl, refl, refl, refl)
