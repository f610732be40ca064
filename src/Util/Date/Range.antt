-- ===== src/Util/Date/Range.antt =====
-- util/date.go: which ranges are accepted.
use gframework.Base.{ℕ, ◌*◌, ◌≤◌, ◌≡◌, ◌↔◌, none, ℤ, pos, ◌≤ℤ◌, ◌-ℤ◌, ◌*ℤ◌, wrap_64-small, arith}
use gframework.Util.Date.{sub_time, range_limit, validate_date_range}

days_as_hours : (days : ℕ) → pos days *ℤ pos 24 ≡ pos (days * 24)
unfolding ◌*ℤ◌
days_as_hours days = ground arith

hours_as_time : (hours : ℕ) → pos hours *ℤ pos 3_600_000_000_000 ≡ pos (hours * 3_600_000_000_000)
unfolding ◌*ℤ◌
hours_as_time hours = ground arith

range_limit-small :
    (days : ℕ) → days ≤ 106751 → range_limit (pos days) ≡ pos (days * 24 * 3_600_000_000_000)
unfolding range_limit
range_limit-small days h =
    rw (days_as_hours days, wrap_64-small (days * 24) (omega arith), hours_as_time (days * 24))
      (wrap_64-small (days * 24 * 3_600_000_000_000) (omega arith))

-- With a limit of at most 106751 days, a range is accepted if and only if its start is not after its
-- end and its end is at most that many days of 24 hours after its start.
pub validate_date_range-none_iff :
    (from to : ℤ) (days : ℕ)
    → days ≤ 106751
    → (validate_date_range from to (pos days) ≡ none)
      ↔ ((from ≤ℤ to) × ((to -ℤ from) ≤ℤ pos (days * 24 * 3_600_000_000_000)))
unfolding validate_date_range sub_time ◌-ℤ◌
validate_date_range-none_iff from to days h =
    rw (range_limit-small days h) (λ accepted. ground arith, λ fits. ground arith)
