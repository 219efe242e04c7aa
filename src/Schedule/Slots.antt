-- ===== src/Schedule/Slots.antt =====
-- supervisor/internal/schedule/expr.go: `Next` and `MinInterval`. An instant is a number of
-- nanoseconds since 1970-01-01 00:00 UTC; earlier instants are not modelled. In UTC a date is a
-- day number, `AddDate(0, 0, 1)` adds 24 hours, and day 0 was a Thursday.
pub mod First
use garrison.Common.{
  ℕ, zero, suc, ◌+◌, ◌-◌, ◌*◌, ◌/◌, ◌%◌, ◌≤◌, ◌<◌, ◌≡◌, refl, Bool, true, false, ◌&&◌, ltb, ◌==◌,
  arith, if◌then◌else◌,
}
use garrison.Schedule.Expr.{Kind, daily, weekly, every, Expr, minute_ns, hour_ns, day_ns}

-- `time.Date(t.Year(), t.Month(), t.Day(), hh, mm, 0, 0, time.UTC)`
abbrev pub at_time : ℕ → ℕ → ℕ → ℕ
at_time t hh mm = t / day_ns * day_ns + (hh * hour_ns + mm * minute_ns)

abbrev pub weekday : ℕ → ℕ
weekday t = (4 + t / day_ns) % 7

-- `for !c.After(after) || c.Weekday() != wd { c = c.AddDate(0, 0, 1) }`, at most `fuel` rounds.
next_weekly : ℕ → ℕ → ℕ → ℕ → ℕ
next_weekly zero after wd c = c
next_weekly (suc fuel) after wd c =
    let later = next_weekly fuel after wd (c + day_ns) in
    if ltb after c && weekday c == wd then c else later

next_of : Kind → Expr → ℕ → ℕ
unfolding next_weekly
next_of daily e after = let c = at_time after e.hh e.mm in if ltb after c then c else c + day_ns
next_of weekly e after = next_weekly 8 after e.weekday (at_time after e.hh e.mm)
next_of every e after = after + e.interval

unfoldable pub next : Expr → ℕ → ℕ
unfolding next_of
next e after = next_of e.kind e after

min_interval_of : Kind → Expr → ℕ
min_interval_of daily e = 24 * hour_ns
min_interval_of weekly e = 7 * 24 * hour_ns
min_interval_of every e = e.interval

unfoldable pub min_interval : Expr → ℕ
unfolding min_interval_of
min_interval e = min_interval_of e.kind e

-- What `Parse` promises of the fields that a kind uses.
abbrev pub ValidFields : Kind → Expr → Type 0
ValidFields daily e = (e.hh ≤ 23) × (e.mm ≤ 59)
ValidFields weekly e = (e.hh ≤ 23) × (e.mm ≤ 59) × (e.weekday < 7)
ValidFields every e = minute_ns ≤ e.interval

abbrev pub IsValid : Expr → Type 0
IsValid e = ValidFields e.kind e

-- The instants after `after` at which an expression may fire.
abbrev pub DueOf : Kind → Expr → ℕ → ℕ → Type 0
DueOf daily e after t = (after < t) × (t % day_ns ≡ e.hh * hour_ns + e.mm * minute_ns)
DueOf weekly e after t =
    (after < t) × (t % day_ns ≡ e.hh * hour_ns + e.mm * minute_ns) × (weekday t ≡ e.weekday)
DueOf every e after t = t ≡ after + e.interval

abbrev pub DueAfter : Expr → ℕ → ℕ → Type 0
DueAfter e after t = DueOf e.kind e after t
