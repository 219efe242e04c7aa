-- ===== src/Schedule/Slots/First.antt =====
-- `Next` returns the first slot after an instant.
use garrison.Common.{
  ℕ, zero, suc, ◌+◌, ◌-◌, ◌*◌, ◌/◌, ◌%◌, ◌≤◌, ◌<◌, ◌≡◌, refl, ◌&&◌, ltb, ◌==◌, arith, if◌then◌else◌,
  Bool-cases, inl, inr,
}
use garrison.Schedule.Expr.{Kind, daily, weekly, every, Expr, minute_ns, hour_ns, day_ns}
use garrison.Schedule.Slots.{
  at_time, weekday, next_weekly, next_of, next, min_interval_of, min_interval, ValidFields, IsValid,
  DueOf, DueAfter,
}

at_time_lem :
    (t hh mm : ℕ)
    → hh ≤ 23
    → mm ≤ 59
    → (at_time t hh mm % day_ns ≡ hh * hour_ns + mm * minute_ns)
      × (at_time t hh mm / day_ns ≡ t / day_ns)
at_time_lem t hh mm h m = omega arith

next_daily-least :
    (e : Expr) (t : ℕ)
    → ValidFields daily e
    → DueOf daily e t (next_of daily e t) × ((s : ℕ) → DueOf daily e t s → next_of daily e t ≤ s)
unfolding next_of
next_daily-least e t v = ground arith

-- The rounds that the loop needs from `c`.
rounds : ℕ → ℕ → ℕ → ℕ
rounds after wd c =
    let d = (wd + 7 - weekday c) % 7 in if ltb after c then d else if d == 0 then 7 else d

rounds_suffice :
    (after wd c : ℕ)
    → wd < 7
    → after < c + day_ns
    → (rounds after wd c < 8)
      × (after < c + rounds after wd c * day_ns)
      × (weekday (c + rounds after wd c * day_ns) ≡ wd)
unfolding rounds
rounds_suffice after wd c w h = ground arith

-- From `c`, if round `k` ends the loop, the loop ends within its fuel at the first such instant.
next_weekly-first :
    (fuel k after wd c : ℕ)
    → k < fuel
    → after < c + k * day_ns
    → weekday (c + k * day_ns) ≡ wd
    → let r = next_weekly fuel after wd c in
      (after < r)
      × (weekday r ≡ wd)
      × (r % day_ns ≡ c % day_ns)
      × ((s : ℕ) → after < s → weekday s ≡ wd → s % day_ns ≡ c % day_ns → c ≤ s → r ≤ s)
unfolding next_weekly
next_weekly-first zero k after wd c h a w = elim h [ ]
next_weekly-first (suc fuel) zero after wd c h a w = ground arith
next_weekly-first (suc fuel) (suc k) after wd c h a w =
    elim (Bool-cases (ltb after c && weekday c == wd)) [
      | inl stop ↦ rw stop (ground arith)
      | inr more ↦ rw more (
          let (p, q, r, least) =
            next_weekly-first fuel k after wd (c + day_ns) (omega arith) (omega arith)
              (omega arith) in
          (p, q, omega arith, λ s l e m b. least s l e (omega arith) (ground arith)))
    ]

next_weekly-least :
    (e : Expr) (t : ℕ)
    → ValidFields weekly e
    → DueOf weekly e t (next_of weekly e t)
      × ((s : ℕ) → DueOf weekly e t s → next_of weekly e t ≤ s)
unfolding next_of
next_weekly-least e t v =
    let c = at_time t e.hh e.mm in
    let (clock, today) = at_time_lem t e.hh e.mm v.0 v.1 in
    let (few, later, same) = rounds_suffice t e.weekday c v.2 (omega arith) in
    let (p, q, r, least) =
      next_weekly-first 8 (rounds t e.weekday c) t e.weekday c few later same in
    ((p, omega arith, q), λ s d. least s d.0 d.2 (omega arith) (omega arith))

next_of-least :
    (k : Kind) (e : Expr) (t : ℕ)
    → ValidFields k e
    → DueOf k e t (next_of k e t) × ((s : ℕ) → DueOf k e t s → next_of k e t ≤ s)
next_of-least daily e t v = next_daily-least e t v
next_of-least weekly e t v = next_weekly-least e t v
next_of-least every e t v = unfold next_of in (refl, λ s d. omega arith)

-- For an expression with valid fields, `Next` returns an instant at which the expression is due
-- after `t` (for `daily` and `weekly`: later than `t`, at the stated time of day, and on the
-- stated weekday), and no earlier instant is due after `t`.
pub next-least :
    (e : Expr) (t : ℕ)
    → IsValid e
    → DueAfter e t (next e t) × ((s : ℕ) → DueAfter e t s → next e t ≤ s)
unfolding next
next-least e t v = next_of-least e.kind e t v

next_of-lt : (k : Kind) (e : Expr) (t : ℕ) → ValidFields k e → t < next_of k e t
next_of-lt daily e t v = (next_of-least daily e t v).0.0
next_of-lt weekly e t v = (next_of-least weekly e t v).0.0
next_of-lt every e t v = unfold next_of in omega arith

-- `Next` of a valid expression is strictly later than the instant that it is asked for.
pub next-lt : (e : Expr) (t : ℕ) → IsValid e → t < next e t
unfolding next
next-lt e t v = next_of-lt e.kind e t v

due_gap :
    (k : Kind) (e : Expr) (t s r : ℕ)
    → DueOf k e t s
    → DueOf k e s r
    → ((q : ℕ) → DueOf k e s q → r ≤ q)
    → r ≡ s + min_interval_of k e
unfolding min_interval_of
due_gap daily e t s r d n least = omega (arith, least (s + day_ns) (omega arith))
due_gap weekly e t s r d n least =
    omega (arith, least (s + 7 * day_ns) (omega arith, omega arith, omega arith))
due_gap every e t s r d n least = n

-- Two slots in a row, the second computed from the first, are exactly `MinInterval` apart.
pub next-next : (e : Expr) (t : ℕ) → IsValid e → next e (next e t) ≡ next e t + min_interval e
unfolding min_interval
next-next e t v =
    due_gap e.kind e t (next e t) (next e (next e t)) (next-least e t v).0
      (next-least e (next e t) v).0 (next-least e (next e t) v).1
