-- ===== src/Schedule/Expr/Correct.antt =====
-- The parser accepts exactly the grammar, and what it accepts has valid fields.
use garrison.Common.{ℕ, ◌≤◌, ◌<◌, ◌≡◌, ◌↔◌, List, arith, ok}
use garrison.Schedule.Expr.{Expr, minute_ns, parse}
use garrison.Schedule.Expr.Sound.{parse_sound}
use garrison.Schedule.Expr.Complete.{parse_complete}
use garrison.Schedule.Grammar.{
  Day, mon, tue, wed, thu, fri, sat, sun, Clock, clock, minutes, hours, Interval, interval, Denotes,
  daily_form, weekly_form, every_form,
}
use garrison.Schedule.Slots.{IsValid}

-- `Parse` returns an expression exactly when the grammar gives the text that meaning: `daily@HH:MM`
-- and `weekly@DAY@HH:MM` with a time from 00:00 to 23:59, and `every@N` in minutes or hours with
-- `N` at least 1 and the duration within an `int64`.
pub parse_iff : (s : List ℕ) (e : Expr) → (parse s ≡ ok e) ↔ Denotes s e
parse_iff s e = (parse_sound s e, parse_complete)

Day-lt : {d : List ℕ} {w : ℕ} → Day d w → w < 7
Day-lt (mon p q) = omega arith
Day-lt (tue p q) = omega arith
Day-lt (wed p q) = omega arith
Day-lt (thu p q) = omega arith
Day-lt (fri p q) = omega arith
Day-lt (sat p q) = omega arith
Day-lt (sun p q) = omega arith

Clock-le : {a : List ℕ} {h m : ℕ} → Clock a h m → (h ≤ 23) × (m ≤ 59)
Clock-le (clock x y p q) = (p, q)

Interval-le : {a : List ℕ} {n : ℕ} → Interval a n → minute_ns ≤ n
Interval-le (interval ds (minutes p q) d l h) = grind arith
Interval-le (interval ds (hours p q) d l h) = grind arith

Denotes-IsValid : {s : List ℕ} {e : Expr} → Denotes s e → IsValid e
Denotes-IsValid (daily_form c) = Clock-le c
Denotes-IsValid (weekly_form d c) = ((Clock-le c).0, (Clock-le c).1, Day-lt d)
Denotes-IsValid (every_form i) = Interval-le i

-- What `Parse` returns has an hour up to 23 and a minute up to 59, a weekday below 7, and an
-- interval of at least a minute, for the fields that its kind uses.
pub parse-IsValid : (s : List ℕ) (e : Expr) → parse s ≡ ok e → IsValid e
parse-IsValid s e p = Denotes-IsValid (parse_sound s e p)
