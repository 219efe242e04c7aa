-- ===== src/Schedule/Expr/Complete.antt =====
-- What is in the grammar the parser accepts, with the value that the grammar gives it.
use garrison.Common.{
  ℕ, ◌*◌, ◌/◌, ◌≤◌, ◌≡◌, refl, ap, ◌≢◌, true, some, List, [], ◌∷◌, ◌++◌, arith, ok,
}
use garrison.Schedule.Expr.{
  Expr, max_int64, every_digit, all_digits, digits_value, atoi, weekday_of, parse_hhmm, last_byte,
  drop_last, unit_of, parse_unit, parse_every, parse_parts, parse,
}
use garrison.Schedule.Expr.Split.{Absent, split-Absent, split_part}
use garrison.Schedule.Grammar.{
  Clock, clock, Day, mon, tue, wed, thu, fri, sat, sun, TimeUnit, minutes, hours, Interval,
  interval, Denotes, daily_form, weekly_form, every_form,
}

parse_hhmm_complete :
    (input : List ℕ) {a : List ℕ} {h m : ℕ} → Clock a h m → parse_hhmm input a ≡ ok (h, m)
unfolding parse_hhmm
parse_hhmm_complete input (clock x y p q) = ground arith

Clock-Absent : {a : List ℕ} {h m : ℕ} → Clock a h m → Absent b'@' a
Clock-Absent (clock x y p q) = ground arith

weekday_of_complete : {d : List ℕ} {w : ℕ} → Day d w → weekday_of d ≡ some w
unfolding weekday_of
weekday_of_complete (mon p q) = rw (p, q) refl
weekday_of_complete (tue p q) = rw (p, q) refl
weekday_of_complete (wed p q) = rw (p, q) refl
weekday_of_complete (thu p q) = rw (p, q) refl
weekday_of_complete (fri p q) = rw (p, q) refl
weekday_of_complete (sat p q) = rw (p, q) refl
weekday_of_complete (sun p q) = rw (p, q) refl

Day-Absent : {d : List ℕ} {w : ℕ} → Day d w → Absent b'@' d
Day-Absent (mon p q) = rw p (omega arith)
Day-Absent (tue p q) = rw p (omega arith)
Day-Absent (wed p q) = rw p (omega arith)
Day-Absent (thu p q) = rw p (omega arith)
Day-Absent (fri p q) = rw p (omega arith)
Day-Absent (sat p q) = rw p (omega arith)
Day-Absent (sun p q) = rw p (omega arith)

drop_last_lem : (c x : ℕ) (s : List ℕ) → drop_last c (s ++ x ∷ []) ≡ c ∷ s
unfolding drop_last
drop_last_lem c x [] = refl
drop_last_lem c x (d ∷ s) = ap (λ r. c ∷ r) (drop_last_lem d x s)

last_byte_lem : (c x : ℕ) (s : List ℕ) → last_byte c (s ++ x ∷ []) ≡ x
unfolding last_byte
last_byte_lem c x [] = refl
last_byte_lem c x (d ∷ s) = last_byte_lem d x s

parse_every-snoc :
    (input : List ℕ) (a x : ℕ) (s : List ℕ)
    → parse_every input (a ∷ (s ++ x ∷ [])) ≡ parse_unit input (a ∷ s) x (unit_of x)
unfolding parse_every
parse_every-snoc input a x [] = refl
parse_every-snoc input a x (b ∷ s) = rw (drop_last_lem b x s, last_byte_lem b x s)

parse_unit_complete :
    (input ds : List ℕ) {c u : ℕ}
    → TimeUnit c u
    → all_digits ds ≡ true
    → 1 ≤ digits_value 0 ds
    → digits_value 0 ds ≤ max_int64 / u
    → parse_unit input ds c (unit_of c) ≡ ok (digits_value 0 ds * u)
unfolding parse_unit atoi unit_of
parse_unit_complete input ds (minutes p q) d l h = ground arith
parse_unit_complete input ds (hours p q) d l h = ground arith

parse_every_complete :
    (input : List ℕ) {a : List ℕ} {n : ℕ} → Interval a n → parse_every input a ≡ ok n
parse_every_complete input (interval [] t d l h) = unfold all_digits in cc
parse_every_complete input (interval (a ∷ ds) {c = c} t d l h) =
    rw (parse_every-snoc input a c ds) (parse_unit_complete input (a ∷ ds) t d l h)

Digits-Absent :
    (ds : List ℕ) {c u : ℕ} → every_digit ds ≡ true → TimeUnit c u → Absent b'@' (ds ++ c ∷ [])
unfolding every_digit
Digits-Absent [] d (minutes p q) = rw p (omega arith)
Digits-Absent [] d (hours p q) = rw p (omega arith)
Digits-Absent (x ∷ ds) d t =
    let (first, others) : (x ≢ b'@') × (every_digit ds ≡ true) = ground arith in
    (first, Digits-Absent ds others t)

Interval-Absent : {a : List ℕ} {n : ℕ} → Interval a n → Absent b'@' a
unfolding all_digits
Interval-Absent (interval [] t d l h) = cc
Interval-Absent (interval (x ∷ ds) t d l h) = Digits-Absent (x ∷ ds) d t

pub parse_complete : {s : List ℕ} {e : Expr} → Denotes s e → parse s ≡ ok e
unfolding parse parse_parts
parse_complete (daily_form {a} c) =
    rw (split-Absent b'@' a (Clock-Absent c)) (rw (parse_hhmm_complete _ c))
parse_complete (weekly_form {d} {a} w c) =
    rw (split_part b'@' d a (Day-Absent w), split-Absent b'@' a (Clock-Absent c))
      (rw (weekday_of_complete w, parse_hhmm_complete _ c))
parse_complete (every_form {a} i) =
    rw (split-Absent b'@' a (Interval-Absent i)) (rw (parse_every_complete _ i))
