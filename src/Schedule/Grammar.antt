-- ===== src/Schedule/Grammar.antt =====
-- The grammar of schedule expressions, stated without the parser of
-- supervisor/internal/schedule/expr.go.
use garrison.Common.Bytes.{codes}
use garrison.Common.{ℕ, ◌+◌, ◌-◌, ◌*◌, ◌/◌, ◌≤◌, ◌≡◌, true, List, [], ◌∷◌, ◌++◌}
use garrison.Schedule.Expr.{
  Expr, daily, weekly, every, minute_ns, hour_ns, max_int64, is_digit, all_digits, digits_value,
}

-- A two-digit number.
pub record TwoDigits (a b n : ℕ) : Type 0 where
  pub first : is_digit a ≡ true
  pub second : is_digit b ≡ true
  pub value : n ≡ (a - b'0') * 10 + (b - b'0')

-- `HH:MM`, from 00:00 to 23:59.
pub data Clock : List ℕ → ℕ → ℕ → Type 0 where
  clock :
      {a b c d h m : ℕ}
      → TwoDigits a b h
      → TwoDigits c d m
      → h ≤ 23
      → m ≤ 59
      → Clock (a ∷ b ∷ b':' ∷ c ∷ d ∷ []) h m

-- `mon` to `sun`, with Go's number of the day.
pub data Day : List ℕ → ℕ → Type 0 where
  mon : {d : List ℕ} {w : ℕ} → d ≡ codes "mon" → w ≡ 1 → Day d w
  tue : {d : List ℕ} {w : ℕ} → d ≡ codes "tue" → w ≡ 2 → Day d w
  wed : {d : List ℕ} {w : ℕ} → d ≡ codes "wed" → w ≡ 3 → Day d w
  thu : {d : List ℕ} {w : ℕ} → d ≡ codes "thu" → w ≡ 4 → Day d w
  fri : {d : List ℕ} {w : ℕ} → d ≡ codes "fri" → w ≡ 5 → Day d w
  sat : {d : List ℕ} {w : ℕ} → d ≡ codes "sat" → w ≡ 6 → Day d w
  sun : {d : List ℕ} {w : ℕ} → d ≡ codes "sun" → w ≡ 0 → Day d w

-- The letter of a unit, and its nanoseconds.
pub data TimeUnit : ℕ → ℕ → Type 0 where
  minutes : {c u : ℕ} → c ≡ b'm' → u ≡ minute_ns → TimeUnit c u
  hours : {c u : ℕ} → c ≡ b'h' → u ≡ hour_ns → TimeUnit c u

-- Digits and a unit: a whole number of minutes or hours, at least one, that fits an `int64`.
pub data Interval : List ℕ → ℕ → Type 0 where
  interval :
      (ds : List ℕ) {c u : ℕ}
      → TimeUnit c u
      → all_digits ds ≡ true
      → 1 ≤ digits_value 0 ds
      → digits_value 0 ds ≤ max_int64 / u
      → Interval (ds ++ c ∷ []) (digits_value 0 ds * u)

abbrev pub daily_at : ℕ → ℕ → Expr
daily_at h m = record { kind = daily; hh = h; mm = m; weekday = 0; interval = 0 }

abbrev pub weekly_at : ℕ → ℕ → ℕ → Expr
weekly_at w h m = record { kind = weekly; hh = h; mm = m; weekday = w; interval = 0 }

abbrev pub every_ns : ℕ → Expr
every_ns n = record { kind = every; hh = 0; mm = 0; weekday = 0; interval = n }

-- The three forms of an expression.
pub data Denotes : List ℕ → Expr → Type 0 where
  daily_form : {a : List ℕ} {h m : ℕ} → Clock a h m → Denotes (codes "daily@" ++ a) (daily_at h m)
  weekly_form :
      {d a : List ℕ} {w h m : ℕ}
      → Day d w
      → Clock a h m
      → Denotes (codes "weekly@" ++ (d ++ b'@' ∷ a)) (weekly_at w h m)
  every_form : {a : List ℕ} {n : ℕ} → Interval a n → Denotes (codes "every@" ++ a) (every_ns n)
