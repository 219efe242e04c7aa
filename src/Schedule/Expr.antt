-- ===== src/Schedule/Expr.antt =====
-- supervisor/internal/schedule/expr.go: the expression type and its parser.
mod Split
mod Sound
mod Complete
pub mod Correct
use garrison.Common.Bytes.{codes, bytes_eq}
use garrison.Common.{
  ℕ, ◌≡◌, refl, zero, suc, ◌+◌, ◌-◌, ◌*◌, ◌/◌, ◌^◌, Bool, true, false, ◌&&◌, ◌||◌, not, List, [],
  ◌∷◌, Option, none, some, Result, ok, err, ◌>>=◌, ltb, leb, ◌==◌, length, if◌then◌else◌,
}

pub data Kind : Type 0 where
  daily weekly every : Kind

-- Go's `Expr`: the fields that a kind does not use hold the zero value. `interval` is in
-- nanoseconds (`time.Duration`), `weekday` counts from Sunday (`time.Weekday`).
pub record Expr : Type 0 where
  pub kind : Kind
  pub hh : ℕ
  pub mm : ℕ
  pub weekday : ℕ
  pub interval : ℕ

-- The message of a `ParseError`, with the values that it quotes.
pub data ParseMsg : Type 0 where
  unknown_weekday malformed_time malformed_interval unknown_unit : List ℕ → ParseMsg
  malformed_count count_out_of_range : List ℕ → ParseMsg
  hour_out_of_range minute_out_of_range : ℕ → ParseMsg
  count_below_one unknown_form : ParseMsg

pub record ParseError : Type 0 where
  pub input : List ℕ
  pub msg : ParseMsg

abbrev pub minute_ns : ℕ
minute_ns = 60000000000

abbrev pub hour_ns : ℕ
hour_ns = 3600000000000

abbrev pub day_ns : ℕ
day_ns = 86400000000000

abbrev pub max_int64 : ℕ
max_int64 = 9223372036854775807

-- `strings.Split(s, sep)` for a separator of one byte.
split_cons : ℕ → List (List ℕ) → List (List ℕ)
split_cons c [] = (c ∷ []) ∷ []
split_cons c (p ∷ ps) = (c ∷ p) ∷ ps

unfoldable pub split : ℕ → List ℕ → List (List ℕ)
unfolding split_cons
split sep [] = [] ∷ []
split sep (c ∷ s) = let rest = split sep s in if c == sep then [] ∷ rest else split_cons c rest

abbrev pub is_digit : ℕ → Bool
is_digit c = leb b'0' c && leb c b'9'

every_digit : List ℕ → Bool
every_digit [] = true
every_digit (c ∷ s) = is_digit c && every_digit s

unfoldable pub all_digits : List ℕ → Bool
unfolding every_digit
all_digits [] = false
all_digits (c ∷ s) = every_digit (c ∷ s)

-- `strconv.Atoi` on a string of digits: the value, or a range error.
unfoldable pub digits_value : ℕ → List ℕ → ℕ
digits_value n [] = n
digits_value n (c ∷ s) = digits_value (n * 10 + (c - b'0')) s

unfoldable pub atoi : List ℕ → Option ℕ
unfolding digits_value
atoi s = let n = digits_value 0 s in if leb n max_int64 then some n else none

weekday_of : List ℕ → Option ℕ
unfolding bytes_eq
weekday_of s =
    if bytes_eq s (codes "mon")
    then some 1
    else if bytes_eq s (codes "tue")
    then some 2
    else if bytes_eq s (codes "wed")
    then some 3
    else if bytes_eq s (codes "thu")
    then some 4
    else if bytes_eq s (codes "fri")
    then some 5
    else if bytes_eq s (codes "sat")
    then some 6
    else if bytes_eq s (codes "sun")
    then some 0
    else none

abbrev failed : {A : Type 0} → List ℕ → ParseMsg → Result ParseError A
failed input msg = err (record { input = input; msg = msg })

-- The tests on `len(s)` and `s[2]` are the patterns.
check_hhmm : List ℕ → ℕ → ℕ → Result ParseError (ℕ × ℕ)
check_hhmm input hh mm =
    if ltb 23 hh
    then failed input (hour_out_of_range hh)
    else if ltb 59 mm
    then failed input (minute_out_of_range mm)
    else ok (hh, mm)

parse_hhmm : List ℕ → List ℕ → Result ParseError (ℕ × ℕ)
unfolding all_digits digits_value check_hhmm
parse_hhmm input (a ∷ b ∷ c ∷ d ∷ e ∷ []) =
    if c == b':' && all_digits (a ∷ b ∷ []) && all_digits (d ∷ e ∷ [])
    then check_hhmm input (digits_value 0 (a ∷ b ∷ [])) (digits_value 0 (d ∷ e ∷ []))
    else failed input (malformed_time (a ∷ b ∷ c ∷ d ∷ e ∷ []))
parse_hhmm input s = failed input (malformed_time s)

-- `s[len(s)-1]` and `s[:len(s)-1]` of a string with at least one byte.
last_byte : ℕ → List ℕ → ℕ
last_byte c [] = c
last_byte c (d ∷ s) = last_byte d s

drop_last : ℕ → List ℕ → List ℕ
drop_last c [] = []
drop_last c (d ∷ s) = c ∷ drop_last d s

unit_of : ℕ → Option ℕ
unit_of c = if c == b'm' then some minute_ns else if c == b'h' then some hour_ns else none

parse_count : List ℕ → List ℕ → ℕ → Result ParseError ℕ
unfolding all_digits atoi
parse_count input digits unit =
    if all_digits digits
    then elim (atoi digits) [
      | none ↦ failed input (count_out_of_range digits)
      | some n ↦
          if ltb (max_int64 / unit) n
          then failed input (count_out_of_range digits)
          else if ltb n 1
          then failed input count_below_one
          else ok (n * unit)
    ]
    else failed input (malformed_count digits)

-- The rest of `parseEvery`, after the switch on the last byte `c`.
parse_unit : List ℕ → List ℕ → ℕ → Option ℕ → Result ParseError ℕ
unfolding parse_count
parse_unit input digits c none = failed input (unknown_unit (c ∷ []))
parse_unit input digits c (some unit) = parse_count input digits unit

parse_every : List ℕ → List ℕ → Result ParseError ℕ
unfolding unit_of last_byte drop_last parse_unit
parse_every input (a ∷ b ∷ s) =
    let c = last_byte a (b ∷ s) in parse_unit input (drop_last a (b ∷ s)) c (unit_of c)
parse_every input s = failed input (malformed_interval s)

-- The rest of the weekly case, after the lookup of the day.
parse_weekly : List ℕ → List ℕ → List ℕ → Option ℕ → Result ParseError Expr
unfolding parse_hhmm
parse_weekly s day a none = failed s (unknown_weekday day)
parse_weekly s day a (some wd) = do
  t ← parse_hhmm s a
  ok (record { kind = weekly; hh = t.0; mm = t.1; weekday = wd; interval = 0 })

-- The `switch` on the parts; no two of its cases overlap.
parse_parts : List ℕ → List (List ℕ) → Result ParseError Expr
unfolding bytes_eq weekday_of parse_hhmm parse_every parse_weekly
parse_parts s (form ∷ a ∷ []) =
    if bytes_eq form (codes "daily")
    then (do
      t ← parse_hhmm s a
      ok (record { kind = daily; hh = t.0; mm = t.1; weekday = 0; interval = 0 }))
    else if bytes_eq form (codes "every")
    then (do
      n ← parse_every s a
      ok (record { kind = every; hh = 0; mm = 0; weekday = 0; interval = n }))
    else failed s unknown_form
parse_parts s (form ∷ day ∷ a ∷ []) =
    if bytes_eq form (codes "weekly")
    then parse_weekly s day a (weekday_of day)
    else failed s unknown_form
parse_parts s _ = failed s unknown_form

unfoldable pub parse : List ℕ → Result ParseError Expr
unfolding split parse_parts
parse s = parse_parts s (split b'@' s)
