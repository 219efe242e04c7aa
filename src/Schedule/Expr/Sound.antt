-- ===== src/Schedule/Expr/Sound.antt =====
-- What the parser accepts is in the grammar.
use garrison.Common.Bytes.{codes, bytes_eq, bytes_eq_sound}
use garrison.Common.{
  ℕ, ◌*◌, ◌/◌, ◌≤◌, ◌≡◌, refl, ap, inl, inr, true, Option, none, some, List, [], ◌∷◌, ◌++◌, arith,
  Bool-cases, Result, ok, err, ◌>>=◌,
}
use garrison.Schedule.Expr.{
  Expr, parse_unit, parse_weekly, max_int64, all_digits, digits_value, split, atoi, weekday_of,
  parse_hhmm, last_byte, drop_last, unit_of, parse_count, parse_every, parse_parts, parse,
}
use mathlib.Core.Path.{subst}
use mathlib.Core.List.{append-nil}
use garrison.Schedule.Expr.Split.{join, join-split}
use garrison.Schedule.Grammar.{
  daily_at, weekly_at, every_ns, TwoDigits, Clock, clock, Day, mon, tue, wed, thu, fri, sat, sun,
  TimeUnit, minutes, hours, Interval, interval, Denotes, daily_form, weekly_form, every_form,
}

parse_hhmm_sound : (input s : List ℕ) (h m : ℕ) → parse_hhmm input s ≡ ok (h, m) → Clock s h m
unfolding parse_hhmm
parse_hhmm_sound input (a ∷ b ∷ c ∷ d ∷ e ∷ []) h m p =
    let fields : (c ≡ b':') × TwoDigits a b h × TwoDigits d e m × (h ≤ 23) × (m ≤ 59) =
      ground arith in
    rw fields.0 (clock fields.1 fields.2 fields.3 fields.4)
parse_hhmm_sound input s h m p = cc

weekday_of_sound : (s : List ℕ) (w : ℕ) → weekday_of s ≡ some w → Day s w
unfolding weekday_of
weekday_of_sound s w p = grind (arith, mon, tue, wed, thu, fri, sat, sun, bytes_eq_sound)

drop_last-last_byte : (c : ℕ) (s : List ℕ) → drop_last c s ++ last_byte c s ∷ [] ≡ c ∷ s
unfolding drop_last last_byte
drop_last-last_byte c [] = refl
drop_last-last_byte c (d ∷ s) = ap (λ r. c ∷ r) (drop_last-last_byte d s)

unit_of_sound : (c u : ℕ) → unit_of c ≡ some u → TimeUnit c u
unfolding unit_of
unit_of_sound c u p = grind (arith, minutes, hours)

parse_count_sound :
    (input ds : List ℕ) (u n : ℕ)
    → parse_count input ds u ≡ ok n
    → (all_digits ds ≡ true)
      × (1 ≤ digits_value 0 ds)
      × (digits_value 0 ds ≤ max_int64 / u)
      × (n ≡ digits_value 0 ds * u)
unfolding parse_count atoi
parse_count_sound input ds u n p = ground arith

parse_unit_sound :
    (input ds : List ℕ) (c n : ℕ) (o : Option ℕ)
    → unit_of c ≡ o
    → parse_unit input ds c o ≡ ok n
    → Interval (ds ++ c ∷ []) n
unfolding parse_unit
parse_unit_sound input ds c n none e p = cc
parse_unit_sound input ds c n (some u) e p =
    let (d, low, high, v) = parse_count_sound input ds u n p in
    rw v (interval ds (unit_of_sound c u e) d low high)

parse_every_sound : (input s : List ℕ) (n : ℕ) → parse_every input s ≡ ok n → Interval s n
unfolding parse_every
parse_every_sound input [] n p = cc
parse_every_sound input (a ∷ []) n p = cc
parse_every_sound input (a ∷ b ∷ s) n p =
    let c = last_byte a (b ∷ s) in
    subst (λ t. Interval t n) (drop_last-last_byte a (b ∷ s))
      (parse_unit_sound input (drop_last a (b ∷ s)) c n (unit_of c) refl p)

-- A successful bind.
bind_ok :
    {E A B : Type 0} (m : Result E A) (f : A → Result E B) {b : B}
    → (m >>= f) ≡ ok b
    → (a : A) × (m ≡ ok a) × (f a ≡ ok b)
bind_ok (ok a) f h = (a, refl, h)
bind_ok (err e) f h = cc

daily_sound :
    (s a : List ℕ) (e : Expr)
    → (parse_hhmm s a >>= (λ t. ok (daily_at t.0 t.1))) ≡ ok e
    → Denotes (codes "daily@" ++ a) e
daily_sound s a e p =
    let (t, q, r) = bind_ok (parse_hhmm s a) (λ t. ok (daily_at t.0 t.1)) p in
    let v : daily_at t.0 t.1 ≡ e = cc in rw (← v) (daily_form (parse_hhmm_sound s a t.0 t.1 q))

parse_weekly_sound :
    (s d a : List ℕ) (o : Option ℕ) (e : Expr)
    → weekday_of d ≡ o
    → parse_weekly s d a o ≡ ok e
    → Denotes (codes "weekly@" ++ (d ++ b'@' ∷ a)) e
unfolding parse_weekly
parse_weekly_sound s d a none e w p = cc
parse_weekly_sound s d a (some wd) e w p =
    let (t, q, r) = bind_ok (parse_hhmm s a) (λ t. ok (weekly_at wd t.0 t.1)) p in
    let v : weekly_at wd t.0 t.1 ≡ e = cc in
    rw (← v) (weekly_form (weekday_of_sound d wd w) (parse_hhmm_sound s a t.0 t.1 q))

every_sound :
    (s a : List ℕ) (e : Expr)
    → (parse_every s a >>= (λ n. ok (every_ns n))) ≡ ok e
    → Denotes (codes "every@" ++ a) e
every_sound s a e p =
    let (n, q, r) = bind_ok (parse_every s a) (λ n. ok (every_ns n)) p in
    let v : every_ns n ≡ e = cc in rw (← v) (every_form (parse_every_sound s a n q))

parse_parts_sound :
    (s : List ℕ) (ps : List (List ℕ)) (e : Expr)
    → parse_parts s ps ≡ ok e
    → Denotes (join b'@' ps) e
unfolding parse_parts
parse_parts_sound s [] e p = cc
parse_parts_sound s (f ∷ []) e p = cc
parse_parts_sound s (f ∷ a ∷ []) e p = elim (Bool-cases (bytes_eq f (codes "daily"))) [
  | inl y ↦ rw (bytes_eq_sound f (codes "daily") y, append-nil) (daily_sound s a e (rw y at p))
  | inr n ↦ elim (Bool-cases (bytes_eq f (codes "every"))) [
    | inl y ↦
        rw (bytes_eq_sound f (codes "every") y, append-nil) (every_sound s a e (rw (n, y) at p))
    | inr m ↦ let q = rw (n, m) at p in cc
  ]
]
parse_parts_sound s (f ∷ d ∷ a ∷ []) e p = elim (Bool-cases (bytes_eq f (codes "weekly"))) [
  | inl y ↦
      rw (bytes_eq_sound f (codes "weekly") y, append-nil)
        (parse_weekly_sound s d a (weekday_of d) e refl (rw y at p))
  | inr n ↦ let q = rw n at p in cc
]
parse_parts_sound s (f ∷ d ∷ a ∷ b ∷ ps) e p = cc

pub parse_sound : (s : List ℕ) (e : Expr) → parse s ≡ ok e → Denotes s e
unfolding parse
parse_sound s e p =
    subst (λ t. Denotes t e) (join-split b'@' s) (parse_parts_sound s (split b'@' s) e p)
