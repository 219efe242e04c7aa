-- ===== src/Throttle/Gate/Laws.antt =====
-- What the gates let through.
use Prim.Native.Nat.{max}
use garrison.Common.Int.{ℤ, pos_part, neg_part}
use garrison.Common.{
  ℕ, zero, suc, ◌+◌, ◌≤◌, ◌<◌, ◌≡◌, refl, ◌↔◌, ◌⊎◌, inl, inr, Bool, false, Option, none, some,
  arith, ltb, if◌then◌else◌, ltb→lt, lt→ltb, le→ltb, Bool-cases,
}
use garrison.Throttle.Gate.{
  Money, rate_limit_pause, check_cap, CapCheck, DeptWeekly, check_dept_weekly, pause_payload, allow,
  defer, CompanyState, numeric_to_float, with_amounts, evaluate_pause, evaluate_budget, after_pause,
  check,
}

module _ (m : Money) where
  open m use {Amount, Numeric, add, is_zero, exceeds}

  -- The budget lets a spawn through: there is none, or it is not zero and the sum is within it.
  abbrev pub WithinBudget : CompanyState m → Option Numeric → Type 0
  WithinBudget s estimated =
      (s.daily_budget_usd ≡ none)
      ⊎ ((c : Amount) × (e : Amount) × (b : Amount) × (numeric_to_float m s.cost_24h_usd ≡ some c)
          × (numeric_to_float m estimated ≡ some e)
          × (numeric_to_float m s.daily_budget_usd ≡ some b)
          × (is_zero b ≡ false)
          × (exceeds (add c e) b ≡ false))

  -- A pause that lasts beyond `now`.
  abbrev pub PausedAt : CompanyState m → ℕ → Type 0
  PausedAt s now = (until : ℕ) × (s.pause_until ≡ some until) × (now < until)

  with_amounts-allow :
      (oc oe ob : Option Amount)
      → (with_amounts m oc oe ob ≡ some allow) ↔ (
          (c : Amount) × (e : Amount) × (b : Amount) × (oc ≡ some c)
          × (oe ≡ some e)
          × (ob ≡ some b)
          × (is_zero b ≡ false)
          × (exceeds (add c e) b ≡ false))
  unfolding with_amounts
  with_amounts-allow (some c) (some e) (some b) =
      ((λ h. (c, e, b, refl, refl, refl, ground arith, ground arith)), (λ h. ground arith))
  with_amounts-allow none oe ob = ((λ h. cc), (λ h. cc))
  with_amounts-allow (some c) none ob = ((λ h. cc), (λ h. cc))
  with_amounts-allow (some c) (some e) none = ((λ h. cc), (λ h. cc))

  evaluate_budget-allow :
      (s : CompanyState m) (estimated : Option Numeric) (o : Option Numeric)
      → s.daily_budget_usd ≡ o
      → (evaluate_budget m s estimated o ≡ some allow) ↔ WithinBudget s estimated
  unfolding evaluate_budget
  evaluate_budget-allow s estimated none e = (λ h. inl e, λ h. refl)
  evaluate_budget-allow s estimated (some d) e = (
    (λ h. inr (rw e ((with_amounts-allow _ _ _).0 h))),
    (λ h. (with_amounts-allow _ _ _).1 (elim h [ inl n ↦ cc | inr w ↦ rw e at w ])),
  )

  pause-allow :
      (o : Option ℕ) (now : ℕ)
      → (evaluate_pause m o now ≡ allow) ↔ (¬ ((u : ℕ) × (o ≡ some u) × (now < u)))
  unfolding evaluate_pause
  pause-allow none now = ((λ h p. cc), (λ h. refl))
  pause-allow (some u) now = (
    (λ h p. ground arith),
    (λ h. elim (Bool-cases (ltb now u)) [
      | inl y ↦ absurd (h (u, refl, ltb→lt now u y))
      | inr n ↦ rw n
    ]),
  )

  evaluate_pause-allow :
      (s : CompanyState m) (now : ℕ)
      → (evaluate_pause m s.pause_until now ≡ allow) ↔ (¬ PausedAt s now)
  evaluate_pause-allow s now = pause-allow s.pause_until now

  -- A spawn is let through exactly when no pause lasts beyond `now` and the budget allows it: there
  -- is none, or it is not zero and the cost of the last 24 hours with the estimate is within it.
  pub check-allow :
      (s : CompanyState m) (estimated : Option Numeric) (now : ℕ)
      → (check m (some s) estimated now ≡ some allow)
        ↔ ((¬ PausedAt s now) × WithinBudget s estimated)
  unfolding check after_pause
  check-allow s estimated now =
      ground (
        arith,
        evaluate_pause-allow s now,
        evaluate_budget-allow s estimated s.daily_budget_usd refl,
      )

module _ (m : Money) (s : CompanyState m) (estimated : Option (m.Numeric)) (now u : ℕ)
    (until : s.pause_until ≡ some u) where
  pub check-paused :
      now < u → check m (some s) estimated now ≡ some (defer rate_limit_pause (pause_payload u))
  unfolding check evaluate_pause after_pause
  check-paused h = rw until (rw (lt→ltb now u h))

  pub check-expired :
      u ≤ now
      → check m (some s) estimated now
        ≡ check m (some (record s { pause_until = none })) estimated now
  unfolding check evaluate_pause after_pause
  check-expired h = rw until (rw (le→ltb now u h))

-- Tickets created one after the other, each if the gate lets it through.
abbrev create : DeptWeekly → DeptWeekly
create s =
    if (check_dept_weekly s).allowed then record s { current_count = s.current_count + 1 } else s

pub create_many : ℕ → DeptWeekly → DeptWeekly
create_many zero s = s
create_many (suc n) s = create_many n (create s)

create_many-budget :
    (n : ℕ) (s : DeptWeekly) (b : ℤ) (k : ℕ)
    → s.weekly_ticket_budget ≡ some b
    → s.current_count ≤ k
    → pos_part b ≤ k + neg_part b
    → (create_many n s).current_count ≤ k
unfolding create_many check_dept_weekly
create_many-budget zero s b k e h l = h
create_many-budget (suc n) s b k e h l =
    create_many-budget n (create s) b k (ground arith) (ground arith) l

-- However many tickets are asked for within a week of a department with a budget, if each passes
-- the gate first, their number stays within the larger of the budget and the number there was. A
-- budget of zero or less lets no ticket through.
pub create_many-le :
    (n : ℕ) (s : DeptWeekly) (b : ℤ)
    → s.weekly_ticket_budget ≡ some b
    → (create_many n s).current_count ≤ max s.current_count (pos_part b)
create_many-le n s b e =
    create_many-budget n s b (max s.current_count (pos_part b)) e (omega arith) (omega arith)

-- Instances started one after the other, each if `CheckCap` allows it.
abbrev allows : Option CapCheck → Bool
allows none = false
allows (some c) = c.allowed

pub spawn_many : ℕ → ℤ → ℕ → ℕ
spawn_many zero cap running = running
spawn_many (suc n) cap running =
    let next = if allows (check_cap (some cap) (some running)) then running + 1 else running in
    spawn_many n cap next

-- However many spawns are tried, if each passes the cap check before the next is counted, the
-- number that runs stays within the larger of the cap and the number that ran; it stays as it was
-- if the cap is zero or less.
pub spawn_many-le :
    (n : ℕ) (cap : ℤ) (running : ℕ) → spawn_many n cap running ≤ max running (pos_part cap)
unfolding spawn_many check_cap
spawn_many-le zero cap running = omega arith
spawn_many-le (suc n) cap running =
    ground (arith, spawn_many-le n cap running, spawn_many-le n cap (running + 1))
