-- ===== src/Throttle/Gate.antt =====
-- supervisor/internal/throttle: pause.go, budget.go, dept_weekly.go and the reading half of
-- throttle.go; supervisor/internal/concurrency/cap.go. Rows of queries are inputs, an instant is a
-- number of nanoseconds, and payloads are records. Amounts go through `float64` in the source:
-- here they are of a type that is a parameter, with the operations that the code uses.
pub mod Laws
use garrison.Common.Int.{ℤ, pos, ltb_ℤ}
use garrison.Common.{
  ℕ, zero, suc, ◌+◌, ◌-◌, ◌*◌, ◌/◌, ◌%◌, ◌^◌, ◌≤◌, ◌<◌, String, ◌≡◌, refl, sym, ap, ◌∙◌, ◌≢◌, ◌↔◌,
  ◌⊎◌, inl, inr, Bool, true, false, not, ◌&&◌, ◌||◌, Option, none, some, List, [], ◌∷◌, ◌++◌, map,
  arith, eq_iff, ltb, leb, ◌==◌, str_eq, concat, if◌then◌else◌, ltb→lt, lt→ltb, leb→le, ==_iff,
  Bool-cases, Option-cases, length, take, length-append, All, All-append, All-map, All-mono, Result,
  ok, err, ◌>>=◌, ◌>>◌,
}

-- Amounts of money: `float64`, and `numericToFloat` of a NUMERIC that is not NULL.
pub record Money : Type 1 where
  pub Amount : Type 0
  pub Numeric : Type 0
  pub zero_amount : Amount
  pub to_float : Numeric → Option Amount
  pub add : Amount → Amount → Amount
  pub is_zero : Amount → Bool
  pub exceeds : Amount → Amount → Bool

pub data ThrottleKind : Type 0 where
  company_budget_exceeded rate_limit_pause dept_weekly_ticket_budget_exceeded : ThrottleKind
  ingress_rate_cap_exceeded : ThrottleKind

-- `CheckCap`: the cap and the count of running instances come from queries that can fail.
pub record CapCheck : Type 0 where
  pub allowed : Bool
  pub cap : ℤ
  pub running : ℕ

unfoldable pub check_cap : Option ℤ → Option ℕ → Option CapCheck
check_cap none running = none
check_cap (some cap) none = none
check_cap (some cap) (some running) =
    some (record { allowed = ltb_ℤ (pos running) cap; cap = cap; running = running })

-- GetDeptWeeklyState: the tickets of the last seven days, and the budget if there is one.
pub record DeptWeekly : Type 0 where
  pub current_count : ℕ
  pub weekly_ticket_budget : Option ℤ
  pub department_slug : String

pub record DeptWeeklyDecision : Type 0 where
  pub allowed : Bool
  pub current_count : ℕ
  pub budget : Option ℤ
  pub department_slug : String

within_budget : ℕ → Option ℤ → Bool
within_budget count none = true
within_budget count (some budget) = not (ltb_ℤ budget (pos (count + 1)))

unfoldable pub check_dept_weekly : DeptWeekly → DeptWeeklyDecision
unfolding within_budget
check_dept_weekly s = record {
  allowed = within_budget s.current_count s.weekly_ticket_budget;
  current_count = s.current_count;
  budget = s.weekly_ticket_budget;
  department_slug = s.department_slug;
}

module _ (m : Money) where
  open m use {Amount, Numeric, zero_amount, to_float, add, is_zero, exceeds}

  -- The amounts of a budget payload, or the instant of a pause payload.
  pub data Payload : Type 0 where
    budget_payload : Amount → Amount → Amount → Payload
    pause_payload : ℕ → Payload

  pub data Decision : Type 0 where
    allow : Decision
    defer : ThrottleKind → Payload → Decision

  -- GetCompanyThrottleState
  pub record CompanyState : Type 0 where
    pub pause_until : Option ℕ
    pub daily_budget_usd : Option Numeric
    pub cost_24h_usd : Option Numeric

  -- `numericToFloat`: NULL is zero, and a conversion can fail.
  unfoldable pub numeric_to_float : Option Numeric → Option Amount
  numeric_to_float none = some zero_amount
  numeric_to_float (some n) = to_float n

  evaluate_pause : Option ℕ → ℕ → Decision
  evaluate_pause none now = allow
  evaluate_pause (some until) now =
      if ltb now until then defer rate_limit_pause (pause_payload until) else allow

  budget_decision : Amount → Amount → Amount → Decision
  budget_decision current estimated budget =
      if is_zero budget || exceeds (add current estimated) budget
      then defer company_budget_exceeded (budget_payload current estimated budget)
      else allow

  -- The three conversions; any of them can fail.
  with_amounts : Option Amount → Option Amount → Option Amount → Option Decision
  unfolding budget_decision
  with_amounts (some current) (some estimated) (some budget) =
      some (budget_decision current estimated budget)
  with_amounts _ _ _ = none

  evaluate_budget : CompanyState → Option Numeric → Option Numeric → Option Decision
  unfolding numeric_to_float with_amounts
  evaluate_budget s estimated_next none = some allow
  evaluate_budget s estimated_next (some daily) =
      with_amounts (numeric_to_float s.cost_24h_usd) (numeric_to_float estimated_next)
        (numeric_to_float (some daily))

  after_pause : CompanyState → Option Numeric → Decision → Option Decision
  unfolding evaluate_budget
  after_pause s estimated_next allow = evaluate_budget s estimated_next s.daily_budget_usd
  after_pause s estimated_next (defer kind payload) = some (defer kind payload)

  -- `Check`; `none` is an error: the query or a conversion failed.
  unfoldable pub check : Option CompanyState → Option Numeric → ℕ → Option Decision
  unfolding evaluate_pause after_pause
  check none estimated_next now = none
  check (some s) estimated_next now =
      after_pause s estimated_next (evaluate_pause s.pause_until now)
