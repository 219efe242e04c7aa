-- ===== src/Throttle/Fire.antt =====
-- supervisor/internal/throttle: the writing half of throttle.go, dept_weekly.go, ingress.go and
-- events.go. The writes join the transaction of the caller: a call that fails is an error, and the
-- caller rolls back.
pub mod Laws
use garrison.Common.{
  ℕ, zero, suc, ◌+◌, ◌-◌, ◌*◌, ◌/◌, ◌%◌, ◌^◌, ◌≤◌, ◌<◌, String, ◌≡◌, refl, sym, ap, ◌∙◌, ◌≢◌, ◌↔◌,
  ◌⊎◌, inl, inr, Bool, true, false, not, ◌&&◌, ◌||◌, Option, none, some, List, [], ◌∷◌, ◌++◌, map,
  arith, eq_iff, ltb, leb, ◌==◌, str_eq, concat, if◌then◌else◌, ltb→lt, lt→ltb, leb→le, ==_iff,
  Bool-cases, Option-cases, length, take, length-append, All, All-append, All-map, All-mono, Result,
  ok, err, ◌>>=◌, ◌>>◌,
}
use garrison.Throttle.Gate.{
  Money, ThrottleKind, company_budget_exceeded, rate_limit_pause,
  dept_weekly_ticket_budget_exceeded, ingress_rate_cap_exceeded, DeptWeeklyDecision, Decision,
  allow, defer, CompanyState, numeric_to_float, check,
}
use garrison.Common.Int.{ℤ, pos}

pub data Call : Type 0 where
  update_pause insert_event notify_event : Call

-- What a column of instants keeps of one: whole microseconds.
abbrev pub stored : ℕ → ℕ
stored t = t / 1000 * 1000

module _ (m : Money) where
  open m use {Amount, Numeric, zero_amount}

  -- The payloads of throttle_events.
  pub data EventPayload : Type 0 where
    pause_event : ℕ → ℕ → String → String → String → EventPayload
    budget_event : Amount → Amount → Amount → EventPayload
    dept_weekly_event : ℕ → String → ℕ → ℤ → String → EventPayload
    rate_cap_event : String → ℕ → ℕ → EventPayload

  pub record Event : Type 0 where
    pub company_id : ℕ
    pub kind : ThrottleKind
    pub payload : EventPayload

  -- The company's row, the table throttle_events and the notifications of one transaction.
  pub record Ledger : Type 0 where
    pub company : CompanyState m
    pub events : List Event
    pub notified : List Event

  insert_event_and_notify :
      (Call → Bool) → ℕ → ThrottleKind → EventPayload → Ledger → Result Call Ledger
  insert_event_and_notify fails company_id kind payload l =
      let event : Event = record { company_id = company_id; kind = kind; payload = payload } in
      if fails insert_event
      then err insert_event
      else if fails notify_event
      then err notify_event
      else ok (record l { events = l.events ++ event ∷ []; notified = l.notified ++ event ∷ [] })

  pub record RateLimitDetail : Type 0 where
    pub status : String
    pub rate_limit_type : String
    pub total_cost_usd : String

  -- `back_off` is in nanoseconds; the payload carries it in whole seconds.
  unfoldable pub fire_pause :
      (Call → Bool) → ℕ → ℕ → ℕ → RateLimitDetail → Ledger → Result Call Ledger
  unfolding insert_event_and_notify
  fire_pause fails company_id back_off now detail l =
      let until = now + back_off in
      if fails update_pause
      then err update_pause
      else insert_event_and_notify fails company_id rate_limit_pause
          (pause_event until (back_off / 1000000000) detail.status detail.rate_limit_type
            detail.total_cost_usd)
          (record l { company = record l.company { pause_until = some (stored until) } })

  -- A conversion that fails counts as zero here.
  abbrev or_zero : Option Amount → Amount
  or_zero none = zero_amount
  or_zero (some a) = a

  unfoldable pub fire_budget_defer :
      (Call → Bool)
      → ℕ
      → Option Numeric
      → Option Numeric
      → Option Numeric
      → Ledger
      → Result Call Ledger
  unfolding numeric_to_float insert_event_and_notify
  fire_budget_defer fails company_id current estimated budget l =
      insert_event_and_notify fails company_id company_budget_exceeded
        (budget_event (or_zero (numeric_to_float m current))
          (or_zero (numeric_to_float m estimated)) (or_zero (numeric_to_float m budget)))
        l

  budget_or_zero : Option ℤ → ℤ
  budget_or_zero none = pos 0
  budget_or_zero (some b) = b

  unfoldable pub fire_dept_weekly :
      (Call → Bool) → ℕ → DeptWeeklyDecision → ℕ → String → Ledger → Result Call Ledger
  unfolding budget_or_zero insert_event_and_notify
  fire_dept_weekly fails company_id d dept_id attempted_caller_id l =
      insert_event_and_notify fails company_id dept_weekly_ticket_budget_exceeded
        (dept_weekly_event dept_id d.department_slug d.current_count (budget_or_zero d.budget)
          attempted_caller_id)
        l

  unfoldable pub fire_ingress_rate_cap :
      (Call → Bool) → ℕ → String → ℕ → ℕ → Ledger → Result Call Ledger
  unfolding insert_event_and_notify
  fire_ingress_rate_cap fails company_id connector_id rate_per_min burst l =
      insert_event_and_notify fails company_id ingress_rate_cap_exceeded
        (rate_cap_event connector_id rate_per_min burst) l

  -- The gate of supervisor/internal/spawn/spawn.go in its transaction: a deferral for the budget is
  -- audited, with two NULL amounts, and an audit that fails is logged and dropped; then the
  -- transaction commits.
  pub data Gated : Type 0 where
    may_spawn gate_failed : Gated
    deferred : Ledger → Gated

  or_keep : Ledger → Result Call Ledger → Ledger
  or_keep l (ok new) = new
  or_keep l (err c) = l

  gate_decision : (Call → Bool) → ℕ → Option Numeric → Ledger → Option (Decision m) → Gated
  unfolding fire_budget_defer or_keep
  gate_decision fails company_id estimated l none = gate_failed
  gate_decision fails company_id estimated l (some allow) = may_spawn
  gate_decision fails company_id estimated l (some (defer company_budget_exceeded payload)) =
      deferred (or_keep l (fire_budget_defer fails company_id none estimated none l))
  gate_decision fails company_id estimated l (some (defer kind payload)) = deferred l

  unfoldable pub spawn_gate : (Call → Bool) → ℕ → Option Numeric → ℕ → Ledger → Gated
  unfolding gate_decision
  spawn_gate fails company_id estimated now l =
      gate_decision fails company_id estimated l (check m (some l.company) estimated now)
