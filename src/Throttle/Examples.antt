-- ===== src/Throttle/Examples.antt =====
-- The gates and their audits, at concrete inputs.
use garrison.Common.{ℕ, ◌+◌, ◌≡◌, refl, ◌↔◌, Bool, false, some, [], ◌∷◌, ltb, ◌==◌, ok, err}
use garrison.Common.Int.{pos}
use garrison.Throttle.Gate.{
  Money, company_budget_exceeded, DeptWeekly, budget_payload, allow, defer, CompanyState, check,
}
use garrison.Throttle.Gate.Laws.{PausedAt, WithinBudget, check-allow}
use garrison.Throttle.Fire.{Call, deferred, Ledger, RateLimitDetail, fire_pause, spawn_gate}
use garrison.Throttle.Fire.Laws.{GateEnd, spawn_gate-End, blank_audit}

-- Whole cents.
abbrev cents : Money
cents = record {
  Amount = ℕ;
  Numeric = ℕ;
  zero_amount = 0;
  to_float = λ n. some n;
  add = λ a b. a + b;
  is_zero = λ n. n == 0;
  exceeds = λ a b. ltb b a;
}

-- 80 cents of a budget of 100 are spent, and a pause has ended.
abbrev company : CompanyState cents
company = record { pause_until = some 5; daily_budget_usd = some 100; cost_24h_usd = some 80 }

abbrev ledger : Ledger cents
ledger = record { company = company; events = []; notified = [] }

abbrev no_failure : Call → Bool
no_failure c = false

check-allow_example :
    (check cents (some company) (some 20) 5 ≡ some allow)
    ↔ ((¬ PausedAt cents company 5) × WithinBudget cents company (some 20))
check-allow_example = check-allow cents company (some 20) 5

allowed_at_the_budget : check cents (some company) (some 20) 5 ≡ some allow
unfolding check
allowed_at_the_budget = refl

abbrev dept : DeptWeekly
dept = record { current_count = 1; weekly_ticket_budget = some (pos 3); department_slug = "d" }

abbrev detail : RateLimitDetail cents
detail = record { status = "rejected"; rate_limit_type = "five_hour"; total_cost_usd = "0.1" }

abbrev paused : Ledger cents → Ledger cents
paused l = elim (fire_pause cents no_failure 1 60000 10999 detail l) [ ok new ↦ new | err c ↦ l ]

over_budget :
    check cents (some company) (some 21) 5
    ≡ some (defer company_budget_exceeded (budget_payload 80 21 100))
unfolding check
over_budget = refl

spawn_gate-End_example :
    GateEnd cents no_failure 1 ledger
      (check cents (some company) (some 21) 5)
      (spawn_gate cents no_failure 1 (some 21) 5 ledger)
spawn_gate-End_example = spawn_gate-End cents no_failure 1 (some 21) 5 ledger

-- 80 cents of a budget of 100 are spent, and the audit says zero for both.
blank :
    spawn_gate cents no_failure 1 (some 21) 5 ledger
    ≡ deferred (record ledger {
      events = blank_audit cents 1 21 ∷ [];
      notified = blank_audit cents 1 21 ∷ [];
    })
unfolding spawn_gate check
blank = refl
