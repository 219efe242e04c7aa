-- ===== src/Throttle/Fire/Laws.antt =====
-- What a pause and its audit do to the gate.
use garrison.Common.{
  true, ◌≢◌, ◌⊎◌, inl, inr, Bool-cases, ℕ, ◌+◌, ◌/◌, ◌≡◌, refl, Bool, Option, none, some, [], ◌∷◌,
  ◌++◌,
}
use garrison.Throttle.Gate.{
  dept_weekly_ticket_budget_exceeded, ingress_rate_cap_exceeded, Decision, allow, ThrottleKind,
  Money, company_budget_exceeded, rate_limit_pause, defer, Payload, check, numeric_to_float,
}
use garrison.Throttle.Fire.{
  Gated, may_spawn, gate_failed, gate_decision, fire_budget_defer, or_keep, insert_event_and_notify,
  Call, insert_event, notify_event, or_zero, deferred, Event, Ledger, RateLimitDetail, pause_event,
  budget_event, spawn_gate,
}

module _ (m : Money) where
  open m use {Amount, Numeric, zero_amount}

  -- The event of a pause.
  abbrev pub pause_of : ℕ → ℕ → ℕ → RateLimitDetail m → Event m
  pause_of company_id back_off t detail = record {
    company_id = company_id;
    kind = rate_limit_pause;
    payload =
        pause_event (t + back_off) (back_off / 1000000000) detail.status detail.rate_limit_type
          detail.total_cost_usd;
  }

  -- The audit of a budget deferral: zero for the cost so far and for the budget.
  abbrev pub blank_audit : ℕ → Amount → Event m
  blank_audit company_id x = record {
    company_id = company_id;
    kind = company_budget_exceeded;
    payload = budget_event zero_amount x zero_amount;
  }

  -- What the gate's answer says of the decision, and what a deferral leaves in the tables.
  abbrev pub GateEnd : (Call → Bool) → ℕ → Ledger m → Option (Decision m) → Gated m → Type 0
  GateEnd fails company_id l d may_spawn = d ≡ some allow
  GateEnd fails company_id l d gate_failed = d ≡ none
  GateEnd fails company_id l d (deferred l') =
      (kind : ThrottleKind) × (p : Payload m) × (d ≡ some (defer kind p))
      × ((l' ≡ l) × ((kind ≢ company_budget_exceeded) ⊎ ((c : Call) × (fails c ≡ true)))
          ⊎ ((kind ≡ company_budget_exceeded)
              × ((x : Amount) × (l' ≡ record l {
                events = l.events ++ blank_audit company_id x ∷ [];
                notified = l.notified ++ blank_audit company_id x ∷ [];
              }))))

  gate_decision-End :
      (fails : Call → Bool) (company_id : ℕ) (estimated : Option Numeric) (l : Ledger m)
      (d : Option (Decision m))
      → GateEnd fails company_id l d (gate_decision m fails company_id estimated l d)
  unfolding gate_decision or_keep fire_budget_defer insert_event_and_notify
  gate_decision-End fails company_id estimated l none = refl
  gate_decision-End fails company_id estimated l (some allow) = refl
  gate_decision-End fails company_id estimated l (some (defer company_budget_exceeded p)) =
      elim (Bool-cases (fails insert_event)) [
        | inl y ↦ (company_budget_exceeded, p, refl, inl (rw y refl, inr (insert_event, y)))
        | inr n ↦ elim (Bool-cases (fails notify_event)) [
          | inl y ↦ (company_budget_exceeded, p, refl, inl (rw (n, y) refl, inr (notify_event, y)))
          | inr k ↦ (
            company_budget_exceeded,
            p,
            refl,
            inr (refl, (or_zero m (numeric_to_float m estimated), rw (n, k) refl)),
          )
        ]
      ]
  gate_decision-End fails company_id estimated l (some (defer rate_limit_pause p)) =
      (rate_limit_pause, p, refl, inl (refl, inl (λ e. cc)))
  gate_decision-End fails company_id estimated l
        (some (defer dept_weekly_ticket_budget_exceeded p)) =
      (dept_weekly_ticket_budget_exceeded, p, refl, inl (refl, inl (λ e. cc)))
  gate_decision-End fails company_id estimated l (some (defer ingress_rate_cap_exceeded p)) =
      (ingress_rate_cap_exceeded, p, refl, inl (refl, inl (λ e. cc)))

  -- The gate of a spawn lets it through exactly when `Check` allows it, and fails only when `Check`
  -- does. Any other spawn is deferred. Either the tables are then as before, and the deferral is not
  -- for the budget or a call failed; or it is for the budget and there is one audit event more, which
  -- is also notified, and which carries zero for the cost so far and for the budget, whatever they are.
  pub spawn_gate-End :
      (fails : Call → Bool) (company_id : ℕ) (estimated : Option Numeric) (now : ℕ) (l : Ledger m)
      → GateEnd fails company_id l
          (check m (some l.company) estimated now)
          (spawn_gate m fails company_id estimated now l)
  unfolding spawn_gate
  spawn_gate-End fails company_id estimated now l =
      gate_decision-End fails company_id estimated l (check m (some l.company) estimated now)
