-- ===== src/Spawn/PrepareExamples.antt =====
-- The start of a spawn, at concrete inputs.
use garrison.Common.{ℕ, ◌+◌, ◌≡◌, refl, true, false, none, some, List, [], ◌∷◌, ltb, ◌==◌, arith}
use garrison.Common.Int.{pos}
use garrison.Throttle.Gate.{Money, check}
use garrison.Throttle.Fire.{Ledger}
use garrison.Spawn.Prepare.{running_in, Deps, State, prepare_spawn}
use garrison.Spawn.Inflight.{Op, acquire, call, new_agent_inflight, run_ops}
use garrison.Spawn.Inflight.Refines.{Agrees, replay, no_slots, Shows-new, run_ops-Agrees}
use garrison.Spawn.Prepare.Cap.{Act, spawn, ended, act_all, WithinCap, act_all-WithinCap}

-- Whole cents.
abbrev cents : Money
cents = record {
  Amount = ℕ;
  Numeric = ℕ;
  zero_amount = 0;
  to_float = λ n. some n;
  add = λ a b. a + b;
  is_zero = λ n. n == 0;
  exceeds = λ a b. ltb b a;
}

abbrev ledger : Ledger cents
ledger = record {
  company = record { pause_until = none; daily_budget_usd = none; cost_24h_usd = none };
  events = [];
  notified = [];
}

-- Every event is of ticket 1 in department 1; the agent of that department is 4.
abbrev deps : Deps cents
deps = record {
  fails = λ op. false;
  decode_payload = λ raw. some (1, 1);
  decode_columns = λ raw. none;
  slots_enforced = true;
  agent_of = λ d role. some 4;
  throttled = true;
  gate_fails = λ c. false;
  default_spawn_cost_usd = some 2;
  now = 9;
  new_id = 7;
}

abbrev state : State cents
state = record {
  db = record {
    events = record { id = 3; processed = false; payload = [] } ∷ [];
    departments =
        record { id = 1; company = some 5; concurrency_cap = pos 1; satisfaction_columns = [] }
        ∷ [];
    tickets = record { id = 1; department = 1; column_slug = "in_dev"; depends_on = none } ∷ [];
    runs = [];
    ledgers = λ c. ledger;
  };
  inflight = [];
}

started_one : running_in 1 ((prepare_spawn cents deps 3 "engineer" state).0).db.runs ≡ 1
unfolding prepare_spawn check
started_one = refl

within : WithinCap cents 1 state
within d h = omega arith

abbrev acts : List (Act cents)
acts = spawn deps 3 "engineer" ∷ spawn deps 3 "engineer" ∷ ended 7 (some 4) ∷ []

act_all-WithinCap_example : WithinCap cents 1 (act_all cents acts state)
act_all-WithinCap_example = act_all-WithinCap cents 1 acts state within

-- The closure of the first grant is called twice, the second time when another grant holds the agent.
abbrev twice_called : List Op
twice_called = acquire 4 ∷ acquire 4 ∷ call 0 ∷ acquire 4 ∷ call 0 ∷ acquire 4 ∷ []

run_ops-Agrees_example :
    Agrees (run_ops twice_called new_agent_inflight) (replay twice_called no_slots)
run_ops-Agrees_example = run_ops-Agrees twice_called new_agent_inflight no_slots Shows-new

twice_called_answers :
    (run_ops twice_called new_agent_inflight).1 ≡ some 0 ∷ none ∷ some 1 ∷ none ∷ []
unfolding run_ops
twice_called_answers = refl
