-- ===== src/Spawn/Inflight.antt =====
-- supervisor/internal/spawn/inflight.go: AgentInflight. Each call holds the mutex, so that calls are
-- one after the other. The closures that TryAcquire has returned are numbered in order; each keeps
-- its agent and whether its `sync.Once` is spent.
pub mod Refines
use garrison.Common.{
  ℕ, zero, suc, ◌+◌, Bool, true, false, Option, none, some, List, [], ◌∷◌, ◌++◌, ◌==◌, length,
  if◌then◌else◌,
}
use garrison.Spawn.Prepare.{holds, release}

pub record Closure : Type 0 where
  pub agent : ℕ
  pub spent : Bool

pub record AgentInflight : Type 0 where
  pub inflight : List ℕ
  pub closures : List Closure

abbrev pub get_elem? : List Closure → ℕ → Option Closure
get_elem? [] k = none
get_elem? (c ∷ cs) zero = some c
get_elem? (c ∷ cs) (suc k) = get_elem? cs k

abbrev pub spend : List Closure → ℕ → List Closure
spend [] k = []
spend (c ∷ cs) zero = record c { spent = true } ∷ cs
spend (c ∷ cs) (suc k) = c ∷ spend cs k

abbrev pub new_agent_inflight : AgentInflight
new_agent_inflight = record { inflight = []; closures = [] }

-- The number of the closure that is returned.
unfoldable pub try_acquire : ℕ → AgentInflight → AgentInflight × Option ℕ
try_acquire agent a = if holds agent a.inflight then (a, none) else (
  record {
    inflight = agent ∷ a.inflight;
    closures = a.closures ++ record { agent = agent; spent = false } ∷ [];
  },
  some (length a.closures),
)

call_once : Closure → ℕ → AgentInflight → AgentInflight
call_once c k a =
    if c.spent
    then a
    else record { inflight = release c.agent a.inflight; closures = spend a.closures k }

-- A closure that was never returned cannot be called.
call_found : Option Closure → ℕ → AgentInflight → AgentInflight
unfolding call_once
call_found none k a = a
call_found (some c) k a = call_once c k a

unfoldable pub call_release : ℕ → AgentInflight → AgentInflight
unfolding call_found
call_release k a = call_found (get_elem? a.closures k) k a

pub data Op : Type 0 where
  acquire call : ℕ → Op

-- A sequence of calls, with what each TryAcquire answers.
unfoldable pub run_ops : List Op → AgentInflight → AgentInflight × List (Option ℕ)
unfolding try_acquire call_release
run_ops [] a = (a, [])
run_ops (acquire agent ∷ ops) a =
    let (next, answer) = try_acquire agent a in
    let (last, answers) = run_ops ops next in (last, answer ∷ answers)
run_ops (call k ∷ ops) a = run_ops ops (call_release k a)
