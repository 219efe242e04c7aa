-- ===== src/Spawn/Run.antt =====
-- supervisor/internal/spawn/pipeline.go: `Run` and its loop. The pump of the scanner, the timers
-- and the context are a sequence of inputs: what `select` receives, in order. A timer that is not
-- armed is a nil channel, on which nothing arrives.
pub mod Commits
use garrison.Common.{
  ℕ, ◌≡◌, refl, Bool, true, false, not, ◌&&◌, ◌||◌, Option, none, some, List, [], ◌∷◌, ◌++◌,
  if◌then◌else◌,
}
use garrison.ClaudeProto.Events.{Text}
use garrison.ClaudeProto.Decode.{Json}
use garrison.ClaudeProto.Router.{RouterAction, continue, bail, Routed, route}
use garrison.Spawn.Policy.{
  FinalizePolicy, Termination, terminate_parse_error, terminate_bail, on_terminate, router,
  has_pending_commit, fire_pending_commit,
}

pub data Input : Type 0 where
  line : Text → Input
  scan_error closed grace_expired tick cancelled : Input

pub data RunError : Type 0 where
  scan_failed route_failed context_cancelled : RunError

-- `runLoop` with a `FinalizePolicy`; the grace timer and the ticker are armed together.
pub record RunLoop : Type 0 where
  pub policy : FinalizePolicy
  pub grace_armed : Bool

-- `(done, Result, error)`
pub data Step : Type 0 where
  go_on : RunLoop → Step
  done : FinalizePolicy → Option RunError → Step

pub record Dispatched : Type 0 where
  pub policy : FinalizePolicy
  pub failed : Bool

by_action : RouterAction → FinalizePolicy → Dispatched
by_action continue p = record { policy = p; failed = false }
by_action bail p = record { policy = on_terminate terminate_bail p; failed = false }

terminated : Routed FinalizePolicy → Dispatched
unfolding by_action
terminated o =
    if o.failed
    then record { policy = on_terminate terminate_parse_error o.state; failed = true }
    else by_action o.action o.state

result_due : FinalizePolicy → Bool
result_due p = has_pending_commit p && p.result.result_seen

-- The end of a line that was dispatched without an error.
after_line : FinalizePolicy → RunLoop → Step
unfolding result_due
after_line p l =
    if result_due p
    then done (fire_pending_commit p) none
    else go_on (record { policy = p; grace_armed = l.grace_armed || has_pending_commit p })

abbrev pub start : FinalizePolicy → RunLoop
start p = record { policy = p; grace_armed = false }

module _ (json : Json) (body_ok : Text → Bool) where
  dispatch_stream_line : Text → FinalizePolicy → Dispatched
  unfolding terminated
  dispatch_stream_line raw p = terminated (route json (router body_ok) raw p)

  on_line : Text → RunLoop → Step
  unfolding dispatch_stream_line after_line
  on_line raw l =
      let d = dispatch_stream_line raw l.policy in
      if d.failed
      then done (fire_pending_commit d.policy) (some route_failed)
      else after_line d.policy l

  step : Input → RunLoop → Step
  unfolding on_line result_due
  step (line raw) l = on_line raw l
  step scan_error l = done (fire_pending_commit l.policy) (some scan_failed)
  step closed l = done (fire_pending_commit l.policy) none
  step grace_expired l = if l.grace_armed then done (fire_pending_commit l.policy) none else go_on l
  step tick l =
      if l.grace_armed && result_due l.policy
      then done (fire_pending_commit l.policy) none
      else go_on l
  step cancelled l = done (fire_pending_commit l.policy) (some context_cancelled)

  -- The loop of `Run` over what arrives; it goes on for more while it is not done.
  unfoldable pub run : List Input → RunLoop → Step
  unfolding step
  run [] l = go_on l
  run (i ∷ inputs) l = elim (step i l) [ done p e ↦ done p e | go_on l' ↦ run inputs l' ]
