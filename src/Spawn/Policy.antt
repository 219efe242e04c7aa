-- ===== src/Spawn/Policy.antt =====
-- supervisor/internal/spawn/pipeline.go: `FinalizePolicy`, the router of a session. The closures
-- `onCommit`, `onBail` and `onRateLimitRejected` have no effect on the policy, so that a call of
-- one is an item of `calls`; what `onCommit` reads of the result at that time is part of the item.
-- `encoding/json` is a parameter. Logging is left out, and with it the map of mempalace calls that
-- only serves it.
pub mod Tools
pub mod Inv
pub mod Keeps
use garrison.Common.{
  ℕ, zero, suc, ◌+◌, String, ◌≡◌, refl, Bool, true, false, not, ◌&&◌, ◌||◌, Option, none, some,
  List, [], ◌∷◌, ◌++◌, leb, ltb, ◌==◌, str_eq, if◌then◌else◌,
}
use garrison.ClaudeProto.Health.{Health, check_mcp_health, healthy, offender}
use garrison.ClaudeProto.Events.{
  Text, InitEvent, ToolUseBlock, AssistantEvent, ToolResultSummary, UserEvent, RateLimitEvent,
  ResultEvent,
}
use garrison.ClaudeProto.Decode.{is_empty}
use garrison.ClaudeProto.Router.{RouterAction, continue, bail, Router}
use garrison.Spawn.Adjudicate.{
  Result, FinalizeState, ExitReason, parse_error, finalize_invalid, bailed, format_mcp_failure,
}
use garrison.Spawn.Policy.Tools.{is_expected_finalize_tool, is_mempalace_tool_name}

pub data Call : Type 0 where
  committed_with : Text → Result → Call
  bailed_for : ExitReason → Call
  rate_limited : RateLimitEvent → Result → Call

-- `finalizeHook`; a closure is here whether it is set. `toolUseInputs` is an association list with
-- the newest entry first.
pub record FinalizeHook : Type 0 where
  pub state : FinalizeState
  pub attempts : ℕ
  pub on_commit : Bool
  pub tool_name : Text
  pub tool_use_inputs : List (String × Text)
  pub result_grace : ℕ
  pub pending_commit : Bool
  pub pending_payload : Text

pub record FinalizePolicy : Type 0 where
  pub result : Result
  pub finalize : Option FinalizeHook
  pub finalize_tool_use : List String
  pub bail_fn : Bool
  pub on_rate_limit_rejected : Bool
  pub calls : List Call

-- `FinalizeDeps`, with a state that is set
pub record FinalizeDeps : Type 0 where
  pub expected : Bool
  pub on_commit : Bool
  pub result_grace : ℕ
  pub on_rate_limit_rejected : Bool
  pub tool_name : Text

abbrev pub no_result_yet : Result
no_result_yet = record {
  total_cost_usd = [];
  terminal_reason = [];
  is_error = false;
  session_id = [];
  result_seen = false;
  assistant_seen = false;
  mcp_bailed = false;
  mcp_offender_name = "";
  mcp_offender_status = "";
  parse_error = false;
}

new_hook : FinalizeDeps → FinalizeHook
new_hook deps = record {
  state = record { expected = true; attempted = false; committed = false; cap_exhausted = false };
  attempts = 0;
  on_commit = deps.on_commit;
  tool_name = deps.tool_name;
  tool_use_inputs = [];
  result_grace = deps.result_grace;
  pending_commit = false;
  pending_payload = [];
}

unfoldable pub new_finalize_policy : FinalizeDeps → Bool → FinalizePolicy
unfolding new_hook
new_finalize_policy deps on_bail = record {
  result = no_result_yet;
  finalize = if deps.expected then some (new_hook deps) else none;
  finalize_tool_use = [];
  bail_fn = on_bail;
  on_rate_limit_rejected = deps.on_rate_limit_rejected;
  calls = [];
}

abbrev pub call : Call → FinalizePolicy → FinalizePolicy
call c p = record p { calls = p.calls ++ c ∷ [] }

-- `bailFn(reason)` and `onBail(reason)`, which are the same closure
abbrev pub call_bail : ExitReason → FinalizePolicy → FinalizePolicy
call_bail reason p = if p.bail_fn then call (bailed_for reason) p else p

init_outcome : Health → InitEvent → FinalizePolicy → RouterAction × FinalizePolicy
init_outcome healthy e p =
    (continue, record p { result = record p.result { session_id = e.session_id } })
init_outcome (offender name status) e p = (
  bail,
  record p {
    result = record p.result {
      mcp_bailed = true;
      mcp_offender_name = name;
      mcp_offender_status = status;
    };
  },
)

unfoldable pub on_init : InitEvent → FinalizePolicy → RouterAction × FinalizePolicy
unfolding init_outcome
on_init e p = init_outcome (check_mcp_health e.mcp_servers) e p

record_input : ToolUseBlock → FinalizeHook → FinalizeHook
record_input tu hook =
    if is_empty tu.input_raw
    then hook
    else record hook { tool_use_inputs = (tu.tool_use_id, tu.input_raw) ∷ hook.tool_use_inputs }

mark_attempted : FinalizeHook → FinalizeHook
mark_attempted hook =
    if hook.state.committed
    then hook
    else record hook { state = record hook.state { attempted = true } }

record_finalize_tool_use : ToolUseBlock → FinalizeHook → FinalizePolicy → FinalizePolicy
unfolding record_input mark_attempted
record_finalize_tool_use tu hook p = record p {
  finalize = some (mark_attempted (record_input tu hook));
  finalize_tool_use = tu.tool_use_id ∷ p.finalize_tool_use;
}

-- One block of `OnAssistant`
observe_tool_use : ToolUseBlock → FinalizePolicy → FinalizePolicy
unfolding record_finalize_tool_use
observe_tool_use tu p = elim (p.finalize) [
  | none ↦ p
  | some hook ↦
      if is_mempalace_tool_name tu.name
      then p
      else if is_expected_finalize_tool hook.tool_name tu.name
      then record_finalize_tool_use tu hook p
      else p
]

pub observe_tool_uses : List ToolUseBlock → FinalizePolicy → FinalizePolicy
unfolding observe_tool_use
observe_tool_uses [] p = p
observe_tool_uses (tu ∷ tool_uses) p = observe_tool_uses tool_uses (observe_tool_use tu p)

unfoldable pub on_assistant : AssistantEvent → FinalizePolicy → FinalizePolicy
unfolding observe_tool_uses
on_assistant e p =
    observe_tool_uses e.tool_uses (record p { result = record p.result { assistant_seen = true } })

abbrev is_tracked : String → List String → Bool
is_tracked id [] = false
is_tracked id (x ∷ ids) = if str_eq id x then true else is_tracked id ids

-- `delete`; an id can stand in the list more than once
abbrev forget : String → List String → List String
forget id [] = []
forget id (x ∷ ids) = let rest = forget id ids in if str_eq id x then rest else x ∷ rest

-- A missing key is an empty payload.
abbrev pub input_of : String → List (String × Text) → Text
input_of id [] = []
input_of id ((key, raw) ∷ inputs) = if str_eq id key then raw else input_of id inputs

-- `onCommit(payload)` if it is set
abbrev pub call_commit : FinalizeHook → Text → FinalizePolicy → FinalizePolicy
call_commit hook payload p = if hook.on_commit then call (committed_with payload p.result) p else p

abbrev marked : FinalizeHook → FinalizeHook
marked hook = record hook { state = record hook.state { committed = true } }

pub handle_finalize_ok : String → FinalizeHook → FinalizePolicy → FinalizePolicy
handle_finalize_ok id hook p =
    let payload = input_of id hook.tool_use_inputs in
    if ltb 0 hook.result_grace && hook.on_commit
    then record p {
      finalize = some (record (marked hook) { pending_commit = true; pending_payload = payload });
    }
    else call_commit (marked hook) payload (record p { finalize = some (marked hook) })

pub handle_failed_attempt : FinalizeHook → FinalizePolicy → FinalizePolicy
handle_failed_attempt hook p =
    if leb 3 hook.attempts
    then call_bail finalize_invalid (record p {
      finalize = some (record hook { state = record hook.state { cap_exhausted = true } });
    })
    else record p { finalize = some hook }

-- The body of a result that carries an ok of true; an empty or unparseable detail carries none.
abbrev ok_of : (Text → Bool) → Text → Bool
ok_of body_ok detail = not (is_empty detail) && body_ok detail

handle_attempt : Bool → String → FinalizeHook → FinalizePolicy → FinalizePolicy
unfolding handle_finalize_ok handle_failed_attempt
handle_attempt ok id hook p =
    if ok then handle_finalize_ok id hook p else handle_failed_attempt hook p

handle_finalize_tool_result : (Text → Bool) → ToolResultSummary → FinalizePolicy → FinalizePolicy
unfolding handle_attempt
handle_finalize_tool_result body_ok tr p = elim (p.finalize) [
  | none ↦ p
  | some hook ↦
      if hook.state.committed
      then p
      else handle_attempt (ok_of body_ok tr.detail) tr.tool_use_id
          (record hook { attempts = suc hook.attempts }) p
]

-- One result of `OnUser`
observe_tool_result : (Text → Bool) → ToolResultSummary → FinalizePolicy → FinalizePolicy
unfolding handle_finalize_tool_result
observe_tool_result body_ok tr p =
    if is_tracked tr.tool_use_id p.finalize_tool_use
    then (let q = handle_finalize_tool_result body_ok tr p in
        record q { finalize_tool_use = forget tr.tool_use_id q.finalize_tool_use })
    else p

observe_tool_results : (Text → Bool) → List ToolResultSummary → FinalizePolicy → FinalizePolicy
unfolding observe_tool_result
observe_tool_results body_ok [] p = p
observe_tool_results body_ok (tr ∷ results) p =
    observe_tool_results body_ok results (observe_tool_result body_ok tr p)

unfoldable pub on_user : (Text → Bool) → UserEvent → FinalizePolicy → FinalizePolicy
unfolding observe_tool_results
on_user body_ok e p = observe_tool_results body_ok e.tool_results p

unfoldable pub on_rate_limit : RateLimitEvent → FinalizePolicy → FinalizePolicy
on_rate_limit e p =
    if str_eq e.info.status "rejected" && p.on_rate_limit_rejected
    then call (rate_limited e p.result) p
    else p

unfoldable pub on_result : ResultEvent → FinalizePolicy → FinalizePolicy
on_result e p = record p {
  result = record p.result {
    result_seen = true;
    is_error = e.is_error;
    terminal_reason = e.terminal_reason;
    total_cost_usd = e.total_cost_usd;
    session_id = if is_empty e.session_id then p.result.session_id else e.session_id;
  };
}

-- The reasons of `OnTerminate`
pub data Termination : Type 0 where
  terminate_parse_error terminate_bail : Termination

unfoldable pub on_terminate : Termination → FinalizePolicy → FinalizePolicy
on_terminate terminate_parse_error p =
    call_bail parse_error (record p { result = record p.result { parse_error = true } })
on_terminate terminate_bail p =
    if p.result.mcp_bailed
    then call_bail (format_mcp_failure p.result.mcp_offender_name p.result.mcp_offender_status) p
    else call_bail bailed p

-- The router that the policy is.
unfoldable pub router : (Text → Bool) → Router FinalizePolicy
unfolding on_init on_assistant on_user on_rate_limit on_result
router body_ok = record {
  on_init = on_init;
  on_assistant = on_assistant;
  on_user = on_user body_ok;
  on_rate_limit = on_rate_limit;
  on_result = on_result;
  on_stream_event = λ e p. p;
  on_task_started = λ raw p. p;
  on_unknown = λ e p. p;
}

unfoldable pub has_pending_commit : FinalizePolicy → Bool
has_pending_commit p = elim (p.finalize) [ none ↦ false | some hook ↦ hook.pending_commit ]

unfoldable pub fire_pending_commit : FinalizePolicy → FinalizePolicy
fire_pending_commit p = elim (p.finalize) [
  | none ↦ p
  | some hook ↦
      if hook.pending_commit
      then call_commit hook hook.pending_payload
          (record p { finalize = some (record hook { pending_commit = false }) })
      else p
]
