-- ===== src/Spawn/Adjudicate.antt =====
-- supervisor/internal/spawn: `Adjudicate` of pipeline.go, exitreason.go, and the gates by role and
-- column of spawn.go. The values of the columns status and exit_reason are constructors; a reason
-- that the source formats from parts holds the parts.
pub mod Laws
use garrison.Common.{
  ℕ, ◌+◌, String, ◌≡◌, refl, ◌∙◌, ap, ◌↔◌, inl, inr, Bool, true, false, not, ◌&&◌, ◌||◌, Option,
  none, some, List, [], ◌∷◌, ◌++◌, map, arith, leb, ◌==◌, str_eq, length, if◌then◌else◌, Bool-cases,
}
use garrison.Common.Bytes.{codes}
use garrison.ClaudeProto.Events.{Text}

pub data Signal : Type 0 where
  sigkill sigterm sigint sighup sigquit sigsegv sigabrt sigpipe : Signal
  other_signal : ℕ → Signal

pub data Status : Type 0 where
  running succeeded failed timeout : Status

pub data ExitReason : Type 0 where
  completed claude_error parse_error timed_out supervisor_shutdown spawn_failed : ExitReason
  no_result acceptance_failed agent_missing budget_exceeded : ExitReason
  finalize_invalid finalize_palace_write_failed finalize_commit_failed : ExitReason
  finalize_write_timeout finalize_never_called : ExitReason
  bailed : ExitReason
  mcp_failure : String → String → ExitReason
  signaled : Signal → ExitReason

-- `FormatMCPFailure`
unfoldable pub format_mcp_failure : String → String → ExitReason
format_mcp_failure server_name status =
    if str_eq server_name "" then mcp_failure "unknown" status else mcp_failure server_name status

pub record Result : Type 0 where
  pub total_cost_usd : Text
  pub terminal_reason : Text
  pub is_error : Bool
  pub session_id : Text
  pub result_seen : Bool
  pub assistant_seen : Bool
  pub mcp_bailed : Bool
  pub mcp_offender_name : String
  pub mcp_offender_status : String
  pub parse_error : Bool

pub data ContextErr : Type 0 where
  no_err deadline_exceeded canceled : ContextErr

abbrev pub is_deadline_exceeded : ContextErr → Bool
is_deadline_exceeded deadline_exceeded = true
is_deadline_exceeded _ = false

pub record WaitDetail : Type 0 where
  pub context_err : ContextErr
  pub shutdown_initiated : Bool
  pub exit_code : ℕ
  pub signal : Option Signal

abbrev pub is_signaled : WaitDetail → Bool
is_signaled w = elim (w.signal) [ none ↦ false | some s ↦ true ]

pub record FinalizeState : Type 0 where
  pub expected : Bool
  pub attempted : Bool
  pub committed : Bool
  pub cap_exhausted : Bool

abbrev pub to_lower_ascii : ℕ → ℕ
to_lower_ascii b = if leb 65 b && leb b 90 then b + 32 else b

-- The test of one offset: the six letters follow.
abbrev at_offset : Text → Bool
at_offset (b ∷ u ∷ d ∷ g ∷ e ∷ t ∷ s) =
    if to_lower_ascii b == 98
    then to_lower_ascii u == 117
      && (to_lower_ascii d == 100
          && (to_lower_ascii g == 103 && (to_lower_ascii e == 101 && to_lower_ascii t == 116)))
    else false
at_offset _ = false

unfoldable pub is_budget_terminal_reason : Text → Bool
is_budget_terminal_reason [] = false
is_budget_terminal_reason (c ∷ s) = at_offset (c ∷ s) || is_budget_terminal_reason s

-- `(status, exit_reason)`
abbrev pub Verdict : Type 0
Verdict = Status × ExitReason

signaled_or : Option Signal → Verdict → Verdict
signaled_or none v = v
signaled_or (some s) v = (failed, signaled s)

unfoldable pub adjudicate : Result → WaitDetail → Bool → FinalizeState → Verdict
unfolding format_mcp_failure is_budget_terminal_reason signaled_or
adjudicate result wait hello_txt_ok finalize =
    if result.mcp_bailed
    then (failed, format_mcp_failure result.mcp_offender_name result.mcp_offender_status)
    else if result.parse_error
    then (failed, parse_error)
    else if wait.shutdown_initiated
    then (failed, supervisor_shutdown)
    else if is_deadline_exceeded wait.context_err
    then (timeout, timed_out)
    else if finalize.cap_exhausted
        && (result.result_seen && is_budget_terminal_reason result.terminal_reason)
    then (failed, budget_exceeded)
    else if finalize.cap_exhausted
    then (failed, finalize_invalid)
    else signaled_or wait.signal (
        if not result.result_seen
        then (failed, no_result)
        else if result.result_seen && is_budget_terminal_reason result.terminal_reason
        then (failed, budget_exceeded)
        else if result.is_error
        then (failed, claude_error)
        else if finalize.expected && not finalize.committed
        then (failed, finalize_never_called)
        else if not hello_txt_ok
        then (failed, acceptance_failed)
        else (succeeded, completed))

unfoldable pub acceptance_gate_satisfied : String → String → Bool
acceptance_gate_satisfied role_slug from_column =
    if str_eq role_slug "qa-engineer" then true else str_eq from_column "in_dev"

unfoldable pub finalize_expected_for_role : String → String → Bool
finalize_expected_for_role role_slug from_column =
    if str_eq role_slug "qa-engineer" then true else str_eq from_column "in_dev"

unfoldable pub transition_columns : String → String → String × String
transition_columns role_slug from_column =
    if str_eq role_slug "qa-engineer"
    then ("qa_review", "done")
    else if str_eq from_column "in_dev"
    then ("in_dev", "qa_review")
    else ("todo", "done")

-- A clean end: no row of the table of failures applies.
pub record IsClean (result : Result) (wait : WaitDetail) (ok : Bool) (f : FinalizeState)
    : Type 0 where
  pub no_bail : result.mcp_bailed ≡ false
  pub parsed : result.parse_error ≡ false
  pub no_shutdown : wait.shutdown_initiated ≡ false
  pub in_time : is_deadline_exceeded wait.context_err ≡ false
  pub no_cap : f.cap_exhausted ≡ false
  pub no_signal : wait.signal ≡ none
  pub seen : result.result_seen ≡ true
  pub in_budget : is_budget_terminal_reason result.terminal_reason ≡ false
  pub no_error : result.is_error ≡ false
  pub finalized : (f.expected && not f.committed) ≡ false
  pub accepted : ok ≡ true
