-- ===== src/Spawn/Session.antt =====
-- supervisor/internal/spawn: `runClaudeSession` of runner.go and the terminal write of spawn.go. The
-- transport, `cmd.Wait` and the files are inputs; the rows and the palace are those of Finalize.
pub mod Ends
use garrison.Common.{
  ℕ, String, ◌≡◌, refl, Bool, true, false, not, ◌&&◌, ◌||◌, Option, none, some, List, [], ◌∷◌, ◌++◌,
  str_eq, if◌then◌else◌, ok, err,
}
use garrison.Common.Bytes.{bytes_eq}
use garrison.ClaudeProto.Events.{Text}
use garrison.ClaudeProto.Decode.{Json, is_empty}
use garrison.Spawn.Adjudicate.{
  Status, succeeded, ExitReason, Result, WaitDetail, FinalizeState, ContextErr, canceled,
  is_deadline_exceeded, is_signaled, Verdict, adjudicate, acceptance_gate_satisfied,
  finalize_expected_for_role, transition_columns,
}
use garrison.Spawn.Payload.{FinalizePayload, Pattern}
use garrison.FinalizeTool.Fields.{Checked, Clock}
use garrison.FinalizeTool.Validate.{RawPayload, Decoded, validate}
use garrison.Spawn.Diary.{trim_newlines}
use garrison.Spawn.Policy.{
  Call, committed_with, bailed_for, rate_limited, FinalizeHook, FinalizePolicy, FinalizeDeps,
  new_finalize_policy,
}
use garrison.Spawn.Run.{Input, Step, go_on, done, run, start}
use garrison.Spawn.Finalize.{
  Instance, Transition, Db, World, Op, Failure, FinalizeMeta, DrawerText, Outcome, or_null,
  terminal, write_finalize,
}

-- The statements of the terminal write.
pub data TerminalOp : Type 0 where
  begin_terminal update_terminal insert_transition update_column mark_processed commit_terminal :
      TerminalOp

pub record SessionParams : Type 0 where
  pub role_slug : String
  pub origin_column : String
  pub ticket_valid : Bool
  pub palace_wing : Option Text
  pub wake_up_status : String
  pub ticket_id : Text

-- What the session is given of the outside. `workspace` is the read of hello.txt, if there is a
-- path; `unmarshal` is `json.Unmarshal` of a payload; `scan_numeric` is the `Scan` of a numeric.
pub record Env : Type 0 where
  pub json : Json
  pub body_ok : Text → Bool
  pub patterns : List Pattern
  pub drawer_text : DrawerText
  pub clock : Clock
  pub unmarshal : Text → Decoded RawPayload
  pub scan_numeric : Text → Option Text
  pub palace_wired : Bool
  pub fails : Op → Option Failure
  pub terminal_fails : TerminalOp → Bool
  pub reason_override : Option (Verdict → Verdict)
  pub result_grace : ℕ
  pub rate_limit_hook : Bool
  pub workspace : Option (Option Text)

-- How the session left: what the transport reports, whether the shutdown was asked for, and the
-- latch of the bail hook.
pub record Left : Type 0 where
  pub wait : WaitDetail
  pub shutdown : Bool
  pub bailed_latch : Bool

unfoldable pub overlay_runner_wait_detail : Left → WaitDetail
overlay_runner_wait_detail left =
    let wait =
      if left.shutdown
      then record left.wait { context_err = canceled; shutdown_initiated = true }
      else left.wait in
    if is_signaled wait
      && (wait.shutdown_initiated || (is_deadline_exceeded wait.context_err || left.bailed_latch))
    then record wait { signal = none }
    else wait

unfoldable pub check_hello_txt : Option Text → Text → Bool
unfolding trim_newlines
check_hello_txt none ticket_id = false
check_hello_txt (some b) ticket_id = bytes_eq (trim_newlines b) ticket_id

-- NULL for an empty text or one that does not scan.
parse_cost_to_numeric : (Text → Option Text) → Text → Option Text
parse_cost_to_numeric scan cost = if is_empty cost then none else scan cost

cost_of : (Text → Option Text) → Result → Option Text
unfolding parse_cost_to_numeric
cost_of scan result =
    if result.result_seen then parse_cost_to_numeric scan result.total_cost_usd else none

or_empty : Option Text → Text
or_empty none = []
or_empty (some t) = t

hello_txt_ok : SessionParams → Option (Option Text) → Bool
unfolding acceptance_gate_satisfied check_hello_txt
hello_txt_ok p workspace =
    if acceptance_gate_satisfied p.role_slug p.origin_column
    then true
    else elim workspace [ none ↦ false | some read ↦ check_hello_txt read p.ticket_id ]

pub record TerminalParams : Type 0 where
  pub verdict : Verdict
  pub cost : Option Text
  pub wake_up_status : String
  pub insert_transition : Bool
  pub ticket_valid : Bool
  pub columns : String × String
  pub skip_mark_processed : Bool

pub overridden : Option (Verdict → Verdict) → Verdict → Verdict
overridden none v = v
overridden (some f) v = f v

pub writes_transition : TerminalParams → Bool
writes_transition p =
    p.insert_transition
    && (p.ticket_valid && (not (str_eq p.columns.0 "") && not (str_eq p.columns.1 "")))

abbrev and_then : Option Db → (Db → Option Db) → Option Db
and_then none f = none
and_then (some db) f = f db

module _ (terminal_fails : TerminalOp → Bool) where
  -- `none` is the error of the statement; the transaction is then rolled back.
  statement : TerminalOp → Db → Option Db
  statement op db = if terminal_fails op then none else some db

  move_ticket : TerminalParams → Db → Option Db
  unfolding statement writes_transition
  move_ticket p db =
      if writes_transition p
      then and_then
          (statement insert_transition (record db {
            transitions =
                db.transitions
                ++ (record {
                  from_column = p.columns.0;
                  to_column = p.columns.1;
                  hygiene_status = none;
                  pattern_category = none;
                })
                  ∷ [];
          }))
          (λ d. statement update_column (record d { column_slug = p.columns.1 }))
      else some db

  mark : TerminalParams → Db → Option Db
  unfolding statement
  mark p db =
      if p.skip_mark_processed
      then some db
      else statement mark_processed (record db { processed = true })

  unfoldable pub write_terminal_cost_and_wakeup :
      Option (Verdict → Verdict) → TerminalParams → Db → Option Db
  unfolding statement move_ticket mark overridden
  write_terminal_cost_and_wakeup reason_override p db =
      let verdict = overridden reason_override p.verdict in
      and_then (statement begin_terminal db) (λ d0.
        and_then
          (statement update_terminal
            (record d0 { instance = terminal verdict.0 verdict.1 p.cost p.wake_up_status }))
          (λ d1.
            and_then (move_ticket p d1)
              (λ d2. and_then (mark p d2) (λ d3. statement commit_terminal d3))))

pub finalize_meta : Env → SessionParams → Result → FinalizeMeta
unfolding cost_of or_empty transition_columns
finalize_meta env p result =
    let columns = transition_columns p.role_slug p.origin_column in
    record {
      wing = or_empty p.palace_wing;
      from_column = columns.0;
      to_column = columns.1;
      cost = cost_of env.scan_numeric result;
      wake_up_status = p.wake_up_status;
    }

-- The hook `onCommit`; its error is logged by the policy and dropped.
commit_validated : Env → SessionParams → Result → World → Checked FinalizePayload → World
unfolding finalize_meta write_finalize
commit_validated env p result w (err e) = w
commit_validated env p result w (ok payload) =
    (write_finalize env.fails env.patterns env.drawer_text (finalize_meta env p result) payload w).0

finalize_on_commit : Env → SessionParams → Text → Result → World → World
unfolding commit_validated validate
finalize_on_commit env p raw result w =
    if not env.palace_wired
    then w
    else commit_validated env p result w (validate env.clock env.unmarshal raw)

-- The calls that the policy made, in order; those of the other closures write elsewhere.
pub run_calls : Env → SessionParams → List Call → World → World
unfolding finalize_on_commit
run_calls env p [] w = w
run_calls env p (committed_with raw result ∷ calls) w =
    run_calls env p calls (finalize_on_commit env p raw result w)
run_calls env p (bailed_for reason ∷ calls) w = run_calls env p calls w
run_calls env p (rate_limited e result ∷ calls) w = run_calls env p calls w

-- The state that `Adjudicate` is given: that of the hook, or none of its flags.
pub state_of : Option FinalizeHook → FinalizeState
state_of none = record {
  expected = false;
  attempted = false;
  committed = false;
  cap_exhausted = false;
}
state_of (some hook) = hook.state

pub session_verdict : Env → SessionParams → Left → FinalizePolicy → Verdict
unfolding overlay_runner_wait_detail hello_txt_ok adjudicate state_of
session_verdict env p left policy =
    adjudicate policy.result (overlay_runner_wait_detail left) (hello_txt_ok p env.workspace)
      (state_of policy.finalize)

is_succeeded : Status → Bool
is_succeeded succeeded = true
is_succeeded _ = false

pub terminal_params : Env → SessionParams → Left → FinalizePolicy → TerminalParams
unfolding session_verdict cost_of is_succeeded transition_columns
terminal_params env p left policy =
    let verdict = session_verdict env p left policy in
    record {
      verdict = verdict;
      cost = cost_of env.scan_numeric policy.result;
      wake_up_status = p.wake_up_status;
      insert_transition = is_succeeded verdict.0;
      ticket_valid = p.ticket_valid;
      columns = transition_columns p.role_slug p.origin_column;
      skip_mark_processed = false;
    }

-- `false` is an error.
pub after_write : World → Option Db → World × Bool
after_write w none = (w, false)
after_write w (some db) = (record w { db = db }, true)

-- The rest of the session once `Run` has returned.
finish : Env → SessionParams → Left → FinalizePolicy → World → World × Bool
unfolding run_calls state_of terminal_params write_terminal_cost_and_wakeup after_write
finish env p left policy w =
    let written = run_calls env p policy.calls w in
    if (state_of policy.finalize).committed
    then (written, true)
    else after_write written (
        write_terminal_cost_and_wakeup env.terminal_fails env.reason_override
          (terminal_params env p left policy) written.db)

pub session_deps : Env → SessionParams → FinalizeDeps
unfolding finalize_expected_for_role
session_deps env p = record {
  expected = finalize_expected_for_role p.role_slug p.origin_column;
  on_commit = true;
  result_grace = env.result_grace;
  on_rate_limit_rejected = env.rate_limit_hook;
  tool_name = [];
}

-- `none` while `Run` has not returned.
unfoldable pub run_claude_session :
    Env → SessionParams → Left → List Input → World → Option (World × Bool)
unfolding session_deps new_finalize_policy run finish
run_claude_session env p left inputs w =
    elim (run env.json env.body_ok inputs (start (new_finalize_policy (session_deps env p) true))) [
      | go_on l ↦ none
      | done policy e ↦ some (finish env p left policy w)
    ]
