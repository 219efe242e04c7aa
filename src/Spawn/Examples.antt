-- ===== src/Spawn/Examples.antt =====
-- A session of an agent, at concrete inputs.
use garrison.Common.{
  String, ◌≡◌, refl, ◌↔◌, Bool, true, false, Option, none, some, List, [], ◌∷◌, ◌++◌, ◌==◌,
  if◌then◌else◌, ok,
}
use garrison.Common.Int.{pos}
use garrison.Common.Bytes.{codes, bytes_eq}
use garrison.ClaudeProto.Events.{Text}
use garrison.ClaudeProto.Decode.{Json}
use garrison.ClaudeProto.Router.{route}
use garrison.Spawn.Policy.Tools.{is_mempalace_tool_name, is_expected_finalize_tool}
use garrison.Spawn.Adjudicate.{
  Result, WaitDetail, no_err, FinalizeState, adjudicate, IsClean, running, succeeded, completed,
  is_budget_terminal_reason,
}
use garrison.Spawn.Adjudicate.Laws.{adjudicate_iff}
use garrison.Spawn.Payload.{FinalizePayload, Pattern}
use garrison.Spawn.Diary.{front_matter}
use garrison.Spawn.Diary.Lines.{lines, front_matter-lines}
use garrison.Spawn.Policy.{
  FinalizePolicy, FinalizeDeps, new_finalize_policy, has_pending_commit, router,
  fire_pending_commit,
}
use garrison.Spawn.Run.{Input, line, closed, RunError, done, run, start}
use garrison.Spawn.Run.Commits.{Settled, run-Settled}
use garrison.Spawn.Finalize.{
  World, Op, add_triples, Failure, FinalizeMeta, DrawerText, write_finalize,
}
use garrison.Spawn.Finalize.Atomic.{Atomic, write_finalize-Atomic}
use garrison.FinalizeTool.Fields.{
  validate_ticket_id, validate_outcome, validate_diary_entry, validate_kg_triple_count,
  validate_kg_triples,
}
use garrison.Spawn.Session.{SessionParams, Env, Left, run_claude_session}

abbrev clean : Result
clean = record {
  total_cost_usd = [];
  terminal_reason = codes "success";
  is_error = false;
  session_id = [];
  result_seen = true;
  assistant_seen = true;
  mcp_bailed = false;
  mcp_offender_name = "";
  mcp_offender_status = "";
  parse_error = false;
}

abbrev quiet_exit : WaitDetail
quiet_exit = record {
  context_err = no_err;
  shutdown_initiated = false;
  exit_code = 0;
  signal = none;
}

abbrev not_committed : FinalizeState
not_committed = record {
  expected = true;
  attempted = true;
  committed = false;
  cap_exhausted = false;
}

adjudicate_iff_example :
    (adjudicate clean quiet_exit true not_committed ≡ (succeeded, completed))
    ↔ IsClean clean quiet_exit true not_committed
adjudicate_iff_example = adjudicate_iff clean quiet_exit true not_committed

abbrev reason : Text
reason = codes "error_max_Budget_usd"

over_budget : is_budget_terminal_reason reason ≡ true
unfolding is_budget_terminal_reason
over_budget = refl

-- Lines of one byte: 2 calls finalize, 3 is the answer to it, 4 is the result, and any other does
-- not parse.
abbrev json : Json
json = record {
  envelope = λ raw. elim raw [
    | [] ↦ none
    | c ∷ s ↦
        if c == 2
        then some (record { type = "assistant"; subtype = "" })
        else if c == 3
        then some (record { type = "user"; subtype = "" })
        else if c == 4
        then some (record { type = "result"; subtype = "" })
        else none
  ];
  init = λ raw. none;
  assistant = λ raw. some (record {
    model = [];
    content =
        record { type = "tool_use"; name = codes "finalize_ticket"; id = "t"; input = 7 ∷ [] } ∷ [];
  });
  user = λ raw.
      some (
        record { type = "tool_result"; tool_use_id = "t"; is_error = false; content = 8 ∷ [] }
        ∷ []);
  rate_limit = λ raw. none;
  stream_event = λ raw. none;
  delta_usage = λ raw. record { input_tokens = pos 0; output_tokens = pos 0 };
  result = λ raw. some (record {
    subtype = codes "success";
    is_error = false;
    duration_ms = pos 1;
    duration_api_ms = pos 1;
    total_cost_usd = codes "0.5";
    terminal_reason = [];
    stop_reason = [];
    result = [];
    permission_denials = [];
    session_id = [];
    raw = raw;
  });
  text = λ raw. some raw;
  text_blocks = λ raw. none;
}

abbrev accepts : Text → Bool
accepts detail = true

abbrev rejects : Text → Bool
rejects detail = false

abbrev deps : FinalizeDeps
deps = record {
  expected = true;
  on_commit = true;
  result_grace = 5;
  on_rate_limit_rejected = true;
  tool_name = [];
}

-- A finalize is accepted before the result is there.
abbrev output : List Input
output = line (2 ∷ []) ∷ line (3 ∷ []) ∷ line (4 ∷ []) ∷ []

run-Settled_example :
    (p : FinalizePolicy) × (e : Option RunError) × (run json accepts
        (output ++ closed ∷ [])
        (start (new_finalize_policy deps true))
      ≡ done p e)
    × Settled true p
run-Settled_example = run-Settled json accepts deps true output []

abbrev payload : FinalizePayload
payload = record {
  ticket_id = codes "t-1";
  outcome = 10 ∷ 45 ∷ [];
  diary_entry = record {
    rationale = codes "done";
    artifacts = codes "a: b" ∷ codes "c" ∷ [];
    blockers = [];
    discoveries = codes "d" ∷ [];
  };
  kg_triples = [];
}

-- An encoder that drops what it encodes.
abbrev quoted : Text → Text
quoted s = 34 ∷ 34 ∷ []

front_matter-lines_example : lines (front_matter quoted (codes "t-1") (codes "now") payload) ≡ 9
front_matter-lines_example =
    front_matter-lines quoted (λ s. refl) (codes "t-1") (codes "now") payload refl refl

abbrev text : DrawerText
text = record {
  marshal = quoted;
  objective = codes "write it";
  ticket_id = codes "t-1";
  completed_at = codes "now";
}

abbrev meta : FinalizeMeta
meta = record {
  wing = codes "w";
  from_column = "in_dev";
  to_column = "qa_review";
  cost = none;
  wake_up_status = "ok";
}

abbrev world : World
world = record {
  db = record {
    instance = record {
      status = running;
      exit_reason = none;
      total_cost_usd = none;
      wake_up_status = none;
    };
    processed = false;
    column_slug = "in_dev";
    transitions = [];
  };
  palace = record { drawers = []; triples = [] };
}

abbrev triples_fail : Op → Option Failure
triples_fail add_triples =
    some (record { is_deadline = true; past_deadline = false; taken = λ n. false })
triples_fail _ = none

abbrev no_patterns : List Pattern
no_patterns = []

write_finalize-Atomic_example :
    Atomic triples_fail no_patterns text meta payload world
      (write_finalize triples_fail no_patterns text meta payload world)
write_finalize-Atomic_example =
    write_finalize-Atomic triples_fail no_patterns text meta payload world

abbrev no_failure : Op → Option Failure
no_failure op = none

abbrev env : Env
env = record {
  json = json;
  body_ok = accepts;
  patterns = no_patterns;
  drawer_text = text;
  clock = record { now = 5; rfc3339 = λ s. none; rfc3339_nano = λ s. none };
  unmarshal = λ raw. ok (record {
    ticket_id = codes "123e4567-e89b-12d3-a456-426614174000";
    outcome = codes "it is written";
    diary_entry = record {
      rationale = codes "the file was missing, and it is now where it should be";
      artifacts = [];
      blockers = [];
      discoveries = [];
    };
    kg_triples =
        record {
          subject = codes "file";
          predicate = codes "is_in";
          object = codes "repo";
          valid_from = codes " Now";
        }
        ∷ [];
  });
  scan_numeric = λ s. some s;
  palace_wired = true;
  fails = no_failure;
  terminal_fails = λ op. false;
  reason_override = none;
  result_grace = 5;
  rate_limit_hook = true;
  workspace = none;
}

abbrev params : SessionParams
params = record {
  role_slug = "engineer";
  origin_column = "in_dev";
  ticket_valid = true;
  palace_wing = some (codes "w");
  wake_up_status = "ok";
  ticket_id = codes "t-1";
}

abbrev left : Left
left = record { wait = quiet_exit; shutdown = false; bailed_latch = false }

-- The session of the example succeeds, with the cost of the result.
abbrev column_after : Option (World × Bool) → String
column_after none = ""
column_after (some end) = (end.0).db.column_slug

moved_to_review :
    column_after (run_claude_session env params left (output ++ closed ∷ []) world) ≡ "qa_review"
unfolding run_claude_session route has_pending_commit router is_mempalace_tool_name
    is_expected_finalize_tool bytes_eq fire_pending_commit validate_ticket_id validate_outcome
    validate_diary_entry validate_kg_triple_count validate_kg_triples
moved_to_review = refl
