-- ===== src/Broker/Examples.antt =====
-- Runs of the action broker, and its theorems at concrete inputs.
use mathlib.Core.List.{Memᴰ}
use mathlib.Core.Logic.{inl, inr}
use garrison.Common.{ℕ, ◌≡◌, refl, inl, inr, true, false, none, some, List, [], ◌∷◌, map, All, ok}
use garrison.Broker.Policy.{
  Tier, auto, notify, approve, PolicyTable, in_floor, classify, policy, lookup,
}
use garrison.Broker.Policy.Floor.{classify_below_approve}
use garrison.Broker.Tables.{Action, Db, Status, pending, approved, claim}
use garrison.Broker.GitHub.{response, post_comment}
use garrison.Broker.Dispatcher.{Run, Post, Target, handle, handle_all}
use garrison.Broker.Dispatcher.Posts.{PostsOf, handle-PostsOf}
use garrison.Broker.Dispatcher.Effects.{Sound, handle-Sound}
use garrison.Broker.Dispatcher.Records.{handle-records, actions_after, outcomes_of}
use garrison.Broker.Dispatcher.Once.{DistinctIds, handle_all-DistinctIds}
use garrison.Broker.Dispatcher.Blocking.{handle_all-blocked}
use garrison.Broker.Request
use garrison.Broker.Request.{Args, Desk, request_external_action}
use garrison.Broker.Request.Queued.{Ends, request-Ends}
use garrison.Broker.System.{
  State, here, next, request, operator_approves, dispatcher_runs, empty, approve_action,
}
use garrison.Broker.System.Approval.{floor_needs_approval}

abbrev table : PolicyTable
table = ("label", auto) ∷ ("reply", notify) ∷ policy

classify_below_approve_example : (in_floor "label" ≡ false) × (lookup "label" table ≡ some auto)
unfolding classify
classify_below_approve_example = classify_below_approve table "label" auto refl (λ e. cc)

abbrev target : Target
target = record { owner = "o"; repo = "r"; issue_number = 7 }

-- A row of the given id, tier and status.
abbrev row : ℕ → Tier → Status → Action
row i t s = record {
  id = i;
  action_type = "label";
  target = "{}";
  rendered_payload = "hello";
  agent_instance_id = 1;
  ticket_id = none;
  tier = t;
  tier_reason = "";
  status = s;
  approved_by = none;
  dispatched_at = none;
}

-- Everything works, and GitHub answers 201.
abbrev smooth : Run
smooth = record {
  fails = λ c. false;
  locked = λ i. false;
  vault = ok "pat";
  parse_target = λ s. ok target;
  github = λ t b p. response 201 (some "url");
  now = 5;
}

abbrev two_rows : Db
two_rows = record { actions = row 1 notify pending ∷ row 2 approve approved ∷ []; outcomes = [] }

handle-records_example : handle smooth two_rows ≡ record {
  db = record {
    actions = actions_after 5 (row 1 notify pending) (ok "url") two_rows.actions;
    outcomes = outcomes_of (row 1 notify pending) (ok "url");
  };
  posts = record { row = row 1 notify pending; target = target; body = "hello"; pat = "pat" } ∷ [];
  failure = none;
}
unfolding claim post_comment
handle-records_example =
    handle-records smooth (λ c. refl) two_rows (row 1 notify pending) "pat" target refl
      (inr (inl refl)) refl refl

handle-PostsOf_example : PostsOf smooth two_rows (handle smooth two_rows).posts
handle-PostsOf_example = handle-PostsOf smooth two_rows

handle-Sound_example : Sound smooth two_rows (handle smooth two_rows)
handle-Sound_example = handle-Sound smooth two_rows

abbrev three_runs : List Run
three_runs = smooth ∷ smooth ∷ smooth ∷ []

handle_all-DistinctIds_example : DistinctIds (handle_all three_runs two_rows).1
unfolding handle
handle_all-DistinctIds_example =
    handle_all-DistinctIds three_runs two_rows (refl, (refl, (refl, tt)))

both_rows_posted : map (λ (p : Post). p.row.id) (handle_all three_runs two_rows).1 ≡ 1 ∷ 2 ∷ []
unfolding handle_all
both_rows_posted = refl

-- The first row waits for its operator; the second would need nobody.
abbrev stuck : Db
stuck = record { actions = row 1 approve pending ∷ row 2 auto pending ∷ []; outcomes = [] }

handle_all-blocked_example : handle_all three_runs stuck ≡ (stuck, [])
unfolding claim
handle_all-blocked_example =
    handle_all-blocked three_runs stuck (row 1 approve pending) (refl, (refl, (refl, tt))) refl refl
      refl

abbrev asking : Request.Run
asking = record {
  fails = λ c. false;
  agent_instance_id = some 1;
  parse_args = λ s. ok (record {
    action_type = " github_issue_comment";
    target = "{}";
    payload = s;
    ticket_id = none;
  });
  parse_uuid = λ s. none;
  new_id = 9;
}

request-Ends_example :
    Ends asking policy "hello " empty.desk
      (request_external_action asking policy "hello " empty.desk)
request-Ends_example = request-Ends asking policy "hello " empty.desk

abbrev after_request : Desk
after_request = (request_external_action asking policy "hello" empty.desk).0

abbrev after_approval : Desk
after_approval = approve_action 9 after_request

abbrev final : State
final = record {
  desk = record after_approval { db = (handle smooth after_approval.db).db };
  posts = (handle smooth after_approval.db).posts;
  approvals = 9 ∷ [];
}

comment_posted : map (λ (p : Post). p.row.action_type) final.posts ≡ "github_issue_comment" ∷ []
unfolding handle request_external_action
comment_posted = refl

floor_needs_approval_example :
    All
      (λ (p : Post). in_floor p.row.action_type ≡ true → Memᴰ p.row.id final.approvals)
      final.posts
floor_needs_approval_example = floor_needs_approval policy final (
    next (next (next here (request asking "hello")) (operator_approves 9)) (dispatcher_runs smooth))
