-- ===== src/Broker/Dispatcher.antt =====
-- supervisor/internal/actionbroker/dispatcher.go: one call of Handle. What the call meets outside
-- the tables is its `Run`: which SQL calls fail, which rows other transactions hold, and what the
-- vault, the JSON decoder and GitHub answer. The transaction is a chain of calls on the tables, and
-- a call that fails leaves the tables as they were before it began.
pub mod Posts
pub mod Effects
pub mod Records
pub mod Once
pub mod Blocking
use garrison.Common.{
  ℕ, zero, suc, ◌+◌, ◌-◌, ◌*◌, ◌/◌, ◌%◌, ◌^◌, ◌≤◌, ◌<◌, String, ◌≡◌, refl, sym, ap, ◌∙◌, ◌≢◌, ◌↔◌,
  ◌⊎◌, inl, inr, Bool, true, false, not, ◌&&◌, ◌||◌, Option, none, some, List, [], ◌∷◌, ◌++◌, map,
  arith, eq_iff, ltb, leb, ◌==◌, str_eq, concat, if◌then◌else◌, ltb→lt, lt→ltb, leb→le, ==_iff,
  Bool-cases, Option-cases, length, take, length-append, All, Result, ok, err, ◌>>=◌, ◌>>◌,
}
use garrison.Broker.Policy.{Tier, auto, notify, approve, human_only, other}
use garrison.Broker.GitHub.{PostError, recoverable, terminal, Response, post_comment}
use garrison.Broker.Tables
use garrison.Broker.Tables.{
  Action, Db, Status, OutcomeKind, is_claimable, claim, mark_executed, mark_failed, insert_outcome,
}

-- The calls on the database, in the order of the source.
pub data Call : Type 0 where
  begin claim_row insert_skipped set_executed insert_executed insert_notified : Call
  set_failed insert_failed commit : Call

-- The issue or pull request that a comment goes to.
pub record Target : Type 0 where
  pub owner : String
  pub repo : String
  pub issue_number : ℕ

pub record Run : Type 0 where
  pub fails : Call → Bool
  pub locked : ℕ → Bool
  pub vault : Result String String
  pub parse_target : String → Result String Target
  pub github : Target → String → String → Response
  pub now : ℕ

-- A call of `GitHub.PostComment`, with the row that it acts for.
pub record Post : Type 0 where
  pub row : Action
  pub target : Target
  pub body : String
  pub pat : String

-- What Handle leaves: the committed tables, the calls that it made to GitHub, and its error.
pub record Handled : Type 0 where
  pub db : Db
  pub posts : List Post
  pub failure : Option Call

abbrev Tx : Type 0
Tx = Result Call Db

-- One call on the database.
abbrev exec : Run → Call → (Db → Db) → Db → Tx
exec r c f db = if r.fails c then err c else ok (f db)

abbrev pub outcome : Action → OutcomeKind → String → Option String → Tables.Outcome
outcome row kind detail structured = record {
  pending_action_id = row.id;
  agent_instance_id = row.agent_instance_id;
  outcome = kind;
  detail = detail;
  structured_outcome = structured;
}

fail_row : Run → Db → Action → String → Tx
fail_row r db row detail = do
  marked ← exec r set_failed (mark_failed row.id) db
  written ←
      exec r insert_failed (insert_outcome (outcome row OutcomeKind.failed detail none)) marked
  exec r commit (λ d. d) written

insert_notified_outcome : Run → Action → Tier → Db → Tx
insert_notified_outcome r row notify db =
    exec r insert_notified
      (insert_outcome
        (outcome row OutcomeKind.notified "operator notified post-hoc via Outbox feed" none))
      db
insert_notified_outcome r row _ db = ok db

finish_executed : Run → Db → Action → String → Tx
unfolding insert_notified_outcome
finish_executed r db row comment_url = do
  marked ← exec r set_executed (mark_executed row.id r.now) db
  written ←
      exec r insert_executed
        (insert_outcome (outcome row OutcomeKind.executed comment_url (some comment_url))) marked
  told ← insert_notified_outcome r row row.tier written
  exec r commit (λ d. d) told

-- `applyTierGate`: go on, or stop with the transaction settled.
pub data Gate : Type 0 where
  dispatch : Gate
  settled : Tx → Gate

abbrev is_approved : Status → Bool
is_approved Status.approved = true
is_approved _ = false

tier_gate : Run → Db → Action → Tier → Gate
tier_gate r db row human_only = settled (do
  written ←
      exec r insert_skipped
        (insert_outcome (
          outcome row OutcomeKind.skipped_human_only
            "human_only actions are never dispatched by the supervisor" none))
        db
  exec r commit (λ d. d) written)
tier_gate r db row approve = if is_approved row.status then dispatch else settled (ok db)
tier_gate r db row auto = dispatch
tier_gate r db row notify = dispatch
tier_gate r db row (other t) = settled (ok db)

-- The deferred rollback: a failed transaction leaves the tables of before.
abbrev settle : Db → List Post → Tx → Handled
settle db posts (ok new) = record { db = new; posts = posts; failure = none }
settle db posts (err c) = record { db = db; posts = posts; failure = some c }

after_post : Run → Db → Action → Result PostError String → Tx
unfolding fail_row finish_executed
after_post r db row (ok url) = finish_executed r db row url
after_post r db row (err (recoverable e)) = fail_row r db row e
after_post r db row (err (terminal e)) = fail_row r db row e

deliver : Run → Db → Action → String → Result String Target → Handled
unfolding fail_row after_post post_comment
deliver r db row pat (err e) =
    settle db [] (fail_row r db row (concat "malformed target JSONB: " e))
deliver r db row pat (ok t) =
    settle db (record { row = row; target = t; body = row.rendered_payload; pat = pat } ∷ [])
      (after_post r db row (post_comment (r.github t row.rendered_payload pat)))

with_secret : Run → Db → Action → Result String String → Handled
unfolding fail_row deliver
with_secret r db row (err e) = settle db [] (fail_row r db row (concat "vault unavailable: " e))
with_secret r db row (ok pat) = deliver r db row pat (r.parse_target row.target)

pass_gate : Run → Db → Action → Gate → Handled
unfolding with_secret
pass_gate r db row (settled tx) = settle db [] tx
pass_gate r db row dispatch = with_secret r db row r.vault

handle_claimed : Run → Db → Option Action → Handled
unfolding tier_gate pass_gate
handle_claimed r db none = settle db [] (exec r commit (λ d. d) db)
handle_claimed r db (some row) = pass_gate r db row (tier_gate r db row row.tier)

-- `Handle`. The event id that it is called with is not read: any claimable row will do.
unfoldable pub handle : Run → Db → Handled
unfolding claim handle_claimed
handle r db =
    if r.fails begin
    then record { db = db; posts = []; failure = some begin }
    else if r.fails claim_row
    then record { db = db; posts = []; failure = some claim_row }
    else handle_claimed r db (claim r.locked db.actions)

-- Handle called again and again, as by the poll ticker.
unfoldable pub handle_all : List Run → Db → Db × List Post
unfolding handle
handle_all [] db = (db, [])
handle_all (r ∷ rs) db =
    let h = handle r db in let (last, posts) = handle_all rs h.db in (last, h.posts ++ posts)
