-- ===== src/Broker/Tables.antt =====
-- The tables pending_actions and pending_action_outcomes, and the queries of
-- supervisor/internal/store/m11_action_broker.sql.go. The list of actions stands in the order of
-- created_at. UUIDs and instants are numbers.
use garrison.Common.{
  ℕ, String, Bool, true, false, not, ◌&&◌, Option, none, some, List, [], ◌∷◌, ◌++◌, map, ◌==◌,
  if◌then◌else◌,
}
use garrison.Broker.Policy.{Tier, human_only}

pub data Status : Type 0 where
  pending approved rejected executed failed done : Status

pub record Action : Type 0 where
  pub id : ℕ
  pub action_type : String
  pub target : String
  pub rendered_payload : String
  pub agent_instance_id : ℕ
  pub ticket_id : Option ℕ
  pub tier : Tier
  pub tier_reason : String
  pub status : Status
  pub approved_by : Option String
  pub dispatched_at : Option ℕ

pub data OutcomeKind : Type 0 where
  requested executed failed notified skipped_human_only : OutcomeKind

pub record Outcome : Type 0 where
  pub pending_action_id : ℕ
  pub agent_instance_id : ℕ
  pub outcome : OutcomeKind
  pub detail : String
  pub structured_outcome : Option String

pub record Db : Type 0 where
  pub actions : List Action
  pub outcomes : List Outcome

-- `status IN ('pending', 'approved') AND tier <> 'human_only'`
abbrev pub open_status : Status → Bool
open_status pending = true
open_status approved = true
open_status _ = false

abbrev pub is_human_only : Tier → Bool
is_human_only human_only = true
is_human_only _ = false

abbrev pub is_claimable : Action → Bool
is_claimable a = open_status a.status && not (is_human_only a.tier)

-- ClaimDispatchablePendingAction: the oldest claimable row that no other transaction has locked.
unfoldable pub claim : (ℕ → Bool) → List Action → Option Action
claim locked [] = none
claim locked (a ∷ as') =
    let rest = claim locked as' in if is_claimable a && not (locked a.id) then some a else rest

-- MarkPendingActionExecuted
abbrev pub set_executed : ℕ → ℕ → Action → Action
set_executed i now a =
    if a.id == i then record a { status = executed; dispatched_at = some now } else a

abbrev pub mark_executed : ℕ → ℕ → Db → Db
mark_executed i now db = record db { actions = map (set_executed i now) db.actions }

-- MarkPendingActionFailed
abbrev pub set_failed : ℕ → Action → Action
set_failed i a = if a.id == i then record a { status = failed } else a

abbrev pub mark_failed : ℕ → Db → Db
mark_failed i db = record db { actions = map (set_failed i) db.actions }

-- InsertPendingActionOutcome
abbrev pub insert_outcome : Outcome → Db → Db
insert_outcome o db = record db { outcomes = db.outcomes ++ o ∷ [] }
