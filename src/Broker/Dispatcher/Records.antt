-- ===== src/Broker/Dispatcher/Records.antt =====
-- What Handle records of a row that it dispatches.
use mathlib.Core.List.{append-nil, append_assoc}
use garrison.Common.{
  ℕ, String, ◌≡◌, ◌⊎◌, false, none, some, List, [], ◌∷◌, ◌++◌, map, arith, Result, ok, err,
}
use garrison.Broker.Policy.{Tier, auto, notify, approve}
use garrison.Broker.GitHub.{PostError, recoverable, terminal, post_comment}
use garrison.Broker.Tables.{
  Action, Db, approved, Outcome, OutcomeKind, claim, set_executed, set_failed,
}
use garrison.Broker.Dispatcher.{
  Call, begin, claim_row, commit, insert_executed, insert_failed, insert_notified, Run, Target,
  outcome, handle_claimed, handle, after_post, insert_notified_outcome,
}

-- A `notify` action is also reported to the operator.
abbrev pub notices : Action → Tier → List Outcome
notices row notify =
    outcome row OutcomeKind.notified "operator notified post-hoc via Outbox feed" none ∷ []
notices row _ = []

-- The outcomes that the history gains once GitHub has answered.
abbrev pub outcomes_of : Action → Result PostError String → List Outcome
outcomes_of row (err (recoverable e)) = outcome row OutcomeKind.failed e none ∷ []
outcomes_of row (err (terminal e)) = outcome row OutcomeKind.failed e none ∷ []
outcomes_of row (ok url) = outcome row OutcomeKind.executed url (some url) ∷ notices row row.tier

abbrev pub actions_after : ℕ → Action → Result PostError String → List Action → List Action
actions_after now row (ok url) = map (set_executed row.id now)
actions_after now row (err e) = map (set_failed row.id)

abbrev pub MayDispatch : Action → Type 0
MayDispatch row =
    (row.tier ≡ auto) ⊎ (row.tier ≡ notify) ⊎ ((row.tier ≡ approve) × (row.status ≡ approved))

module _ (r : Run) (works : (c : Call) → r.fails c ≡ false) where
  insert_notified_outcome-records :
      (row : Action) (t : Tier) (db : Db)
      → insert_notified_outcome r row t db
        ≡ ok (record { actions = db.actions; outcomes = db.outcomes ++ notices row t })
  unfolding insert_notified_outcome
  insert_notified_outcome-records row notify db = rw (works insert_notified)
  insert_notified_outcome-records row _ db = rw append-nil

  after_post-records :
      (db : Db) (row : Action) (a : Result PostError String)
      → after_post r db row a
        ≡ ok (record {
          actions = actions_after r.now row a db.actions;
          outcomes = db.outcomes ++ outcomes_of row a;
        })
  unfolding after_post
  after_post-records db row (ok url) = rw (
    works Call.set_executed,
    works insert_executed,
    insert_notified_outcome-records row row.tier _,
    works commit,
    append_assoc,
  )
  after_post-records db row (err (recoverable e)) =
      ground (arith, works Call.set_failed, works insert_failed, works commit)
  after_post-records db row (err (terminal e)) =
      ground (arith, works Call.set_failed, works insert_failed, works commit)

  handle_claimed-records :
      (db : Db) (row : Action) (pat : String) (t : Target)
      → MayDispatch row
      → r.vault ≡ ok pat
      → r.parse_target row.target ≡ ok t
      → let answer = post_comment (r.github t row.rendered_payload pat) in
        handle_claimed r db (some row) ≡ record {
          db = record {
            actions = actions_after r.now row answer db.actions;
            outcomes = db.outcomes ++ outcomes_of row answer;
          };
          posts = record { row = row; target = t; body = row.rendered_payload; pat = pat } ∷ [];
          failure = none;
        }
  unfolding handle_claimed
  handle_claimed-records db row pat t m v p =
      ground (arith, after_post-records db row (post_comment (r.github t row.rendered_payload pat)))

  -- If no call on the database fails, the claimed row may be dispatched, the vault answers and the
  -- target decodes, then Handle calls GitHub once for the row, returns no error, marks the row
  -- `executed` or `failed` by GitHub's answer, and appends the outcomes of that answer: `failed`,
  -- or `executed` followed, for a `notify` row, by `notified`.
  pub handle-records :
      (db : Db) (row : Action) (pat : String) (t : Target)
      → claim r.locked db.actions ≡ some row
      → MayDispatch row
      → r.vault ≡ ok pat
      → r.parse_target row.target ≡ ok t
      → let answer = post_comment (r.github t row.rendered_payload pat) in
        handle r db ≡ record {
          db = record {
            actions = actions_after r.now row answer db.actions;
            outcomes = db.outcomes ++ outcomes_of row answer;
          };
          posts = record { row = row; target = t; body = row.rendered_payload; pat = pat } ∷ [];
          failure = none;
        }
  unfolding handle
  handle-records db row pat t c m v p =
      rw (works begin, works claim_row, c) (handle_claimed-records db row pat t m v p)
