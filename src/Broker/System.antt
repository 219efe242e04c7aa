-- ===== src/Broker/System.antt =====
-- The action broker as a whole: agents that request, an operator who approves
-- (dashboard/app/[locale]/(app)/admin/outbox/actions.ts: a pending row becomes approved), and the
-- dispatcher, in any order.
pub mod Approval
use mathlib.Core.List.{Memᴰ}
use garrison.Common.{
  ℕ, zero, suc, ◌+◌, ◌-◌, ◌*◌, ◌/◌, ◌%◌, ◌^◌, ◌≤◌, ◌<◌, String, ◌≡◌, refl, sym, ap, ◌∙◌, ◌≢◌, ◌↔◌,
  ◌⊎◌, inl, inr, Bool, true, false, not, ◌&&◌, ◌||◌, Option, none, some, List, [], ◌∷◌, ◌++◌, map,
  arith, eq_iff, ltb, leb, ◌==◌, str_eq, concat, if◌then◌else◌, ltb→lt, lt→ltb, leb→le, ==_iff,
  Bool-cases, Option-cases, length, take, length-append, All, Result, ok, err, ◌>>=◌, ◌>>◌,
}
use garrison.Broker.Policy.{
  Tier, auto, notify, approve, human_only, other, PolicyTable, in_floor, classify,
}
use garrison.Broker.Tables.{Action, Db, Status, pending, approved, set_executed, set_failed, claim}
use garrison.Broker.Dispatcher
use garrison.Broker.Dispatcher.{Post, handle}
use garrison.Broker.Dispatcher.Posts.{PostsOf, IsAuthorised, handle-PostsOf}
use garrison.Broker.Dispatcher.Effects.{Settles, Sound, handle-Sound}
use garrison.Broker.Request
use garrison.Broker.Request.{Desk, request_external_action}
use garrison.Broker.Request.Queued.{IsQueued, Ends, request-Ends, refused, failed, accepted}

-- The tables, the calls made to GitHub, and the ids that the operator has approved.
pub record State : Type 0 where
  pub desk : Desk
  pub posts : List Post
  pub approvals : List ℕ

abbrev pub is_pending : Status → Bool
is_pending pending = true
is_pending _ = false

abbrev pub set_approved : ℕ → Action → Action
set_approved i a =
    if a.id == i && is_pending a.status
    then record a { status = approved; approved_by = some "operator" }
    else a

abbrev pub approve_action : ℕ → Desk → Desk
approve_action i d = record d { db = record d.db { actions = map (set_approved i) d.db.actions } }

pub data Step (table : PolicyTable) (s : State) : State → Type 0 where
  request :
      (r : Request.Run) (raw : String)
      → Step table s (record s { desk = (request_external_action r table raw s.desk).0 })
  operator_approves :
      (i : ℕ)
      → Step table s (record s { desk = approve_action i s.desk; approvals = i ∷ s.approvals })
  dispatcher_runs :
      (r : Dispatcher.Run)
      → Step table s (record s {
        desk = record s.desk { db = (handle r s.desk.db).db };
        posts = s.posts ++ (handle r s.desk.db).posts;
      })

pub data Reach (table : PolicyTable) (s : State) : State → Type 0 where
  here : Reach table s s
  next : {t u : State} → Reach table s t → Step table t u → Reach table s u

abbrev pub empty : State
empty = record {
  desk = record { db = record { actions = []; outcomes = [] }; audits = []; notified = [] };
  posts = [];
  approvals = [];
}

-- A row of the floor has tier `approve`, and an approved row of that tier was approved.
abbrev RowOk : List ℕ → Action → Type 0
RowOk approvals a =
    (in_floor a.action_type ≡ true → a.tier ≡ approve)
    × (a.tier ≡ approve → a.status ≡ approved → Memᴰ a.id approvals)

abbrev PostOk : List ℕ → Post → Type 0
PostOk approvals p = in_floor p.row.action_type ≡ true → Memᴰ p.row.id approvals

record Inv (s : State) : Type 0 where
  rows : All (RowOk s.approvals) s.desk.db.actions
  calls : All (PostOk s.approvals) s.posts
