-- ===== src/Broker/System/Approval.antt =====
-- Nothing of the floor is posted without an approval.
use mathlib.Core.List.{Memᴰ}
use garrison.Common.{
  String, ℕ, ◌≡◌, inl, inr, Bool, true, not, ◌&&◌, some, List, [], ◌∷◌, arith, ◌==◌, Bool-cases,
  All, All-append, All-map, All-mono,
}
use garrison.Broker.Policy.{
  Tier, auto, notify, approve, human_only, other, PolicyTable, in_floor, classify,
}
use garrison.Broker.Tables.{
  Action, Db, Status, approved, is_claimable, set_executed, set_failed, claim,
}
use garrison.Broker.Dispatcher
use garrison.Broker.Dispatcher.{Post, handle}
use garrison.Broker.Dispatcher.Posts.{MayPost, IsAuthorised, handle-PostsOf}
use garrison.Broker.Dispatcher.Effects.{Settles, handle-Sound}
use garrison.Broker.Request
use garrison.Broker.Request.{Desk, request_external_action, Answer}
use garrison.Broker.Request.Queued.{IsQueued, Ends, request-Ends, refused, failed, accepted}
use garrison.Broker.System.{
  State, is_pending, set_approved, Step, Reach, request, operator_approves, dispatcher_runs, here,
  next, empty, RowOk, PostOk, Inv,
}

approved_of : (t : Tier) (s : Status) → t ≡ approve → MayPost t s → s ≡ approved
approved_of auto s e m = cc
approved_of notify s e m = cc
approved_of approve s e m = m
approved_of human_only s e m = cc
approved_of (other x) s e m = cc

claim-All :
    (P : Action → Type 0) (locked : ℕ → Bool) (actions : List Action) (a : Action)
    → claim locked actions ≡ some a
    → All P actions
    → P a
unfolding claim
claim-All P locked [] a e h = cc
claim-All P locked (b ∷ bs) a e h = elim (Bool-cases (is_claimable b && not (locked b.id))) [
  | inl y ↦ let same : b ≡ a = cc (rw y at e) in rw (← same) h.0
  | inr n ↦ claim-All P locked bs a (rw n at e) h.1
]

IsQueued-RowOk :
    (r : Request.Run) (table : PolicyTable) (ids : List ℕ) (a : Action)
    → IsQueued r table a
    → RowOk ids a
unfolding classify
IsQueued-RowOk r table ids a q = ((λ f. ground arith), (λ t s. absurd (ground arith)))

Ends-rows :
    (r : Request.Run) (table : PolicyTable) (ids : List ℕ) (raw : String) (d : Desk)
    {e : Desk × Answer}
    → Ends r table raw d e
    → All (RowOk ids) d.db.actions
    → All (RowOk ids) (e.0).db.actions
Ends-rows r table ids raw d (refused e w) h = h
Ends-rows r table ids raw d (failed c agent args ticket read f n) h = h
Ends-rows r table ids raw d (accepted a audit new q rows au i n agent args ticket read holds w) h =
    rw rows (All-append (RowOk ids) d.db.actions (a ∷ []) h (IsQueued-RowOk r table ids a q, tt))

RowOk-approve :
    (i : ℕ) (ids : List ℕ) (a : Action) → RowOk ids a → RowOk (i ∷ ids) (set_approved i a)
RowOk-approve i ids a h = elim (Bool-cases (a.id == i && is_pending a.status)) [
  | inl y ↦ rw y (h.0, λ t s. Memᴰ.head (ground arith))
  | inr n ↦ rw n (h.0, λ t s. Memᴰ.tail (h.1 t s))
]

PostOk-approve : (i : ℕ) (ids : List ℕ) (p : Post) → PostOk ids p → PostOk (i ∷ ids) p
PostOk-approve i ids p h f = Memᴰ.tail (h f)

RowOk-failed : (i : ℕ) (ids : List ℕ) (a : Action) → RowOk ids a → RowOk ids (set_failed i a)
RowOk-failed i ids a h = elim (Bool-cases (a.id == i)) [
  | inl y ↦ rw y (h.0, λ t s. cc)
  | inr n ↦ rw n h
]

RowOk-executed :
    (i now : ℕ) (ids : List ℕ) (a : Action) → RowOk ids a → RowOk ids (set_executed i now a)
RowOk-executed i now ids a h = elim (Bool-cases (a.id == i)) [
  | inl y ↦ rw y (h.0, λ t s. cc)
  | inr n ↦ rw n h
]

Settles-RowOk :
    (i now : ℕ) (ids : List ℕ) (old new : List Action)
    → Settles i now old new
    → All (RowOk ids) old
    → All (RowOk ids) new
Settles-RowOk i now ids old new (inl e) h =
    rw e (All-map (RowOk ids) (RowOk ids) (set_failed i) (RowOk-failed i ids) old h)
Settles-RowOk i now ids old new (inr e) h =
    rw e (All-map (RowOk ids) (RowOk ids) (set_executed i now) (RowOk-executed i now ids) old h)

handle-RowOk :
    (r : Dispatcher.Run) (db : Db) (ids : List ℕ)
    → All (RowOk ids) db.actions
    → All (RowOk ids) (handle r db).db.actions
handle-RowOk r db ids h = elim (handle-Sound r db).changes [
  | inl same ↦ rw same h
  | inr (row, k, w) ↦ Settles-RowOk row.id r.now ids db.actions (handle r db).db.actions w h
]

authorised-PostOk :
    (r : Dispatcher.Run) (db : Db) (ids : List ℕ) (p : Post)
    → IsAuthorised r db p
    → RowOk ids p.row
    → PostOk ids p
authorised-PostOk r db ids p a h f =
    h.1 (h.0 f) (approved_of p.row.tier p.row.status (h.0 f) a.allowed)

handle-PostOk :
    (r : Dispatcher.Run) (db : Db) (ids : List ℕ)
    → All (RowOk ids) db.actions
    → All (PostOk ids) (handle r db).posts
handle-PostOk r db ids h = elim (handle-PostsOf r db) [
  | inl e ↦ rw e tt
  | inr (p, e, a) ↦ rw e (
    authorised-PostOk r db ids p a (claim-All (RowOk ids) r.locked db.actions p.row a.claimed h),
    tt,
  )
]

Step-Inv : (table : PolicyTable) (s : State) {t : State} → Step table s t → Inv s → Inv t
Step-Inv table s (request r raw) h = record {
  rows = Ends-rows r table s.approvals raw s.desk (request-Ends r table raw s.desk) h.rows;
  calls = h.calls;
}
Step-Inv table s (operator_approves i) h = record {
  rows =
      All-map (RowOk s.approvals) (RowOk (i ∷ s.approvals)) (set_approved i)
        (RowOk-approve i s.approvals) s.desk.db.actions h.rows;
  calls =
      All-mono (PostOk s.approvals) (PostOk (i ∷ s.approvals)) (PostOk-approve i s.approvals)
        s.posts h.calls;
}
Step-Inv table s (dispatcher_runs r) h = record {
  rows = handle-RowOk r s.desk.db s.approvals h.rows;
  calls =
      All-append (PostOk s.approvals) s.posts _ h.calls
        (handle-PostOk r s.desk.db s.approvals h.rows);
}

Reach-Inv : (table : PolicyTable) {s t : State} → Reach table s t → Inv s → Inv t
Reach-Inv table here h = h
Reach-Inv table (next r st) h = Step-Inv table _ st (Reach-Inv table r h)

-- From empty tables, under every policy table, and in every order of requests, approvals and
-- runs of the dispatcher, whatever fails: each call to GitHub for an action type of the floor is
-- for an action that the operator approved.
pub floor_needs_approval :
    (table : PolicyTable) (s : State)
    → Reach table empty s
    → All (λ (p : Post). in_floor p.row.action_type ≡ true → Memᴰ p.row.id s.approvals) s.posts
floor_needs_approval table s r = (Reach-Inv table r (record { rows = tt; calls = tt })).calls
