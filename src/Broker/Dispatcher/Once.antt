-- ===== src/Broker/Dispatcher/Once.antt =====
-- An action that was settled is never called for again.
use garrison.Common.{
  ℕ, ◌≡◌, ap, ◌≢◌, inl, inr, Bool, false, not, ◌&&◌, none, some, List, [], ◌∷◌, map, arith,
  Bool-cases, All, All-append,
}
use garrison.Broker.Tables.{Action, Db, open_status, is_claimable, claim, set_executed, set_failed}
use garrison.Broker.Dispatcher.{Run, Post, handle, handle_all}
use garrison.Broker.Dispatcher.Posts.{handle-PostsOf}
use garrison.Broker.Dispatcher.Effects.{Settles, handle-Sound}

-- No row with id `i` is `pending` or `approved`.
abbrev pub IsClosed : ℕ → List Action → Type 0
IsClosed i = All (λ a. a.id ≡ i → open_status a.status ≡ false)

claim-not_closed :
    (locked : ℕ → Bool) (actions : List Action) (a : Action)
    → claim locked actions ≡ some a
    → IsClosed a.id actions
    → ⊥
unfolding claim
claim-not_closed locked [] a e c = cc
claim-not_closed locked (b ∷ bs) a e c = elim (Bool-cases (is_claimable b && not (locked b.id))) [
  | inl y ↦
      let same : b ≡ a = cc (rw y at e) in ground (arith, c.0 (ap (λ (x : Action). x.id) same))
  | inr n ↦ claim-not_closed locked bs a (rw n at e) c.1
]

failed-IsClosed : (i : ℕ) (as' : List Action) → IsClosed i (map (set_failed i) as')
failed-IsClosed i [] = tt
failed-IsClosed i (a ∷ as') = (ground arith, failed-IsClosed i as')

executed-IsClosed : (i now : ℕ) (as' : List Action) → IsClosed i (map (set_executed i now) as')
executed-IsClosed i now [] = tt
executed-IsClosed i now (a ∷ as') = (ground arith, executed-IsClosed i now as')

Settles-IsClosed : (i now : ℕ) (old new : List Action) → Settles i now old new → IsClosed i new
Settles-IsClosed i now old new (inl e) = rw e (failed-IsClosed i old)
Settles-IsClosed i now old new (inr e) = rw e (executed-IsClosed i now old)

failed-keeps : (i j : ℕ) (as' : List Action) → IsClosed j as' → IsClosed j (map (set_failed i) as')
failed-keeps i j [] c = tt
failed-keeps i j (a ∷ as') c = (ground (arith, c.0), failed-keeps i j as' c.1)

executed-keeps :
    (i now j : ℕ) (as' : List Action) → IsClosed j as' → IsClosed j (map (set_executed i now) as')
executed-keeps i now j [] c = tt
executed-keeps i now j (a ∷ as') c = (ground (arith, c.0), executed-keeps i now j as' c.1)

-- Whatever fails, Handle does not open a closed action.
pub handle-IsClosed :
    (r : Run) (db : Db) (j : ℕ) → IsClosed j db.actions → IsClosed j (handle r db).db.actions
handle-IsClosed r db j c = elim (handle-Sound r db).changes [
  | inl same ↦ rw same c
  | inr (row, k, inl e) ↦ rw e (failed-keeps row.id j db.actions c)
  | inr (row, k, inr e) ↦ rw e (executed-keeps row.id r.now j db.actions c)
]

closed-handle :
    (r : Run) (db : Db) (j : ℕ)
    → IsClosed j db.actions
    → All (λ (p : Post). p.row.id ≢ j) (handle r db).posts
closed-handle r db j c = elim (handle-PostsOf r db) [
  | inl e ↦ rw e tt
  | inr (p, e, a) ↦
      rw e ((λ same. claim-not_closed r.locked db.actions p.row a.claimed (rw same c)), tt)
]

-- No call is made for a closed action, whatever Handle meets and however often it runs.
pub closed-handle_all :
    (rs : List Run) (db : Db) (j : ℕ)
    → IsClosed j db.actions
    → All (λ (p : Post). p.row.id ≢ j) (handle_all rs db).1
unfolding handle_all
closed-handle_all [] db j c = tt
closed-handle_all (r ∷ rs) db j c =
    All-append (λ (p : Post). p.row.id ≢ j) (handle r db).posts _ (closed-handle r db j c)
      (closed-handle_all rs (handle r db).db j (handle-IsClosed r db j c))

-- No call of Handle in the sequence returns an error.
abbrev pub NoFailure : List Run → Db → Type 0
NoFailure [] db = Unit
NoFailure (r ∷ rs) db = ((handle r db).failure ≡ none) × NoFailure rs (handle r db).db

abbrev pub DistinctIds : List Post → Type 0
DistinctIds [] = Unit
DistinctIds (p ∷ ps) = All (λ (q : Post). q.row.id ≢ p.row.id) ps × DistinctIds ps

-- If no call of Handle in a sequence returns an error, GitHub is called at most once for each
-- action, also when a call to GitHub fails.
pub handle_all-DistinctIds :
    (rs : List Run) (db : Db) → NoFailure rs db → DistinctIds (handle_all rs db).1
unfolding handle_all
handle_all-DistinctIds [] db n = tt
handle_all-DistinctIds (r ∷ rs) db n = elim (handle-PostsOf r db) [
  | inl e ↦ rw e (handle_all-DistinctIds rs (handle r db).db n.1)
  | inr (p, e, a) ↦
      let closed =
        Settles-IsClosed p.row.id r.now db.actions (handle r db).db.actions
          ((handle-Sound r db).posted p [] n.0 e) in
      rw e (
        closed-handle_all rs (handle r db).db p.row.id closed,
        handle_all-DistinctIds rs (handle r db).db n.1,
      )
]
