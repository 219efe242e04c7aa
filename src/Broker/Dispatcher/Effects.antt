-- ===== src/Broker/Dispatcher/Effects.antt =====
-- What Handle leaves in the tables.
use garrison.Common.{
  ℕ, String, ◌≡◌, refl, ◌⊎◌, inl, inr, true, Option, none, some, List, [], ◌∷◌, map, arith,
  Bool-cases, Result, ok, err,
}
use garrison.Broker.Policy.{Tier}
use garrison.Broker.GitHub.{PostError, recoverable, terminal}
use garrison.Broker.Tables.{Action, Db, claim, set_executed, set_failed}
use garrison.Broker.Dispatcher.{
  Call, begin, claim_row, commit, Run, Post, Handled, Target, Gate, dispatch, settled, exec,
  tier_gate, settle, deliver, with_secret, pass_gate, handle_claimed, handle, fail_row,
  finish_executed, after_post,
}

-- The row with id `i` becomes `failed` or `executed`, and no other row changes.
abbrev pub Settles : ℕ → ℕ → List Action → List Action → Type 0
Settles i now old new = (new ≡ map (set_failed i) old) ⊎ (new ≡ map (set_executed i now) old)

-- How a transaction that settles `row` can end.
data TxEnd (r : Run) (db : Db) (row : Action) : Result Call Db → Type 0 where
  broke : {c : Call} → r.fails c ≡ true → TxEnd r db row (err c)
  wrote : {new : Db} → Settles row.id r.now db.actions new.actions → TxEnd r db row (ok new)

module _ (r : Run) (db : Db) (row : Action) where
  fail_row-TxEnd : (d : String) (tx : Result Call Db) → fail_row r db row d ≡ tx → TxEnd r db row tx
  unfolding fail_row
  fail_row-TxEnd d (err c) e = broke (ground arith)
  fail_row-TxEnd d (ok new) e = wrote (inl (ground arith))

  finish_executed-TxEnd :
      (url : String) (tx : Result Call Db) → finish_executed r db row url ≡ tx → TxEnd r db row tx
  unfolding finish_executed
  finish_executed-TxEnd url (err c) e = broke (ground arith)
  finish_executed-TxEnd url (ok new) e = wrote (inr (ground arith))

  after_post-TxEnd : (a : Result PostError String) → TxEnd r db row (after_post r db row a)
  unfolding after_post
  after_post-TxEnd (ok url) = finish_executed-TxEnd url _ refl
  after_post-TxEnd (err (recoverable e)) = fail_row-TxEnd e _ refl
  after_post-TxEnd (err (terminal e)) = fail_row-TxEnd e _ refl

-- How Handle can end.
pub record Sound (r : Run) (db : Db) (h : Handled) : Type 0 where
  pub atomic : (c : Call) → h.failure ≡ some c → (h.db ≡ db) × (r.fails c ≡ true)
  pub changes :
      (h.db.actions ≡ db.actions)
      ⊎ ((row : Action) × (claim r.locked db.actions ≡ some row)
          × Settles row.id r.now db.actions h.db.actions)
  pub posted :
      (p : Post) (ps : List Post)
      → h.failure ≡ none
      → h.posts ≡ p ∷ ps
      → Settles p.row.id r.now db.actions h.db.actions

-- A transaction that leaves the actions as they are.
data Quiet (r : Run) (db : Db) : Result Call Db → Type 0 where
  broken : {c : Call} → r.fails c ≡ true → Quiet r db (err c)
  kept : {new : Db} → new.actions ≡ db.actions → Quiet r db (ok new)

settle-Quiet-Sound :
    (r : Run) (db : Db) {tx : Result Call Db} → Quiet r db tx → Sound r db (settle db [] tx)
settle-Quiet-Sound r db (broken f) = record {
  atomic = λ c e. ground arith;
  changes = inl refl;
  posted = λ p ps e n. cc;
}
settle-Quiet-Sound r db (kept k) = record {
  atomic = λ c e. cc;
  changes = inl k;
  posted = λ p ps e n. cc;
}

abbrev PostsFor : Action → List Post → Type 0
PostsFor row posts = (p : Post) (ps : List Post) → posts ≡ p ∷ ps → p.row.id ≡ row.id

settle-Sound :
    (r : Run) (db : Db) (row : Action) (posts : List Post) {tx : Result Call Db}
    → claim r.locked db.actions ≡ some row
    → PostsFor row posts
    → TxEnd r db row tx
    → Sound r db (settle db posts tx)
settle-Sound r db row posts k f (broke b) = record {
  atomic = λ c e. ground arith;
  changes = inl refl;
  posted = λ p ps e n. cc;
}
settle-Sound r db row posts k f (wrote w) = record {
  atomic = λ c e. cc;
  changes = inr (row, k, w);
  posted = λ p ps e n. rw (f p ps n) w;
}

tier_gate-Quiet :
    (r : Run) (db : Db) (row : Action) (t : Tier) (tx : Result Call Db)
    → tier_gate r db row t ≡ settled tx
    → Quiet r db tx
unfolding tier_gate
tier_gate-Quiet r db row t (err c) e = broken (ground arith)
tier_gate-Quiet r db row t (ok new) e = kept (ground arith)

module _ (r : Run) (db : Db) (row : Action) (claimed : claim r.locked db.actions ≡ some row) where
  deliver-Sound : (pat : String) (o : Result String Target) → Sound r db (deliver r db row pat o)
  unfolding deliver
  deliver-Sound pat (err e) =
      settle-Sound r db row [] claimed (λ p ps n. cc) (fail_row-TxEnd r db row _ _ refl)
  deliver-Sound pat (ok t) =
      settle-Sound r db row _ claimed (λ p ps n. ground arith) (after_post-TxEnd r db row _)

  with_secret-Sound : (o : Result String String) → Sound r db (with_secret r db row o)
  unfolding with_secret
  with_secret-Sound (err e) =
      settle-Sound r db row [] claimed (λ p ps n. cc) (fail_row-TxEnd r db row _ _ refl)
  with_secret-Sound (ok pat) = deliver-Sound pat (r.parse_target row.target)

  pass_gate-Sound : (g : Gate) → tier_gate r db row row.tier ≡ g → Sound r db (pass_gate r db row g)
  unfolding pass_gate
  pass_gate-Sound (settled tx) e = settle-Quiet-Sound r db (tier_gate-Quiet r db row row.tier tx e)
  pass_gate-Sound dispatch e = with_secret-Sound r.vault

idle-Quiet :
    (r : Run) (db : Db) (tx : Result Call Db) → exec r commit (λ d. d) db ≡ tx → Quiet r db tx
idle-Quiet r db (err c) e = broken (ground arith)
idle-Quiet r db (ok new) e = kept (ground arith)

handle_claimed-Sound :
    (r : Run) (db : Db) (o : Option Action)
    → claim r.locked db.actions ≡ o
    → Sound r db (handle_claimed r db o)
unfolding handle_claimed
handle_claimed-Sound r db none c = settle-Quiet-Sound r db (idle-Quiet r db _ refl)
handle_claimed-Sound r db (some row) c = pass_gate-Sound r db row c _ refl

-- If Handle returns an error, a call on the database failed and the tables are as before. Either
-- way the table of actions is as before, or exactly the rows with the claimed row's id became
-- `failed` or `executed`; and if Handle called GitHub and returns no error, the row that it
-- called for did.
pub handle-Sound : (r : Run) (db : Db) → Sound r db (handle r db)
unfolding handle
handle-Sound r db = elim (Bool-cases (r.fails begin)) [
  | inl f ↦ rw f (settle-Quiet-Sound r db (broken f))
  | inr g ↦ elim (Bool-cases (r.fails claim_row)) [
    | inl f ↦ rw (g, f) (settle-Quiet-Sound r db (broken f))
    | inr h ↦ rw (g, h) (handle_claimed-Sound r db (claim r.locked db.actions) refl)
  ]
]
