-- ===== src/Broker/Dispatcher/Blocking.antt =====
-- What one call of Handle does with the row that it claims.
use garrison.Common.{ℕ, ◌≡◌, refl, Bool, false, none, some, List, [], ◌∷◌, arith, All}
use garrison.Broker.Policy.{approve}
use garrison.Broker.Tables.{Action, Db, pending, claim}
use garrison.Broker.Dispatcher.{Run, handle_claimed, handle, handle_all}

claimed_blocked :
    (r : Run) (db : Db) (row : Action)
    → row.tier ≡ approve
    → row.status ≡ pending
    → handle_claimed r db (some row) ≡ record { db = db; posts = []; failure = none }
unfolding handle_claimed
claimed_blocked r db row t s = ground arith

-- A row that an operator has still to approve is passed over: nothing changes, and nobody is
-- called.
handle-blocked :
    (r : Run) (db : Db) (row : Action)
    → claim r.locked db.actions ≡ some row
    → row.tier ≡ approve
    → row.status ≡ pending
    → ((handle r db).db ≡ db) × ((handle r db).posts ≡ [])
unfolding handle
handle-blocked r db row c t s = ground (arith, claimed_blocked r db row t s)

abbrev nobody : ℕ → Bool
nobody i = false

-- The claim takes the oldest claimable row that is not locked, whether approved or not. So while that
-- row waits for its operator, and no other transaction holds a lock on a row during any of the calls,
-- no number of calls of Handle dispatches anything: not an approved action, nor one of a tier that
-- needs no approval.
pub handle_all-blocked :
    (rs : List Run) (db : Db) (row : Action)
    → All (λ (r : Run). r.locked ≡ nobody) rs
    → claim nobody db.actions ≡ some row
    → row.tier ≡ approve
    → row.status ≡ pending
    → handle_all rs db ≡ (db, [])
unfolding handle_all
handle_all-blocked [] db row l c t s = refl
handle_all-blocked (r ∷ rs) db row l c t s =
    let (same, quiet) = handle-blocked r db row (rw l.0 c) t s in
    rw (quiet, same) (handle_all-blocked rs db row l.1 c t s)
