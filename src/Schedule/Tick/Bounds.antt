-- ===== src/Schedule/Tick/Bounds.antt =====
-- How much one tick writes.
use garrison.Common.{
  ℕ, zero, suc, ◌+◌, ◌≤◌, ◌≡◌, refl, ◌∙◌, ◌⊎◌, inl, inr, true, Option, none, some, List, [], ◌∷◌,
  ok, err, length, take, arith, Bool-cases,
}
use garrison.Schedule.Tasks.{Task, Outcome, Db, Call, begin, claim, commit, Run, Tx, claim_due}
use garrison.Schedule.Tick.{fire_claimed_task, fire_all, tick_tx, tick_once}
use garrison.Schedule.Tick.Failures.{AnyOf, FailedFor, tick_tx-failed}
use garrison.Schedule.Tick.Firing.{Fires, fire_claimed_task-Fires}

module _ (r : Run) where
  fire_claimed_task-length :
      (t : Task) (db db' : Db) (o : Option Outcome)
      → Fires r t db db' o
      → length db'.runs ≤ suc (length db.runs)
  fire_claimed_task-length t db db' none (_, e) = rw e (omega arith)
  fire_claimed_task-length t db db' (some o) (_, _, _, (run, e, _, _, _, _)) = rw e (omega arith)

  pub fired-cases :
      (x : Tx (Db × Option Outcome))
      → ((c : Call) × (x ≡ err c)) ⊎ ((d : Db) × (o : Option Outcome) × (x ≡ ok (d, o)))
  fired-cases (err c) = inl (c, refl)
  fired-cases (ok (d, o)) = inr (d, o, refl)

  fire_all-length :
      (ts : List Task) (db db' : Db)
      → fire_all r ts db ≡ ok db'
      → length db'.runs ≤ length db.runs + length ts
  unfolding fire_all
  fire_all-length [] db db' h = let same : db ≡ db' = cc in rw same (omega arith)
  fire_all-length (t ∷ ts) db db' h = elim (fired-cases (fire_claimed_task r t db)) [
    | inl (c, y) ↦ cc (rw y at h)
    | inr (d, o, y) ↦ omega (
      arith,
      fire_claimed_task-length t db d o (fire_claimed_task-Fires r t db d o y),
      fire_all-length ts d db' (rw y at h),
    )
  ]

  none_due-same : (ts : List Task) (db db' : Db) → ts ≡ [] → fire_all r ts db ≡ ok db' → db' ≡ db
  unfolding fire_all
  none_due-same [] db db' e h = cc
  none_due-same (t ∷ ts) db db' e h = cc

  take-length : (n : ℕ) (ts : List Task) → length (take n ts) ≤ n
  take-length zero ts = omega arith
  take-length (suc n) [] = omega arith
  take-length (suc n) (t ∷ ts) = omega (arith, take-length n ts)

  claim_due-length : (db : Db) → length (claim_due r db) ≤ r.claim_limit
  unfolding claim_due
  claim_due-length db = take-length _ _

  tx-cases : {A : Type 0} (x : Tx A) → ((c : Call) × (x ≡ err c)) ⊎ ((a : A) × (x ≡ ok a))
  tx-cases (err c) = inl (c, refl)
  tx-cases (ok a) = inr (a, refl)

  -- A tick that commits has fired the tasks that it claimed.
  tick_tx-fires : (db db' : Db) → tick_tx r db ≡ ok db' → fire_all r (claim_due r db) db ≡ ok db'
  unfolding tick_tx
  tick_tx-fires db db' h = elim (Bool-cases (r.tick_fails begin)) [
    | inl y ↦ cc (rw y at h)
    | inr b ↦ elim (Bool-cases (r.tick_fails claim)) [
      | inl y ↦ cc (rw (b, y) at h)
      | inr c ↦ elim (tx-cases (fire_all r (claim_due r db) db)) [
        | inl (x, e) ↦ cc (rw (b, c, e) at h)
        | inr (d, e) ↦ elim (Bool-cases (r.tick_fails commit)) [
          | inl y ↦ cc (rw (b, c, e, y) at h)
          | inr k ↦ e ∙ (rw (b, c, e, k) at h)
        ]
      ]
    ]
  ]

  pub tick_once-fires :
      (db : Db)
      → ((tick_once r db).0 ≡ db)
        ⊎ ((db' : Db) × (fire_all r (claim_due r db) db ≡ ok db') × ((tick_once r db).0 ≡ db'))
  unfolding tick_once
  tick_once-fires db = elim (tx-cases (tick_tx r db)) [
    | inl (c, e) ↦ inl (rw e refl)
    | inr (d, e) ↦ inr (d, tick_tx-fires db d e, rw e refl)
  ]

  -- A tick either returns a call that failed, its own or one for a task that it claimed, and leaves
  -- the tables as they were; or it returns no error and has added at most as many runs as the claim's
  -- limit, and nothing at all if no task was due.
  pub tick_once-Ends :
      (db : Db)
      → ((c : Call) × (tick_once r db ≡ (db, some c))
          × ((r.tick_fails c ≡ true) ⊎ AnyOf (FailedFor r c) (claim_due r db)))
        ⊎ ((db' : Db) × (tick_once r db ≡ (db', none))
            × (length db'.runs ≤ length db.runs + r.claim_limit)
            × (claim_due r db ≡ [] → db' ≡ db))
  unfolding tick_once
  tick_once-Ends db = elim (tx-cases (tick_tx r db)) [
    | inl (c, e) ↦ inl (c, rw e refl, tick_tx-failed r c db e)
    | inr (d, e) ↦
        let f = tick_tx-fires db d e in
        inr (
          d,
          rw e refl,
          omega (arith, fire_all-length (claim_due r db) db d f, claim_due-length db),
          λ no_task. none_due-same (claim_due r db) db d no_task f,
        )
  ]
