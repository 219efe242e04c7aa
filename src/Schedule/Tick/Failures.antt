-- ===== src/Schedule/Tick/Failures.antt =====
-- Which call a tick that fails returns.
use garrison.Common.{
  ℕ, ◌≡◌, refl, ap, ◌⊎◌, inl, inr, Bool, true, false, Option, none, some, List, [], ◌∷◌, str_eq,
  Result, ok, err, ◌>>=◌, if◌then◌else◌, if-elim, Bool-cases,
}
use garrison.Throttle.Gate.{DeptWeekly, DeptWeeklyDecision, check_dept_weekly}
use garrison.Schedule.Expr.{Expr, ParseError, parse}
use garrison.Schedule.Tasks.{
  Task, Ticket, Db, Call, begin, claim, overlap, insert_run, dept_weekly, get_department,
  fire_dept_weekly, insert_ticket, insert_outbox, notify_due, advance, commit, Run, Tx, exec,
  mode_oneshot, claim_due,
}
use garrison.Schedule.Tick.{
  defer_ticket, insert_scheduled_ticket, fire_by_gate, fire_ticket_mode, fire_oneshot_mode,
  skip_overlap, fire_slot, fire_parsed, fire_claimed_task, fire_all, tick_tx,
}

-- One of the tasks.
abbrev pub AnyOf : (Task → Type 0) → List Task → Type 0
AnyOf P [] = ⊥
AnyOf P (t ∷ ts) = P t ⊎ AnyOf P ts

bind-err :
    {A B : Type 0} (P : Type 0) (m : Tx A) (k : A → Tx B) (c : Call)
    → (m ≡ err c → P)
    → ((a : A) → k a ≡ err c → P)
    → (m >>= k) ≡ err c
    → P
bind-err P (ok a) k c f g h = g a h
bind-err P (err e) k c f g h = let same : e ≡ c = cc in f (ap err same)

test-err :
    {A : Type 0} (b : Bool) (op c : Call) (a : A)
    → (if b then err op else ok a) ≡ err c
    → (b ≡ true) × (op ≡ c)
test-err true op c a h = (refl, cc)
test-err false op c a h = cc

module _ (r : Run) (c : Call) where
  -- A call for a task failed, or it found no row where there must be one.
  abbrev pub FailedFor : Task → Type 0
  FailedFor t =
      (r.fails t.id c ≡ true)
      ⊎ (((c ≡ get_department) × (r.company_of t.department_id ≡ none))
          ⊎ ((c ≡ dept_weekly)
              × ((tickets : List Ticket) × (r.weekly tickets t.department_id ≡ none))))

  exec-failed : {A : Type 0} (t : Task) (op : Call) (a : A) → exec r t op a ≡ err c → FailedFor t
  exec-failed t op a h = let (y, e) = test-err (r.fails t.id op) op c a h in inl (rw e at y)

  company-failed :
      (t : Task) (o : Option ℕ)
      → r.company_of t.department_id ≡ o
      → elim o [ none ↦ err get_department | some x ↦ ok x ] ≡ err c
      → FailedFor t
  company-failed t none e h = inr (inl (cc, e))
  company-failed t (some x) e h = cc

  read-company :
      {A : Type 0} (t : Task) (k : Option ℕ → Tx A)
      → ((r.company_of t.department_id ≡ r.company_of t.department_id)
          → k (r.company_of t.department_id) ≡ err c
          → FailedFor t)
      → (exec r t get_department (r.company_of t.department_id) >>= k) ≡ err c
      → FailedFor t
  read-company t k f h = elim (Bool-cases (r.fails t.id get_department)) [
    | inl y ↦ let e : get_department ≡ c = cc (rw y at h) in inl (rw e at y)
    | inr n ↦ f refl (rw n at h)
  ]

  defer_ticket-failed :
      (t : Task) (d : DeptWeeklyDecision) (db : Db) → defer_ticket r t d db ≡ err c → FailedFor t
  unfolding defer_ticket
  defer_ticket-failed t d db = bind-err (FailedFor t) _ _ c (exec-failed t insert_run _) (λ w.
      read-company t _ (λ z.
        bind-err (FailedFor t) _ _ c (company-failed t _ refl)
          (λ x. bind-err (FailedFor t) _ _ c (exec-failed t fire_dept_weekly _) (λ a h. cc))))

  insert_scheduled_ticket-failed :
      (t : Task) (db : Db) → insert_scheduled_ticket r t db ≡ err c → FailedFor t
  unfolding insert_scheduled_ticket
  insert_scheduled_ticket-failed t db =
      bind-err (FailedFor t) _ _ c (exec-failed t insert_ticket _)
        (λ w. bind-err (FailedFor t) _ _ c (exec-failed t insert_run _) (λ a h. cc))

  fire_by_gate-failed :
      (t : Task) (db : Db) (g : Option DeptWeekly)
      → r.weekly db.tickets t.department_id ≡ g
      → fire_by_gate r t db g ≡ err c
      → FailedFor t
  unfolding fire_by_gate
  fire_by_gate-failed t db none e h = inr (inr (cc, (db.tickets, e)))
  fire_by_gate-failed t db (some s) e h =
      if-elim (λ x. x ≡ err c → FailedFor t) (check_dept_weekly s).allowed _ _
        (λ y. insert_scheduled_ticket-failed t db) (λ n. defer_ticket-failed t _ db) h

  fire_ticket_mode-failed : (t : Task) (db : Db) → fire_ticket_mode r t db ≡ err c → FailedFor t
  unfolding fire_ticket_mode
  fire_ticket_mode-failed t db h = elim (Bool-cases (r.fails t.id dept_weekly)) [
    | inl y ↦ let e : dept_weekly ≡ c = cc (rw y at h) in inl (rw e at y)
    | inr n ↦ fire_by_gate-failed t db _ refl (rw n at h)
  ]

  fire_oneshot_mode-failed : (t : Task) (db : Db) → fire_oneshot_mode r t db ≡ err c → FailedFor t
  unfolding fire_oneshot_mode
  fire_oneshot_mode-failed t db = bind-err (FailedFor t) _ _ c (exec-failed t insert_run _) (λ w.
      bind-err (FailedFor t) _ _ c (exec-failed t insert_outbox _)
        (λ p. bind-err (FailedFor t) _ _ c (exec-failed t notify_due _) (λ a h. cc)))

  skip_overlap-failed : (t : Task) (db : Db) → skip_overlap r t db ≡ err c → FailedFor t
  unfolding skip_overlap
  skip_overlap-failed t db = bind-err (FailedFor t) _ _ c (exec-failed t insert_run _) (λ a h. cc)

  fire_slot-failed : (t : Task) (db : Db) → fire_slot r t db ≡ err c → FailedFor t
  unfolding fire_slot
  fire_slot-failed t db = bind-err (FailedFor t) _ _ c (exec-failed t overlap _) (λ b.
      if-elim (λ x. x ≡ err c → FailedFor t) b _ _ (λ y. skip_overlap-failed t db)
        (λ n.
          if-elim (λ x. x ≡ err c → FailedFor t) (str_eq t.mode mode_oneshot) _ _
            (λ y. fire_oneshot_mode-failed t db) (λ m. fire_ticket_mode-failed t db)))

  fire_parsed-failed :
      (t : Task) (db : Db) (p : Result ParseError Expr) → fire_parsed r t db p ≡ err c → FailedFor t
  unfolding fire_parsed
  fire_parsed-failed t db (err e) h = cc
  fire_parsed-failed t db (ok e) h =
      bind-err (FailedFor t) _ _ c (fire_slot-failed t db)
        (λ w. bind-err (FailedFor t) _ _ c (exec-failed t advance _) (λ a x. cc)) h

  fire_all-failed : (ts : List Task) (db : Db) → fire_all r ts db ≡ err c → AnyOf FailedFor ts
  unfolding fire_all fire_claimed_task
  fire_all-failed [] db h = cc
  fire_all-failed (t ∷ ts) db g =
      bind-err (FailedFor t ⊎ AnyOf FailedFor ts) _ _ c
        (λ h. inl (fire_parsed-failed t db (parse t.schedule_expr) h))
        (λ w h. inr (fire_all-failed ts w.0 h)) g

  -- A tick returns a call that failed: one of its own, or one for a task that it claimed.
  pub tick_tx-failed :
      (db : Db) → tick_tx r db ≡ err c → (r.tick_fails c ≡ true) ⊎ AnyOf FailedFor (claim_due r db)
  unfolding tick_tx
  tick_tx-failed db h = elim (Bool-cases (r.tick_fails begin)) [
    | inl y ↦ let e : begin ≡ c = cc (rw y at h) in inl (rw e at y)
    | inr b ↦ elim (Bool-cases (r.tick_fails claim)) [
      | inl y ↦ let e : claim ≡ c = cc (rw (b, y) at h) in inl (rw e at y)
      | inr n ↦
          bind-err _ (fire_all r (claim_due r db) db) _ c
            (λ x. inr (fire_all-failed (claim_due r db) db x))
            (λ d x. let (y, e) = test-err (r.tick_fails commit) commit c d x in inl (rw e at y))
            (rw (b, n) at h)
    ]
  ]
