-- ===== src/Schedule/Tick/Firing.antt =====
-- What firing one task records.
use garrison.Common.{
  ℕ, ◌+◌, ◌≡◌, refl, ap, ◌⊎◌, inl, inr, true, false, Option, none, some, ◌∷◌, map, str_eq, Result,
  ok, err, arith, Bool-cases, Option-cases,
}
use garrison.Throttle.Gate.{DeptWeekly, DeptWeeklyDecision, check_dept_weekly}
use garrison.Schedule.Expr.{Expr, ParseError, parse}
use garrison.Schedule.Slots.{next}
use garrison.Schedule.Tasks.{
  Task, Outcome, fired, skipped_overlap, gate_deferred, run_failed, budget_exceeded, dept_weekly,
  overlap, advance, TaskRun, Ticket, OneshotDue, Deferral, Db, Call, Run, mode_oneshot, overlaps,
  overlap_detail, run_of, render,
}
use garrison.Schedule.Tick.{
  defer_ticket, insert_scheduled_ticket, fire_by_gate, fire_ticket_mode, fire_oneshot_mode,
  skip_overlap, fire_slot, advanced, fire_parsed, fire_claimed_task,
}

-- Tickets, events and deferrals are as before.
abbrev pub Quiet : Db → Db → Type 0
Quiet db db' =
    (db'.tickets ≡ db.tickets)
    × (db'.outbox ≡ db.outbox)
    × (db'.notified ≡ db.notified)
    × (db'.deferrals ≡ db.deferrals)

-- One ticket more, which the run points to.
abbrev pub AddsTicket : Db → Db → TaskRun → Type 0
AddsTicket db db' run =
    ((t : Ticket) × (db'.tickets ≡ t ∷ db.tickets) × (run.ticket_id ≡ some t.id))
    × (db'.outbox ≡ db.outbox)
    × (db'.notified ≡ db.notified)
    × (db'.deferrals ≡ db.deferrals)

-- One event of the run more in the outbox, which is also notified.
abbrev pub AddsOneshot : Db → Db → TaskRun → Type 0
AddsOneshot db db' run =
    ((e : OneshotDue) × (db'.outbox ≡ e ∷ db.outbox)
      × (db'.notified ≡ e ∷ db.notified)
      × (e.scheduled_task_run_id ≡ run.id))
    × (db'.tickets ≡ db.tickets)
    × (db'.deferrals ≡ db.deferrals)

-- One deferral for the task more, with the decision of the gate.
abbrev pub AddsDeferral : Task → DeptWeekly → Db → Db → Type 0
AddsDeferral t s db db' =
    ((d : Deferral) × (db'.deferrals ≡ d ∷ db.deferrals)
      × (d.attempted_caller_id ≡ t.id)
      × (d.decision ≡ check_dept_weekly s))
    × (db'.tickets ≡ db.tickets)
    × (db'.outbox ≡ db.outbox)
    × (db'.notified ≡ db.notified)

-- What an outcome says of the tables before and after.
abbrev pub Explains : Run → Task → Db → Db → TaskRun → Outcome → Type 0
Explains r t db db' run run_failed = ⊥
Explains r t db db' run skipped_overlap = (overlaps r db t ≡ true) × Quiet db db'
Explains r t db db' run gate_deferred =
    (overlaps r db t ≡ false)
    × (str_eq t.mode mode_oneshot ≡ false)
    × ((s : DeptWeekly) × (r.weekly db.tickets t.department_id ≡ some s)
        × ((check_dept_weekly s).allowed ≡ false)
        × AddsDeferral t s db db')
Explains r t db db' run fired =
    (overlaps r db t ≡ false)
    × (((str_eq t.mode mode_oneshot ≡ true) × AddsOneshot db db' run)
        ⊎ ((str_eq t.mode mode_oneshot ≡ false)
            × ((s : DeptWeekly) × (r.weekly db.tickets t.department_id ≡ some s)
                × ((check_dept_weekly s).allowed ≡ true)
                × AddsTicket db db' run)))

-- One run more, for the slot of the task.
abbrev pub Records : Run → Task → Db → Db → Outcome → Type 0
Records r t db db' o =
    (run : TaskRun) × (db'.runs ≡ run ∷ db.runs)
    × (run.scheduled_task_id ≡ t.id)
    × (run.slot_at ≡ t.next_fire_at)
    × (run.outcome ≡ o)
    × Explains r t db db' run o

module _ (r : Run) (t : Task) (db : Db) where
  -- The tables with one run more.
  abbrev with_run : Outcome → TaskRun → Db
  with_run o run = record db { runs = run ∷ db.runs; next_id = db.next_id + 1 }

  abbrev skipped : TaskRun
  skipped = run_of db.next_id t skipped_overlap (some (overlap_detail t.mode)) none

  skip_overlap-ok :
      (db' : Db) (o : Outcome)
      → skip_overlap r t db ≡ ok (db', o)
      → (db' ≡ with_run skipped_overlap skipped) × (o ≡ skipped_overlap)
  unfolding skip_overlap
  skip_overlap-ok db' o h = ground arith

  abbrev started : TaskRun
  started = run_of db.next_id t fired none none

  abbrev due : OneshotDue
  due = record {
    event_id = db.next_id + 1;
    scheduled_task_run_id = db.next_id;
    role_slug = t.role_slug;
    department_id = t.department_id;
  }

  fire_oneshot_mode-ok :
      (db' : Db) (o : Outcome)
      → fire_oneshot_mode r t db ≡ ok (db', o)
      → (db' ≡ record (with_run fired started) {
        outbox = due ∷ db.outbox;
        notified = due ∷ db.notified;
        next_id = db.next_id + 1 + 1;
      })
        × (o ≡ fired)
  unfolding fire_oneshot_mode
  fire_oneshot_mode-ok db' o h = ground arith

  abbrev ticket : Ticket
  ticket = record {
    id = db.next_id;
    department_id = t.department_id;
    objective = render r t.objective_template (r.clock t.id) t.last_fired_at;
    acceptance_criteria = render r t.acceptance_criteria_template (r.clock t.id) t.last_fired_at;
    role_slug = t.role_slug;
    is_done = false;
  }

  insert_scheduled_ticket-ok :
      (db' : Db) (o : Outcome)
      → insert_scheduled_ticket r t db ≡ ok (db', o)
      → (db' ≡ record db {
        runs = run_of (db.next_id + 1) t fired none (some db.next_id) ∷ db.runs;
        tickets = ticket ∷ db.tickets;
        next_id = db.next_id + 1 + 1;
      })
        × (o ≡ fired)
  unfolding insert_scheduled_ticket
  insert_scheduled_ticket-ok db' o h = ground arith

  abbrev put_off : DeptWeeklyDecision → TaskRun
  put_off s = run_of db.next_id t gate_deferred (some (budget_exceeded s)) none

  abbrev deferral : DeptWeeklyDecision → ℕ → Deferral
  deferral s company = record {
    company_id = company;
    decision = s;
    department_id = t.department_id;
    attempted_caller_id = t.id;
  }

  defer_ticket-ok :
      (s : DeptWeeklyDecision) (db' : Db) (o : Outcome)
      → defer_ticket r t s db ≡ ok (db', o)
      → (company : ℕ) × (db' ≡ record (with_run gate_deferred (put_off s)) {
        deferrals = deferral s company ∷ db.deferrals;
      })
        × (o ≡ gate_deferred)
  unfolding defer_ticket
  defer_ticket-ok s db' o h = elim (Option-cases (r.company_of t.department_id)) [
    | inl n ↦ ground arith
    | inr (company, e) ↦ (company, ground arith, ground arith)
  ]

  fire_by_gate-Records :
      (g : Option DeptWeekly) (db' : Db) (o : Outcome)
      → overlaps r db t ≡ false
      → str_eq t.mode mode_oneshot ≡ false
      → r.weekly db.tickets t.department_id ≡ g
      → fire_by_gate r t db g ≡ ok (db', o)
      → (db'.tasks ≡ db.tasks) × Records r t db db' o
  unfolding fire_by_gate
  fire_by_gate-Records none db' o v m w h = cc
  fire_by_gate-Records (some s) db' o v m w h = elim (Bool-cases ((check_dept_weekly s).allowed)) [
    | inl y ↦
        let (d, e) = insert_scheduled_ticket-ok db' o (rw y at h) in
        rw (d, e)
          (
            refl,
            (
              run_of (db.next_id + 1) t fired none (some db.next_id),
              refl,
              refl,
              refl,
              refl,
              (v, inr (m, (s, w, y, ((ticket, refl, refl), refl, refl, refl)))),
            ),
          )
    | inr n ↦
        let rejected = record (check_dept_weekly s) { allowed = false } in
        let (company, d, e) = defer_ticket-ok rejected db' o (rw n at h) in
        rw (d, e)
          (
            refl,
            (
              put_off rejected,
              refl,
              refl,
              refl,
              refl,
              (
                v,
                m,
                (s, w, n, ((deferral rejected company, refl, refl, rw n refl), refl, refl, refl)),
              ),
            ),
          )
  ]

  fire_ticket_mode-Records :
      (db' : Db) (o : Outcome)
      → overlaps r db t ≡ false
      → str_eq t.mode mode_oneshot ≡ false
      → fire_ticket_mode r t db ≡ ok (db', o)
      → (db'.tasks ≡ db.tasks) × Records r t db db' o
  unfolding fire_ticket_mode
  fire_ticket_mode-Records db' o v m h = elim (Bool-cases (r.fails t.id dept_weekly)) [
    | inl y ↦ cc (rw y at h)
    | inr n ↦ fire_by_gate-Records (r.weekly db.tickets t.department_id) db' o v m refl (rw n at h)
  ]

  fire_slot-Records :
      (db' : Db) (o : Outcome)
      → fire_slot r t db ≡ ok (db', o)
      → (db'.tasks ≡ db.tasks) × Records r t db db' o
  unfolding fire_slot
  fire_slot-Records db' o h = elim (Bool-cases (r.fails t.id overlap)) [
    | inl y ↦ cc (rw y at h)
    | inr n ↦
        let k = rw n at h in
        elim (Bool-cases (overlaps r db t)) [
          | inl v ↦
              let (d, e) = skip_overlap-ok db' o (rw v at k) in
              rw (d, e) (refl, (skipped, refl, refl, refl, refl, (v, (refl, refl, refl, refl))))
          | inr v ↦ elim (Bool-cases (str_eq t.mode mode_oneshot)) [
            | inl m ↦
                let (d, e) = fire_oneshot_mode-ok db' o (rw (v, m) at k) in
                rw (d, e)
                  (
                    refl,
                    (
                      started,
                      refl,
                      refl,
                      refl,
                      refl,
                      (v, inl (m, ((due, refl, refl, refl), refl, refl))),
                    ),
                  )
            | inr m ↦ fire_ticket_mode-Records db' o v m (rw (v, m) at k)
          ]
        ]
  ]

  -- What firing a task leaves: nothing changed if its expression does not parse, or one run for its
  -- slot, and the task moved on.
  abbrev pub Fires : Db → Option Outcome → Type 0
  Fires db' none = ((e : ParseError) × (parse t.schedule_expr ≡ err e)) × (db' ≡ db)
  Fires db' (some o) =
      (e : Expr) × (parse t.schedule_expr ≡ ok e)
      × (db'.tasks ≡ map (advanced (next e (r.clock t.id)) (r.clock t.id) o t.id) db.tasks)
      × Records r t db db' o

  slot-cases :
      (x : Result Call (Db × Outcome))
      → ((c : Call) × (x ≡ err c)) ⊎ ((d : Db) × (o : Outcome) × (x ≡ ok (d, o)))
  slot-cases (err c) = inl (c, refl)
  slot-cases (ok (d, o)) = inr (d, o, refl)

  fire_parsed-Fires :
      (p : Result ParseError Expr) (db' : Db) (o : Option Outcome)
      → parse t.schedule_expr ≡ p
      → fire_parsed r t db p ≡ ok (db', o)
      → Fires db' o
  unfolding fire_parsed
  fire_parsed-Fires (err x) db' o e h =
      let (d, same) : (db' ≡ db) × (o ≡ none) = ground arith in rw (d, same) ((x, e), refl)
  fire_parsed-Fires (ok x) db' o e h = elim (slot-cases (fire_slot r t db)) [
    | inl (c, y) ↦ cc (rw y at h)
    | inr (d, out, y) ↦ elim (Bool-cases (r.fails t.id advance)) [
      | inl f ↦ cc (rw (y, f) at h)
      | inr f ↦
          let k = rw (y, f) at h in
          let (tasks, rec) = fire_slot-Records d out y in
          let (same, so) : (db' ≡ record d {
            tasks = map (advanced (next x (r.clock t.id)) (r.clock t.id) out t.id) d.tasks;
          })
              × (o ≡ some out) =
            ground arith in
          rw (same, so)
            (x, e, ap (map (advanced (next x (r.clock t.id)) (r.clock t.id) out t.id)) tasks, rec)
    ]
  ]

  -- A claimed task is fired in one of these ways, or a call fails. If its expression does not parse,
  -- nothing changes. Otherwise there is one run record more, for the slot that was claimed, and the
  -- task moves to its next slot after now. The record says `skipped_overlap`, and nothing was
  -- created, exactly if a former firing overlaps; else it says `fired`, with one event in the outbox
  -- that is also notified, for a oneshot; for a ticket it says `fired`, with one ticket that the record
  -- points to, if the gate allows it, and `gate_deferred`, with one deferral that carries the gate's
  -- decision, if the gate rejects it.
  pub fire_claimed_task-Fires :
      (db' : Db) (o : Option Outcome) → fire_claimed_task r t db ≡ ok (db', o) → Fires db' o
  unfolding fire_claimed_task
  fire_claimed_task-Fires db' o h = fire_parsed-Fires (parse t.schedule_expr) db' o refl h
