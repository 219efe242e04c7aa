-- ===== src/Schedule/Tick.antt =====
-- supervisor/internal/schedule/tick.go and fire.go: one tick, which claims the tasks that are due and
-- fires each in one transaction.
pub mod Firing
pub mod Failures
pub mod Bounds
pub mod Slots
use garrison.Common.{
  ℕ, zero, suc, ◌+◌, String, Bool, true, false, not, ◌&&◌, ◌||◌, Option, none, some, List, [], ◌∷◌,
  ◌++◌, map, leb, ltb, ◌==◌, str_eq, if◌then◌else◌, take, Result, ok, err, ◌>>=◌, ◌>>◌,
}
use garrison.Throttle.Gate.{DeptWeekly, DeptWeeklyDecision, check_dept_weekly}
use garrison.Schedule.Expr.{Expr, ParseError, parse}
use garrison.Schedule.Slots.{next}
use garrison.Schedule.Tasks.{
  Task, Outcome, fired, skipped_overlap, gate_deferred, Detail, budget_exceeded, TaskRun, Ticket,
  OneshotDue, Deferral, Db, Call, begin, claim, overlap, insert_run, dept_weekly, get_department,
  fire_dept_weekly, insert_ticket, insert_outbox, notify_due, advance, commit, Run, Tx, exec,
  mode_oneshot, claim_due, overlaps, overlap_detail, run_of, insert_run_row, render,
}

-- `fireTicketMode` on a reject of the gate.
defer_ticket : Run → Task → DeptWeeklyDecision → Db → Tx (Db × Outcome)
defer_ticket r t decision db = do
  written ← insert_run_row r t gate_deferred (some (budget_exceeded decision)) none db
  company ← exec r t get_department (r.company_of t.department_id)
  company_id ← elim company [ none ↦ err get_department | some c ↦ ok c ]
  audited ← exec r t fire_dept_weekly (record written {
    deferrals =
        (record {
          company_id = company_id;
          decision = decision;
          department_id = t.department_id;
          attempted_caller_id = t.id;
        })
        ∷ written.deferrals;
  })
  ok (audited, gate_deferred)

-- `fireTicketMode` on a pass of the gate: the ticket, then the run that points to it.
insert_scheduled_ticket : Run → Task → Db → Tx (Db × Outcome)
unfolding render
insert_scheduled_ticket r t db =
    let now = r.clock t.id in
    let ticket : Ticket = record {
      id = db.next_id;
      department_id = t.department_id;
      objective = render r t.objective_template now t.last_fired_at;
      acceptance_criteria = render r t.acceptance_criteria_template now t.last_fired_at;
      role_slug = t.role_slug;
      is_done = false;
    } in
    do
      ticketed ←
          exec r t insert_ticket
            (record db { tickets = ticket ∷ db.tickets; next_id = db.next_id + 1 })
      written ← insert_run_row r t fired none (some ticket.id) ticketed
      ok (written, fired)

fire_by_gate : Run → Task → Db → Option DeptWeekly → Tx (Db × Outcome)
unfolding check_dept_weekly defer_ticket insert_scheduled_ticket
fire_by_gate r t db none = err dept_weekly
fire_by_gate r t db (some state) =
    let decision = check_dept_weekly state in
    if decision.allowed then insert_scheduled_ticket r t db else defer_ticket r t decision db

fire_ticket_mode : Run → Task → Db → Tx (Db × Outcome)
unfolding fire_by_gate
fire_ticket_mode r t db = do
  state ← exec r t dept_weekly (r.weekly db.tickets t.department_id)
  fire_by_gate r t db state

-- `fireOneshotMode`: the run, the row of the outbox, and the notification.
fire_oneshot_mode : Run → Task → Db → Tx (Db × Outcome)
fire_oneshot_mode r t db =
    let due : OneshotDue = record {
      event_id = db.next_id + 1;
      scheduled_task_run_id = db.next_id;
      role_slug = t.role_slug;
      department_id = t.department_id;
    } in
    do
      written ← insert_run_row r t fired none none db
      posted ←
          exec r t insert_outbox
            (record written { outbox = due ∷ written.outbox; next_id = written.next_id + 1 })
      told ← exec r t notify_due (record posted { notified = due ∷ posted.notified })
      ok (told, fired)

skip_overlap : Run → Task → Db → Tx (Db × Outcome)
unfolding overlap_detail
skip_overlap r t db = do
  written ← insert_run_row r t skipped_overlap (some (overlap_detail t.mode)) none db
  ok (written, skipped_overlap)

fire_slot : Run → Task → Db → Tx (Db × Outcome)
unfolding skip_overlap fire_oneshot_mode fire_ticket_mode overlaps
fire_slot r t db = do
  overlapping ← exec r t overlap (overlaps r db t)
  (if overlapping
      then skip_overlap r t db
      else if str_eq t.mode mode_oneshot
      then fire_oneshot_mode r t db
      else fire_ticket_mode r t db)

-- AdvanceScheduledTask
abbrev pub is_fired : Outcome → Bool
is_fired fired = true
is_fired _ = false

abbrev pub advanced : ℕ → ℕ → Outcome → ℕ → Task → Task
advanced next_fire_at now outcome i u =
    if u.id == i
    then record u {
      next_fire_at = next_fire_at;
      last_fired_at = if is_fired outcome then some now else u.last_fired_at;
    }
    else u

-- `fireClaimedTask`; an expression that does not parse fires nothing, and has no outcome.
fire_parsed : Run → Task → Db → Result ParseError Expr → Tx (Db × Option Outcome)
unfolding fire_slot
fire_parsed r t db (err e) = ok (db, none)
fire_parsed r t db (ok e) = do
  (written, outcome) ← fire_slot r t db
  moved ← exec r t advance (record written {
    tasks = map (advanced (next e (r.clock t.id)) (r.clock t.id) outcome t.id) written.tasks;
  })
  ok (moved, some outcome)

unfoldable pub fire_claimed_task : Run → Task → Db → Tx (Db × Option Outcome)
unfolding fire_parsed
fire_claimed_task r t db = fire_parsed r t db (parse t.schedule_expr)

pub fire_all : Run → List Task → Db → Tx Db
unfolding fire_claimed_task
fire_all r [] db = ok db
fire_all r (t ∷ ts) db = do (fired_db, outcome) ← fire_claimed_task r t db; fire_all r ts fired_db

-- The calls of the tick that are not for a task.
abbrev called : {A : Type 0} → Run → Call → A → Tx A
called r c a = if r.tick_fails c then err c else ok a

pub tick_tx : Run → Db → Tx Db
unfolding claim_due fire_all
tick_tx r db = do
  begun ← called r begin db
  tasks ← called r claim (claim_due r begun)
  fired_db ← fire_all r tasks begun
  called r commit fired_db

-- `tickOnce`: the tables that it leaves, and its error; a failure rolls everything back.
abbrev settle : Db → Tx Db → Db × Option Call
settle db (ok new) = (new, none)
settle db (err c) = (db, some c)

unfoldable pub tick_once : Run → Db → Db × Option Call
unfolding tick_tx
tick_once r db = settle db (tick_tx r db)
