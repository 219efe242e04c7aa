-- ===== src/Schedule/Tasks.antt =====
-- The tables of supervisor/internal/schedule, the queries of store/m9_schedule.sql.go on them, and
-- schedule/template.go. What a tick meets outside the tables is its
-- `Run`: which calls fail, for which task; the clocks of the database and of the supervisor; the
-- rows that others lock; the instances that run; the count of a department's tickets; and the
-- layout of instants. The reason that a run records is data.
pub mod Claim
use garrison.Common.{
  ℕ, ◌+◌, String, Bool, true, false, not, ◌&&◌, ◌||◌, Option, none, some, List, [], ◌∷◌, leb, ◌==◌,
  str_eq, if◌then◌else◌, take, Result, ok, err,
}
use garrison.Common.Bytes.{codes}
use garrison.Common.Replace.{replace_all}
use garrison.Throttle.Gate.{DeptWeekly, DeptWeeklyDecision}

pub record Task : Type 0 where
  pub id : ℕ
  pub department_id : ℕ
  pub role_slug : String
  pub mode : String
  pub schedule_expr : List ℕ
  pub next_fire_at : ℕ
  pub objective_template : List ℕ
  pub acceptance_criteria_template : List ℕ
  pub paused : Bool
  pub deleted : Bool
  pub last_fired_at : Option ℕ

pub data Outcome : Type 0 where
  fired skipped_overlap gate_deferred run_failed : Outcome

pub data Detail : Type 0 where
  oneshot_in_flight ticket_still_open : Detail
  budget_exceeded : DeptWeeklyDecision → Detail

pub record TaskRun : Type 0 where
  pub id : ℕ
  pub scheduled_task_id : ℕ
  pub slot_at : ℕ
  pub outcome : Outcome
  pub detail : Option Detail
  pub ticket_id : Option ℕ
  pub agent_instance_id : Option ℕ

pub record Ticket : Type 0 where
  pub id : ℕ
  pub department_id : ℕ
  pub objective : List ℕ
  pub acceptance_criteria : List ℕ
  pub role_slug : String
  pub is_done : Bool

-- The event of a oneshot that is due, and the event of a department that is over its budget.
pub record OneshotDue : Type 0 where
  pub event_id : ℕ
  pub scheduled_task_run_id : ℕ
  pub role_slug : String
  pub department_id : ℕ

pub record Deferral : Type 0 where
  pub company_id : ℕ
  pub decision : DeptWeeklyDecision
  pub department_id : ℕ
  pub attempted_caller_id : ℕ

pub record Db : Type 0 where
  pub tasks : List Task
  pub runs : List TaskRun
  pub tickets : List Ticket
  pub outbox : List OneshotDue
  pub notified : List OneshotDue
  pub deferrals : List Deferral
  pub next_id : ℕ

pub data Call : Type 0 where
  begin claim overlap insert_run dept_weekly get_department fire_dept_weekly insert_ticket : Call
  insert_outbox notify_due advance commit : Call

pub record Run : Type 0 where
  pub fails : ℕ → Call → Bool
  pub tick_fails : Call → Bool
  pub db_now : ℕ
  pub clock : ℕ → ℕ
  pub claim_limit : ℕ
  pub locked : ℕ → Bool
  pub is_running : ℕ → Bool
  pub weekly : List Ticket → ℕ → Option DeptWeekly
  pub company_of : ℕ → Option ℕ
  pub rfc3339 : ℕ → List ℕ

abbrev pub Tx : Type 0 → Type 0
Tx A = Result Call A

-- A call for a task; it gives a value and changes the tables.
abbrev pub exec : {A : Type 0} → Run → Task → Call → A → Tx A
exec r t c a = if r.fails t.id c then err c else ok a

abbrev pub mode_oneshot : String
mode_oneshot = "oneshot"

-- ClaimDueScheduledTasks: `ORDER BY next_fire_at`, with the rows that others lock left out.
abbrev pub is_due : Run → Task → Bool
is_due r t = not t.paused && not t.deleted && leb t.next_fire_at r.db_now && not (r.locked t.id)

insert_by_slot : Task → List Task → List Task
insert_by_slot t [] = t ∷ []
insert_by_slot t (u ∷ us) =
    let rest = insert_by_slot t us in
    if leb t.next_fire_at u.next_fire_at then t ∷ u ∷ us else u ∷ rest

due_tasks : Run → List Task → List Task
unfolding insert_by_slot
due_tasks r [] = []
due_tasks r (t ∷ ts) =
    let rest = due_tasks r ts in if is_due r t then insert_by_slot t rest else rest

unfoldable pub claim_due : Run → Db → List Task
unfolding due_tasks
claim_due r db = take r.claim_limit (due_tasks r db.tasks)

-- HasOpenTicketForTask
abbrev ticket_is_open : ℕ → List Ticket → Bool
ticket_is_open i [] = false
ticket_is_open i (t ∷ ts) = (t.id == i && not t.is_done) || ticket_is_open i ts

abbrev anchors_open_ticket : List Ticket → Option ℕ → Bool
anchors_open_ticket ts none = false
anchors_open_ticket ts (some i) = ticket_is_open i ts

has_open_ticket : ℕ → List Ticket → List TaskRun → Bool
has_open_ticket task ts [] = false
has_open_ticket task ts (u ∷ us) =
    (u.scheduled_task_id == task && anchors_open_ticket ts u.ticket_id)
    || has_open_ticket task ts us

-- HasRunningOneshotForTask
abbrev was_started : Outcome → Bool
was_started fired = true
was_started gate_deferred = true
was_started _ = false

abbrev pending_or_running : Run → Option ℕ → Bool
pending_or_running r none = true
pending_or_running r (some i) = r.is_running i

has_running_oneshot : Run → ℕ → List TaskRun → Bool
has_running_oneshot r task [] = false
has_running_oneshot r task (u ∷ us) =
    (u.scheduled_task_id == task
      && was_started u.outcome
      && pending_or_running r u.agent_instance_id)
    || has_running_oneshot r task us

unfoldable pub overlaps : Run → Db → Task → Bool
unfolding has_open_ticket has_running_oneshot
overlaps r db t =
    if str_eq t.mode mode_oneshot
    then has_running_oneshot r t.id db.runs
    else has_open_ticket t.id db.tickets db.runs

unfoldable pub overlap_detail : String → Detail
overlap_detail mode = if str_eq mode mode_oneshot then oneshot_in_flight else ticket_still_open

-- `insertRun`: the record of the slot that was claimed.
abbrev pub run_of : ℕ → Task → Outcome → Option Detail → Option ℕ → TaskRun
run_of i t outcome detail ticket = record {
  id = i;
  scheduled_task_id = t.id;
  slot_at = t.next_fire_at;
  outcome = outcome;
  detail = detail;
  ticket_id = ticket;
  agent_instance_id = none;
}

abbrev pub insert_run_row : Run → Task → Outcome → Option Detail → Option ℕ → Db → Tx Db
insert_run_row r t outcome detail ticket db = exec r t insert_run (record db {
  runs = run_of db.next_id t outcome detail ticket ∷ db.runs;
  next_id = db.next_id + 1;
})

last_text : Run → Option ℕ → List ℕ
last_text r none = codes "never"
last_text r (some t) = r.rfc3339 t

-- `RenderTemplate`
unfoldable pub render : Run → List ℕ → ℕ → Option ℕ → List ℕ
unfolding replace_all last_text
render r tpl fire_at last_fired_at =
    replace_all 0 (replace_all 0 tpl (codes "{{fire_at}}") (r.rfc3339 fire_at))
      (codes "{{last_fired_at}}") (last_text r last_fired_at)
