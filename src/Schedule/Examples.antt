-- ===== src/Schedule/Examples.antt =====
-- Runs of the schedule package, and its theorems at concrete inputs.
use garrison.Common.Bytes.{codes}
use garrison.Common.{
  Bool, true, false, none, some, [], ◌∷◌, ◌⊎◌, length, ℕ, ◌+◌, ◌*◌, ◌≤◌, ◌≡◌, refl, ◌↔◌, arith, ok,
  err,
}
use garrison.Schedule.Expr.{parse, hour_out_of_range, day_ns}
use garrison.Schedule.Expr.Correct.{parse_iff, parse-IsValid}
use garrison.Schedule.Grammar.{Denotes, every_ns, weekly_at}
use garrison.Schedule.Validate.{ValidationInput, Query, Tables, validate_task}
use garrison.Schedule.Validate.Accepts.{HasShape, HasReferences, validate_task_iff}
use garrison.Schedule.Tasks.{Task, fired, Db, Call, Run, claim_due}
use garrison.Schedule.Tick.{fire_claimed_task, tick_once}
use garrison.Schedule.Tick.Firing.{Fires, fire_claimed_task-Fires}
use garrison.Schedule.Tick.Slots.{Inv, ticks, ticks-Inv}
use garrison.Schedule.Tick.Failures.{AnyOf, FailedFor}
use garrison.Schedule.Tick.Bounds.{tick_once-Ends}
use garrison.Schedule.Slots.{next, min_interval, IsValid, DueAfter}
use garrison.Schedule.Slots.First.{next-least}

weekly_parses : parse (codes "weekly@fri@09:30") ≡ ok (weekly_at 5 9 30)
unfolding parse
weekly_parses = refl

every_parses : parse (codes "every@90m") ≡ ok (every_ns 5400000000000)
unfolding parse
every_parses = refl

late_hour_refused :
    parse (codes "daily@24:00")
    ≡ err (record { input = codes "daily@24:00"; msg = hour_out_of_range 24 })
unfolding parse
late_hour_refused = refl

parse_iff_example :
    (parse (codes "every@90m") ≡ ok (every_ns 5400000000000))
    ↔ Denotes (codes "every@90m") (every_ns 5400000000000)
parse_iff_example = parse_iff (codes "every@90m") (every_ns 5400000000000)

parse-IsValid_example : IsValid (weekly_at 5 9 30)
parse-IsValid_example = parse-IsValid (codes "weekly@fri@09:30") (weekly_at 5 9 30) weekly_parses

-- 1970-01-02, a Friday, at 09:30: the next such slot is a week later.
abbrev friday : ℕ
friday = day_ns + 34200000000000

friday-next : next (weekly_at 5 9 30) friday ≡ friday + 7 * day_ns
unfolding next
friday-next = refl

next-least_example :
    DueAfter (weekly_at 5 9 30) friday (next (weekly_at 5 9 30) friday)
    × ((s : ℕ) → DueAfter (weekly_at 5 9 30) friday s → next (weekly_at 5 9 30) friday ≤ s)
next-least_example = next-least (weekly_at 5 9 30) friday (omega arith)

-- A oneshot task every hour, of which the slot 7 is due.
abbrev hourly : Task
hourly = record {
  id = 1;
  department_id = 2;
  role_slug = "ops";
  mode = "oneshot";
  schedule_expr = codes "every@1h";
  next_fire_at = 7;
  objective_template = [];
  acceptance_criteria_template = [];
  paused = false;
  deleted = false;
  last_fired_at = none;
}

abbrev tables : Db
tables = record {
  tasks = hourly ∷ [];
  runs = [];
  tickets = [];
  outbox = [];
  notified = [];
  deferrals = [];
  next_id = 10;
}

abbrev clear : Run
clear = record {
  fails = λ t c. false;
  tick_fails = λ c. false;
  db_now = 8;
  clock = λ t. 9;
  claim_limit = 20;
  locked = λ i. false;
  is_running = λ i. false;
  weekly = λ ts d. none;
  company_of = λ d. none;
  rfc3339 = λ t. [];
}

abbrev hourly_fired : Db
hourly_fired = elim (fire_claimed_task clear hourly tables) [ ok (d, o) ↦ d | err c ↦ tables ]

hourly_runs : fire_claimed_task clear hourly tables ≡ ok (hourly_fired, some fired)
unfolding fire_claimed_task parse next
hourly_runs = refl

fire_claimed_task-Fires_example : Fires clear hourly tables hourly_fired (some fired)
fire_claimed_task-Fires_example =
    fire_claimed_task-Fires clear hourly tables hourly_fired (some fired) hourly_runs

tick_moves : (tick_once clear tables).0 ≡ hourly_fired
unfolding tick_once claim_due fire_claimed_task parse next
tick_moves = refl

tick_once-Ends_example :
    ((c : Call) × (tick_once clear tables ≡ (tables, some c))
      × ((clear.tick_fails c ≡ true) ⊎ AnyOf (FailedFor clear c) (claim_due clear tables)))
    ⊎ ((db' : Db) × (tick_once clear tables ≡ (db', none))
        × (length db'.runs ≤ length tables.runs + 20)
        × (claim_due clear tables ≡ [] → db' ≡ tables))
tick_once-Ends_example = tick_once-Ends clear tables

ticks-Inv_example : Inv (ticks (clear ∷ clear ∷ []) tables)
ticks-Inv_example =
    ticks-Inv (clear ∷ clear ∷ []) tables ((λ i. omega arith), ((λ i. omega arith), tt))
      ((tt, tt), tt, (tt, tt))

-- A report every Friday, for which everything is there.
abbrev weekly_report : ValidationInput
weekly_report = record {
  name = "report";
  role_slug = "writer";
  schedule_expr = codes "weekly@fri@09:30";
  objective_template = codes "o";
  acceptance_template = codes "a";
  department_id = 3;
  mode = "ticket";
}

-- The name of a task that was deleted may be used again.
abbrev report_tables : Tables
report_tables = record {
  tasks = record { name = "report"; deleted = true } ∷ [];
  departments = 3 ∷ [];
  agents = record { department_id = 3; role_slug = "writer"; active = true } ∷ [];
}

abbrev answers : Query → Bool
answers q = false

validate_task_iff_example :
    (validate_task answers report_tables day_ns friday weekly_report ≡ ok (friday + 7 * day_ns)) ↔ (
      HasShape day_ns friday weekly_report (friday + 7 * day_ns)
      × HasReferences report_tables weekly_report)
validate_task_iff_example =
    validate_task_iff answers report_tables day_ns friday weekly_report (friday + 7 * day_ns)
      (λ q. refl)

weekly_report_accepted :
    validate_task answers report_tables day_ns friday weekly_report ≡ ok (friday + 7 * day_ns)
unfolding validate_task parse next min_interval
weekly_report_accepted = refl
