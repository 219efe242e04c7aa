-- ===== src/Schedule/Validate.antt =====
-- supervisor/internal/schedule/validate.go, with the three queries that it reads: the live tasks by
-- name, the departments, and the active agents of a department. A query answers a row, no row, or an
-- error. The texts of the messages are left out.
pub mod Accepts
use garrison.Common.{
  ℕ, String, Bool, true, false, not, ◌&&◌, ◌||◌, List, [], ◌∷◌, Result, ok, err, ◌>>=◌, ◌>>◌,
  reject, ltb, ◌==◌, str_eq, if◌then◌else◌,
}
use garrison.Schedule.Expr.{Expr, ParseError, parse}
use garrison.Schedule.Slots.{next, min_interval}

pub record ValidationInput : Type 0 where
  pub name : String
  pub role_slug : String
  pub schedule_expr : List ℕ
  pub objective_template : List ℕ
  pub acceptance_template : List ℕ
  pub department_id : ℕ
  pub mode : String

-- A rejection by its field and what is wrong with it.
pub data ValidationError : Type 0 where
  unknown_mode name_exists role_missing : String → ValidationError
  empty_objective empty_acceptance not_future_dated department_missing : ValidationError
  bad_expr : ParseError → ValidationError
  interval_below : ℕ → ℕ → ValidationError

pub data Query : Type 0 where
  select_scheduled_task_by_name get_department_by_id get_agent_by_department_and_role : Query

-- An error of ValidateTask: a `*ValidationError`, or a failure of the database.
pub data TaskError : Type 0 where
  rejected : ValidationError → TaskError
  database_failed : Query → TaskError

pub data Answer : Type 0 where
  found no_rows failed : Answer

pub record TaskRow : Type 0 where
  pub name : String
  pub deleted : Bool

pub record AgentRow : Type 0 where
  pub department_id : ℕ
  pub role_slug : String
  pub active : Bool

pub record Tables : Type 0 where
  pub tasks : List TaskRow
  pub departments : List ℕ
  pub agents : List AgentRow

abbrev pub is_live_name : String → List TaskRow → Bool
is_live_name name [] = false
is_live_name name (t ∷ tasks) = (str_eq t.name name && not t.deleted) || is_live_name name tasks

abbrev pub is_department : ℕ → List ℕ → Bool
is_department d [] = false
is_department d (x ∷ departments) = x == d || is_department d departments

abbrev pub is_active_role : ℕ → String → List AgentRow → Bool
is_active_role d role [] = false
is_active_role d role (a ∷ agents) =
    (a.department_id == d && str_eq a.role_slug role && a.active) || is_active_role d role agents

abbrev pub answer : (Query → Bool) → Query → Bool → Answer
answer fails q exists = if fails q then failed else if exists then found else no_rows

abbrev pub is_empty : List ℕ → Bool
is_empty [] = true
is_empty (c ∷ s) = false

pub future_dated : ℕ → ℕ → Result TaskError ℕ
future_dated now slot = if ltb now slot then ok slot else err (rejected not_future_dated)

first_slot : ℕ → ℕ → Expr → Result TaskError ℕ
unfolding future_dated
first_slot least now expr = do
  reject (ltb (min_interval expr) least) (rejected (interval_below (min_interval expr) least))
  future_dated now (next expr now)

parse_expr : List ℕ → Result ParseError Expr → Result TaskError Expr
parse_expr s (ok expr) = ok expr
parse_expr s (err e) = err (rejected (bad_expr e))

validate_task_shape : ℕ → ℕ → ValidationInput → Result TaskError ℕ
unfolding first_slot parse_expr
validate_task_shape least now i = do
  reject (not (str_eq i.mode "ticket") && not (str_eq i.mode "oneshot"))
      (rejected (unknown_mode i.mode))
  reject (is_empty i.objective_template) (rejected empty_objective)
  reject (is_empty i.acceptance_template) (rejected empty_acceptance)
  expr ← parse_expr i.schedule_expr (parse i.schedule_expr)
  first_slot least now expr

-- The row must not be there.
absent : Query → ValidationError → Answer → Result TaskError Unit
absent q e found = err (rejected e)
absent q e no_rows = ok tt
absent q e failed = err (database_failed q)

-- The row must be there.
present : Query → ValidationError → Answer → Result TaskError Unit
present q e found = ok tt
present q e no_rows = err (rejected e)
present q e failed = err (database_failed q)

validate_task_references : (Query → Bool) → Tables → ValidationInput → Result TaskError Unit
unfolding absent present
validate_task_references fails t i = do
  absent select_scheduled_task_by_name (name_exists i.name)
      (answer fails select_scheduled_task_by_name (is_live_name i.name t.tasks))
  present get_department_by_id department_missing
      (answer fails get_department_by_id (is_department i.department_id t.departments))
  present get_agent_by_department_and_role (role_missing i.role_slug) (
      answer fails get_agent_by_department_and_role
        (is_active_role i.department_id i.role_slug t.agents))

-- The least interval and `now`, in nanoseconds.
unfoldable pub validate_task :
    (Query → Bool) → Tables → ℕ → ℕ → ValidationInput → Result TaskError ℕ
unfolding validate_task_shape validate_task_references
validate_task fails t least now i = do
  slot ← validate_task_shape least now i
  validate_task_references fails t i
  ok slot
