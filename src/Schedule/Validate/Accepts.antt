-- ===== src/Schedule/Validate/Accepts.antt =====
-- What ValidateTask accepts.
use garrison.Common.{
  ℕ, ◌≤◌, ◌≡◌, refl, ◌∙◌, ◌↔◌, ◌⊎◌, inl, inr, Bool, true, false, not, ◌&&◌, List, Result, ok, err,
  bind_iff, then_iff, reject_iff, str_eq, arith,
}
use garrison.Schedule.Expr.{Expr, ParseError, parse}
use garrison.Schedule.Expr.Correct.{parse_iff, parse-IsValid}
use garrison.Schedule.Grammar.{Denotes}
use garrison.Schedule.Slots.{next, min_interval, IsValid, DueAfter}
use garrison.Schedule.Slots.First.{next-least, next-lt}
use garrison.Schedule.Validate.{
  ValidationInput, ValidationError, Query, Tables, answer, is_live_name, is_department,
  is_active_role, is_empty, future_dated, first_slot, parse_expr, validate_task_shape, absent,
  present, validate_task_references, validate_task,
}

-- The text denotes an expression that fires no more often than allowed, and `slot` is the first
-- instant after `now` at which it is due.
pub record HasShape (least now : ℕ) (i : ValidationInput) (slot : ℕ) : Type 0 where
  pub mode : (str_eq i.mode "ticket" ≡ true) ⊎ (str_eq i.mode "oneshot" ≡ true)
  pub objective : is_empty i.objective_template ≡ false
  pub acceptance : is_empty i.acceptance_template ≡ false
  pub expr : Expr
  pub denotes : Denotes i.schedule_expr expr
  pub interval : least ≤ min_interval expr
  pub due : DueAfter expr now slot
  pub first : (s : ℕ) → DueAfter expr now s → slot ≤ s

pub record HasReferences (t : Tables) (i : ValidationInput) : Type 0 where
  pub name : is_live_name i.name t.tasks ≡ false
  pub department : is_department i.department_id t.departments ≡ true
  pub role : is_active_role i.department_id i.role_slug t.agents ≡ true

mode_iff : (a b : Bool) → ((not a && not b) ≡ false) ↔ ((a ≡ true) ⊎ (b ≡ true))
mode_iff true b = ((λ h. inl refl), (λ h. refl))
mode_iff false true = ((λ h. inr refl), (λ h. refl))
mode_iff false false = ((λ h. cc), (λ h. ground arith))

absent_iff :
    (fails : Query → Bool) (q : Query) (e : ValidationError) (b : Bool)
    → (absent q e (answer fails q b) ≡ ok tt) ↔ ((fails q ≡ false) × (b ≡ false))
unfolding absent
absent_iff fails q e b = ground arith

present_iff :
    (fails : Query → Bool) (q : Query) (e : ValidationError) (b : Bool)
    → (present q e (answer fails q b) ≡ ok tt) ↔ ((fails q ≡ false) × (b ≡ true))
unfolding present
present_iff fails q e b = ground arith

parse_expr_iff :
    (s : List ℕ) (r : Result ParseError Expr) (e : Expr) → (parse_expr s r ≡ ok e) ↔ (r ≡ ok e)
unfolding parse_expr
parse_expr_iff s (ok x) e = ((λ h. cc), (λ h. cc))
parse_expr_iff s (err x) e = ((λ h. cc), (λ h. cc))

-- The slot of a valid expression is never refused as past.
future_dated-next :
    (e : Expr) (now slot : ℕ)
    → IsValid e
    → (future_dated now (next e now) ≡ ok slot) ↔ (next e now ≡ slot)
unfolding future_dated
future_dated-next e now slot v =
    let l = next-lt e now v in ((λ h. ground arith), (λ h. ground arith))

first_slot_iff :
    (e : Expr) (least now slot : ℕ)
    → IsValid e
    → (first_slot least now e ≡ ok slot) ↔ ((least ≤ min_interval e) × (next e now ≡ slot))
unfolding first_slot
first_slot_iff e least now slot v = (
  (λ h.
      let (a, b) = (then_iff _ _ slot).0 h in
      let c = (reject_iff _ _).0 a in (ground arith, (future_dated-next e now slot v).0 b)),
  (λ (a, b).
      (then_iff _ _ slot).1
        ((reject_iff _ _).1 (ground arith), (future_dated-next e now slot v).1 b)),
)

references_iff :
    (fails : Query → Bool) (t : Tables) (i : ValidationInput)
    → ((q : Query) → fails q ≡ false)
    → (validate_task_references fails t i ≡ ok tt) ↔ HasReferences t i
unfolding validate_task_references
references_iff fails t i works = (
  (λ h.
      let (a, h1) = (then_iff _ _ tt).0 h in
      let (b, c) = (then_iff _ _ tt).0 h1 in
      record {
        name = ((absent_iff fails _ _ _).0 a).1;
        department = ((present_iff fails _ _ _).0 b).1;
        role = ((present_iff fails _ _ _).0 c).1;
      }),
  (λ r. (then_iff _ _ tt).1 (
    (absent_iff fails _ _ _).1 (works _, r.name),
    (then_iff _ _ tt).1 (
      (present_iff fails _ _ _).1 (works _, r.department),
      (present_iff fails _ _ _).1 (works _, r.role),
    ),
  )),
)

shape_iff :
    (least now : ℕ) (i : ValidationInput) (slot : ℕ)
    → (validate_task_shape least now i ≡ ok slot) ↔ HasShape least now i slot
unfolding validate_task_shape
shape_iff least now i slot = (
  (λ h.
      let (a, h1) = (then_iff _ _ slot).0 h in
      let (b, h2) = (then_iff _ _ slot).0 h1 in
      let (c, h3) = (then_iff _ _ slot).0 h2 in
      let (e, d, h4) =
        (bind_iff (parse_expr i.schedule_expr (parse i.schedule_expr)) _ slot).0 h3 in
      let p = (parse_expr_iff i.schedule_expr (parse i.schedule_expr) e).0 d in
      let v = parse-IsValid i.schedule_expr e p in
      let (l, n) = (first_slot_iff e least now slot v).0 h4 in
      let (due, first) = next-least e now v in
      record {
        mode = (mode_iff _ _).0 ((reject_iff _ _).0 a);
        objective = (reject_iff _ _).0 b;
        acceptance = (reject_iff _ _).0 c;
        expr = e;
        denotes = (parse_iff i.schedule_expr e).0 p;
        interval = l;
        due = rw n at due;
        first = λ s x. rw n at (first s x);
      }),
  (λ r.
      let p = (parse_iff i.schedule_expr r.expr).1 r.denotes in
      let v = parse-IsValid i.schedule_expr r.expr p in
      let (due, first) = next-least r.expr now v in
      let n : next r.expr now ≡ slot =
        omega (arith, first slot r.due, r.first (next r.expr now) due) in
      (then_iff _ _ slot).1 (
        (reject_iff _ _).1 ((mode_iff _ _).1 r.mode),
        (then_iff _ _ slot).1 (
          (reject_iff _ _).1 r.objective,
          (then_iff _ _ slot).1 (
            (reject_iff _ _).1 r.acceptance,
            (bind_iff (parse_expr i.schedule_expr (parse i.schedule_expr)) _ slot).1 (
              r.expr,
              (parse_expr_iff i.schedule_expr (parse i.schedule_expr) r.expr).1 p,
              (first_slot_iff r.expr least now slot v).1 (r.interval, n),
            ),
          ),
        ),
      )),
)

-- While the database answers, a task is accepted with the slot exactly when its mode is known, its
-- templates are not empty, the grammar gives its text the meaning of an expression that fires no more
-- often than allowed, the slot is the first instant after `now` at which that is due, no live task has
-- its name, its department exists and has an active agent of its role.
pub validate_task_iff :
    (fails : Query → Bool) (t : Tables) (least now : ℕ) (i : ValidationInput) (slot : ℕ)
    → ((q : Query) → fails q ≡ false)
    → (validate_task fails t least now i ≡ ok slot)
      ↔ (HasShape least now i slot × HasReferences t i)
unfolding validate_task
validate_task_iff fails t least now i slot works = (
  (λ h.
      let (s, a, h1) = (bind_iff (validate_task_shape least now i) _ slot).0 h in
      let (b, e) = (then_iff _ _ slot).0 h1 in
      ((shape_iff least now i slot).0 (a ∙ e), (references_iff fails t i works).0 b)),
  (λ (s, r). (bind_iff (validate_task_shape least now i) _ slot).1 (
    slot,
    (shape_iff least now i slot).1 s,
    (then_iff _ _ slot).1 ((references_iff fails t i works).1 r, refl),
  )),
)
