-- ===== src/Schedule/Tick/Slots.antt =====
-- Every slot of a task has one record.
use garrison.Common.{
  ℕ, ◌≤◌, ◌<◌, ◌≡◌, refl, sym, ◌∙◌, ◌≢◌, ◌⊎◌, inl, inr, Option, none, some, List, [], ◌∷◌, map, ok,
  ◌==◌, All, All-mono, arith, ==_iff, Bool-cases,
}
use garrison.Schedule.Expr.Correct.{parse-IsValid}
use garrison.Schedule.Slots.{next}
use garrison.Schedule.Slots.First.{next-lt}
use garrison.Schedule.Tasks.{Task, Outcome, TaskRun, Db, Run, claim_due}
use garrison.Schedule.Tasks.Claim.{Distinct, claim_due-All, claim_due-Distinct, is_due-le}
use garrison.Schedule.Tick.{advanced, fire_claimed_task, fire_all, tick_once}
use garrison.Schedule.Tick.Firing.{Fires, fire_claimed_task-Fires}
use garrison.Schedule.Tick.Bounds.{fired-cases, tick_once-fires}

-- The runs of a task are for slots before its next one.
abbrev pub Ahead : List TaskRun → Task → Type 0
Ahead us t = All (λ (u : TaskRun). u.scheduled_task_id ≡ t.id → u.slot_at < t.next_fire_at) us

-- No two runs are for the same slot of the same task.
abbrev pub DistinctSlots : List TaskRun → Type 0
DistinctSlots [] = Unit
DistinctSlots (u ∷ us) =
    All (λ (v : TaskRun). v.scheduled_task_id ≡ u.scheduled_task_id → v.slot_at ≢ u.slot_at) us
    × DistinctSlots us

abbrev pub Inv : Db → Type 0
Inv db = Distinct db.tasks × DistinctSlots db.runs × All (Ahead db.runs) db.tasks

module _ (t : Task) (x now : ℕ) (o : Outcome) (later : t.next_fire_at < x) where
  abbrev moved : Task → Task
  moved = advanced x now o t.id

  moved-id : (u : Task) → (moved u).id ≡ u.id
  moved-id u = elim (Bool-cases (u.id == t.id)) [ inl y ↦ rw y refl | inr n ↦ rw n refl ]

  moved-cases :
      (u : Task)
      → ((u.id ≡ t.id) × ((moved u).next_fire_at ≡ x))
        ⊎ ((u.id ≢ t.id) × ((moved u).next_fire_at ≡ u.next_fire_at))
  moved-cases u = elim (Bool-cases (u.id == t.id)) [
    | inl y ↦ inl ((==_iff _ _).0 y, rw y refl)
    | inr n ↦ inr ((λ e. let y = (==_iff u.id t.id).1 e in cc), rw n refl)
  ]

  fresh-moved :
      (i : ℕ) (ts : List Task)
      → All (λ (u : Task). u.id ≢ i) ts
      → All (λ (u : Task). u.id ≢ i) (map moved ts)
  fresh-moved i [] f = tt
  fresh-moved i (u ∷ ts) (f, fs) = ((λ e. f (sym (moved-id u) ∙ e)), fresh-moved i ts fs)

  moved-Distinct : (ts : List Task) → Distinct ts → Distinct (map moved ts)
  moved-Distinct [] d = tt
  moved-Distinct (u ∷ ts) (f, d) = (
    All-mono (λ v. v.id ≢ u.id) (λ v. v.id ≢ (moved u).id) (λ v g e. g (e ∙ moved-id u))
        (map moved ts) (fresh-moved u.id ts f),
    moved-Distinct ts d,
  )

  -- A run that was before the slot of the task stays before the slots of all.
  still-before :
      (u : Task) (v : TaskRun)
      → (v.scheduled_task_id ≡ t.id → v.slot_at < t.next_fire_at)
      → (v.scheduled_task_id ≡ u.id → v.slot_at < u.next_fire_at)
      → v.scheduled_task_id ≡ (moved u).id
      → v.slot_at < (moved u).next_fire_at
  still-before u v a h e =
      let k = e ∙ moved-id u in
      elim (moved-cases u) [
        | inl (same, n) ↦ omega (arith, a (k ∙ same), later, n)
        | inr (_, n) ↦ omega (arith, h k, n)
      ]

  moved-tail : (us : List TaskRun) (u : Task) → Ahead us t → Ahead us u → Ahead us (moved u)
  moved-tail [] u a h = tt
  moved-tail (v ∷ us) u (a, rest) (h, hs) = (still-before u v a h, moved-tail us u rest hs)

  moved-Ahead :
      (us : List TaskRun) (run : TaskRun) (ts : List Task)
      → run.scheduled_task_id ≡ t.id
      → run.slot_at ≡ t.next_fire_at
      → Ahead us t
      → All (Ahead us) ts
      → All (Ahead (run ∷ us)) (map moved ts)
  moved-Ahead us run [] i s a h = tt
  moved-Ahead us run (u ∷ ts) i s a (h, hs) = (
    (
      (λ e. elim (moved-cases u) [
        | inl (same, n) ↦ omega (arith, later, n, s)
        | inr (other, n) ↦ absurd (other (sym (e ∙ moved-id u) ∙ i))
      ]),
      moved-tail us u a h,
    ),
    moved-Ahead us run ts i s a hs,
  )

  -- The new run is for a slot of its own.
  fresh-slot :
      (us : List TaskRun) (run : TaskRun)
      → run.scheduled_task_id ≡ t.id
      → run.slot_at ≡ t.next_fire_at
      → Ahead us t
      → All
          (λ (v : TaskRun). v.scheduled_task_id ≡ run.scheduled_task_id → v.slot_at ≢ run.slot_at)
          us
  fresh-slot us run i s a =
      All-mono (λ v. v.scheduled_task_id ≡ t.id → v.slot_at < t.next_fire_at)
        (λ v. v.scheduled_task_id ≡ run.scheduled_task_id → v.slot_at ≢ run.slot_at)
        (λ v f e same. omega (arith, f (e ∙ i), same, s)) us a

-- A claimed task: the runs are before its slot, and its slot is not after the clock.
abbrev Ready : Run → List TaskRun → Task → Type 0
Ready r us t = Ahead us t × (t.next_fire_at ≤ r.clock t.id)

module _ (r : Run) where
  Fires-Inv :
      (t : Task) (db db' : Db) (o : Option Outcome)
      → Ready r db.runs t
      → Inv db
      → Fires r t db db' o
      → Inv db'
  Fires-Inv t db db' none _ i (_, e) = rw e i
  Fires-Inv t db db' (some o) (a, c) (d, s, h) (x, p, ts, (run, us, own, at, _, _)) =
      let n = next-lt x (r.clock t.id) (parse-IsValid t.schedule_expr x p) in
      let later : t.next_fire_at < next x (r.clock t.id) = omega (arith, n, c) in
      let go = moved-Distinct t (next x (r.clock t.id)) (r.clock t.id) o later db.tasks d in
      rw (us, ts)
        (
          go,
          (fresh-slot t (next x (r.clock t.id)) (r.clock t.id) o later db.runs run own at a, s),
          moved-Ahead t (next x (r.clock t.id)) (r.clock t.id) o later db.runs run db.tasks own at a
              h,
        )

  Fires-Ready :
      (t : Task) (db db' : Db) (o : Option Outcome) (ts : List Task)
      → All (λ (u : Task). u.id ≢ t.id) ts
      → All (Ready r db.runs) ts
      → Fires r t db db' o
      → All (Ready r db'.runs) ts
  Fires-Ready t db db' none ts f a (_, e) = rw e a
  Fires-Ready t db db' (some o) [] f a w = tt
  Fires-Ready t db db' (some o) (u ∷ ts) (f, fs) (a, rest) w =
      let (_, _, _, (run, us, own, at, _, _)) = w in
      (
        rw us (((λ e. absurd (f (sym e ∙ own))), a.0), a.1),
        Fires-Ready t db db' (some o) ts fs rest w,
      )

  fire_all-Inv :
      (ts : List Task) (db db' : Db)
      → Distinct ts
      → All (Ready r db.runs) ts
      → Inv db
      → fire_all r ts db ≡ ok db'
      → Inv db'
  unfolding fire_all
  fire_all-Inv [] db db' d a i h = let same : db' ≡ db = cc in rw same i
  fire_all-Inv (t ∷ ts) db db' (f, d) (a, rest) i h =
      elim (fired-cases r (fire_claimed_task r t db)) [
        | inl (c, y) ↦ cc (rw y at h)
        | inr (e, o, y) ↦
            let w = fire_claimed_task-Fires r t db e o y in
            fire_all-Inv ts e db' d (Fires-Ready t db e o ts f rest w) (Fires-Inv t db e o a i w)
              (rw y at h)
      ]

  tick_once-Inv : (db : Db) → ((i : ℕ) → r.db_now ≤ r.clock i) → Inv db → Inv (tick_once r db).0
  tick_once-Inv db clocks i = elim (tick_once-fires r db) [
    | inl same ↦ rw same i
    | inr (db', f, e) ↦ rw e (
        fire_all-Inv (claim_due r db) db db' (claim_due-Distinct r db i.0)
          (claim_due-All (Ahead db.runs) (Ready r db.runs) r db
            (λ t a due. (a, omega (arith, is_due-le r t due, clocks t.id))) i.2)
          i f)
  ]

-- The supervisor's clock is not behind the database's.
abbrev pub Clocked : Run → Type 0
Clocked r = (i : ℕ) → r.db_now ≤ r.clock i

pub ticks : List Run → Db → Db
ticks [] db = db
ticks (r ∷ rs) db = ticks rs (tick_once r db).0

-- If the supervisor's clock is never behind the database's, then every sequence of ticks, whatever
-- fails, keeps this invariant: the ids of tasks differ, no two runs are for the same slot of the
-- same task, and every run is for a slot before the next one of its task.
pub ticks-Inv : (rs : List Run) (db : Db) → All Clocked rs → Inv db → Inv (ticks rs db)
unfolding ticks
ticks-Inv [] db c i = i
ticks-Inv (r ∷ rs) db (c, cs) i = ticks-Inv rs (tick_once r db).0 cs (tick_once-Inv r db c i)
