-- ===== src/Schedule/Tasks/Claim.antt =====
-- What a claim takes from the table of tasks.
use garrison.Common.{
  ℕ, zero, suc, ◌≤◌, ◌≡◌, sym, ◌≢◌, true, List, [], ◌∷◌, leb, take, inl, inr, All, Bool-cases,
  arith,
}
use garrison.Schedule.Tasks.{Task, Db, Run, is_due, insert_by_slot, due_tasks, claim_due}

-- No two tasks have an id in common.
abbrev pub Distinct : List Task → Type 0
Distinct [] = Unit
Distinct (t ∷ ts) = All (λ (u : Task). u.id ≢ t.id) ts × Distinct ts

insert-All :
    (P : Task → Type 0) (t : Task) (ts : List Task) → P t → All P ts → All P (insert_by_slot t ts)
unfolding insert_by_slot
insert-All P t [] p a = (p, tt)
insert-All P t (u ∷ us) p a = elim (Bool-cases (leb t.next_fire_at u.next_fire_at)) [
  | inl y ↦ rw y (p, a)
  | inr n ↦ rw n (a.0, insert-All P t us p a.1)
]

insert-Distinct :
    (t : Task) (ts : List Task)
    → All (λ (u : Task). u.id ≢ t.id) ts
    → Distinct ts
    → Distinct (insert_by_slot t ts)
unfolding insert_by_slot
insert-Distinct t [] f d = (tt, tt)
insert-Distinct t (u ∷ us) f d = elim (Bool-cases (leb t.next_fire_at u.next_fire_at)) [
  | inl y ↦ rw y (f, d)
  | inr n ↦
      rw n (insert-All (λ v. v.id ≢ u.id) t us (λ e. f.0 (sym e)) d.0, insert-Distinct t us f.1 d.1)
]

due-All :
    (P Q : Task → Type 0) (r : Run)
    → ((t : Task) → P t → is_due r t ≡ true → Q t)
    → (ts : List Task) → All P ts
    → All Q (due_tasks r ts)
unfolding due_tasks
due-All P Q r h [] a = tt
due-All P Q r h (t ∷ ts) a = elim (Bool-cases (is_due r t)) [
  | inl y ↦ rw y (insert-All Q t (due_tasks r ts) (h t a.0 y) (due-All P Q r h ts a.1))
  | inr n ↦ rw n (due-All P Q r h ts a.1)
]

due-Distinct : (r : Run) (ts : List Task) → Distinct ts → Distinct (due_tasks r ts)
unfolding due_tasks
due-Distinct r [] d = tt
due-Distinct r (t ∷ ts) d = elim (Bool-cases (is_due r t)) [
  | inl y ↦ rw y (
      insert-Distinct t (due_tasks r ts)
        (due-All (λ u. u.id ≢ t.id) (λ u. u.id ≢ t.id) r (λ u p q. p) ts d.0)
        (due-Distinct r ts d.1))
  | inr n ↦ rw n (due-Distinct r ts d.1)
]

take-All : (P : Task → Type 0) (n : ℕ) (ts : List Task) → All P ts → All P (take n ts)
take-All P zero ts a = tt
take-All P (suc n) [] a = tt
take-All P (suc n) (t ∷ ts) a = (a.0, take-All P n ts a.1)

take-Distinct : (n : ℕ) (ts : List Task) → Distinct ts → Distinct (take n ts)
take-Distinct zero ts d = tt
take-Distinct (suc n) [] d = tt
take-Distinct (suc n) (t ∷ ts) d = (take-All (λ u. u.id ≢ t.id) n ts d.0, take-Distinct n ts d.1)

pub claim_due-All :
    (P Q : Task → Type 0) (r : Run) (db : Db)
    → ((t : Task) → P t → is_due r t ≡ true → Q t)
    → All P db.tasks
    → All Q (claim_due r db)
unfolding claim_due
claim_due-All P Q r db h a = take-All Q _ _ (due-All P Q r h db.tasks a)

pub claim_due-Distinct : (r : Run) (db : Db) → Distinct db.tasks → Distinct (claim_due r db)
unfolding claim_due
claim_due-Distinct r db d = take-Distinct _ _ (due-Distinct r db.tasks d)

-- A due task's slot is not after the clock of the database.
pub is_due-le : (r : Run) (t : Task) → is_due r t ≡ true → t.next_fire_at ≤ r.db_now
is_due-le r t h = ground arith
