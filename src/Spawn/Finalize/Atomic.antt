-- ===== src/Spawn/Finalize/Atomic.antt =====
-- What `WriteFinalize` leaves behind, whichever call fails.
use garrison.Common.{
  append-nil, String, ◌≡◌, refl, ◌∙◌, ap, ◌⊎◌, inl, inr, Bool, true, false, Option, none, some,
  List, [], ◌∷◌, ◌++◌, Result, ok, err, ◌>>=◌, Option-cases, arith, Bool-cases,
}
use garrison.ClaudeProto.Events.{Text}
use garrison.Spawn.Adjudicate.{succeeded, failed, completed, ExitReason}
use garrison.Spawn.Payload.{FinalizePayload, Pattern, scan_and_redact_payload}
use garrison.Spawn.Finalize.{
  Transition, Db, Palace, World, Op, begin_tx, select_objective, add_drawer, add_triples,
  insert_transition, update_hygiene, update_category, update_column, update_instance,
  mark_processed, commit_tx, update_failed, Failure, FinalizeMeta, DrawerText, body_of, Outcome,
  on_last, terminal, attempt, write_palace_artifacts, new_transition, record_category,
  write_transition_rows, write_terminal_and_mark, write_rows, write_finalize_failure, after_rows,
  after_palace, write_finalize, fail_with, classified, FailureClass,
}

-- Committed: one more transition, to the column of the meta, the instance succeeded, and the event is processed.
pub record Committed (meta : FinalizeMeta) (before after : Db) : Type 0 where
  pub moved :
      (t : Transition) × (after.transitions ≡ before.transitions ++ t ∷ [])
      × (t.from_column ≡ meta.from_column)
      × (t.to_column ≡ meta.to_column)
  pub column : after.column_slug ≡ meta.to_column
  pub instance : after.instance ≡ terminal succeeded completed meta.cost meta.wake_up_status
  pub processed : after.processed ≡ true

-- Not committed: nothing but the instance's row can have changed, and that only to a failure.
pub record Dropped (meta : FinalizeMeta) (o : Outcome) (before after : Db) : Type 0 where
  pub transitions : after.transitions ≡ before.transitions
  pub column : after.column_slug ≡ before.column_slug
  pub processed : after.processed ≡ before.processed
  pub instance :
      (after.instance ≡ before.instance)
      ⊎ (after.instance ≡ terminal failed o.exit_reason meta.cost meta.wake_up_status)

-- The body of the drawer is that of the redacted payload.
abbrev drawer : List Pattern → DrawerText → FinalizeMeta → FinalizePayload → Text × Text
drawer patterns text meta payload =
    (meta.wing, body_of text (scan_and_redact_payload patterns payload).0)

-- The drawers: one more without an error, and with one that is reported as an orphan; with any other
-- error as before, unless the palace took the drawer in a call that then failed.
abbrev pub Stored :
    (Op → Option Failure)
    → List (Text × Text)
    → Text × Text
    → Option Outcome
    → List (Text × Text)
    → Type 0
Stored fails before d none after = after ≡ before ++ d ∷ []
Stored fails before d (some o) after =
    ((o.orphan_warn ≡ true) × (after ≡ before ++ d ∷ []))
    ⊎ ((o.orphan_warn ≡ false)
        × ((after ≡ before)
            ⊎ ((after ≡ before ++ d ∷ [])
                × ((f : Failure) × (fails add_drawer ≡ some f) × (f.taken 0 ≡ true)))))

abbrev pub DbEnds : FinalizeMeta → Db → World × Option Outcome → Type 0
DbEnds meta before (w, none) = Committed meta before w.db
DbEnds meta before (w, some o) = Dropped meta o before w.db

abbrev pub Atomic :
    (Op → Option Failure)
    → List Pattern
    → DrawerText
    → FinalizeMeta
    → FinalizePayload
    → World
    → World × Option Outcome
    → Type 0
Atomic fails patterns text meta payload before end =
    DbEnds meta before.db end
    × Stored fails before.palace.drawers (drawer patterns text meta payload) end.1
        (end.0).palace.drawers

on_last-append :
    (f : Transition → Transition) (ts : List Transition) (t : Transition)
    → on_last f (ts ++ t ∷ []) ≡ ts ++ f t ∷ []
on_last-append f [] t = refl
on_last-append f (u ∷ []) t = refl
on_last-append f (u ∷ v ∷ ts) t = ap (λ xs. u ∷ xs) (on_last-append f (v ∷ ts) t)

classified-orphan :
    (f : Failure) (reason : ExitReason) (c : FailureClass) (orphan : Bool)
    → (classified f reason c orphan).orphan_warn ≡ orphan
unfolding classified fail_with
classified-orphan f reason c orphan = ground arith

module _ (fails : Op → Option Failure) where
  -- By whether the statement fails.
  attempt-elim {ℓ} :
      {A B : Type 0} (P : Result Outcome B → Type ℓ) (op : Op) (outcome_of : Failure → Outcome)
      (a : A) (k : A → Result Outcome B)
      → ((f : Failure) → P (err (outcome_of f)))
      → P (k a)
      → P (attempt fails op outcome_of a >>= k)
  unfolding attempt
  attempt-elim P op outcome_of a k e r = elim (Option-cases (fails op)) [
    | inl n ↦ rw (n, attempt) r
    | inr (f, s) ↦ rw (s, attempt) (e f)
  ]

  -- The last transition, whatever is recorded of its category.
  record_category-last :
      (labels : List String) (db : Db) (ts : List Transition) (t : Transition)
      → db.transitions ≡ ts ++ t ∷ []
      → (u : Transition) × ((record_category fails labels db).transitions ≡ ts ++ u ∷ [])
        × (u.from_column ≡ t.from_column)
        × (u.to_column ≡ t.to_column)
  unfolding record_category
  record_category-last [] db ts t e = (t, e, refl, refl)
  record_category-last (l ∷ labels) db ts t e = elim (Option-cases (fails update_category)) [
    | inl n ↦
        rw (n, record_category)
          (
            _,
            ap (on_last _) e ∙ on_last-append (λ u. record u { pattern_category = some l }) ts t,
            refl,
            refl,
          )
    | inr (f, s) ↦ rw (s, record_category) (t, e, refl, refl)
  ]

  -- How the transaction ends: with the rows of a success, or as the failure of an orphan.
  abbrev RowsEnd : FinalizeMeta → Db → Result Outcome Db → Type 0
  RowsEnd meta before (ok after) = Committed meta before after
  RowsEnd meta before (err o) = o.orphan_warn ≡ true

  ok-bind {ℓ} :
      {A : Type 0} (P : Result Outcome A → Type ℓ) (m : Result Outcome A) → P (m >>= ok) → P m
  ok-bind P (ok a) h = h
  ok-bind P (err e) h = h

  bind-elim {ℓ κ} :
      {A B : Type 0} (Q : Result Outcome A → Type ℓ) (P : Result Outcome B → Type κ)
      (m : Result Outcome A) (k : A → Result Outcome B)
      → Q m
      → ((a : A) → Q (ok a) → P (k a))
      → ((o : Outcome) → Q (err o) → P (err o))
      → P (m >>= k)
  bind-elim Q P (ok a) k q f g = f a q
  bind-elim Q P (err o) k q f g = g o q

  -- The rows of the ticket are written, and those of the instance and of the event are not yet.
  record MovedRows (meta : FinalizeMeta) (before after : Db) : Type 0 where
    pub moved :
        (t : Transition) × (after.transitions ≡ before.transitions ++ t ∷ [])
        × (t.from_column ≡ meta.from_column)
        × (t.to_column ≡ meta.to_column)
    pub column : after.column_slug ≡ meta.to_column

  abbrev MovedEnd : FinalizeMeta → Db → Result Outcome Db → Type 0
  MovedEnd meta before (ok after) = MovedRows meta before after
  MovedEnd meta before (err o) = o.orphan_warn ≡ true

  write_transition_rows-Moved :
      (meta : FinalizeMeta) (labels : List String) (db : Db)
      → MovedEnd meta db (write_transition_rows fails meta labels db)
  unfolding write_transition_rows new_transition
  write_transition_rows-Moved meta labels db =
      let ts = db.transitions in
      let P = MovedEnd meta db in
      attempt-elim P insert_transition _ _ _ (λ f. refl)
        (attempt-elim P update_hygiene _ _ _ (λ f. refl)
          (ok-bind P _ (
            attempt-elim P update_column _ _ ok (λ f. refl)
              (record {
                moved = record_category-last labels _ ts _ (on_last-append _ ts _);
                column = refl;
              }))))

  write_rows-End :
      (meta : FinalizeMeta) (labels : List String) (db : Db)
      → RowsEnd meta db (write_rows fails meta labels db)
  unfolding write_rows write_terminal_and_mark
  write_rows-End meta labels db =
      let P = RowsEnd meta db in
      bind-elim (MovedEnd meta db) P (write_transition_rows fails meta labels db) _
        (write_transition_rows-Moved meta labels db)
        (λ a m.
          bind-elim (RowsEnd meta db) P (write_terminal_and_mark fails meta a) _
            (attempt-elim P update_instance _ _ _ (λ f. refl)
              (ok-bind P _ (
                attempt-elim P mark_processed _ _ ok (λ f. refl)
                  (record {
                    moved = m.moved;
                    column = m.column;
                    instance = refl;
                    processed = refl;
                  }))))
            (λ b c. ok-bind P _ (attempt-elim P commit_tx _ _ ok (λ f. ground arith) c)) (λ o e. e))
        (λ o e. e)

  abbrev PalaceEnd : List (Text × Text) → Text × Text → Palace × Option Outcome → Type 0
  PalaceEnd before d (p, o) = Stored fails before d o p.drawers

  write_palace_artifacts-Stored :
      (meta : FinalizeMeta) (body : Text) (payload : FinalizePayload) (p : Palace)
      → PalaceEnd p.drawers (meta.wing, body) (write_palace_artifacts fails meta body payload p)
  unfolding write_palace_artifacts classified fail_with
  write_palace_artifacts-Stored meta body payload p = elim (Option-cases (fails add_drawer)) [
    | inr (f, s) ↦ elim (Bool-cases (f.taken 0)) [
      | inl y ↦
          rw (s, y, write_palace_artifacts)
            (inr (classified-orphan f _ _ false, inr (refl, (f, s, y))))
      | inr n ↦
          rw (s, n, write_palace_artifacts)
            (inr (classified-orphan f _ _ false, inl (append-nil p.drawers)))
    ]
    | inl n ↦ elim (Option-cases (fails add_triples)) [
      | inr (f, s) ↦ rw (n, s, write_palace_artifacts) (inl (classified-orphan f _ _ true, refl))
      | inl m ↦ rw (n, m, write_palace_artifacts) refl
    ]
  ]

  -- A failure keeps the palace, so what is stored is what the outcome says.
  failure-Ends :
      (d : Text × Text) (meta : FinalizeMeta) (o : Outcome) (before w : World)
      → w.db ≡ before.db
      → Stored fails before.palace.drawers d (some o) w.palace.drawers
      → DbEnds meta before.db (write_finalize_failure fails meta o w)
        × Stored fails before.palace.drawers d
            (write_finalize_failure fails meta o w).1
            (((write_finalize_failure fails meta o w).0).palace).drawers
  unfolding write_finalize_failure
  failure-Ends d meta o before w e s = elim (Option-cases (fails update_failed)) [
    | inl n ↦
        rw (n, write_finalize_failure)
          (
            record {
              transitions = ap (λ (x : Db). x.transitions) e;
              column = ap (λ (x : Db). x.column_slug) e;
              processed = ap (λ (x : Db). x.processed) e;
              instance = inr refl;
            },
            s,
          )
    | inr (f, t) ↦
        rw (t, write_finalize_failure)
          (
            record {
              transitions = ap (λ (x : Db). x.transitions) e;
              column = ap (λ (x : Db). x.column_slug) e;
              processed = ap (λ (x : Db). x.processed) e;
              instance = inl (ap (λ (x : Db). x.instance) e);
            },
            s,
          )
  ]

  after_rows-Ends :
      (d : Text × Text) (meta : FinalizeMeta) (before w : World) (r : Result Outcome Db)
      → w.db ≡ before.db
      → w.palace.drawers ≡ before.palace.drawers ++ d ∷ []
      → RowsEnd meta before.db r
      → DbEnds meta before.db (after_rows fails meta w r)
        × Stored fails before.palace.drawers d
            (after_rows fails meta w r).1
            (((after_rows fails meta w r).0).palace).drawers
  unfolding after_rows
  after_rows-Ends d meta before w (ok db) e s c = (c, s)
  after_rows-Ends d meta before w (err o) e s c = failure-Ends d meta o before w e (inl (c, s))

  after_palace-Ends :
      (d : Text × Text) (meta : FinalizeMeta) (labels : List String) (w : World)
      (end : Palace × Option Outcome)
      → PalaceEnd w.palace.drawers d end
      → DbEnds meta w.db (after_palace fails meta labels w end)
        × Stored fails w.palace.drawers d
            (after_palace fails meta labels w end).1
            (((after_palace fails meta labels w end).0).palace).drawers
  unfolding after_palace
  after_palace-Ends d meta labels w (p, some o) s =
      failure-Ends d meta o w (record w { palace = p }) refl s
  after_palace-Ends d meta labels w (p, none) s =
      after_rows-Ends d meta w (record w { palace = p }) _ refl s (write_rows-End meta labels w.db)

  -- Whichever calls fail: without an error the transaction is committed as a whole, with the
  -- transition, the ticket's column, the instance as succeeded and the event processed. With an error
  -- the transitions, the column and the event are as before, and the instance is as before or failed
  -- for the reason of the error. The palace has one more drawer, that of the redacted payload, if there
  -- is no error or the error is reported as an orphan. With any other error its drawers are as before,
  -- unless the call that adds the drawer failed after the palace had taken it.
  pub write_finalize-Atomic :
      (patterns : List Pattern) (text : DrawerText) (meta : FinalizeMeta)
      (payload : FinalizePayload) (w : World)
      → Atomic fails patterns text meta payload w
          (write_finalize fails patterns text meta payload w)
  unfolding write_finalize fail_with
  write_finalize-Atomic patterns text meta payload w = elim (Option-cases (fails begin_tx)) [
    | inr (f, s) ↦
        rw (s, write_finalize)
          (failure-Ends (drawer patterns text meta payload) meta _ w w refl (inr (refl, inl refl)))
    | inl n ↦ elim (Option-cases (fails select_objective)) [
      | inr (f, s) ↦
          rw (n, s, write_finalize)
            (failure-Ends (drawer patterns text meta payload) meta _ w w refl
              (inr (refl, inl refl)))
      | inl m ↦
          rw (n, m, write_finalize)
            (after_palace-Ends (drawer patterns text meta payload) meta _ w _ (
              write_palace_artifacts-Stored meta _ (scan_and_redact_payload patterns payload).0
                w.palace))
    ]
  ]
