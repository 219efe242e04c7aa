-- ===== src/Spawn/Finalize.antt =====
-- supervisor/internal/spawn/finalize.go: `WriteFinalize`, with the statements that it runs of
-- supervisor/internal/store. The rows are those of the session: its instance, its event and its
-- ticket. Each call outside can fail, as a function says that is a parameter. What the transaction
-- writes is dropped unless it commits; what the palace takes stays.
pub mod Atomic
use garrison.Common.{
  ℕ, suc, String, ◌≡◌, refl, Bool, true, false, not, ◌&&◌, ◌||◌, Option, none, some, List, [], ◌∷◌,
  ◌++◌, str_eq, if◌then◌else◌, Result, ok, err, ◌>>=◌, ◌>>◌,
}
use garrison.ClaudeProto.Events.{Text}
use garrison.Spawn.Adjudicate.{
  Status, running, succeeded, failed, ExitReason, completed, finalize_palace_write_failed,
  finalize_commit_failed, finalize_write_timeout,
}
use garrison.Spawn.Payload.{FinalizePayload, KgTriple, Pattern, scan_and_redact_payload}
use garrison.Spawn.Diary.{serialize_diary}

pub record Instance : Type 0 where
  pub status : Status
  pub exit_reason : Option ExitReason
  pub total_cost_usd : Option Text
  pub wake_up_status : Option String

pub record Transition : Type 0 where
  pub from_column : String
  pub to_column : String
  pub hygiene_status : Option String
  pub pattern_category : Option String

pub record Db : Type 0 where
  pub instance : Instance
  pub processed : Bool
  pub column_slug : String
  pub transitions : List Transition

pub record Palace : Type 0 where
  pub drawers : List (Text × Text)
  pub triples : List KgTriple

pub record World : Type 0 where
  pub db : Db
  pub palace : Palace

pub data Op : Type 0 where
  begin_tx select_objective add_drawer add_triples insert_transition update_hygiene : Op
  update_category update_column update_instance mark_processed commit_tx update_failed : Op

-- Whether the error is a deadline, and whether the context has exceeded its own by then. A call of the
-- palace can fail after the palace has taken it, or some of its parts: which of them is `taken`.
pub record Failure : Type 0 where
  pub is_deadline : Bool
  pub past_deadline : Bool
  pub taken : ℕ → Bool

pub record FinalizeMeta : Type 0 where
  pub wing : Text
  pub from_column : String
  pub to_column : String
  pub cost : Option Text
  pub wake_up_status : String

-- What the body of the drawer takes besides the payload: `json.Marshal` of a text, the objective of
-- the ticket, the text of its id, and that of the time.
pub record DrawerText : Type 0 where
  pub marshal : Text → Text
  pub objective : Text
  pub ticket_id : Text
  pub completed_at : Text

unfoldable pub body_of : DrawerText → FinalizePayload → Text
unfolding serialize_diary
body_of t payload = serialize_diary t.marshal t.objective t.ticket_id t.completed_at payload

pub data FailureClass : Type 0 where
  palace_write_class commit_class timeout_class : FailureClass

-- `writeTerminalOutcome`
pub record Outcome : Type 0 where
  pub exit_reason : ExitReason
  pub failure_class : FailureClass
  pub orphan_warn : Bool

abbrev pub or_null : String → Option String
or_null s = if str_eq s "" then none else some s

classify_ctx_err : Failure → ExitReason → ExitReason
classify_ctx_err f default_reason =
    if f.past_deadline then finalize_write_timeout else default_reason

fail_with : ExitReason → FailureClass → Bool → Outcome
fail_with reason class orphan = record {
  exit_reason = reason;
  failure_class = class;
  orphan_warn = orphan;
}

-- The outcome of an error, with the reason and class of a timeout if it is one.
classified : Failure → ExitReason → FailureClass → Bool → Outcome
unfolding fail_with
classified f reason class orphan =
    if f.is_deadline || f.past_deadline
    then fail_with finalize_write_timeout timeout_class orphan
    else fail_with reason class orphan

abbrev pub on_last : (Transition → Transition) → List Transition → List Transition
on_last f [] = []
on_last f (t ∷ []) = f t ∷ []
on_last f (t ∷ u ∷ ts) = t ∷ on_last f (u ∷ ts)

abbrev pub terminal : Status → ExitReason → Option Text → String → Instance
terminal status reason cost wake_up = record {
  status = status;
  exit_reason = some reason;
  total_cost_usd = cost;
  wake_up_status = or_null wake_up;
}

-- The parts of a call that the palace has taken, by their number from `n` on.
abbrev pub parts : {A : Type 0} → (ℕ → Bool) → ℕ → List A → List A
parts taken n [] = []
parts taken n (x ∷ xs) = let rest = parts taken (suc n) xs in if taken n then x ∷ rest else rest

module _ (fails : Op → Option Failure) where
  -- A statement that fails ends the function with an outcome; the rest does not run.
  attempt : {A : Type 0} → Op → (Failure → Outcome) → A → Result Outcome A
  attempt op outcome_of a = elim (fails op) [ none ↦ ok a | some f ↦ err (outcome_of f) ]

  orphaned : Failure → Outcome
  unfolding fail_with
  orphaned f = fail_with finalize_palace_write_failed palace_write_class true

  -- The drawer, then the triples.
  write_palace_artifacts : FinalizeMeta → Text → FinalizePayload → Palace → Palace × Option Outcome
  unfolding classified
  write_palace_artifacts meta body payload p = elim (fails add_drawer) [
    | some f ↦ (
      record p { drawers = p.drawers ++ parts f.taken 0 ((meta.wing, body) ∷ []) },
      some (classified f finalize_palace_write_failed palace_write_class false),
    )
    | none ↦
        let with_drawer = record p { drawers = p.drawers ++ (meta.wing, body) ∷ [] } in
        elim (fails add_triples) [
          | some f ↦ (
            record with_drawer { triples = p.triples ++ parts f.taken 0 payload.kg_triples },
            some (classified f finalize_palace_write_failed palace_write_class true),
          )
          | none ↦ (record with_drawer { triples = p.triples ++ payload.kg_triples }, none)
        ]
  ]

  new_transition : FinalizeMeta → Transition
  new_transition meta = record {
    from_column = meta.from_column;
    to_column = meta.to_column;
    hygiene_status = none;
    pattern_category = none;
  }

  -- A failure of this statement is logged and dropped.
  record_category : List String → Db → Db
  record_category [] db = db
  record_category (label ∷ labels) db = elim (fails update_category) [
    | some f ↦ db
    | none ↦ record db {
      transitions = on_last (λ t. record t { pattern_category = some label }) db.transitions;
    }
  ]

  hygiene_of : List String → String
  hygiene_of [] = "clean"
  hygiene_of (label ∷ labels) = "suspected_secret_emitted"

  write_transition_rows : FinalizeMeta → List String → Db → Result Outcome Db
  unfolding attempt orphaned new_transition record_category hygiene_of
  write_transition_rows meta labels db = do
    inserted ←
        attempt insert_transition orphaned
          (record db { transitions = db.transitions ++ new_transition meta ∷ [] })
    marked ← attempt update_hygiene orphaned (record inserted {
      transitions =
          on_last (λ t. record t { hygiene_status = some (hygiene_of labels) })
            inserted.transitions;
    })
    attempt update_column orphaned
        (record (record_category labels marked) { column_slug = meta.to_column })

  write_terminal_and_mark : FinalizeMeta → Db → Result Outcome Db
  unfolding attempt orphaned
  write_terminal_and_mark meta db = do
    written ←
        attempt update_instance orphaned
          (record db { instance = terminal succeeded completed meta.cost meta.wake_up_status })
    attempt mark_processed orphaned (record written { processed = true })

  -- The transaction from the transition to the commit.
  write_rows : FinalizeMeta → List String → Db → Result Outcome Db
  unfolding write_transition_rows write_terminal_and_mark attempt classified
  write_rows meta labels db = do
    moved ← write_transition_rows meta labels db
    marked ← write_terminal_and_mark meta moved
    attempt commit_tx (λ f. classified f finalize_commit_failed commit_class true) marked

  -- The terminal row outside of the transaction; an error of it is logged.
  write_finalize_failure : FinalizeMeta → Outcome → World → World × Option Outcome
  write_finalize_failure meta o w = elim (fails update_failed) [
    | some f ↦ (w, some o)
    | none ↦ (
      record w {
        db = record w.db { instance = terminal failed o.exit_reason meta.cost meta.wake_up_status };
      },
      some o,
    )
  ]

  after_rows : FinalizeMeta → World → Result Outcome Db → World × Option Outcome
  unfolding write_finalize_failure
  after_rows meta w (ok db) = (record w { db = db }, none)
  after_rows meta w (err o) = write_finalize_failure meta o w

  after_palace :
      FinalizeMeta → List String → World → Palace × Option Outcome → World × Option Outcome
  unfolding write_finalize_failure after_rows write_rows
  after_palace meta labels w (p, some o) = write_finalize_failure meta o (record w { palace = p })
  after_palace meta labels w (p, none) =
      after_rows meta (record w { palace = p }) (write_rows meta labels w.db)

  -- The second component is the error.
  unfoldable pub write_finalize :
      List Pattern → DrawerText → FinalizeMeta → FinalizePayload → World → World × Option Outcome
  unfolding classify_ctx_err fail_with scan_and_redact_payload body_of write_palace_artifacts
      write_finalize_failure after_palace
  write_finalize patterns text meta payload w = elim (fails begin_tx) [
    | some f ↦
        write_finalize_failure meta
          (fail_with (classify_ctx_err f finalize_palace_write_failed) palace_write_class false) w
    | none ↦ elim (fails select_objective) [
      | some f ↦
          write_finalize_failure meta
            (fail_with finalize_palace_write_failed palace_write_class false) w
      | none ↦
          let (redacted, labels) = scan_and_redact_payload patterns payload in
          after_palace meta labels w
            (write_palace_artifacts meta (body_of text redacted) redacted w.palace)
    ]
  ]
