-- ===== src/Spawn/Session/Ends.antt =====
-- What a session leaves behind, whatever its output and whichever calls fail.
use garrison.Common.{
  String, ◌≡◌, ◌⊎◌, Bool, true, false, Option, none, some, List, [], ◌∷◌, ◌++◌, err,
}
use garrison.ClaudeProto.Events.{Text}
use garrison.Spawn.Adjudicate.{Result, Verdict}
use garrison.FinalizeTool.Fields.{ValidationError}
use garrison.FinalizeTool.Validate.{validate}
use garrison.Spawn.Policy.{Call, committed_with, FinalizePolicy}
use garrison.Spawn.Policy.Inv.{commits}
use garrison.Spawn.Finalize.{Transition, Db, World, Outcome, terminal}
use garrison.Spawn.Finalize.Atomic.{Committed, Dropped}
use garrison.Spawn.Session.{
  TerminalOp, SessionParams, Env, Left, TerminalParams, overridden, writes_transition,
  finalize_meta, state_of, terminal_params,
}

-- The ticket has moved, once and along the columns, or it is where it was.
abbrev pub Moved : String × String → List Transition → Db → Type 0
Moved columns before after =
    ((t : Transition) × (after.transitions ≡ before ++ t ∷ [])
      × (t.from_column ≡ columns.0)
      × (t.to_column ≡ columns.1))
    × (after.column_slug ≡ columns.1)

abbrev pub Stayed : List Transition → String → Db → Type 0
Stayed before column_slug after = (after.transitions ≡ before) × (after.column_slug ≡ column_slug)

-- The terminal write: the instance has its verdict, the event is processed, and the ticket moved
-- exactly if the verdict asks for it.
pub record Written (reason_override : Option (Verdict → Verdict)) (p : TerminalParams)
    (before after : Db) : Type 0 where
  pub instance :
      after.instance
      ≡ terminal
          (overridden reason_override p.verdict).0
          (overridden reason_override p.verdict).1
          p.cost
          p.wake_up_status
  pub processed : p.skip_mark_processed ≡ false → after.processed ≡ true
  pub ticket :
      ((writes_transition p ≡ true) × Moved p.columns before.transitions after)
      ⊎ ((writes_transition p ≡ false) × Stayed before.transitions before.column_slug after)

abbrev WrittenOr : Option (Verdict → Verdict) → TerminalParams → Db → Option Db → Type 0
WrittenOr f p before none = Unit
WrittenOr f p before (some after) = Written f p before after

module _ (terminal_fails : TerminalOp → Bool) where
  -- The ticket's rows, with the instance as it was.
  abbrev TicketOr : TerminalParams → Db → Option Db → Type 0
  TicketOr p before none = Unit
  TicketOr p before (some after) =
      (((writes_transition p ≡ true) × Moved p.columns before.transitions after)
        ⊎ ((writes_transition p ≡ false) × Stayed before.transitions before.column_slug after))
      × (after.instance ≡ before.instance)

abbrev pub IsIn : Call → List Call → Type 0
IsIn c [] = ⊥
IsIn c (d ∷ calls) = (c ≡ d) ⊎ IsIn c calls

-- Why no transaction was tried: there is no client of the palace, or what was accepted does not
-- validate again.
abbrev pub Untried : Env → Text → Type 0
Untried env raw =
    (env.palace_wired ≡ false)
    ⊎ ((e : ValidationError) × (validate env.clock env.unmarshal raw ≡ err e))

-- A finalize was accepted, and its transaction committed, or failed, or was not tried.
abbrev pub CommitEnd : Env → SessionParams → Text → Result → Db → Db → Type 0
CommitEnd env p raw result before after =
    Committed (finalize_meta env p result) before after
    ⊎ (((o : Outcome) × Dropped (finalize_meta env p result) o before after)
        ⊎ (Untried env raw × (after ≡ before)))

-- The one call of the hook, with the arguments and the result that it had, and what it did.
abbrev pub FinalizeEnd : Env → SessionParams → List Call → Db → Db → Type 0
FinalizeEnd env p calls before after =
    (commits calls ≡ 1)
    × ((raw : Text) × (result : Result) × IsIn (committed_with raw result) calls
        × CommitEnd env p raw result before after)

-- The call of the hook among the calls, and what it did.
abbrev CalledEnd : Env → SessionParams → List Call → Db → Db → Type 0
CalledEnd env p calls before after =
    (raw : Text) × (result : Result) × IsIn (committed_with raw result) calls
    × CommitEnd env p raw result before after

-- How a session ends: a finalize was accepted; or the terminal write is done; or it failed, which is
-- an error, and nothing has changed.
pub data SessionEnd (env : Env) (p : SessionParams) (left : Left) (policy : FinalizePolicy)
    (before : World) : World × Bool → Type 0 where
  finalized :
      (after : World)
      → (state_of policy.finalize).committed ≡ true
      → FinalizeEnd env p policy.calls before.db after.db
      → SessionEnd env p left policy before (after, true)
  written :
      (db : Db)
      → (state_of policy.finalize).committed ≡ false
      → Written env.reason_override (terminal_params env p left policy) before.db db
      → SessionEnd env p left policy before (record before { db = db }, true)
  failed_write :
      (state_of policy.finalize).committed ≡ false
      → SessionEnd env p left policy before (before, false)
