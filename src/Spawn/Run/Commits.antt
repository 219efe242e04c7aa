-- ===== src/Spawn/Run/Commits.antt =====
-- `Run` returns, and calls `onCommit` exactly as often as a finalize was accepted.
use garrison.Common.{
  ℕ, ◌≡◌, refl, ap, Bool, false, ◌&&◌, Option, none, some, List, [], ◌∷◌, ◌++◌, if-elim, leb, arith,
}
use garrison.ClaudeProto.Events.{Text}
use garrison.ClaudeProto.Decode.{Json}
use garrison.ClaudeProto.Router.{RouterAction, continue, bail, Routed}
use garrison.ClaudeProto.Router.Ends.{route-Keeps}
use garrison.Spawn.Policy.{
  Call, FinalizePolicy, FinalizeHook, FinalizeDeps, new_finalize_policy, router, has_pending_commit,
  fire_pending_commit,
}
use garrison.Spawn.Policy.Inv.{bit, commits, InvOf, Inv, on_terminate-Inv, new_finalize_policy-Inv}
use garrison.Spawn.Policy.Keeps.{router-Keeps, fire_pending_commit-Inv, fire_pending_commit-done}
use garrison.Spawn.Run.{
  Input, closed, line, scan_error, grace_expired, tick, cancelled, RunError, route_failed, RunLoop,
  Step, go_on, done, Dispatched, by_action, terminated, scan_failed, context_cancelled,
  dispatch_stream_line, after_line, on_line, result_due, step, run, start,
}

-- One commit if a finalize was accepted and there is a closure to call, else none; and the cap is
-- reached exactly from the third attempt on, as long as none was accepted.
abbrev pub SettledHook : Bool → Option FinalizeHook → ℕ → Type 0
SettledHook on_commit none n = n ≡ 0
SettledHook on_commit (some hook) n =
    (n ≡ bit (on_commit && hook.state.committed))
    × (hook.state.committed ≡ false → hook.state.cap_exhausted ≡ leb 3 hook.attempts)

abbrev pub Settled : Bool → FinalizePolicy → Type 0
Settled on_commit p = SettledHook on_commit p.finalize (commits p.calls)

module _ (w : Bool) where
  -- What holds of the policy while the loop goes on, and of the one that it returns.
  abbrev StepInv : Step → Type 0
  StepInv (go_on l) = Inv w l.policy
  StepInv (done p e) = Inv w p × (has_pending_commit p ≡ false)

  fired-Inv :
      (p : FinalizePolicy) (e : Option RunError)
      → Inv w p
      → StepInv (done (fire_pending_commit p) e)
  fired-Inv p e inv = (fire_pending_commit-Inv w p inv, fire_pending_commit-done w p)

  by_action-Inv : (a : RouterAction) (p : FinalizePolicy) → Inv w p → Inv w (by_action a p).policy
  unfolding by_action
  by_action-Inv continue p inv = inv
  by_action-Inv bail p inv = on_terminate-Inv w _ p inv

  terminated-Inv : (o : Routed FinalizePolicy) → Inv w o.state → Inv w (terminated o).policy
  unfolding terminated
  terminated-Inv o inv =
      if-elim (λ (d : Dispatched). Inv w d.policy) o.failed _ _
        (λ y. on_terminate-Inv w _ o.state inv) (λ n. by_action-Inv o.action o.state inv)

  module _ (json : Json) (body_ok : Text → Bool) where
    on_line-Inv : (raw : Text) (l : RunLoop) → Inv w l.policy → StepInv (on_line json body_ok raw l)
    unfolding on_line dispatch_stream_line after_line
    on_line-Inv raw l inv =
        let kept =
          terminated-Inv _
            (route-Keeps json (router body_ok) (Inv w) (router-Keeps w body_ok) raw l.policy inv) in
        if-elim StepInv (dispatch_stream_line json body_ok raw l.policy).failed _ _
          (λ y. fired-Inv _ (some route_failed) kept)
          (λ n.
            if-elim StepInv (result_due (dispatch_stream_line json body_ok raw l.policy).policy) _ _
              (λ y. fired-Inv _ none kept) (λ m. kept))

    step-Inv : (i : Input) (l : RunLoop) → Inv w l.policy → StepInv (step json body_ok i l)
    unfolding step
    step-Inv (line raw) l inv = on_line-Inv raw l inv
    step-Inv scan_error l inv = fired-Inv _ (some scan_failed) inv
    step-Inv closed l inv = fired-Inv _ none inv
    step-Inv grace_expired l inv =
        if-elim StepInv l.grace_armed _ (go_on l) (λ y. fired-Inv _ none inv) (λ n. inv)
    step-Inv tick l inv =
        if-elim StepInv (l.grace_armed && result_due l.policy)
          (done (fire_pending_commit l.policy) none) (go_on l) (λ y. fired-Inv _ none inv)
          (λ n. inv)
    step-Inv cancelled l inv = fired-Inv _ (some context_cancelled) inv

    pub run-Inv :
        (inputs : List Input) (l : RunLoop) → Inv w l.policy → StepInv (run json body_ok inputs l)
    unfolding run
    run-Inv [] l inv = inv
    run-Inv (i ∷ inputs) l inv =
        next (λ l'. run-Inv inputs l') (step json body_ok i l) (step-Inv i l inv)
      where
        next :
            ((l' : RunLoop) → Inv w l'.policy → StepInv (run json body_ok inputs l'))
            → (s : Step) → StepInv s
            → StepInv (elim s [ done p e ↦ done p e | go_on l' ↦ run json body_ok inputs l' ])
        next rest (done p e) h = h
        next rest (go_on l') h = rest l' h

    -- The loop has returned.
    abbrev IsDone : Step → Type 0
    IsDone s = (p : FinalizePolicy) × (e : Option RunError) × (s ≡ done p e)

    run-IsDone :
        (inputs rest : List Input) (l : RunLoop)
        → IsDone (run json body_ok (inputs ++ closed ∷ rest) l)
    unfolding run step
    run-IsDone [] rest l = (_, _, refl)
    run-IsDone (i ∷ inputs) rest l = next (λ l'. run-IsDone inputs rest l') (step json body_ok i l)
      where
        next :
            ((l' : RunLoop) → IsDone (run json body_ok (inputs ++ closed ∷ rest) l'))
            → (s : Step)
            → IsDone (elim s [
              | done p e ↦ done p e
              | go_on l' ↦ run json body_ok (inputs ++ closed ∷ rest) l'
            ])
        next later (done p e) = (p, e, refl)
        next later (go_on l') = later l'

    SettledHook-Inv :
        (o : Option FinalizeHook) (n : List Call)
        → InvOf w o n
        → elim o [ none ↦ false | some hook ↦ hook.pending_commit ] ≡ false
        → SettledHook w o (commits n)
    SettledHook-Inv none calls inv h = inv
    SettledHook-Inv (some hook) calls inv h = (
      omega (arith, inv.count, ap bit h, ap (λ b. bit (b && hook.state.committed)) inv.wired),
      inv.capped,
    )

module _ (json : Json) (body_ok : Text → Bool) where
  -- Once the output of the session ends, `Run` has returned, whatever lines, timers and
  -- cancellations came in whatever order. The closure `onCommit`, if it is set, was then called
  -- exactly once if a finalize was accepted and never else, also when the call had to wait for the
  -- result; and unless one was accepted, the cap is reached exactly from the third attempt on.
  pub run-Settled :
      (deps : FinalizeDeps) (bails : Bool) (inputs rest : List Input)
      → (p : FinalizePolicy) × (e : Option RunError) × (run json body_ok
            (inputs ++ closed ∷ rest)
            (start (new_finalize_policy deps bails))
          ≡ done p e)
        × Settled deps.on_commit p
  unfolding has_pending_commit
  run-Settled deps bails inputs rest =
      let w = deps.on_commit in
      let l = start (new_finalize_policy deps bails) in
      let (p, e, q) = run-IsDone w json body_ok inputs rest l in
      let h : StepInv w (done p e) = rw q at (
        run-Inv w json body_ok (inputs ++ closed ∷ rest) l
          (new_finalize_policy-Inv w deps bails refl)) in
      (p, e, q, SettledHook-Inv w json body_ok p.finalize p.calls h.0 h.1)
