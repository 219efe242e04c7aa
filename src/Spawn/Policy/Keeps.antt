-- ===== src/Spawn/Policy/Keeps.antt =====
-- Every handler of the policy keeps its invariant.
use garrison.Common.{
  suc, ◌+◌, ◌≡◌, refl, ◌∙◌, ap, inl, inr, Bool, false, ◌&&◌, some, List, [], ◌∷◌, arith, Bool-cases,
  Option-cases, if-elim,
}
use garrison.ClaudeProto.Events.{Text, ToolResultSummary}
use garrison.ClaudeProto.Router.Ends.{Keeps}
use garrison.Spawn.Policy.{
  Call, committed_with, FinalizeHook, FinalizePolicy, on_assistant, on_user, on_result, router,
  has_pending_commit, fire_pending_commit, is_tracked, handle_attempt, handle_finalize_tool_result,
  observe_tool_result, observe_tool_results, ok_of,
}
use garrison.Spawn.Policy.Inv.{
  bit, commits, commits-append, HookInv, Inv, choose-Inv, hook-cases, observe_tool_uses-Inv,
  handle_finalize_ok-Inv, handle_failed_attempt-Inv, on_init-Inv, on_rate_limit-Inv,
}

module _ (w : Bool) where
  -- Before a commit is accepted none is called and none is due.
  open_hook :
      (hook : FinalizeHook) (calls : List Call)
      → HookInv w hook calls
      → hook.state.committed ≡ false
      → (commits calls ≡ 0) × (hook.pending_commit ≡ false)
  open_hook hook calls h c =
      let e : commits calls + bit hook.pending_commit ≡ 0 = h.count ∙ ground arith in
      elim (Bool-cases hook.pending_commit) [
        | inl y ↦ absurd (omega (arith, e, ap bit y))
        | inr n ↦ (omega (arith, e), n)
      ]

  handle_finalize_tool_result-Inv :
      (body_ok : Text → Bool) (r : ToolResultSummary) (p : FinalizePolicy)
      → Inv w p
      → Inv w (handle_finalize_tool_result body_ok r p)
  unfolding handle_finalize_tool_result handle_attempt
  handle_finalize_tool_result-Inv body_ok r p inv = elim (hook-cases w p inv) [
    | inl (n, z) ↦ rw (n, handle_finalize_tool_result) inv
    | inr (hook, e, h) ↦
        rw (e, handle_finalize_tool_result)
          (choose-Inv w hook.state.committed p _ (λ y. inv)
            (λ c.
              let (z, n) = open_hook hook p.calls h c in
              choose-Inv w (ok_of body_ok r.detail) _ _
                (λ y.
                  handle_finalize_ok-Inv w r.tool_use_id
                    (record hook { attempts = suc hook.attempts }) p z n
                    (λ t. omega (arith, h.tried t)) h.wired)
                (λ m.
                  handle_failed_attempt-Inv w (record hook { attempts = suc hook.attempts }) p z n c
                    (λ t. omega (arith, h.tried t)) h.wired)))
  ]

  observe_tool_result-Inv :
      (body_ok : Text → Bool) (r : ToolResultSummary) (p : FinalizePolicy)
      → Inv w p
      → Inv w (observe_tool_result body_ok r p)
  unfolding observe_tool_result
  observe_tool_result-Inv body_ok r p inv =
      choose-Inv w (is_tracked r.tool_use_id p.finalize_tool_use) _ p
        (λ y. handle_finalize_tool_result-Inv body_ok r p inv) (λ n. inv)

  observe_tool_results-Inv :
      (body_ok : Text → Bool) (rs : List ToolResultSummary) (p : FinalizePolicy)
      → Inv w p
      → Inv w (observe_tool_results body_ok rs p)
  unfolding observe_tool_results
  observe_tool_results-Inv body_ok [] p inv = inv
  observe_tool_results-Inv body_ok (r ∷ rs) p inv =
      observe_tool_results-Inv body_ok rs _ (observe_tool_result-Inv body_ok r p inv)

  pub router-Keeps : (body_ok : Text → Bool) → Keeps (router body_ok) (Inv w)
  unfolding router on_assistant on_user on_result
  router-Keeps body_ok = record {
    init = on_init-Inv w;
    assistant = λ e p inv. observe_tool_uses-Inv w e.tool_uses (record p { result = _ }) inv;
    user = λ e p inv. observe_tool_results-Inv body_ok e.tool_results p inv;
    rate_limit = on_rate_limit-Inv w;
    result = λ e p inv. inv;
    stream_event = λ e p inv. inv;
    task_started = λ raw p inv. inv;
    unknown = λ e p inv. inv;
  }

  fire_hook-Inv :
      (hook : FinalizeHook) (p : FinalizePolicy)
      → p.finalize ≡ some hook
      → HookInv w hook p.calls
      → Inv w (fire_pending_commit p)
  unfolding fire_pending_commit
  fire_hook-Inv hook p e h =
      rw (e, fire_pending_commit)
        (if-elim (Inv w) hook.pending_commit _ p
          (λ y.
            if-elim (Inv w) hook.on_commit _ _
              (λ o. record {
                count = omega (
                  arith,
                  h.count,
                  ap bit y,
                  commits-append p.calls (committed_with hook.pending_payload p.result),
                );
                capped = h.capped;
                tried = h.tried;
                wired = h.wired;
              })
              (λ o.
                absurd
                  (omega (arith, h.count, ap bit y, ap (λ b. bit (b && hook.state.committed)) o))))
          (λ n. rw e h))

  pub fire_pending_commit-Inv : (p : FinalizePolicy) → Inv w p → Inv w (fire_pending_commit p)
  unfolding fire_pending_commit
  fire_pending_commit-Inv p inv = elim (hook-cases w p inv) [
    | inl (n, z) ↦ rw (n, fire_pending_commit) inv
    | inr (hook, e, h) ↦ fire_hook-Inv hook p e h
  ]

  -- Nothing is due after `FirePendingCommit`.
  pub fire_pending_commit-done :
      (p : FinalizePolicy) → has_pending_commit (fire_pending_commit p) ≡ false
  unfolding fire_pending_commit has_pending_commit
  fire_pending_commit-done p = elim (Option-cases p.finalize) [
    | inl n ↦ rw (n, fire_pending_commit) (rw (n, has_pending_commit) refl)
    | inr (hook, e) ↦
        rw (e, fire_pending_commit)
          (if-elim (λ q. has_pending_commit q ≡ false) hook.pending_commit _ p
            (λ y.
              if-elim (λ q. has_pending_commit q ≡ false) hook.on_commit _ _ (λ o. refl)
                (λ o. refl))
            (λ n. rw (e, has_pending_commit) n))
  ]
