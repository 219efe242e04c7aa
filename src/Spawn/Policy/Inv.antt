-- ===== src/Spawn/Policy/Inv.antt =====
-- The invariant of the policy: a commit is called or due exactly when one was accepted.
use garrison.Common.{
  ℕ, ◌+◌, ◌≤◌, String, ◌≡◌, refl, ◌∙◌, sym, ap, ◌⊎◌, inl, inr, Bool, true, false, ◌&&◌, Option,
  none, some, List, [], ◌∷◌, ◌++◌, leb, ltb, str_eq, if◌then◌else◌, arith, Bool-cases, Option-cases,
  if-elim,
}
use garrison.ClaudeProto.Health.{Health, check_mcp_health, healthy, offender}
use garrison.ClaudeProto.Events.{InitEvent, ToolUseBlock, RateLimitEvent}
use garrison.ClaudeProto.Decode.{is_empty}
use garrison.Spawn.Adjudicate.{ExitReason}
use garrison.Spawn.Policy.Tools.{is_expected_finalize_tool, is_mempalace_tool_name}
use garrison.Spawn.Policy.{
  Call, committed_with, bailed_for, rate_limited, FinalizeHook, FinalizePolicy, FinalizeDeps,
  new_finalize_policy, call_bail, input_of, on_init, init_outcome, on_rate_limit, Termination,
  terminate_parse_error, terminate_bail, on_terminate, record_input, mark_attempted,
  record_finalize_tool_use, observe_tool_use, observe_tool_uses, handle_finalize_ok,
  handle_failed_attempt, new_hook,
}

abbrev pub bit : Bool → ℕ
bit true = 1
bit false = 0

abbrev pub is_commit : Call → ℕ
is_commit (committed_with payload result) = 1
is_commit _ = 0

-- How often `onCommit` was called.
abbrev pub commits : List Call → ℕ
commits [] = 0
commits (c ∷ calls) = is_commit c + commits calls

pub commits-append :
    (calls : List Call) (c : Call) → commits (calls ++ c ∷ []) ≡ commits calls + is_commit c
commits-append [] c = omega arith
commits-append (d ∷ calls) c = omega (arith, commits-append calls c)

module _ (w : Bool) where
  pub record HookInv (hook : FinalizeHook) (calls : List Call) : Type 0 where
    pub count :
        commits calls + bit hook.pending_commit ≡ bit (hook.on_commit && hook.state.committed)
    pub capped : hook.state.committed ≡ false → hook.state.cap_exhausted ≡ leb 3 hook.attempts
    pub wired : hook.on_commit ≡ w
    pub tried : hook.state.cap_exhausted ≡ true → 3 ≤ hook.attempts

  abbrev pub InvOf : Option FinalizeHook → List Call → Type 0
  InvOf none calls = commits calls ≡ 0
  InvOf (some hook) calls = HookInv hook calls

  abbrev pub Inv : FinalizePolicy → Type 0
  Inv p = InvOf p.finalize p.calls

  pub new_finalize_policy-Inv :
      (deps : FinalizeDeps) (bails : Bool)
      → deps.on_commit ≡ w
      → Inv (new_finalize_policy deps bails)
  unfolding new_finalize_policy new_hook
  new_finalize_policy-Inv deps bails o = elim (Bool-cases deps.expected) [
    | inl y ↦
        rw (y, new_finalize_policy)
          (record { count = ground arith; capped = λ h. refl; tried = λ h. cc; wired = o })
    | inr n ↦ rw (n, new_finalize_policy) refl
  ]

  -- A call of another closure changes no count.
  pub other-Inv :
      (o : Option FinalizeHook) (calls : List Call) (c : Call)
      → is_commit c ≡ 0
      → InvOf o calls
      → InvOf o (calls ++ c ∷ [])
  other-Inv none calls c z inv = commits-append calls c ∙ omega (arith, z, inv)
  other-Inv (some hook) calls c z inv = record {
    count = omega (arith, z, inv.count, commits-append calls c);
    capped = inv.capped;
    tried = inv.tried;
    wired = inv.wired;
  }

  pub choose-Inv :
      (b : Bool) (p q : FinalizePolicy)
      → (b ≡ true → Inv p)
      → (b ≡ false → Inv q)
      → Inv (if b then p else q)
  choose-Inv b p q = if-elim Inv b p q

  call_bail-Inv : (reason : ExitReason) (p : FinalizePolicy) → Inv p → Inv (call_bail reason p)
  call_bail-Inv reason p inv =
      choose-Inv p.bail_fn _ p (λ y. other-Inv p.finalize p.calls (bailed_for reason) refl inv)
        (λ n. inv)

  pub on_terminate-Inv : (t : Termination) (p : FinalizePolicy) → Inv p → Inv (on_terminate t p)
  unfolding on_terminate
  on_terminate-Inv terminate_parse_error p inv = call_bail-Inv _ (record p { result = _ }) inv
  on_terminate-Inv terminate_bail p inv =
      choose-Inv p.result.mcp_bailed _ _ (λ y. call_bail-Inv _ p inv) (λ n. call_bail-Inv _ p inv)

  pub on_rate_limit-Inv :
      (e : RateLimitEvent) (p : FinalizePolicy) → Inv p → Inv (on_rate_limit e p)
  unfolding on_rate_limit
  on_rate_limit-Inv e p inv =
      choose-Inv (str_eq e.info.status "rejected" && p.on_rate_limit_rejected) _ p
        (λ y. other-Inv p.finalize p.calls (rate_limited e p.result) refl inv) (λ n. inv)

  mark_attempted-Inv :
      (hook : FinalizeHook) (calls : List Call)
      → HookInv hook calls
      → HookInv (mark_attempted hook) calls
  unfolding mark_attempted
  mark_attempted-Inv hook calls inv =
      if-elim (λ h. HookInv h calls) hook.state.committed hook _ (λ y. inv)
        (λ n. record {
          count = inv.count;
          capped = inv.capped;
          tried = inv.tried;
          wired = inv.wired;
        })

  record_input-Inv :
      (tu : ToolUseBlock) (hook : FinalizeHook) (calls : List Call)
      → HookInv hook calls
      → HookInv (record_input tu hook) calls
  unfolding record_input
  record_input-Inv tu hook calls inv =
      if-elim (λ h. HookInv h calls) (is_empty tu.input_raw) hook _ (λ y. inv)
        (λ n. record {
          count = inv.count;
          capped = inv.capped;
          tried = inv.tried;
          wired = inv.wired;
        })

  init_outcome-Inv :
      (h : Health) (e : InitEvent) (p : FinalizePolicy) → Inv p → Inv (init_outcome h e p).1
  unfolding init_outcome
  init_outcome-Inv healthy e p inv = inv
  init_outcome-Inv (offender name status) e p inv = inv

  pub on_init-Inv : (e : InitEvent) (p : FinalizePolicy) → Inv p → Inv (on_init e p).1
  unfolding on_init
  on_init-Inv e p inv = init_outcome-Inv (check_mcp_health e.mcp_servers) e p inv

  -- By the hook, if there is one.
  pub hook-cases :
      (p : FinalizePolicy)
      → Inv p
      → ((p.finalize ≡ none) × (commits p.calls ≡ 0))
        ⊎ ((hook : FinalizeHook) × (p.finalize ≡ some hook) × HookInv hook p.calls)
  hook-cases p inv = elim (Option-cases p.finalize) [
    | inl n ↦ inl (n, rw n at inv)
    | inr (hook, e) ↦ inr (hook, e, rw e at inv)
  ]

  observe_tool_use-Inv :
      (tu : ToolUseBlock) (p : FinalizePolicy) → Inv p → Inv (observe_tool_use tu p)
  unfolding observe_tool_use record_finalize_tool_use
  observe_tool_use-Inv tu p inv = elim (hook-cases p inv) [
    | inl (n, z) ↦ rw (n, observe_tool_use) inv
    | inr (hook, e, h) ↦
        rw (e, observe_tool_use)
          (choose-Inv (is_mempalace_tool_name tu.name) p _ (λ y. inv)
            (λ n.
              choose-Inv (is_expected_finalize_tool hook.tool_name tu.name) _ p
                (λ y. mark_attempted-Inv _ p.calls (record_input-Inv tu hook p.calls h))
                (λ m. inv)))
  ]

  pub observe_tool_uses-Inv :
      (tus : List ToolUseBlock) (p : FinalizePolicy) → Inv p → Inv (observe_tool_uses tus p)
  unfolding observe_tool_uses
  observe_tool_uses-Inv [] p inv = inv
  observe_tool_uses-Inv (tu ∷ tus) p inv =
      observe_tool_uses-Inv tus _ (observe_tool_use-Inv tu p inv)

  -- A success that is accepted: it is now due or called.
  pub handle_finalize_ok-Inv :
      (id : String) (hook : FinalizeHook) (p : FinalizePolicy)
      → commits p.calls ≡ 0
      → hook.pending_commit ≡ false
      → (hook.state.cap_exhausted ≡ true → 3 ≤ hook.attempts)
      → hook.on_commit ≡ w
      → Inv (handle_finalize_ok id hook p)
  unfolding handle_finalize_ok
  handle_finalize_ok-Inv id hook p z n tried o =
      choose-Inv (ltb 0 hook.result_grace && hook.on_commit) _ _
        (λ y. record { count = ground arith; capped = λ h. cc; tried = tried; wired = o })
        (λ m.
          choose-Inv hook.on_commit _ _
            (λ y. record {
              count = omega (
                arith,
                commits-append p.calls (committed_with (input_of id hook.tool_use_inputs) p.result),
                z,
                ap bit n,
                ap (λ b. bit (b && true)) y,
              );
              capped = λ h. cc;
              tried = tried;
              wired = o;
            })
            (λ k. record { count = ground arith; capped = λ h. cc; tried = tried; wired = o }))

  pub handle_failed_attempt-Inv :
      (hook : FinalizeHook) (p : FinalizePolicy)
      → commits p.calls ≡ 0
      → hook.pending_commit ≡ false
      → hook.state.committed ≡ false
      → (hook.state.cap_exhausted ≡ true → 3 ≤ hook.attempts)
      → hook.on_commit ≡ w
      → Inv (handle_failed_attempt hook p)
  unfolding handle_failed_attempt
  handle_failed_attempt-Inv hook p z n c tried o =
      choose-Inv (leb 3 hook.attempts) _ _
        (λ y.
          call_bail-Inv _
            (record p {
              finalize = some (record hook { state = record hook.state { cap_exhausted = true } });
            })
            (record {
              count = ground arith;
              capped = λ h. sym y;
              tried = λ h. ground arith;
              wired = o;
            }))
        (λ m. record { count = ground arith; capped = λ h. ground arith; tried = tried; wired = o })
