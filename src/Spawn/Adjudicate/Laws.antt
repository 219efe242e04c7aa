-- ===== src/Spawn/Adjudicate/Laws.antt =====
-- When a session counts as a success, and what counts as an overrun of the budget.
use garrison.Common.{
  ◌≡◌, refl, ◌∙◌, sym, ap, ◌↔◌, inl, inr, Bool, true, [], ◌∷◌, ◌++◌, map, arith, Bool-cases,
}
use garrison.Common.Bytes.{codes}
use garrison.ClaudeProto.Events.{Text}
use garrison.Spawn.Adjudicate.{
  Result, WaitDetail, FinalizeState, adjudicate, IsClean, succeeded, completed,
  is_budget_terminal_reason, to_lower_ascii, at_offset,
}

IsClean-succeeded :
    (result : Result) (wait : WaitDetail) (ok : Bool) (f : FinalizeState)
    → IsClean result wait ok f
    → adjudicate result wait ok f ≡ (succeeded, completed)
unfolding adjudicate
IsClean-succeeded result wait ok f c =
    rw
      (
        c.no_bail, c.parsed, c.no_shutdown, c.in_time, c.no_cap, c.no_signal, c.seen, c.in_budget,
        c.no_error, c.finalized, c.accepted,
      )
      refl

succeeded-IsClean :
    (result : Result) (wait : WaitDetail) (ok : Bool) (f : FinalizeState)
    → adjudicate result wait ok f ≡ (succeeded, completed)
    → IsClean result wait ok f
unfolding adjudicate
succeeded-IsClean result wait ok f h = record {
  no_bail = ground arith;
  parsed = ground arith;
  no_shutdown = ground arith;
  in_time = ground arith;
  no_cap = ground arith;
  no_signal = ground arith;
  seen = ground arith;
  in_budget = ground arith;
  no_error = ground arith;
  finalized = ground arith;
  accepted = ground arith;
}

-- A session of a role succeeds exactly when none of the causes of failure applies: no server failed
-- at the start, every line was parsed, no shutdown, no deadline, no signal, the third failed
-- attempt to finalize was not reached, a result was seen that reports no error and no overrun of
-- the budget, a finalize that was expected is committed, and the acceptance check holds.
pub adjudicate_iff :
    (result : Result) (wait : WaitDetail) (ok : Bool) (f : FinalizeState)
    → (adjudicate result wait ok f ≡ (succeeded, completed)) ↔ IsClean result wait ok f
adjudicate_iff result wait ok f =
    (succeeded-IsClean result wait ok f, IsClean-succeeded result wait ok f)

-- A word of six letters that reads "budget" in some case, somewhere in the text.
abbrev pub HasBudget : Text → Type 0
HasBudget s =
    (before : Text) × (word : Text) × (after : Text) × (s ≡ before ++ word ++ after)
    × (map to_lower_ascii word ≡ codes "budget")

at_offset-word :
    (s : Text)
    → at_offset s ≡ true
    → (word : Text) × (after : Text) × (s ≡ word ++ after)
      × (map to_lower_ascii word ≡ codes "budget")
at_offset-word (b ∷ u ∷ d ∷ g ∷ e ∷ t ∷ s) h = (b ∷ u ∷ d ∷ g ∷ e ∷ t ∷ [], s, refl, ground arith)
at_offset-word [] h = cc
at_offset-word (b ∷ []) h = cc
at_offset-word (b ∷ u ∷ []) h = cc
at_offset-word (b ∷ u ∷ d ∷ []) h = cc
at_offset-word (b ∷ u ∷ d ∷ g ∷ []) h = cc
at_offset-word (b ∷ u ∷ d ∷ g ∷ e ∷ []) h = cc

word-at_offset :
    (word after : Text)
    → map to_lower_ascii word ≡ codes "budget"
    → at_offset (word ++ after) ≡ true
word-at_offset (b ∷ u ∷ d ∷ g ∷ e ∷ t ∷ []) after h = ground arith
word-at_offset [] after h = cc
word-at_offset (b ∷ []) after h = cc
word-at_offset (b ∷ u ∷ []) after h = cc
word-at_offset (b ∷ u ∷ d ∷ []) after h = cc
word-at_offset (b ∷ u ∷ d ∷ g ∷ []) after h = cc
word-at_offset (b ∷ u ∷ d ∷ g ∷ e ∷ []) after h = cc
word-at_offset (b ∷ u ∷ d ∷ g ∷ e ∷ t ∷ c ∷ word) after h = cc

budget-word : (s : Text) → is_budget_terminal_reason s ≡ true → HasBudget s
unfolding is_budget_terminal_reason
budget-word [] h = cc
budget-word (c ∷ s) h = elim (Bool-cases (at_offset (c ∷ s))) [
  | inl y ↦ let (word, after, e, l) = at_offset-word (c ∷ s) y in ([], word, after, e, l)
  | inr n ↦
      let (before, word, after, e, l) = budget-word s (ground arith) in
      (c ∷ before, word, after, ap (λ t. c ∷ t) e, l)
]

empty-word : (word after : Text) → map to_lower_ascii word ≡ codes "budget" → ¬ (word ++ after ≡ [])
empty-word [] after h e = cc
empty-word (c ∷ word) after h e = cc

word-budget :
    (s before word after : Text)
    → s ≡ before ++ word ++ after
    → map to_lower_ascii word ≡ codes "budget"
    → is_budget_terminal_reason s ≡ true
unfolding is_budget_terminal_reason
word-budget [] [] word after e l = absurd (empty-word word after l (sym e))
word-budget [] (b ∷ before) word after e l = cc
word-budget (c ∷ s) [] word after e l =
    let at : at_offset (c ∷ s) ≡ true = ap at_offset e ∙ word-at_offset word after l in rw at refl
word-budget (c ∷ s) (b ∷ before) word after e l =
    let rest = word-budget s before word after (cc) l in ground arith

-- The scan for an overrun answers yes exactly when the text holds the word "budget", in upper or
-- lower case letters, at some place.
pub budget_iff : (s : Text) → (is_budget_terminal_reason s ≡ true) ↔ HasBudget s
budget_iff s = (budget-word s, (λ (before, word, after, e, l). word-budget s before word after e l))
