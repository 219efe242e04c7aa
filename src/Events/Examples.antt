-- ===== src/Events/Examples.antt =====
-- The theorems on the dispatcher and the poll, at concrete inputs.
use garrison.Common.{
  ℕ, zero, suc, String, ◌≡◌, refl, ◌⊎◌, inl, inr, false, Option, none, some, List, [], ◌∷◌, map,
  eq_iff, ◌==◌, str_eq, Bool-cases,
}
use garrison.Events.Dispatcher.{
  RouteTable, Dispatcher, new_dispatcher, dispatch_begin, dispatch_end,
}
use garrison.Events.Dispatcher.InFlight.{
  State, Task, start, here, next, notification, Distinct, running-Distinct,
}
use garrison.Events.Poller.{Row, Env, poll_once}
use garrison.Events.Poller.Due.{IsCodec, due, accepted, poll_once-due}

-- An event id is the text `e`, followed by as many `s` as its number.
numeral : ℕ → String
numeral zero = "e"
numeral (suc n) = String.◌∷◌ "s" (numeral n)

count : String → Option ℕ
count String.[] = none
count (String.◌∷◌ c String.[]) = some 0
count (String.◌∷◌ c (String.◌∷◌ d s)) = elim (count (String.◌∷◌ d s)) [
  | none ↦ none
  | some n ↦ some (suc n)
]

count-numeral : (n : ℕ) → count (numeral n) ≡ some n
unfolding count numeral
count-numeral zero = refl
count-numeral (suc zero) = refl
count-numeral (suc (suc n)) = rw (count-numeral (suc n))

numeral-nonempty : (n : ℕ) → str_eq (numeral n) "" ≡ false
unfolding numeral
numeral-nonempty zero = refl
numeral-nonempty (suc n) = elim (Bool-cases (str_eq (String.◌∷◌ "s" (numeral n)) "")) [
  | inl y ↦ let h = (eq_iff (String.◌∷◌ "s" (numeral n)) "").0 y in cc
  | inr differs ↦ differs
]

abbrev env : Env
env = record {
  decoder = record { envelope = some; uuid = count };
  encoder = record { envelope = λ s. s; format_uuid = numeral };
  succeeds = λ h e. e == 4;
}

env-IsCodec : IsCodec env
env-IsCodec = record { envelope = λ s. refl; uuid = count-numeral; nonempty = numeral-nonempty }

abbrev handlers : RouteTable
handlers = ("base", 1) ∷ []

abbrev base : Dispatcher
base = new_dispatcher handlers

-- Two rows with a route, and one without; the first handler fails.
abbrev rows : List Row
rows =
    record { id = 3; channel = "base" }
    ∷ record { id = 1; channel = "none" }
    ∷ record { id = 4; channel = "base" }
    ∷ []

poll_once-due_example :
    ((some rows ≡ none) × (poll_once env base (some 1) 2 (some rows) ≡ (none, some 1)))
    ⊎ ((rs : List Row) × (some rows ≡ some rs)
        × (poll_once env base (some 1) 2 (some rows) ≡ (
          some (record { dispatcher = base; ran = due base rs; dispatched = accepted env base rs }),
          some 2,
        )))
poll_once-due_example = poll_once-due env base 1 2 (some rows) env-IsCodec

ran_both :
    (poll_once env base (some 1) 2 (some rows)).0
    ≡ some (record {
      dispatcher = base;
      ran = record { handler = 1; event = 3 } ∷ record { handler = 1; event = 4 } ∷ [];
      dispatched = 1;
    })
unfolding poll_once dispatch_end count numeral
ran_both = refl

-- The event 3 is delivered twice while its handler runs, and event 4 once.
abbrev delivered : String → State → State
delivered payload s =
    let (d, v) = dispatch_begin env.decoder s.dispatcher "base" payload in
    record { dispatcher = d; running = start v s.running }

abbrev thrice : State
thrice =
    delivered "sssse"
      (delivered "ssse" (delivered "ssse" (record { dispatcher = base; running = [] })))

two_run : map (λ (t : Task). t.event) thrice.running ≡ 4 ∷ 3 ∷ []
unfolding dispatch_begin count
two_run = refl

running-Distinct_example : Distinct thrice.running
running-Distinct_example = running-Distinct env.decoder handlers thrice (
    next (next (next here (notification "base" "ssse")) (notification "base" "ssse"))
      (notification "base" "sssse"))
