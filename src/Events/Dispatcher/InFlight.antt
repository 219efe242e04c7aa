-- ===== src/Events/Dispatcher/InFlight.antt =====
-- Two handlers never run at once for one event.
use garrison.Common.{
  ℕ, String, ◌≡◌, ap, ◌≢◌, inl, inr, true, false, Option, none, some, List, [], ◌∷◌, arith, ◌==◌,
  if◌then◌else◌, Bool-cases, All, All-mono, Result, ok, err,
}
use garrison.Events.Dispatcher.{
  RouteTable, Dispatcher, Decoder, DispatchError, Verdict, started, new_dispatcher, contains,
  remove, route, event_of, claim_event, on_route, dispatch_begin, dispatch_end, set_dynamic_routes,
}

-- A handler that runs, and its event.
pub record Task : Type 0 where
  pub handler : ℕ
  pub event : ℕ

-- The dispatcher, with the handlers that run.
pub record State : Type 0 where
  pub dispatcher : Dispatcher
  pub running : List Task

abbrev pub start : Verdict → List Task → List Task
start (started h e) ts = record { handler = h; event = e } ∷ ts
start _ ts = ts

-- The tasks but those of an event that has ended.
abbrev pub drop_event : ℕ → List Task → List Task
drop_event e [] = []
drop_event e (t ∷ ts) = let rest = drop_event e ts in if t.event == e then rest else t ∷ rest

pub data Step (dec : Decoder) (s : State) : State → Type 0 where
  -- A notification or a polled row.
  notification :
      (channel payload : String)
      → Step dec s (
          let (d, v) = dispatch_begin dec s.dispatcher channel payload in
          record { dispatcher = d; running = start v s.running })
  -- A handler of `event` returns.
  handler_returns :
      (event : ℕ)
      → Step dec s (record {
        dispatcher = dispatch_end s.dispatcher event;
        running = drop_event event s.running;
      })
  roster_changes :
      (routes : RouteTable)
      → Step dec s (record s { dispatcher = set_dynamic_routes routes s.dispatcher })

pub data Reach (dec : Decoder) (s : State) : State → Type 0 where
  here : Reach dec s s
  next : {t u : State} → Reach dec s t → Step dec t u → Reach dec s u

-- `event` stands for no task of the list.
abbrev pub NotRunning : ℕ → List Task → Type 0
NotRunning e = All (λ (t : Task). t.event ≢ e)

abbrev pub Distinct : List Task → Type 0
Distinct [] = Unit
Distinct (t ∷ ts) = NotRunning t.event ts × Distinct ts

record Inv (s : State) : Type 0 where
  tracked : All (λ (t : Task). contains t.event s.dispatcher.in_flight ≡ true) s.running
  distinct : Distinct s.running

contains-head : (e : ℕ) (es : List ℕ) → contains e (e ∷ es) ≡ true
unfolding contains
contains-head e es = ground arith

contains-cons : (e x : ℕ) (es : List ℕ) → contains e es ≡ true → contains e (x ∷ es) ≡ true
unfolding contains
contains-cons e x es h = ground arith

contains-remove :
    (e x : ℕ) (es : List ℕ) → e ≢ x → contains e es ≡ true → contains e (remove x es) ≡ true
unfolding contains remove
contains-remove e x [] n h = cc
contains-remove e x (y ∷ es) n h = ground (arith, contains-remove e x es n)

untracked :
    (e : ℕ) (es : List ℕ) (ts : List Task)
    → contains e es ≡ false
    → All (λ (t : Task). contains t.event es ≡ true) ts
    → NotRunning e ts
untracked e es [] n h = tt
untracked e es (t ∷ ts) n h = ((λ same. cc (ap (λ x. contains x es) same)), untracked e es ts n h.1)

tracked-drop_event :
    (e : ℕ) (es : List ℕ) (ts : List Task)
    → All (λ (t : Task). contains t.event es ≡ true) ts
    → All (λ (t : Task). contains t.event (remove e es) ≡ true) (drop_event e ts)
tracked-drop_event e es [] h = tt
tracked-drop_event e es (t ∷ ts) h = elim (Bool-cases (t.event == e)) [
  | inl y ↦ rw y (tracked-drop_event e es ts h.1)
  | inr n ↦ rw n (contains-remove t.event e es (ground arith) h.0, tracked-drop_event e es ts h.1)
]

NotRunning-drop_event :
    (e x : ℕ) (ts : List Task) → NotRunning e ts → NotRunning e (drop_event x ts)
NotRunning-drop_event e x [] h = tt
NotRunning-drop_event e x (t ∷ ts) h = ground (arith, NotRunning-drop_event e x ts h.1)

Distinct-drop_event : (e : ℕ) (ts : List Task) → Distinct ts → Distinct (drop_event e ts)
Distinct-drop_event e [] h = tt
Distinct-drop_event e (t ∷ ts) h =
    ground (arith, NotRunning-drop_event t.event e ts h.0, Distinct-drop_event e ts h.1)

abbrev started_state : Dispatcher × Verdict → List Task → State
started_state (d, v) ts = record { dispatcher = d; running = start v ts }

claim_event-Inv :
    (d : Dispatcher) (h : ℕ) (e : Result DispatchError ℕ) (ts : List Task)
    → Inv (record { dispatcher = d; running = ts })
    → Inv (started_state (claim_event d h e) ts)
unfolding claim_event
claim_event-Inv d h (err x) ts i = i
claim_event-Inv d h (ok e) ts i = elim (Bool-cases (contains e d.in_flight)) [
  | inl y ↦ rw y i
  | inr n ↦ rw n (record {
    tracked = (
      contains-head e d.in_flight,
      All-mono (λ (t : Task). contains t.event d.in_flight ≡ true)
          (λ (t : Task). contains t.event (e ∷ d.in_flight) ≡ true)
          (λ t. contains-cons t.event e d.in_flight) ts i.tracked,
    );
    distinct = (untracked e d.in_flight ts n i.tracked, i.distinct);
  })
]

on_route-Inv :
    (dec : Decoder) (d : Dispatcher) (payload : String) (o : Option ℕ) (ts : List Task)
    → Inv (record { dispatcher = d; running = ts })
    → Inv (started_state (on_route dec d payload o) ts)
unfolding on_route
on_route-Inv dec d payload none ts i = i
on_route-Inv dec d payload (some h) ts i = claim_event-Inv d h (event_of dec payload) ts i

Step-Inv : (dec : Decoder) (s : State) {t : State} → Step dec s t → Inv s → Inv t
unfolding dispatch_begin dispatch_end set_dynamic_routes
Step-Inv dec s (notification channel payload) i =
    on_route-Inv dec s.dispatcher payload (route s.dispatcher channel) s.running i
Step-Inv dec s (handler_returns e) i = record {
  tracked = tracked-drop_event e s.dispatcher.in_flight s.running i.tracked;
  distinct = Distinct-drop_event e s.running i.distinct;
}
Step-Inv dec s (roster_changes routes) i = record { tracked = i.tracked; distinct = i.distinct }

Reach-Inv : (dec : Decoder) {s t : State} → Reach dec s t → Inv s → Inv t
Reach-Inv dec here i = i
Reach-Inv dec (next r st) i = Step-Inv dec _ st (Reach-Inv dec r i)

-- From a new dispatcher, in every order of notifications, polled rows, returns of handlers and
-- changes of the roster: no two of the handlers that run have the same event.
pub running-Distinct :
    (dec : Decoder) (handlers : RouteTable) (s : State)
    → Reach dec (record { dispatcher = new_dispatcher handlers; running = [] }) s
    → Distinct s.running
running-Distinct dec handlers s r =
    (Reach-Inv dec r (record { tracked = tt; distinct = tt })).distinct
