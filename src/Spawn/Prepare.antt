-- ===== src/Spawn/Prepare.antt =====
-- supervisor/internal/spawn: `prepareSpawn` of spawn.go with `checkDependencySatisfied` of m8.go and
-- the slots of inflight.go. One call runs without another between its statements. The queries read
-- the tables of `Db`; each of them can fail, as a function says that is a parameter, and so can the
-- decoding of payloads. The throttle gate is that of Throttle.Fire.
pub mod Starts
pub mod Cap
use garrison.Common.{
  ℕ, zero, suc, ◌+◌, String, ◌≡◌, refl, Bool, true, false, not, ◌&&◌, ◌||◌, Option, none, some,
  List, [], ◌∷◌, ◌++◌, str_eq, ◌==◌, if◌then◌else◌,
}
use garrison.Common.Int.{ℤ}
use garrison.ClaudeProto.Events.{Text}
use garrison.Throttle.Gate.{Money, check_cap, CapCheck}
use garrison.Throttle.Fire.{Call, Ledger, Gated, may_spawn, gate_failed, deferred, spawn_gate}

pub data Op : Type 0 where
  begin_tx lock_event get_department mark_missing commit_missing cap_department count_running : Op
  commit_audit get_ticket get_satisfaction insert_instance commit_running : Op

pub record Event : Type 0 where
  pub id : ℕ
  pub processed : Bool
  pub payload : Text

pub record Department : Type 0 where
  pub id : ℕ
  pub company : Option ℕ
  pub concurrency_cap : ℤ
  pub satisfaction_columns : Text

pub record Ticket : Type 0 where
  pub id : ℕ
  pub department : ℕ
  pub column_slug : String
  pub depends_on : Option ℕ

pub record Run : Type 0 where
  pub id : ℕ
  pub department : ℕ
  pub ticket : ℕ
  pub role_slug : String
  pub is_running : Bool

abbrev pub find : {A : Type 0} → (A → ℕ) → ℕ → List A → Option A
find key id [] = none
find key id (x ∷ xs) = if key x == id then some x else find key id xs

-- CountRunningByDepartment
abbrev pub running_in : ℕ → List Run → ℕ
running_in d [] = 0
running_in d (r ∷ runs) = (if r.department == d && r.is_running then 1 else 0) + running_in d runs

abbrev mark_event : ℕ → List Event → List Event
mark_event id [] = []
mark_event id (e ∷ events) =
    (if e.id == id then record e { processed = true } else e) ∷ mark_event id events

abbrev pub holds : ℕ → List ℕ → Bool
holds a [] = false
holds a (x ∷ xs) = if x == a then true else holds a xs

abbrev pub release : ℕ → List ℕ → List ℕ
release a [] = []
release a (x ∷ xs) = if x == a then release a xs else x ∷ release a xs

module _ (m : Money) where
  open m use {Numeric}

  pub record Db : Type 0 where
    pub events : List Event
    pub departments : List Department
    pub tickets : List Ticket
    pub runs : List Run
    pub ledgers : ℕ → Ledger m

  -- The tables, and the agents with a spawn in flight.
  pub record State : Type 0 where
    pub db : Db
    pub inflight : List ℕ

  -- `Deps` and what it reaches: `json.Unmarshal` with `parseUUID` for a payload, the cache of
  -- agents, and what the gate takes.
  pub record Deps : Type 1 where
    pub fails : Op → Bool
    pub decode_payload : Text → Option (ℕ × ℕ)
    pub decode_columns : Text → Option (List String)
    pub slots_enforced : Bool
    pub agent_of : ℕ → String → Option ℕ
    pub throttled : Bool
    pub gate_fails : Call → Bool
    pub default_spawn_cost_usd : Option Numeric
    pub now : ℕ
    pub new_id : ℕ

  -- `spawnPrep` with its error; the slot of a spawn that is prepared is handed on with it.
  pub data Prep : Type 0 where
    prep_error prep_done prep_deferred : Prep
    prepared : ℕ → ℕ → Department → Option ℕ → Prep

  -- A query that returns one row: an error if it fails or there is none.
  abbrev query : {A : Type 0} → Deps → Op → Option A → Option A
  query deps op row = if deps.fails op then none else row

  default_columns : List String
  default_columns = "qa_review" ∷ "done" ∷ []

  non_empty_or_default : Option (List String) → List String
  unfolding default_columns
  non_empty_or_default none = default_columns
  non_empty_or_default (some []) = default_columns
  non_empty_or_default (some (c ∷ columns)) = c ∷ columns

  decode_satisfaction_columns : Deps → Text → List String
  unfolding default_columns non_empty_or_default
  decode_satisfaction_columns deps [] = default_columns
  decode_satisfaction_columns deps (c ∷ raw) = non_empty_or_default (deps.decode_columns (c ∷ raw))

  abbrev is_among : String → List String → Bool
  is_among s [] = false
  is_among s (c ∷ columns) = if str_eq c s then true else is_among s columns

  -- GetTicketSatisfactionState: the column of a ticket and the columns of its department.
  satisfaction_state : Db → ℕ → Option (Ticket × Department)
  satisfaction_state db id = elim (find (λ (t : Ticket). t.id) id db.tickets) [
    | none ↦ none
    | some t ↦ elim (find (λ (d : Department). d.id) t.department db.departments) [
      | none ↦ none
      | some d ↦ some (t, d)
    ]
  ]

  is_satisfied : Deps → Option (Ticket × Department) → Bool
  unfolding decode_satisfaction_columns
  is_satisfied deps none = true
  is_satisfied deps (some (t, d)) =
      is_among t.column_slug (decode_satisfaction_columns deps d.satisfaction_columns)

  -- Any error of the second query counts as satisfied.
  pub check_dependency_satisfied : Deps → Db → ℕ → Option Bool
  unfolding satisfaction_state is_satisfied
  check_dependency_satisfied deps db ticket =
      elim (query deps get_ticket (find (λ (t : Ticket). t.id) ticket db.tickets)) [
        | none ↦ none
        | some t ↦ elim (t.depends_on) [
          | none ↦ some true
          | some predecessor ↦
              some (
                is_satisfied deps (query deps get_satisfaction (satisfaction_state db predecessor)))
        ]
      ]

  pub new_run : Deps → ℕ → ℕ → String → Run
  new_run deps department ticket role_slug = record {
    id = deps.new_id;
    department = department;
    ticket = ticket;
    role_slug = role_slug;
    is_running = true;
  }

  -- InsertRunningInstance and the commit
  insert_running : Deps → ℕ → Department → String → Option ℕ → State → State × Prep
  unfolding new_run
  insert_running deps ticket d role_slug slot s =
      if deps.fails insert_instance || deps.fails commit_running then (s, prep_error) else (
        record s {
          db = record s.db { runs = s.db.runs ++ new_run deps d.id ticket role_slug ∷ [] };
        },
        prepared deps.new_id ticket d slot,
      )

  after_dependency : Deps → ℕ → Department → String → Option ℕ → State → Option Bool → State × Prep
  unfolding insert_running
  after_dependency deps ticket d role_slug slot s none = (s, prep_error)
  after_dependency deps ticket d role_slug slot s (some false) = (s, prep_done)
  after_dependency deps ticket d role_slug slot s (some true) =
      insert_running deps ticket d role_slug slot s

  abbrev set_ledger : ℕ → Ledger m → (ℕ → Ledger m) → ℕ → Ledger m
  set_ledger company l ledgers c = if c == company then l else ledgers c

  after_gate : Deps → ℕ → Department → String → Option ℕ → State → ℕ → Gated m → State × Prep
  unfolding after_dependency check_dependency_satisfied
  after_gate deps ticket d role_slug slot s company may_spawn =
      after_dependency deps ticket d role_slug slot s (check_dependency_satisfied deps s.db ticket)
  after_gate deps ticket d role_slug slot s company gate_failed = (s, prep_error)
  after_gate deps ticket d role_slug slot s company (deferred l) =
      if deps.fails commit_audit then (s, prep_error) else (
        record s { db = record s.db { ledgers = set_ledger company l s.db.ledgers } },
        prep_deferred,
      )

  pub gate_of : Deps → Option ℕ → State → ℕ × Gated m
  unfolding spawn_gate
  gate_of deps none s = (0, may_spawn)
  gate_of deps (some company) s = (
    company,
    (if deps.throttled
        then spawn_gate m deps.gate_fails company deps.default_spawn_cost_usd deps.now
            (s.db.ledgers company)
        else may_spawn),
  )

  -- What follows the slot.
  with_slot : Deps → ℕ → Department → String → Option ℕ → State → State × Prep
  unfolding gate_of after_gate
  with_slot deps ticket d role_slug slot s =
      let (company, gated) = gate_of deps d.company s in
      after_gate deps ticket d role_slug slot s company gated

  -- A slot that was not handed on is released.
  settle_slot : ℕ → State × Prep → State × Prep
  settle_slot agent (s, prepared id ticket d slot) = (s, prepared id ticket d slot)
  settle_slot agent (s, prep) = (record s { inflight = release agent s.inflight }, prep)

  -- `acquireAgentSlot`: without an agent the slots are inert.
  acquire_agent_slot : Deps → ℕ → Department → String → State → Option ℕ → State × Prep
  unfolding with_slot settle_slot
  acquire_agent_slot deps ticket d role_slug s none = with_slot deps ticket d role_slug none s
  acquire_agent_slot deps ticket d role_slug s (some agent) =
      if holds agent s.inflight
      then (s, prep_done)
      else settle_slot agent (
          with_slot deps ticket d role_slug (some agent)
            (record s { inflight = agent ∷ s.inflight }))

  slot_agent : Deps → Department → String → Option ℕ
  slot_agent deps d role_slug = if deps.slots_enforced then deps.agent_of d.id role_slug else none

  after_cap : Deps → ℕ → Department → String → State → Option CapCheck → State × Prep
  unfolding acquire_agent_slot slot_agent
  after_cap deps ticket d role_slug s none = (s, prep_error)
  after_cap deps ticket d role_slug s (some c) =
      if c.allowed
      then acquire_agent_slot deps ticket d role_slug s (slot_agent deps d role_slug)
      else (s, prep_done)

  -- The missing department of `resolveDeptOrSkip`
  skip_department : Deps → ℕ → State → State × Prep
  skip_department deps id s =
      if deps.fails mark_missing || deps.fails commit_missing
      then (s, prep_error)
      else (record s { db = record s.db { events = mark_event id s.db.events } }, prep_done)

  resolve_department : Deps → ℕ → ℕ → String → State → Option Department → State × Prep
  unfolding after_cap skip_department check_cap
  resolve_department deps id ticket role_slug s none = skip_department deps id s
  resolve_department deps id ticket role_slug s (some d) = after_cap deps ticket d role_slug s (
      check_cap (if deps.fails cap_department then none else some d.concurrency_cap)
        (if deps.fails count_running then none else some (running_in d.id s.db.runs)))

  after_payload : Deps → ℕ → String → State → Option (ℕ × ℕ) → State × Prep
  unfolding resolve_department
  after_payload deps id role_slug s none = (s, prep_error)
  after_payload deps id role_slug s (some (ticket, department)) =
      if deps.fails get_department
      then (s, prep_error)
      else resolve_department deps id ticket role_slug s
          (find (λ (d : Department). d.id) department s.db.departments)

  after_lock : Deps → ℕ → String → State → Option Event → State × Prep
  unfolding after_payload
  after_lock deps id role_slug s none = (s, prep_error)
  after_lock deps id role_slug s (some e) =
      if e.processed
      then (s, prep_done)
      else after_payload deps id role_slug s (deps.decode_payload e.payload)

  unfoldable pub prepare_spawn : Deps → ℕ → String → State → State × Prep
  unfolding after_lock
  prepare_spawn deps id role_slug s =
      if deps.fails begin_tx
      then (s, prep_error)
      else after_lock deps id role_slug s
          (query deps lock_event (find (λ (e : Event). e.id) id s.db.events))
