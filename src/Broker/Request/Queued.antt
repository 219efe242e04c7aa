-- ===== src/Broker/Request/Queued.antt =====
-- What the verb writes.
use garrison.Common.{
  ℕ, String, ◌≡◌, ◌≢◌, refl, true, false, List, ◌⊎◌, inl, inr, Option, none, some, [], ◌∷◌, ◌++◌,
  arith, Bool-cases, Result, ok, err,
}
use garrison.Broker.Policy.{Tier, auto, notify, approve, human_only, other, PolicyTable, classify}
use garrison.Broker.Tables.{Action, pending}
use garrison.Broker.Request.{
  exec, not_an_agent, begin, insert_action, insert_requested, write_audit, commit,
  notify_dispatcher, Args, Audit, Desk, Call, Run, Invalid, Answer, validation_failed, queued,
  broken, parse_request, ticket_ref, pending_action, audit_of, insert_request, emit_dispatch_notify,
  committed, with_ticket, with_args, with_agent, request_external_action,
}

-- The row that a request adds.
pub record IsQueued (r : Run) (table : PolicyTable) (a : Action) : Type 0 where
  pub id : a.id ≡ r.new_id
  pub tier : a.tier ≡ (classify table a.action_type).0
  pub waiting : a.status ≡ pending

-- The dispatcher is told of the row exactly for the two tiers that need no approval, unless that
-- fails.
abbrev pub Notified : Run → ℕ → Tier → List ℕ → List ℕ → Type 0
Notified r id auto before after =
    ((r.fails notify_dispatcher ≡ false) × (after ≡ before ++ id ∷ []))
    ⊎ ((r.fails notify_dispatcher ≡ true) × (after ≡ before))
Notified r id notify before after =
    ((r.fails notify_dispatcher ≡ false) × (after ≡ before ++ id ∷ []))
    ⊎ ((r.fails notify_dispatcher ≡ true) × (after ≡ before))
Notified r id _ before after = after ≡ before

-- Why a request is refused: the caller is not an agent, or its arguments, or the id of a ticket among
-- them, do not read.
pub data IsRefused (r : Run) (raw : String) : Invalid → Type 0 where
  stranger : r.agent_instance_id ≡ none → IsRefused r raw not_an_agent
  unread :
      (agent : ℕ) (e : Invalid)
      → r.agent_instance_id ≡ some agent
      → parse_request r raw ≡ err e
      → IsRefused r raw e
  bad_ticket :
      (agent : ℕ) (args : Args) (e : Invalid)
      → r.agent_instance_id ≡ some agent
      → parse_request r raw ≡ ok args
      → ticket_ref r args.ticket_id ≡ err e
      → IsRefused r raw e

-- What a request asks for: its agent, its arguments and its ticket.
pub record IsRead (r : Run) (raw : String) (agent : ℕ) (args : Args) (ticket : Option ℕ)
    : Type 0 where
  pub agent_read : r.agent_instance_id ≡ some agent
  pub args_read : parse_request r raw ≡ ok args
  pub ticket_read : ticket_ref r args.ticket_id ≡ ok ticket

-- The row holds what was asked for.
pub record Holds (a : Action) (agent : ℕ) (args : Args) (ticket : Option ℕ) : Type 0 where
  pub action_type : a.action_type ≡ args.action_type
  pub target : a.target ≡ args.target
  pub rendered_payload : a.rendered_payload ≡ args.payload
  pub agent_instance_id : a.agent_instance_id ≡ agent
  pub ticket_id : a.ticket_id ≡ ticket

-- How a request ends: nothing written, or one row with its audit and, below `approve`, a
-- notification unless that fails.
pub data Ends (r : Run) (table : PolicyTable) (raw : String) (d : Desk)
    : Desk × Answer → Type 0 where
  refused : (e : Invalid) → IsRefused r raw e → Ends r table raw d (d, validation_failed e)
  failed :
      (c : Call) (agent : ℕ) (args : Args) (ticket : Option ℕ)
      → IsRead r raw agent args ticket
      → r.fails c ≡ true
      → c ≢ notify_dispatcher
      → Ends r table raw d (d, broken c)
  accepted :
      (a : Action) (audit : Audit) (new : Desk)
      → IsQueued r table a
      → new.db.actions ≡ d.db.actions ++ a ∷ []
      → new.audits ≡ d.audits ++ audit ∷ []
      → audit.affected_resource_id ≡ a.id
      → Notified r a.id a.tier d.notified new.notified
      → (agent : ℕ) (args : Args) (ticket : Option ℕ) → IsRead r raw agent args ticket
      → Holds a agent args ticket
      → ((c : Call) → c ≢ notify_dispatcher → r.fails c ≡ false)
      → Ends r table raw d (new, queued a.id a.tier)

emit_dispatch_notify-rows :
    (r : Run) (t : Tier) (d : Desk)
    → ((emit_dispatch_notify r t d).db ≡ d.db) × ((emit_dispatch_notify r t d).audits ≡ d.audits)
unfolding emit_dispatch_notify
emit_dispatch_notify-rows r t d = ground arith

emit_dispatch_notify-notified :
    (r : Run) (t : Tier) (d : Desk)
    → Notified r r.new_id t d.notified (emit_dispatch_notify r t d).notified
unfolding emit_dispatch_notify
emit_dispatch_notify-notified r auto d = ground arith
emit_dispatch_notify-notified r notify d = ground arith
emit_dispatch_notify-notified r approve d = refl
emit_dispatch_notify-notified r human_only d = refl
emit_dispatch_notify-notified r (other s) d = refl

insert_request-rows :
    (r : Run) (agent : ℕ) (args : Args) (ticket : Option ℕ) (class : Tier × String) (d new : Desk)
    → insert_request r agent args ticket class d ≡ ok new
    → (new.db.actions ≡ d.db.actions ++ pending_action r agent args ticket class ∷ [])
      × (new.audits ≡ d.audits ++ audit_of r agent args ∷ [])
      × (new.notified ≡ d.notified)
unfolding insert_request
insert_request-rows r agent args ticket class d new e = ground arith

insert_request-failed :
    (r : Run) (agent : ℕ) (args : Args) (ticket : Option ℕ) (class : Tier × String) (d : Desk)
    (c : Call)
    → insert_request r agent args ticket class d ≡ err c
    → (r.fails c ≡ true) × (c ≢ notify_dispatcher)
unfolding insert_request exec
insert_request-failed r agent args ticket class d c h = elim (Bool-cases (r.fails insert_action)) [
  | inl y ↦ fails_at insert_action c y (cc (rw y at h)) (λ e. cc)
  | inr n1 ↦ elim (Bool-cases (r.fails insert_requested)) [
    | inl y ↦ fails_at insert_requested c y (cc (rw (n1, y) at h)) (λ e. cc)
    | inr n2 ↦ elim (Bool-cases (r.fails write_audit)) [
      | inl y ↦ fails_at write_audit c y (cc (rw (n1, n2, y) at h)) (λ e. cc)
      | inr n3 ↦ elim (Bool-cases (r.fails commit)) [
        | inl y ↦ fails_at commit c y (cc (rw (n1, n2, n3, y) at h)) (λ e. cc)
        | inr n4 ↦ cc (rw (n1, n2, n3, n4) at h)
      ]
    ]
  ]
]
  where
    fails_at :
        (op c : Call)
        → r.fails op ≡ true
        → op ≡ c
        → op ≢ notify_dispatcher
        → (r.fails c ≡ true) × (c ≢ notify_dispatcher)
    fails_at op c y e n = (rw e at y, rw e at n)

insert_request-works :
    (r : Run) (agent : ℕ) (args : Args) (ticket : Option ℕ) (class : Tier × String) (d new : Desk)
    → r.fails begin ≡ false
    → insert_request r agent args ticket class d ≡ ok new
    → (c : Call) → c ≢ notify_dispatcher
    → r.fails c ≡ false
unfolding insert_request exec
insert_request-works r agent args ticket class d new b h begin n = b
insert_request-works r agent args ticket class d new b h insert_action n = ground arith
insert_request-works r agent args ticket class d new b h insert_requested n = ground arith
insert_request-works r agent args ticket class d new b h write_audit n = ground arith
insert_request-works r agent args ticket class d new b h commit n = ground arith
insert_request-works r agent args ticket class d new b h notify_dispatcher n = absurd (n refl)

module _ (r : Run) (table : PolicyTable) (raw : String) (d : Desk) where
  committed-Ends :
      (agent : ℕ) (args : Args) (ticket : Option ℕ) (tx : Result Call Desk)
      → IsRead r raw agent args ticket
      → r.fails begin ≡ false
      → insert_request r agent args ticket (classify table args.action_type) d ≡ tx
      → Ends r table raw d (committed r (classify table args.action_type).0 d tx)
  unfolding committed pending_action audit_of
  committed-Ends agent args ticket (err c) read w e =
      let (f, n) =
        insert_request-failed r agent args ticket (classify table args.action_type) d c e in
      failed c agent args ticket read f n
  committed-Ends agent args ticket (ok new) read w e =
      let class = classify table args.action_type in
      let rows = insert_request-rows r agent args ticket class d new e in
      let kept = emit_dispatch_notify-rows r class.0 new in
      accepted (pending_action r agent args ticket class) (audit_of r agent args)
        (emit_dispatch_notify r class.0 new) (record { id = refl; tier = refl; waiting = refl })
        (rw kept.0 rows.0) (rw kept.1 rows.1) refl
        (rw (← rows.2) (emit_dispatch_notify-notified r class.0 new)) agent args ticket read
        (record {
          action_type = refl;
          target = refl;
          rendered_payload = refl;
          agent_instance_id = refl;
          ticket_id = refl;
        })
        (insert_request-works r agent args ticket class d new w e)

  with_ticket-Ends :
      (agent : ℕ) (args : Args) (t : Result Invalid (Option ℕ))
      → r.agent_instance_id ≡ some agent
      → parse_request r raw ≡ ok args
      → ticket_ref r args.ticket_id ≡ t
      → Ends r table raw d (with_ticket r table agent args t d)
  unfolding with_ticket
  with_ticket-Ends agent args (err e) a p t = refused e (bad_ticket agent args e a p t)
  with_ticket-Ends agent args (ok ticket) a p t =
      let read : IsRead r raw agent args ticket = record {
        agent_read = a;
        args_read = p;
        ticket_read = t;
      } in
      elim (Bool-cases (r.fails begin)) [
        | inl f ↦ rw f (failed begin agent args ticket read f (λ e. cc))
        | inr w ↦ rw w (committed-Ends agent args ticket _ read w refl)
      ]

  with_args-Ends :
      (agent : ℕ) (args : Result Invalid Args)
      → r.agent_instance_id ≡ some agent
      → parse_request r raw ≡ args
      → Ends r table raw d (with_args r table agent args d)
  unfolding with_args
  with_args-Ends agent (err e) a p = refused e (unread agent e a p)
  with_args-Ends agent (ok args) a p =
      with_ticket-Ends agent args (ticket_ref r args.ticket_id) a p refl

  with_agent-Ends :
      (agent : Option ℕ)
      → r.agent_instance_id ≡ agent
      → Ends r table raw d (with_agent r table raw agent d)
  unfolding with_agent
  with_agent-Ends none a = refused not_an_agent (stranger a)
  with_agent-Ends (some agent) a = with_args-Ends agent (parse_request r raw) a refl

-- A request changes nothing if the caller is not an agent, if its arguments or its ticket's id do not
-- read, which it answers with that failure, or if a call before the notification fails, which it
-- answers with that call. Else it adds one pending row with what was asked for, whose tier is the
-- classification of its type, and one audit row for it, and answers with its id and tier. It then
-- notifies the dispatcher of that row exactly for the tiers `auto` and `notify`; a notification that
-- fails is lost.
pub request-Ends :
    (r : Run) (table : PolicyTable) (raw : String) (d : Desk)
    → Ends r table raw d (request_external_action r table raw d)
unfolding request_external_action
request-Ends r table raw d = with_agent-Ends r table raw d r.agent_instance_id refl
