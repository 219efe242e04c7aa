-- ===== src/Broker/Request.antt =====
-- supervisor/internal/garrisonmutate/verbs_actions.go: the verb request_external_action, with
-- WriteAudit of audit.go. JSON and UUID decoding are inputs, as are the id that the database gives the new row
-- and which calls fail.
pub mod Queued
use Prim.Native.Char.{code}
use garrison.Common.{
  ℕ, zero, suc, ◌+◌, ◌-◌, ◌*◌, ◌/◌, ◌%◌, ◌^◌, ◌≤◌, ◌<◌, String, ◌≡◌, refl, sym, ap, ◌∙◌, ◌≢◌, ◌↔◌,
  ◌⊎◌, inl, inr, Bool, true, false, not, ◌&&◌, ◌||◌, Option, none, some, List, [], ◌∷◌, ◌++◌, map,
  arith, eq_iff, ltb, leb, ◌==◌, str_eq, concat, if◌then◌else◌, ltb→lt, lt→ltb, leb→le, ==_iff,
  Bool-cases, Option-cases, length, take, length-append, All, Result, ok, err, ◌>>=◌, ◌>>◌,
}
use garrison.Broker.Policy.{Tier, auto, notify, approve, human_only, other, PolicyTable, classify}
use garrison.Broker.Tables.{
  Action, Db, Status, pending, Outcome, OutcomeKind, requested, insert_outcome,
}

pub record Args : Type 0 where
  pub action_type : String
  pub target : String
  pub payload : String
  pub ticket_id : Option String

pub record Audit : Type 0 where
  pub agent_instance_id : ℕ
  pub verb : String
  pub args : Args
  pub outcome : String
  pub reversibility_class : ℕ
  pub affected_resource_id : ℕ
  pub affected_resource_type : String

-- The tables that the verb writes, and the notifications that it has sent to the dispatcher.
pub record Desk : Type 0 where
  pub db : Db
  pub audits : List Audit
  pub notified : List ℕ

pub data Call : Type 0 where
  begin insert_action insert_requested write_audit commit notify_dispatcher : Call

pub record Run : Type 0 where
  pub fails : Call → Bool
  pub agent_instance_id : Option ℕ
  pub parse_args : String → Result String Args
  pub parse_uuid : String → Option ℕ
  pub new_id : ℕ

pub data Invalid : Type 0 where
  not_an_agent action_type_required target_required payload_required : Invalid
  bad_args bad_ticket_id : String → Invalid

-- What the verb answers: a validation failure, or the id and the tier of the queued action; or a
-- call on the database that failed.
pub data Answer : Type 0 where
  validation_failed : Invalid → Answer
  queued : ℕ → Tier → Answer
  broken : Call → Answer

-- `strings.TrimSpace`, by `unicode.IsSpace`.
is_space : ℕ → Bool
is_space c =
    (leb 9 c && leb c 13)
    || c == 32
    || c == 0x85
    || c == 0xa0
    || c == 0x1680
    || (leb 0x2000 c && leb c 0x200a)
    || c == 0x2028
    || c == 0x2029
    || c == 0x202f
    || c == 0x205f
    || c == 0x3000

trim_left : String → String
unfolding is_space
trim_left String.[] = String.[]
trim_left (String.◌∷◌ c s) = if is_space (code c) then trim_left s else String.◌∷◌ c s

trim_right : String → String
unfolding is_space
trim_right String.[] = String.[]
trim_right (String.◌∷◌ c s) =
    let rest = trim_right s in
    if is_space (code c) && str_eq rest "" then String.[] else String.◌∷◌ c rest

unfoldable pub trim_space : String → String
unfolding trim_left trim_right
trim_space s = trim_right (trim_left s)

-- The checks of `parseRequestExternalActionArgs` on decoded arguments.
check_args : Args → Result Invalid Args
unfolding trim_space
check_args args =
    let trimmed : Args = record args {
      action_type = trim_space args.action_type;
      payload = trim_space args.payload;
    } in
    if str_eq trimmed.action_type ""
    then err action_type_required
    else if str_eq trimmed.target "" || str_eq trimmed.target "null"
    then err target_required
    else if str_eq trimmed.payload ""
    then err payload_required
    else ok trimmed

pub parse_request : Run → String → Result Invalid Args
unfolding check_args
parse_request r raw = elim (r.parse_args raw) [
  | err e ↦ err (bad_args e)
  | ok args ↦ check_args args
]

-- The optional ticket id: absent or blank, a UUID, or refused.
pub ticket_ref : Run → Option String → Result Invalid (Option ℕ)
unfolding trim_space
ticket_ref r none = ok none
ticket_ref r (some s) =
    if str_eq (trim_space s) ""
    then ok none
    else elim (r.parse_uuid s) [ none ↦ err (bad_ticket_id s) | some u ↦ ok (some u) ]

pending_action : Run → ℕ → Args → Option ℕ → Tier × String → Action
pending_action r agent args ticket class = record {
  id = r.new_id;
  action_type = args.action_type;
  target = args.target;
  rendered_payload = args.payload;
  agent_instance_id = agent;
  ticket_id = ticket;
  tier = class.0;
  tier_reason = class.1;
  status = pending;
  approved_by = none;
  dispatched_at = none;
}

audit_of : Run → ℕ → Args → Audit
audit_of r agent args = record {
  agent_instance_id = agent;
  verb = "request_external_action";
  args = args;
  outcome = "success";
  reversibility_class = 3;
  affected_resource_id = r.new_id;
  affected_resource_type = "pending_action";
}

exec : Run → Call → (Desk → Desk) → Desk → Result Call Desk
exec r c f d = if r.fails c then err c else ok (f d)

-- The transaction: the action, its first outcome and the audit row.
insert_request : Run → ℕ → Args → Option ℕ → Tier × String → Desk → Result Call Desk
unfolding exec pending_action audit_of
insert_request r agent args ticket class d = do
  d₁ ←
      exec r insert_action
        (λ d. record d {
          db = record d.db {
            actions = d.db.actions ++ pending_action r agent args ticket class ∷ [];
          };
        })
        d
  d₂ ←
      exec r insert_requested
        (λ d. record d {
          db =
              insert_outcome
                (record {
                  pending_action_id = r.new_id;
                  agent_instance_id = agent;
                  outcome = requested;
                  detail = "";
                  structured_outcome = none;
                })
                d.db;
        })
        d₁
  d₃ ← exec r write_audit (λ d. record d { audits = d.audits ++ audit_of r agent args ∷ [] }) d₂
  exec r commit (λ d. d) d₃

-- `emitDispatchNotifyBestEffort`, for the tiers that need no approval.
emit_dispatch_notify : Run → Tier → Desk → Desk
emit_dispatch_notify r auto d =
    if r.fails notify_dispatcher then d else record d { notified = d.notified ++ r.new_id ∷ [] }
emit_dispatch_notify r notify d =
    if r.fails notify_dispatcher then d else record d { notified = d.notified ++ r.new_id ∷ [] }
emit_dispatch_notify r _ d = d

committed : Run → Tier → Desk → Result Call Desk → Desk × Answer
unfolding emit_dispatch_notify
committed r t d (err c) = (d, broken c)
committed r t d (ok new) = (emit_dispatch_notify r t new, queued r.new_id t)

with_ticket : Run → PolicyTable → ℕ → Args → Result Invalid (Option ℕ) → Desk → Desk × Answer
unfolding classify insert_request committed
with_ticket r table agent args (err e) d = (d, validation_failed e)
with_ticket r table agent args (ok ticket) d =
    let class = classify table args.action_type in
    if r.fails begin
    then (d, broken begin)
    else committed r class.0 d (insert_request r agent args ticket class d)

with_args : Run → PolicyTable → ℕ → Result Invalid Args → Desk → Desk × Answer
unfolding ticket_ref with_ticket
with_args r table agent (err e) d = (d, validation_failed e)
with_args r table agent (ok args) d = with_ticket r table agent args (ticket_ref r args.ticket_id) d

with_agent : Run → PolicyTable → String → Option ℕ → Desk → Desk × Answer
unfolding parse_request with_args
with_agent r table raw none d = (d, validation_failed not_an_agent)
with_agent r table raw (some agent) d = with_args r table agent (parse_request r raw) d

unfoldable pub request_external_action : Run → PolicyTable → String → Desk → Desk × Answer
unfolding with_agent
request_external_action r table raw d = with_agent r table raw r.agent_instance_id d
