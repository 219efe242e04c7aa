-- ===== src/Ingress/Handler.antt =====
-- supervisor/internal/ingress/handler.go and idempotency.go: one webhook from the read of its body
-- to the status of its response. What a request meets outside the tables is its `Run`: which calls
-- on the database fail, the departments, and whether the token bucket of ratecap.go has a token.
-- Two deliveries of one id wait for each other on the unique index, so that the transactions of a
-- run of the server are a sequence.
pub mod Once
pub mod Accepted
use garrison.Common.{
  ℕ, zero, suc, ◌+◌, String, ◌≡◌, refl, Bool, true, false, ◌&&◌, ◌||◌, not, Option, none, some,
  List, [], ◌∷◌, ◌++◌, map, str_eq, ◌==◌, if◌then◌else◌, take, Result, ok, err, ◌>>=◌, ◌>>◌,
}
use garrison.Ingress.Connector.{
  Text, Request, FilterDecision, filter_accept, filter_discard, TicketDraft, MapError, no_mapping,
  Connector,
}

-- The table ingress_deliveries: unique on the connector and the delivery's id.
pub record Delivery : Type 0 where
  pub id : ℕ
  pub connector_id : String
  pub external_delivery_id : String
  pub ticket_id : Option ℕ

-- The columns of the table tickets that InsertIngressTicket sets from its parameters.
pub record Ticket : Type 0 where
  pub id : ℕ
  pub department_id : ℕ
  pub objective : Text
  pub acceptance_criteria : Text
  pub ingress_connector : String
  pub external_id : Text
  pub external_url : Text

pub record Db : Type 0 where
  pub deliveries : List Delivery
  pub tickets : List Ticket
  pub next_id : ℕ

-- The tables, the rejection counter, and the audits of the rate cap, by connector.
pub record State : Type 0 where
  pub db : Db
  pub rejections : ℕ
  pub rate_cap_events : List String

pub data Call : Type 0 where
  begin insert_delivery select_department insert_ticket backfill commit audit : Call

pub record Run : Type 0 where
  pub fails : Call → Bool
  pub department : String → Option ℕ
  pub within_cap : Bool

-- What the transaction answers beside its tables: a duplicate, or another error.
pub data TxError : Type 0 where
  duplicate_delivery : TxError
  failed : Call → TxError

abbrev pub is_delivery : String → String → Delivery → Bool
is_delivery conn delivery d = str_eq conn d.connector_id && str_eq delivery d.external_delivery_id

abbrev pub is_recorded : String → String → List Delivery → Bool
is_recorded conn delivery [] = false
is_recorded conn delivery (d ∷ ds) = is_delivery conn delivery d || is_recorded conn delivery ds

-- `insertDelivery`: the row's id, or the violation of the unique index.
insert_delivery_row : Run → String → String → Db → Result TxError (ℕ × Db)
insert_delivery_row r conn delivery db =
    let row : Delivery = record {
      id = db.next_id;
      connector_id = conn;
      external_delivery_id = delivery;
      ticket_id = none;
    } in
    if r.fails insert_delivery
    then err (failed insert_delivery)
    else if is_recorded conn delivery db.deliveries
    then err duplicate_delivery
    else ok (db.next_id, record db { deliveries = row ∷ db.deliveries; next_id = db.next_id + 1 })

-- `SelectDepartmentIDBySlug`; no row is an error, too.
select_department_id : Run → Option ℕ → Result TxError ℕ
select_department_id r none = err (failed select_department)
select_department_id r (some d) =
    if r.fails select_department then err (failed select_department) else ok d

insert_ingress_ticket : Run → String → TicketDraft → ℕ → Db → Result TxError (ℕ × Db)
insert_ingress_ticket r conn draft dept db =
    let row : Ticket = record {
      id = db.next_id;
      department_id = dept;
      objective = draft.objective;
      acceptance_criteria = draft.acceptance;
      ingress_connector = conn;
      external_id = draft.external_id;
      external_url = draft.external_url;
    } in
    if r.fails insert_ticket
    then err (failed insert_ticket)
    else ok (db.next_id, record db { tickets = row ∷ db.tickets; next_id = db.next_id + 1 })

abbrev pub link : ℕ → ℕ → Delivery → Delivery
link ticket id d = if id == d.id then record d { ticket_id = some ticket } else d

backfill_ticket : Run → ℕ → ℕ → Db → Result TxError Db
backfill_ticket r ticket id db =
    if r.fails backfill
    then err (failed backfill)
    else ok (record db { deliveries = map (link ticket id) db.deliveries })

exec : Run → Call → Db → Result TxError Db
exec r c db = if r.fails c then err (failed c) else ok db

-- `runIngressTx`
pub run_ingress_tx : Run → String → String → TicketDraft → Db → Result TxError Db
unfolding insert_delivery_row select_department_id insert_ingress_ticket backfill_ticket exec
run_ingress_tx r conn delivery draft db = do
  begun ← exec r begin db
  (delivery_row, inserted) ← insert_delivery_row r conn delivery begun
  dept ← select_department_id r (r.department draft.department_slug)
  (ticket, ticketed) ← insert_ingress_ticket r conn draft dept inserted
  linked ← backfill_ticket r ticket delivery_row ticketed
  exec r commit linked

-- The states after a request, and the status of the response.
abbrev pub Response : Type 0
Response = State × ℕ

persist : State → Result TxError Db → Response
persist s (ok db) = (record s { db = db }, 202)
persist s (err duplicate_delivery) = (s, 200)
persist s (err (failed c)) = (s, 500)

persist_draft : Connector → Run → String → State → Result MapError TicketDraft → Response
unfolding run_ingress_tx persist
persist_draft conn r delivery s (ok draft) =
    persist s (run_ingress_tx r conn.id delivery draft s.db)
persist_draft conn r delivery s (err no_mapping) = (s, 200)
persist_draft conn r delivery s (err _) = (s, 500)

-- `FireIngressRateCap` on the pool, outside of a transaction: `audit` is the insert of the event,
-- which stays if only its notification fails. Failures of either are only logged, and the
-- notification is left out.
audit_rate_cap : Connector → Run → State → State
audit_rate_cap conn r s =
    if r.fails audit then s else record s { rate_cap_events = conn.id ∷ s.rate_cap_events }

-- Steps 6 to 9, for an event that the filter accepts.
accepted : Connector → Run → Request → String → Text → State → Response
unfolding persist_draft audit_rate_cap
accepted conn r q event body s =
    let delivery = conn.delivery_id q in
    if str_eq delivery ""
    then (s, 400)
    else if not r.within_cap
    then (audit_rate_cap conn r s, 429)
    else persist_draft conn r delivery s (conn.map_event event body)

-- Step 5.
filtered : Connector → Run → Request → String → Text → State → FilterDecision → Response
unfolding accepted
filtered conn r q event body s filter_discard = (s, 200)
filtered conn r q event body s filter_accept = accepted conn r q event body s

-- Steps 3 and 4.
identified : Connector → Text → Run → Request → Text → State → Option String → Response
unfolding filtered
identified conn secret r q body s none = (s, 200)
identified conn secret r q body s (some event) =
    if not (conn.subscribed event)
    then (s, 200)
    else if not (conn.verify_signature body q secret)
    then (record s { rejections = s.rejections + 1 }, 401)
    else filtered conn r q event body s (conn.filter event body)

abbrev pub max_body_bytes : ℕ
max_body_bytes = 26214400

-- Steps 1 and 2: the body, cut by the LimitReader.
with_body : Connector → Text → Run → Request → State → Option Text → Response
unfolding identified
with_body conn secret r q s none = (s, 500)
with_body conn secret r q s (some body) =
    identified conn secret r q (take max_body_bytes body) s (conn.event_type q)

-- The handler of newWebhookHandler.
unfoldable pub handle : Connector → Text → Run → Request → State → Response
unfolding with_body
handle conn secret r q s = with_body conn secret r q s q.body
