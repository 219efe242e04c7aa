-- ===== src/Ingress/Handler/Accepted.antt =====
-- Which requests become tickets, and what they leave.
use garrison.Common.{
  ℕ, ◌+◌, ◌<◌, String, ◌≡◌, refl, sym, ap, ◌∙◌, ◌≢◌, ◌⊎◌, inl, inr, true, false, Option, none, some,
  List, [], ◌∷◌, map, str_eq, ◌==◌, take, Result, ok, err, arith, ==_iff, Bool-cases, Option-cases,
  All,
}
use garrison.Ingress.Connector.{
  Text, Request, FilterDecision, filter_accept, filter_discard, TicketDraft, MapError, no_mapping,
  malformed_delivery, unparseable, Connector,
}
use garrison.Ingress.Handler.{
  Delivery, Ticket, Db, State, begin, insert_delivery, select_department, insert_ticket, backfill,
  commit, Run, TxError, duplicate_delivery, failed, is_recorded, insert_delivery_row,
  select_department_id, insert_ingress_ticket, link, backfill_ticket, exec, run_ingress_tx, persist,
  persist_draft, audit_rate_cap, accepted, filtered, identified, max_body_bytes, with_body, handle,
}

-- The ids in a table are below the next one.
abbrev pub IdsBelow : ℕ → List Delivery → Type 0
IdsBelow n ds = All (λ d. d.id < n) ds

abbrev pub new_delivery : Connector → String → Db → Delivery
new_delivery conn delivery db = record {
  id = db.next_id;
  connector_id = conn.id;
  external_delivery_id = delivery;
  ticket_id = some (db.next_id + 1);
}

abbrev pub new_ticket : Connector → TicketDraft → ℕ → Db → Ticket
new_ticket conn draft dept db = record {
  id = db.next_id + 1;
  department_id = dept;
  objective = draft.objective;
  acceptance_criteria = draft.acceptance;
  ingress_connector = conn.id;
  external_id = draft.external_id;
  external_url = draft.external_url;
}

-- The tables with one delivery more, linked to one ticket more.
abbrev pub created : Connector → String → TicketDraft → ℕ → Db → Db
created conn delivery draft dept db = record {
  deliveries = new_delivery conn delivery db ∷ db.deliveries;
  tickets = new_ticket conn draft dept db ∷ db.tickets;
  next_id = db.next_id + 2;
}

-- Every call of the transaction succeeds.
abbrev pub Succeeds : Run → Type 0
Succeeds r =
    (r.fails begin ≡ false)
    × (r.fails insert_delivery ≡ false)
    × (r.fails select_department ≡ false)
    × (r.fails insert_ticket ≡ false)
    × (r.fails backfill ≡ false)
    × (r.fails commit ≡ false)

link-below : (ticket n : ℕ) (ds : List Delivery) → IdsBelow n ds → map (link ticket n) ds ≡ ds
link-below ticket n [] b = refl
link-below ticket n (d ∷ ds) (l, b) = ground (arith, link-below ticket n ds b)

tx-runs :
    (r : Run) (conn : Connector) (delivery : String) (draft : TicketDraft) (db : Db) (dept : ℕ)
    → IdsBelow db.next_id db.deliveries
    → Succeeds r
    → is_recorded conn.id delivery db.deliveries ≡ false
    → r.department draft.department_slug ≡ some dept
    → run_ingress_tx r conn.id delivery draft db ≡ ok (created conn delivery draft dept db)
unfolding run_ingress_tx exec insert_delivery_row select_department_id insert_ingress_ticket
    backfill_ticket
tx-runs r conn delivery draft db dept below (a, b, c, d, e, f) fresh h =
    let old = link-below (db.next_id + 1) db.next_id db.deliveries below in
    rw (a, b, fresh, h, c, d, e, f) (ground arith)

tx-inverts :
    (r : Run) (conn : Connector) (delivery : String) (draft : TicketDraft) (db db' : Db)
    → run_ingress_tx r conn.id delivery draft db ≡ ok db'
    → Succeeds r
      × (is_recorded conn.id delivery db.deliveries ≡ false)
      × ((dept : ℕ) × (r.department draft.department_slug ≡ some dept))
unfolding run_ingress_tx exec insert_delivery_row select_department_id insert_ingress_ticket
    backfill_ticket
tx-inverts r conn delivery draft db db' h =
    elim (Option-cases (r.department draft.department_slug)) [
      | inl n ↦ ground arith
      | inr (dept, e) ↦ ground arith
    ]

tx-result :
    (r : Run) (conn : Connector) (delivery : String) (draft : TicketDraft) (db db' : Db)
    → IdsBelow db.next_id db.deliveries
    → run_ingress_tx r conn.id delivery draft db ≡ ok db'
    → (dept : ℕ) × (r.department draft.department_slug ≡ some dept)
      × (db' ≡ created conn delivery draft dept db)
tx-result r conn delivery draft db db' b h =
    let (s, fresh, (dept, e)) = tx-inverts r conn delivery draft db db' h in
    let runs = tx-runs r conn delivery draft db dept b s fresh e in (dept, e, cc)

-- The request passes the steps before the transaction with this draft: the connector knows the
-- event, the signature of the body is right, and so on.
abbrev pub Passes : Connector → Text → Run → Request → TicketDraft → Type 0
Passes conn secret r q draft =
    (raw : Text) × (event : String) × (q.body ≡ some raw)
    × (conn.event_type q ≡ some event)
    × (conn.subscribed event ≡ true)
    × (conn.verify_signature (take max_body_bytes raw) q secret ≡ true)
    × (conn.filter event (take max_body_bytes raw) ≡ filter_accept)
    × (str_eq (conn.delivery_id q) "" ≡ false)
    × (r.within_cap ≡ true)
    × (conn.map_event event (take max_body_bytes raw) ≡ ok draft)

persist-202 :
    (s : State) (t : Result TxError Db)
    → (persist s t).1 ≡ 202
    → (db' : Db) × (t ≡ ok db') × (persist s t ≡ (record s { db = db' }, 202))
unfolding persist
persist-202 s (ok db') h = (db', refl, refl)
persist-202 s (err duplicate_delivery) h = ground arith
persist-202 s (err (failed c)) h = ground arith

persist_draft-202 :
    (conn : Connector) (r : Run) (delivery : String) (s : State) (m : Result MapError TicketDraft)
    → (persist_draft conn r delivery s m).1 ≡ 202
    → (draft : TicketDraft) × (db' : Db) × (m ≡ ok draft)
      × (run_ingress_tx r conn.id delivery draft s.db ≡ ok db')
      × (persist_draft conn r delivery s m ≡ (record s { db = db' }, 202))
unfolding persist_draft
persist_draft-202 conn r delivery s (err no_mapping) h = ground arith
persist_draft-202 conn r delivery s (err malformed_delivery) h = ground arith
persist_draft-202 conn r delivery s (err unparseable) h = ground arith
persist_draft-202 conn r delivery s (ok draft) h =
    let (db', t, e) = persist-202 s (run_ingress_tx r conn.id delivery draft s.db) h in
    (draft, db', refl, t, e)

module _ (conn : Connector) (secret : Text) (r : Run) (q : Request) (s : State) where
  accepted-202 :
      (event : String) (body : Text)
      → (accepted conn r q event body s).1 ≡ 202
      → (str_eq (conn.delivery_id q) "" ≡ false)
        × (r.within_cap ≡ true)
        × (accepted conn r q event body s
            ≡ persist_draft conn r (conn.delivery_id q) s (conn.map_event event body))
  unfolding accepted audit_rate_cap
  accepted-202 event body h = ground arith

  filtered-202 :
      (event : String) (body : Text) (d : FilterDecision)
      → (filtered conn r q event body s d).1 ≡ 202
      → (d ≡ filter_accept) × (filtered conn r q event body s d ≡ accepted conn r q event body s)
  unfolding filtered
  filtered-202 event body filter_discard h = ground arith
  filtered-202 event body filter_accept h = (refl, refl)

  identified-202 :
      (body : Text) (o : Option String)
      → (identified conn secret r q body s o).1 ≡ 202
      → (event : String) × (o ≡ some event)
        × (conn.subscribed event ≡ true)
        × (conn.verify_signature body q secret ≡ true)
        × (identified conn secret r q body s o
            ≡ filtered conn r q event body s (conn.filter event body))
  unfolding identified
  identified-202 body none h = ground arith
  identified-202 body (some event) h = (event, refl, ground arith, ground arith, ground arith)

  with_body-202 :
      (o : Option Text)
      → (with_body conn secret r q s o).1 ≡ 202
      → (raw : Text) × (o ≡ some raw)
        × (with_body conn secret r q s o
            ≡ identified conn secret r q (take max_body_bytes raw) s (conn.event_type q))
  unfolding with_body
  with_body-202 none h = ground arith
  with_body-202 (some raw) h = (raw, refl, refl)

  -- The answer is 202 only for a request that passes, and then its transaction is committed.
  pub handle-202 :
      (handle conn secret r q s).1 ≡ 202
      → (draft : TicketDraft) × (db' : Db) × Passes conn secret r q draft
        × (run_ingress_tx r conn.id (conn.delivery_id q) draft s.db ≡ ok db')
        × (handle conn secret r q s ≡ (record s { db = db' }, 202))
  unfolding handle
  handle-202 h =
      let (raw, b, w) = with_body-202 q.body h in
      let body = take max_body_bytes raw in
      let (event, t, sub, ver, i) =
        identified-202 body (conn.event_type q) (sym (ap (λ x. x.1) w) ∙ h) in
      let (fil, f) =
        filtered-202 event body (conn.filter event body) (sym (ap (λ x. x.1) (w ∙ i)) ∙ h) in
      let (del, cap, a) = accepted-202 event body (sym (ap (λ x. x.1) (w ∙ i ∙ f)) ∙ h) in
      let e = w ∙ i ∙ f ∙ a in
      let (draft, db', m, tx, p) =
        persist_draft-202 conn r (conn.delivery_id q) s (conn.map_event event body)
          (sym (ap (λ x. x.1) e) ∙ h) in
      (draft, db', (raw, event, b, t, sub, ver, fil, del, cap, m), tx, e ∙ p)

differs : (a b : ℕ) → (a == b) ≡ false → a ≢ b
differs a b h = ground arith

persist-other :
    (s : State) (t : Result TxError Db) → (persist s t).1 ≢ 202 → (persist s t).0.db ≡ s.db
unfolding persist
persist-other s (ok db) h = absurd (h refl)
persist-other s (err duplicate_delivery) h = refl
persist-other s (err (failed c)) h = refl

persist_draft-other :
    (conn : Connector) (r : Run) (delivery : String) (s : State) (m : Result MapError TicketDraft)
    → (persist_draft conn r delivery s m).1 ≢ 202
    → (persist_draft conn r delivery s m).0.db ≡ s.db
unfolding persist_draft persist
persist_draft-other conn r delivery s (err no_mapping) h = refl
persist_draft-other conn r delivery s (err malformed_delivery) h = refl
persist_draft-other conn r delivery s (err unparseable) h = refl
persist_draft-other conn r delivery s (ok draft) h =
    persist-other s (run_ingress_tx r conn.id delivery draft s.db) h

module _ (conn : Connector) (secret : Text) (r : Run) (q : Request) (s : State) where
  accepted-other :
      (event : String) (body : Text)
      → (accepted conn r q event body s).1 ≢ 202
      → (accepted conn r q event body s).0.db ≡ s.db
  unfolding accepted audit_rate_cap
  accepted-other event body h =
      ground (arith, persist_draft-other conn r (conn.delivery_id q) s (conn.map_event event body))

  filtered-other :
      (event : String) (body : Text) (d : FilterDecision)
      → (filtered conn r q event body s d).1 ≢ 202
      → (filtered conn r q event body s d).0.db ≡ s.db
  unfolding filtered
  filtered-other event body filter_discard h = refl
  filtered-other event body filter_accept h = accepted-other event body h

  identified-other :
      (body : Text) (o : Option String)
      → (identified conn secret r q body s o).1 ≢ 202
      → (identified conn secret r q body s o).0.db ≡ s.db
  unfolding identified
  identified-other body none h = refl
  identified-other body (some event) h =
      ground (arith, filtered-other event body (conn.filter event body))

  with_body-other :
      (o : Option Text)
      → (with_body conn secret r q s o).1 ≢ 202
      → (with_body conn secret r q s o).0.db ≡ s.db
  unfolding with_body
  with_body-other none h = refl
  with_body-other (some raw) h = identified-other (take max_body_bytes raw) (conn.event_type q) h

  handle-other : (handle conn secret r q s).1 ≢ 202 → (handle conn secret r q s).0.db ≡ s.db
  unfolding handle
  handle-other h = with_body-other q.body h

  -- The tables after a request that becomes a ticket.
  abbrev pub Created : Type 0
  Created =
      (draft : TicketDraft) × (dept : ℕ) × Passes conn secret r q draft
      × Succeeds r
      × (r.department draft.department_slug ≡ some dept)
      × (is_recorded conn.id (conn.delivery_id q) s.db.deliveries ≡ false)
      × (handle conn secret r q s
          ≡ (record s { db = created conn (conn.delivery_id q) draft dept s.db }, 202))

  -- If the ids in the table of deliveries are below the next one, then a request either is answered
  -- 202 and adds exactly one delivery with exactly one ticket, the two linked, having passed every
  -- step with a delivery id that was not recorded, or it gets another answer and leaves the tables as
  -- they were.
  pub handle-Created :
      IdsBelow s.db.next_id s.db.deliveries
      → Created ⊎ (((handle conn secret r q s).1 ≢ 202) × ((handle conn secret r q s).0.db ≡ s.db))
  handle-Created b = elim (Bool-cases ((handle conn secret r q s).1 == 202)) [
    | inl y ↦
        let (draft, db', p, tx, e) = handle-202 conn secret r q s ((==_iff _ _).0 y) in
        let (suc', fresh, _) = tx-inverts r conn (conn.delivery_id q) draft s.db db' tx in
        let (dept, d, c) = tx-result r conn (conn.delivery_id q) draft s.db db' b tx in
        inl (draft, dept, p, suc', d, fresh, rw c at e)
    | inr n ↦
        let other = differs ((handle conn secret r q s).1) 202 n in inr (other, handle-other other)
  ]

  persist_draft-runs :
      (delivery : String) (draft : TicketDraft) (dept : ℕ)
      → IdsBelow s.db.next_id s.db.deliveries
      → Succeeds r
      → r.department draft.department_slug ≡ some dept
      → is_recorded conn.id delivery s.db.deliveries ≡ false
      → persist_draft conn r delivery s (ok draft)
        ≡ (record s { db = created conn delivery draft dept s.db }, 202)
  unfolding persist_draft persist
  persist_draft-runs delivery draft dept b y d fresh =
      rw (tx-runs r conn delivery draft s.db dept b y fresh d) refl

  -- A request that passes every step with a delivery id that is not recorded, for a department that
  -- there is, and whose calls on the database succeed, is answered 202 and adds its ticket.
  pub handle-accepts :
      (draft : TicketDraft) (dept : ℕ)
      → IdsBelow s.db.next_id s.db.deliveries
      → Passes conn secret r q draft
      → Succeeds r
      → r.department draft.department_slug ≡ some dept
      → is_recorded conn.id (conn.delivery_id q) s.db.deliveries ≡ false
      → handle conn secret r q s
        ≡ (record s { db = created conn (conn.delivery_id q) draft dept s.db }, 202)
  unfolding handle with_body identified filtered accepted
  handle-accepts draft dept b (raw, event, e1, e2, e3, e4, e5, e6, e7, e8) y d fresh =
      ap (with_body conn secret r q s) e1
      ∙ ap (identified conn secret r q (take max_body_bytes raw) s) e2
      ∙ rw (e3, e4, e5, e6, e7, e8) (persist_draft-runs (conn.delivery_id q) draft dept b y d fresh)
