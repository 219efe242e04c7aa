-- ===== src/Ingress/Handler/Once.antt =====
-- Runs of the webhook server: one ticket for one delivery, however often it is sent.
use garrison.Common.{
  ℕ, ◌+◌, ◌<◌, String, ◌≡◌, refl, ap, ◌≢◌, inl, inr, Bool, true, false, ◌||◌, some, List, [], ◌∷◌,
  map, arith, eq_iff, All-mono,
}
use garrison.Ingress.Connector.{Text, Request, TicketDraft, Connector}
use garrison.Ingress.Handler.{Delivery, Ticket, Db, State, Run, is_recorded, handle}
use garrison.Ingress.Handler.Accepted.{IdsBelow, created, handle-Created}

abbrev pub empty_db : Db
empty_db = record { deliveries = []; tickets = []; next_id = 0 }

-- The requests of a run, one after the other.
pub handle_all : Connector → Text → List (Run × Request) → State → State
handle_all conn secret [] s = s
handle_all conn secret ((r, q) ∷ rest) s = handle_all conn secret rest (handle conn secret r q s).0

-- No two deliveries have the connector and the id of the provider in common.
abbrev pub Distinct : List Delivery → Type 0
Distinct [] = Unit
Distinct (d ∷ ds) = (is_recorded d.connector_id d.external_delivery_id ds ≡ false) × Distinct ds

-- Every delivery is linked to its own ticket, and there are no other tickets.
abbrev pub Linked : Db → Type 0
Linked db =
    map (λ (d : Delivery). d.ticket_id) db.deliveries ≡ map (λ (t : Ticket). some t.id) db.tickets

abbrev pub WellFormed : Db → Type 0
WellFormed db = IdsBelow db.next_id db.deliveries × Distinct db.deliveries × Linked db

created-WellFormed :
    (conn : Connector) (delivery : String) (draft : TicketDraft) (dept : ℕ) (db : Db)
    → is_recorded conn.id delivery db.deliveries ≡ false
    → WellFormed db
    → WellFormed (created conn delivery draft dept db)
created-WellFormed conn delivery draft dept db fresh (b, d, l) = (
  (
    omega arith,
    All-mono (λ x. x.id < db.next_id) (λ x. x.id < db.next_id + 2) (λ x h. omega (arith, h))
        db.deliveries b,
  ),
  (fresh, d),
  ap (λ xs. some (db.next_id + 1) ∷ xs) l,
)

or-true : (b : Bool) → (b || true) ≡ true
or-true true = refl
or-true false = refl

module _ (conn : Connector) (secret : Text) where
  handle-WellFormed :
      (r : Run) (q : Request) (s : State)
      → WellFormed s.db
      → WellFormed (handle conn secret r q s).0.db
  handle-WellFormed r q s w = elim (handle-Created conn secret r q s w.0) [
    | inl (draft, dept, _, _, _, fresh, e) ↦
        rw e (created-WellFormed conn (conn.delivery_id q) draft dept s.db fresh w)
    | inr (_, same) ↦ rw same w
  ]

  -- From tables that are well-formed, every sequence of requests leads to well-formed tables: no two
  -- deliveries have the same connector and id, and the tickets are, one for one and in order, those
  -- that the deliveries are linked to.
  pub handle_all-WellFormed :
      (rs : List (Run × Request)) (s : State)
      → WellFormed s.db
      → WellFormed (handle_all conn secret rs s).db
  unfolding handle_all
  handle_all-WellFormed [] s w = w
  handle_all-WellFormed ((r, q) ∷ rs) s w =
      handle_all-WellFormed rs (handle conn secret r q s).0 (handle-WellFormed r q s w)

  -- A delivery that is recorded stays so.
  handle-recorded :
      (r : Run) (q : Request) (s : State) (delivery : String)
      → WellFormed s.db
      → is_recorded conn.id delivery s.db.deliveries ≡ true
      → is_recorded conn.id delivery (handle conn secret r q s).0.db.deliveries ≡ true
  handle-recorded r q s delivery w h = elim (handle-Created conn secret r q s w.0) [
    | inl (draft, dept, _, _, _, fresh, e) ↦ rw e (rw h (or-true _))
    | inr (_, same) ↦ rw same h
  ]

  handle_all-recorded :
      (rs : List (Run × Request)) (s : State) (delivery : String)
      → WellFormed s.db
      → is_recorded conn.id delivery s.db.deliveries ≡ true
      → is_recorded conn.id delivery (handle_all conn secret rs s).db.deliveries ≡ true
  unfolding handle_all
  handle_all-recorded [] s delivery w h = h
  handle_all-recorded ((r, q) ∷ rs) s delivery w h =
      handle_all-recorded rs (handle conn secret r q s).0 delivery (handle-WellFormed r q s w)
        (handle-recorded r q s delivery w h)

  repeated :
      (r : Run) (q : Request) (s : State)
      → WellFormed s.db
      → is_recorded conn.id (conn.delivery_id q) s.db.deliveries ≡ true
      → ((handle conn secret r q s).1 ≢ 202) × ((handle conn secret r q s).0.db ≡ s.db)
  repeated r q s w h = elim (handle-Created conn secret r q s w.0) [
    | inl (_, _, _, _, _, fresh, _) ↦ absurd cc
    | inr other ↦ other
  ]

  accepted-recorded :
      (r : Run) (q : Request) (s : State)
      → WellFormed s.db
      → (handle conn secret r q s).1 ≡ 202
      → is_recorded conn.id (conn.delivery_id q) (handle conn secret r q s).0.db.deliveries ≡ true
  accepted-recorded r q s w h = elim (handle-Created conn secret r q s w.0) [
    | inl (draft, dept, _, _, _, fresh, e) ↦ rw e (
        rw
          (
            (eq_iff conn.id conn.id).1 refl,
            (eq_iff (conn.delivery_id q) (conn.delivery_id q)).1 refl,
          )
          refl)
    | inr (other, _) ↦ absurd (other h)
  ]

  -- From well-formed tables: once a request has been answered 202 and any requests have followed, a
  -- request with the same delivery id, whatever else it holds and whichever calls fail, is not
  -- answered 202 and leaves the deliveries and the tickets as they are.
  pub redelivery-keeps :
      (r r' : Run) (q q' : Request) (rs : List (Run × Request)) (s : State)
      → WellFormed s.db
      → (handle conn secret r q s).1 ≡ 202
      → conn.delivery_id q' ≡ conn.delivery_id q
      → ((handle conn secret r' q' (handle_all conn secret rs (handle conn secret r q s).0)).1
          ≢ 202)
        × ((handle conn secret r' q' (handle_all conn secret rs (handle conn secret r q s).0)).0.db
            ≡ (handle_all conn secret rs (handle conn secret r q s).0).db)
  redelivery-keeps r r' q q' rs s w h e =
      let next = (handle conn secret r q s).0 in
      let next-ok = handle-WellFormed r q s w in
      let kept =
        handle_all-recorded rs next (conn.delivery_id q) next-ok (accepted-recorded r q s w h) in
      repeated r' q' (handle_all conn secret rs next) (handle_all-WellFormed rs next next-ok)
        (rw e kept)
