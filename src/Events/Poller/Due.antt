-- ===== src/Events/Poller/Due.antt =====
-- The poll runs the handler of every row that it can route.
use garrison.Common.{
  ℕ, ◌+◌, String, ◌≡◌, refl, ◌⊎◌, inl, inr, false, Option, none, some, List, [], ◌∷◌, ◌++◌, arith,
  str_eq, if◌then◌else◌, ok,
}
use garrison.Events.Dispatcher.{
  Dispatcher, contains, remove, route, event_of, claim_event, dispatch_begin, dispatch_end,
}
use garrison.Events.Dispatcher.InFlight.{Task}
use garrison.Events.Poller.{Row, Env, finish_dispatch, dispatch, poll_rows, poll_once}

-- The decoder reads back what the encoder writes.
pub record IsCodec (env : Env) : Type 0 where
  pub envelope : (s : String) → env.decoder.envelope (env.encoder.envelope s) ≡ some s
  pub uuid : (id : ℕ) → env.decoder.uuid (env.encoder.format_uuid id) ≡ some id
  pub nonempty : (id : ℕ) → str_eq (env.encoder.format_uuid id) "" ≡ false

-- The handlers that the rows call for: each row with a route whose event is not in flight.
abbrev due_one : Dispatcher → Row → Option ℕ → List Task
due_one d r none = []
due_one d r (some h) =
    if contains r.id d.in_flight then [] else record { handler = h; event = r.id } ∷ []

abbrev pub due : Dispatcher → List Row → List Task
due d [] = []
due d (r ∷ rs) = due_one d r (route d r.channel) ++ due d rs

-- The dispatches that return no error: of an event in flight, or of a handler that succeeds.
abbrev count_one : Env → Dispatcher → Row → Option ℕ → ℕ
count_one env d r none = 0
count_one env d r (some h) =
    if contains r.id d.in_flight then 1 else if env.succeeds h r.id then 1 else 0

abbrev pub accepted : Env → Dispatcher → List Row → ℕ
accepted env d [] = 0
accepted env d (r ∷ rs) = count_one env d r (route d r.channel) + accepted env d rs

remove-absent : (e : ℕ) (es : List ℕ) → contains e es ≡ false → remove e es ≡ es
unfolding contains remove
remove-absent e [] h = refl
remove-absent e (x ∷ es) h = ground (arith, remove-absent e es)

remove-head : (e : ℕ) (es : List ℕ) → contains e es ≡ false → remove e (e ∷ es) ≡ es
unfolding remove
remove-head e es h = ground (arith, remove-absent e es)

module _ (env : Env) (codec : IsCodec env) where
  event_of-envelope :
      (id : ℕ) → event_of env.decoder (env.encoder.envelope (env.encoder.format_uuid id)) ≡ ok id
  unfolding event_of
  event_of-envelope id =
      ground (arith, codec.envelope (env.encoder.format_uuid id), codec.uuid id, codec.nonempty id)

  finish-claim_event :
      (d : Dispatcher) (r : Row) (h : ℕ)
      → finish_dispatch env (claim_event d h (ok r.id)).0 (claim_event d h (ok r.id)).1 ≡ record {
        dispatcher = d;
        ran = due_one d r (some h);
        dispatched = count_one env d r (some h);
      }
  unfolding finish_dispatch claim_event dispatch_end
  finish-claim_event d r h = ground (arith, remove-head r.id d.in_flight)

  routed-due :
      (d : Dispatcher) (r : Row) (o : Option ℕ)
      → route d r.channel ≡ o
      → (let (d', v) =
            dispatch_begin env.decoder d r.channel
              (env.encoder.envelope (env.encoder.format_uuid r.id)) in
          finish_dispatch env d' v)
        ≡ record { dispatcher = d; ran = due_one d r o; dispatched = count_one env d r o }
  unfolding dispatch_begin finish_dispatch
  routed-due d r none e = rw e
  routed-due d r (some h) e = rw e (rw (event_of-envelope r.id) (finish-claim_event d r h))

  dispatch-due :
      (d : Dispatcher) (r : Row)
      → dispatch env d r.channel (env.encoder.envelope (env.encoder.format_uuid r.id)) ≡ record {
        dispatcher = d;
        ran = due_one d r (route d r.channel);
        dispatched = count_one env d r (route d r.channel);
      }
  unfolding dispatch
  dispatch-due d r = routed-due d r (route d r.channel) refl

  poll_rows-due :
      (d : Dispatcher) (rows : List Row)
      → poll_rows env d rows
        ≡ record { dispatcher = d; ran = due d rows; dispatched = accepted env d rows }
  unfolding poll_rows
  poll_rows-due d [] = refl
  poll_rows-due d (r ∷ rs) = rw (dispatch-due d r) (rw (poll_rows-due d rs))

-- A poll whose query fails runs nothing and records no time. One whose query succeeds records the
-- time; the handlers that it runs are those of the rows that have a route and are not in flight, in
-- the order of the rows, so that a handler that fails keeps no later row from its own; it counts
-- the rows in flight and the handlers that succeed; and it leaves the dispatcher as it was. This
-- supposes that the JSON and UUID decoders read back what the encoders write.
pub poll_once-due :
    (env : Env) (d : Dispatcher) (last now : ℕ) (rows : Option (List Row))
    → IsCodec env
    → ((rows ≡ none) × (poll_once env d (some last) now rows ≡ (none, some last)))
      ⊎ ((rs : List Row) × (rows ≡ some rs)
          × (poll_once env d (some last) now rows ≡ (
            some (record { dispatcher = d; ran = due d rs; dispatched = accepted env d rs }),
            some now,
          )))
unfolding poll_once
poll_once-due env d last now none codec = inl (refl, refl)
poll_once-due env d last now (some rs) codec = inr (rs, refl, rw (poll_rows-due env codec d rs))
