-- ===== src/Events/Poller.antt =====
-- supervisor/internal/events/poller.go: the fallback poll, with no handler of another call
-- starting or returning while it runs. The rows of SelectUnprocessedEvents, the JSON codec and what each handler
-- returns are inputs.
pub mod Due
use garrison.Common.{
  ℕ, zero, suc, ◌+◌, ◌-◌, ◌*◌, ◌/◌, ◌%◌, ◌^◌, ◌≤◌, ◌<◌, String, ◌≡◌, refl, sym, ap, ◌∙◌, ◌≢◌, ◌↔◌,
  ◌⊎◌, inl, inr, Bool, true, false, not, ◌&&◌, ◌||◌, Option, none, some, List, [], ◌∷◌, ◌++◌, map,
  arith, eq_iff, ltb, leb, ◌==◌, str_eq, concat, if◌then◌else◌, ltb→lt, lt→ltb, leb→le, ==_iff,
  Bool-cases, Option-cases, length, take, length-append, All, All-append, All-map, All-mono, Result,
  ok, err, ◌>>=◌, ◌>>◌,
}
use garrison.Events.Dispatcher.{
  Dispatcher, Decoder, DispatchError, Verdict, refused, duplicate, started, dispatch_begin,
  dispatch_end,
}
use garrison.Events.Dispatcher.InFlight.{Task}

pub record Row : Type 0 where
  pub id : ℕ
  pub channel : String

-- Marshalling of the envelope, and `formatUUID`.
pub record Encoder : Type 0 where
  pub envelope : String → String
  pub format_uuid : ℕ → String

pub record Env : Type 0 where
  pub decoder : Decoder
  pub encoder : Encoder
  pub succeeds : ℕ → ℕ → Bool

-- What a poll leaves: the dispatcher, the handlers that it ran, in order, and the number of
-- dispatches that returned no error.
pub record Polled : Type 0 where
  pub dispatcher : Dispatcher
  pub ran : List Task
  pub dispatched : ℕ

-- The rest of `Dispatch`: the handler runs, and its event leaves the in-flight set.
finish_dispatch : Env → Dispatcher → Verdict → Polled
finish_dispatch env d (refused e) = record { dispatcher = d; ran = []; dispatched = 0 }
finish_dispatch env d duplicate = record { dispatcher = d; ran = []; dispatched = 1 }
finish_dispatch env d (started h e) = record {
  dispatcher = dispatch_end d e;
  ran = record { handler = h; event = e } ∷ [];
  dispatched = if env.succeeds h e then 1 else 0;
}

dispatch : Env → Dispatcher → String → String → Polled
unfolding dispatch_begin finish_dispatch
dispatch env d channel payload =
    let (d', verdict) = dispatch_begin env.decoder d channel payload in
    finish_dispatch env d' verdict

-- A dispatch that fails does not end the batch.
poll_rows : Env → Dispatcher → List Row → Polled
unfolding dispatch
poll_rows env d [] = record { dispatcher = d; ran = []; dispatched = 0 }
poll_rows env d (r ∷ rs) =
    let one = dispatch env d r.channel (env.encoder.envelope (env.encoder.format_uuid r.id)) in
    let rest = poll_rows env one.dispatcher rs in
    record {
      dispatcher = rest.dispatcher;
      ran = one.ran ++ rest.ran;
      dispatched = one.dispatched + rest.dispatched;
    }

-- `pollOnce`: the poll time is recorded once the query has succeeded.
unfoldable pub poll_once :
    Env → Dispatcher → Option ℕ → ℕ → Option (List Row) → Option Polled × Option ℕ
unfolding poll_rows
poll_once env d last_poll_at now none = (none, last_poll_at)
poll_once env d last_poll_at now (some rows) = (some (poll_rows env d rows), some now)
