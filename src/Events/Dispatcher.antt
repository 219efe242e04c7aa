-- ===== src/Events/Dispatcher.antt =====
-- supervisor/internal/events/dispatcher.go. A handler is named by a number, an event id is a
-- number, and the decoding of JSON and of UUIDs is an input. `Dispatch` is two steps, before and
-- after its handler runs, since handlers of other calls run in between.
pub mod Routes
pub mod InFlight
use garrison.Common.{
  ℕ, zero, suc, ◌+◌, ◌-◌, ◌*◌, ◌/◌, ◌%◌, ◌^◌, ◌≤◌, ◌<◌, String, ◌≡◌, refl, sym, ap, ◌∙◌, ◌≢◌, ◌↔◌,
  ◌⊎◌, inl, inr, Bool, true, false, not, ◌&&◌, ◌||◌, Option, none, some, List, [], ◌∷◌, ◌++◌, map,
  arith, eq_iff, ltb, leb, ◌==◌, str_eq, concat, if◌then◌else◌, ltb→lt, lt→ltb, leb→le, ==_iff,
  Bool-cases, Option-cases, length, take, length-append, All, All-append, All-map, All-mono, Result,
  ok, err, ◌>>=◌, ◌>>◌,
}

abbrev pub RouteTable : Type 0
RouteTable = List (String × ℕ)

pub record Dispatcher : Type 0 where
  pub handlers : RouteTable
  pub in_flight : List ℕ
  pub dynamic : RouteTable

-- `json.Unmarshal` into the envelope (an absent `event_id` reads as the empty string), and the scan
-- of a UUID.
pub record Decoder : Type 0 where
  pub envelope : String → Option String
  pub uuid : String → Option ℕ

pub data DispatchError : Type 0 where
  unknown_channel malformed_payload missing_event_id invalid_event_id : DispatchError

-- What the first part of `Dispatch` decides.
pub data Verdict : Type 0 where
  refused : DispatchError → Verdict
  duplicate : Verdict
  started : ℕ → ℕ → Verdict

unfoldable pub find : String → RouteTable → Option ℕ
find c [] = none
find c ((d, h) ∷ m) = if str_eq d c then some h else find c m

unfoldable pub contains : ℕ → List ℕ → Bool
contains e [] = false
contains e (x ∷ xs) = x == e || contains e xs

abbrev pub new_dispatcher : RouteTable → Dispatcher
new_dispatcher handlers = record { handlers = handlers; in_flight = []; dynamic = [] }

abbrev or_else : Option ℕ → Option ℕ → Option ℕ
or_else (some h) o = some h
or_else none o = o

-- The base table first, then the overlay.
unfoldable pub route : Dispatcher → String → Option ℕ
unfolding find
route d channel = or_else (find channel d.handlers) (find channel d.dynamic)

-- The checks on the payload, in order.
unfoldable pub event_of : Decoder → String → Result DispatchError ℕ
event_of dec payload = elim (dec.envelope payload) [
  | none ↦ err malformed_payload
  | some event_id ↦
      if str_eq event_id ""
      then err missing_event_id
      else elim (dec.uuid event_id) [ none ↦ err invalid_event_id | some e ↦ ok e ]
]

-- `inFlight.LoadOrStore`
unfoldable pub claim_event : Dispatcher → ℕ → Result DispatchError ℕ → Dispatcher × Verdict
unfolding contains
claim_event d h (err e) = (d, refused e)
claim_event d h (ok event) =
    if contains event d.in_flight
    then (d, duplicate)
    else (record d { in_flight = event ∷ d.in_flight }, started h event)

unfoldable pub on_route : Decoder → Dispatcher → String → Option ℕ → Dispatcher × Verdict
unfolding event_of claim_event
on_route dec d payload none = (d, refused unknown_channel)
on_route dec d payload (some h) = claim_event d h (event_of dec payload)

unfoldable pub dispatch_begin : Decoder → Dispatcher → String → String → Dispatcher × Verdict
unfolding route on_route
dispatch_begin dec d channel payload = on_route dec d payload (route d channel)

-- The deferred `inFlight.Delete`
unfoldable pub remove : ℕ → List ℕ → List ℕ
remove e [] = []
remove e (x ∷ xs) = let rest = remove e xs in if x == e then rest else x ∷ rest

unfoldable pub dispatch_end : Dispatcher → ℕ → Dispatcher
unfolding remove
dispatch_end d event = record d { in_flight = remove event d.in_flight }

unfoldable pub set_dynamic_routes : RouteTable → Dispatcher → Dispatcher
set_dynamic_routes routes d = record d { dynamic = routes }

-- `Channels`: the base keys, and the keys of the overlay that they do not shadow.
keys : RouteTable → List String
keys [] = []
keys ((c, h) ∷ m) = c ∷ keys m

unshadowed : RouteTable → RouteTable → List String
unfolding find
unshadowed base [] = []
unshadowed base ((c, h) ∷ m) =
    let rest = unshadowed base m in elim (find c base) [ none ↦ c ∷ rest | some g ↦ rest ]

unfoldable pub channels : Dispatcher → List String
unfolding keys unshadowed
channels d = keys d.handlers ++ unshadowed d.handlers d.dynamic
