-- ===== src/ClaudeProto/Router.antt =====
-- supervisor/internal/claudeproto/router.go: the dispatch of a line to a router.
pub mod Ends
use garrison.Common.{
  ℕ, String, ◌≡◌, refl, Bool, true, false, Option, none, some, List, [], ◌∷◌, str_eq, length,
  if◌then◌else◌, inl, inr, ◌⊎◌, Bool-cases, Option-cases,
}
use garrison.ClaudeProto.Events.{
  Text, InitEvent, AssistantEvent, UserEvent, RateLimitEvent, ResultEvent, StreamEvent,
  UnknownEvent,
}
use garrison.ClaudeProto.Decode.{
  Json, Envelope, decode_assistant, decode_user, decode_stream_event, decode_result,
}

pub data RouterAction : Type 0 where
  continue bail : RouterAction

-- The interface `Router` over the state `S` of its implementation.
pub record Router (S : Type 0) : Type 0 where
  pub on_init : InitEvent → S → RouterAction × S
  pub on_assistant : AssistantEvent → S → S
  pub on_user : UserEvent → S → S
  pub on_rate_limit : RateLimitEvent → S → S
  pub on_result : ResultEvent → S → S
  pub on_stream_event : StreamEvent → S → S
  pub on_task_started : Text → S → S
  pub on_unknown : UnknownEvent → S → S

-- `(RouterAction, error)` and the state of the router after the call.
pub record Routed (S : Type 0) : Type 0 where
  pub action : RouterAction
  pub failed : Bool
  pub state : S

abbrev unknown : Envelope → Text → UnknownEvent
unknown env raw = record { type = env.type; subtype = env.subtype; raw = raw }

module _ {S : Type 0} where
  abbrev continued : S → Routed S
  continued s = record { action = continue; failed = false; state = s }

  abbrev refused : S → Routed S
  refused s = record { action = bail; failed = true; state = s }

  -- An event that does not decode is an error; one that does goes to its handler.
  abbrev observed : {E : Type 0} → Option E → (E → S → S) → S → Routed S
  observed none handler s = refused s
  observed (some e) handler s = continued (handler e s)

  abbrev routed_init : RouterAction × S → Routed S
  routed_init (action, s) = record { action = action; failed = false; state = s }

  abbrev pub routed_decoded : Router S → Text → S → Option InitEvent → Routed S
  routed_decoded r raw s none = refused s
  routed_decoded r raw s (some e) = routed_init (r.on_init (record e { raw = raw }) s)

  -- The handlers of `Route` for an event of type "system"
  route_system : Json → Router S → Text → Envelope → S → Routed S
  route_system json r raw env s =
      if str_eq env.subtype "init"
      then routed_decoded r raw s (json.init raw)
      else if str_eq env.subtype "task_started"
      then continued (r.on_task_started raw s)
      else continued (r.on_unknown (unknown env raw) s)

  route_rate_limit : Json → Router S → Text → S → Routed S
  route_rate_limit json r raw s =
      observed (json.rate_limit raw) (λ e. r.on_rate_limit (record e { raw = raw })) s

  route_envelope : Json → Router S → Text → Envelope → S → Routed S
  unfolding route_system route_rate_limit decode_assistant decode_user decode_result
      decode_stream_event
  route_envelope json r raw env s =
      if str_eq env.type "system"
      then route_system json r raw env s
      else if str_eq env.type "assistant"
      then observed (decode_assistant json raw) r.on_assistant s
      else if str_eq env.type "user"
      then observed (decode_user json raw) r.on_user s
      else if str_eq env.type "rate_limit_event"
      then route_rate_limit json r raw s
      else if str_eq env.type "result"
      then observed (decode_result json raw) r.on_result s
      else if str_eq env.type "stream_event"
      then observed (decode_stream_event json raw) r.on_stream_event s
      else continued (r.on_unknown (unknown env raw) s)

  unfoldable pub route : Json → Router S → Text → S → Routed S
  unfolding route_envelope
  route json r raw s = elim (json.envelope raw) [
    | none ↦ refused s
    | some env ↦ route_envelope json r raw env s
  ]
