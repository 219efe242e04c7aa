-- ===== src/ClaudeProto/Router/Ends.antt =====
-- How the dispatch of a line can end, and what it preserves.
use garrison.Common.{
  ◌≡◌, Bool, true, false, Option, none, some, str_eq, if◌then◌else◌, inl, inr, Option-cases,
}
use garrison.ClaudeProto.Events.{
  Text, InitEvent, AssistantEvent, UserEvent, RateLimitEvent, ResultEvent, StreamEvent,
  UnknownEvent,
}
use garrison.ClaudeProto.Decode.{
  Json, Envelope, decode_assistant, decode_user, decode_stream_event, decode_result,
}
use garrison.ClaudeProto.Router.{
  continue, bail, Router, Routed, route, route_system, route_rate_limit, route_envelope, observed,
}

-- What a line says, for the handler of its type.
pub data Line : Type 0 where
  init_line : InitEvent → Line
  assistant_line : AssistantEvent → Line
  user_line : UserEvent → Line
  rate_limit_line : RateLimitEvent → Line
  result_line : ResultEvent → Line
  stream_line : StreamEvent → Line
  task_started_line : Text → Line
  unknown_line : UnknownEvent → Line

abbrev as_line : {E : Type 0} → (E → Line) → Option E → Option Line
as_line f none = none
as_line f (some e) = some (f e)

unknown_of : Envelope → Text → Line
unknown_of env raw = unknown_line (record { type = env.type; subtype = env.subtype; raw = raw })

system_line : Json → Text → Envelope → Option Line
unfolding unknown_of
system_line json raw env =
    if str_eq env.subtype "init"
    then as_line (λ e. init_line (record e { raw = raw })) (json.init raw)
    else if str_eq env.subtype "task_started"
    then some (task_started_line raw)
    else some (unknown_of env raw)

line_of : Json → Text → Envelope → Option Line
unfolding system_line unknown_of
line_of json raw env =
    if str_eq env.type "system"
    then system_line json raw env
    else if str_eq env.type "assistant"
    then as_line assistant_line (decode_assistant json raw)
    else if str_eq env.type "user"
    then as_line user_line (decode_user json raw)
    else if str_eq env.type "rate_limit_event"
    then as_line (λ e. rate_limit_line (record e { raw = raw })) (json.rate_limit raw)
    else if str_eq env.type "result"
    then as_line result_line (decode_result json raw)
    else if str_eq env.type "stream_event"
    then as_line stream_line (decode_stream_event json raw)
    else some (unknown_of env raw)

-- A line read on its own, before any handler: `none` if it does not decode.
pub read_line : Json → Text → Option Line
unfolding line_of
read_line json raw = elim (json.envelope raw) [ none ↦ none | some env ↦ line_of json raw env ]

module _ {S : Type 0} where
  abbrev Continues : Routed S → S → Type 0
  Continues o t = (o.failed ≡ false) × (o.action ≡ continue) × (o.state ≡ t)

  -- Who handles a line that is read, and how the call then ends: without an error, and with a bail
  -- only if `on_init` asks for it. A line that is not read is an error, and calls no handler.
  abbrev pub RouteEnd : Router S → S → Option Line → Routed S → Type 0
  RouteEnd r s none o = (o.failed ≡ true) × (o.action ≡ bail) × (o.state ≡ s)
  RouteEnd r s (some (init_line e)) o = (o.failed ≡ false) × (r.on_init e s ≡ (o.action, o.state))
  RouteEnd r s (some (assistant_line e)) o = Continues o (r.on_assistant e s)
  RouteEnd r s (some (user_line e)) o = Continues o (r.on_user e s)
  RouteEnd r s (some (rate_limit_line e)) o = Continues o (r.on_rate_limit e s)
  RouteEnd r s (some (result_line e)) o = Continues o (r.on_result e s)
  RouteEnd r s (some (stream_line e)) o = Continues o (r.on_stream_event e s)
  RouteEnd r s (some (task_started_line raw)) o = Continues o (r.on_task_started raw s)
  RouteEnd r s (some (unknown_line e)) o = Continues o (r.on_unknown e s)

  -- Every handler of the router keeps `P`.
  pub record Keeps {ℓ} (r : Router S) (P : S → Type ℓ) : Type ℓ where
    pub init : (e : InitEvent) (s : S) → P s → P (r.on_init e s).1
    pub assistant : (e : AssistantEvent) (s : S) → P s → P (r.on_assistant e s)
    pub user : (e : UserEvent) (s : S) → P s → P (r.on_user e s)
    pub rate_limit : (e : RateLimitEvent) (s : S) → P s → P (r.on_rate_limit e s)
    pub result : (e : ResultEvent) (s : S) → P s → P (r.on_result e s)
    pub stream_event : (e : StreamEvent) (s : S) → P s → P (r.on_stream_event e s)
    pub task_started : (raw : Text) (s : S) → P s → P (r.on_task_started raw s)
    pub unknown : (e : UnknownEvent) (s : S) → P s → P (r.on_unknown e s)

  observed-Keeps {ℓ} :
      {E : Type 0} (P : S → Type ℓ) (o : Option E) (handler : E → S → S) (s : S)
      → ((e : E) (t : S) → P t → P (handler e t))
      → P s
      → P (observed o handler s).state
  observed-Keeps P none handler s keep h = h
  observed-Keeps P (some e) handler s keep h = keep e s h

  choose-Keeps {ℓ} :
      (P : S → Type ℓ) (b : Bool) (o p : Routed S)
      → P o.state
      → P p.state
      → P (if b then o else p).state
  choose-Keeps P true o p a c = a
  choose-Keeps P false o p a c = c

  pub route-Keeps {ℓ} :
      (json : Json) (r : Router S) (P : S → Type ℓ)
      → Keeps r P
      → (raw : Text) (s : S) → P s
      → P (route json r raw s).state
  unfolding route route_envelope route_rate_limit route_system
  route-Keeps json r P k raw s h = elim (Option-cases (json.envelope raw)) [
    | inl n ↦ rw (n, route) h
    | inr (env, q) ↦
        rw (q, route)
          (choose-Keeps P (str_eq env.type "system") _ _
            (choose-Keeps P (str_eq env.subtype "init") _ _
              (elim (Option-cases (json.init raw)) [
                | inl n ↦ rw n h
                | inr (e, i) ↦ rw i (k.init _ s h)
              ])
              (choose-Keeps P (str_eq env.subtype "task_started") _ _ (k.task_started raw s h)
                (k.unknown _ s h)))
            (choose-Keeps P (str_eq env.type "assistant") _ _ (observed-Keeps P _ _ s k.assistant h)
              (choose-Keeps P (str_eq env.type "user") _ _ (observed-Keeps P _ _ s k.user h) (
                choose-Keeps P (str_eq env.type "rate_limit_event") _ _
                  (observed-Keeps P _ _ s (λ e. k.rate_limit _) h)
                  (choose-Keeps P (str_eq env.type "result") _ _ (observed-Keeps P _ _ s k.result h)
                    (choose-Keeps P (str_eq env.type "stream_event") _ _
                      (observed-Keeps P _ _ s k.stream_event h) (k.unknown _ s h)))))))
  ]
