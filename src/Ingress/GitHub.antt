-- ===== src/Ingress/GitHub.antt =====
-- supervisor/internal/ingress/github.go and render.go. The routes are an association list, and
-- `json.Unmarshal` into the envelope is a parameter, as is HMAC-SHA256.
pub mod Accepts
use garrison.Common.{
  ℕ, zero, suc, ◌+◌, ◌-◌, ◌*◌, ◌/◌, ◌%◌, ◌≤◌, ◌<◌, String, ◌≡◌, refl, Bool, true, false, ◌&&◌, ◌||◌,
  Option, none, some, List, [], ◌∷◌, ◌++◌, arith, ltb, leb, ◌==◌, str_eq, if◌then◌else◌, length,
  Result, ok, err, ◌>>=◌,
}
use garrison.Common.Int.{ℤ, pos, negsuc}
use garrison.Common.Bytes.{codes, bytes_eq}
use garrison.Common.Replace.{contains, replace_all}
use garrison.Ingress.Connector.{
  Text, Request, FilterDecision, filter_accept, filter_discard, TicketDraft, MapError, no_mapping,
  malformed_delivery, unparseable, Connector,
}
use garrison.Ingress.Signature.{verify_github_signature}

pub record Route : Type 0 where
  pub department_slug : String
  pub objective_template : Text
  pub acceptance_template : Text

-- `issue` and `pull_request` have the same fields; `id` is the text of a json.Number.
pub record Entity : Type 0 where
  pub id : Text
  pub title : Text
  pub body : Option Text
  pub html_url : Text
  pub number : ℤ

pub record Envelope : Type 0 where
  pub action : String
  pub sender_type : String
  pub sender_login : Text
  pub issue : Option Entity
  pub pull_request : Option Entity

pub record GitHubConfig : Type 0 where
  pub connector_id : String
  pub routes : List (String × Route)

abbrev pub find_route : String → List (String × Route) → Option Route
find_route k [] = none
find_route k ((k', r) ∷ rs) = if str_eq k k' then some r else find_route k rs

-- `strings.HasSuffix`
abbrev pub has_suffix : Text → Text → Bool
has_suffix [] suffix = bytes_eq [] suffix
has_suffix (c ∷ s) suffix = bytes_eq (c ∷ s) suffix || has_suffix s suffix

-- The variables of a template: all five are always present.
pub record Vars : Type 0 where
  pub title : Text
  pub url : Text
  pub body : Text
  pub number : Text
  pub sender : Text

abbrev null_body_fallback : Text
null_body_fallback = codes "(no description provided)"

substitute : String → Text → Text → Text
unfolding contains replace_all
substitute name value out =
    let token = codes "{{" ++ codes name ++ codes "}}" in
    let shown = if bytes_eq value [] then null_body_fallback else value in
    if contains out token then replace_all 0 out token shown else out

-- `renderTemplate`, one variable after the other.
unfoldable pub render_template : Text → Vars → Text
unfolding substitute
render_template tmpl v = substitute "sender" v.sender (
    substitute "number" v.number
      (substitute "body" v.body (substitute "url" v.url (substitute "title" v.title tmpl))))

-- The decimal digits of a number, `fuel` at most; a number has at most as many as itself and one.
digits : ℕ → ℕ → Text
digits zero n = []
digits (suc fuel) n =
    let front = digits fuel (n / 10) in
    if ltb n 10 then (48 + n) ∷ [] else front ++ (48 + n % 10) ∷ []

-- `strconv.Itoa`
itoa : ℤ → Text
unfolding digits
itoa (pos n) = digits (n + 1) n
itoa (negsuc n) = 45 ∷ digits (n + 2) (n + 1)

-- `Subscribed`
unfoldable pub subscribed : String → Bool
subscribed event = str_eq event "issues" || str_eq event "pull_request" || str_eq event "ping"

filter_envelope : String → Envelope → FilterDecision
filter_envelope event env =
    if str_eq env.sender_type "Bot" || has_suffix env.sender_login (codes "[bot]")
    then filter_discard
    else if str_eq event "issues"
    then (if str_eq env.action "opened" || str_eq env.action "reopened"
        then filter_accept
        else filter_discard)
    else if str_eq event "pull_request"
    then (if str_eq env.action "review_requested" then filter_accept else filter_discard)
    else filter_accept

filter_parsed : String → Option Envelope → FilterDecision
unfolding filter_envelope
filter_parsed event none = filter_discard
filter_parsed event (some env) = filter_envelope event env

-- `Filter`; its error, on which it discards, is only logged.
unfoldable pub filter : (Text → Option Envelope) → String → Text → FilterDecision
unfolding filter_parsed
filter unmarshal event body =
    if str_eq event "ping" then filter_discard else filter_parsed event (unmarshal body)

body_text : Option Text → Text
body_text none = []
body_text (some b) = b

draft : Route → Envelope → Option Entity → Result MapError TicketDraft
unfolding render_template itoa body_text
draft route env none = err malformed_delivery
draft route env (some e) =
    let vars : Vars = record {
      title = e.title;
      url = e.html_url;
      body = body_text e.body;
      number = itoa e.number;
      sender = env.sender_login;
    } in
    ok (record {
      department_slug = route.department_slug;
      objective = render_template route.objective_template vars;
      acceptance = render_template route.acceptance_template vars;
      external_id = e.id;
      external_url = e.html_url;
    })

map_parsed : String → Route → Option Envelope → Result MapError TicketDraft
unfolding draft
map_parsed event route none = err unparseable
map_parsed event route (some env) =
    if str_eq event "issues"
    then draft route env env.issue
    else if str_eq event "pull_request"
    then draft route env env.pull_request
    else err no_mapping

map_routed : (Text → Option Envelope) → String → Text → Option Route → Result MapError TicketDraft
unfolding map_parsed
map_routed unmarshal event body none = err no_mapping
map_routed unmarshal event body (some route) = map_parsed event route (unmarshal body)

-- `Map`
unfoldable pub map_event :
    (Text → Option Envelope) → GitHubConfig → String → Text → Result MapError TicketDraft
unfolding map_routed
map_event unmarshal cfg event body = map_routed unmarshal event body (find_route event cfg.routes)

abbrev pub event_type : Request → Option String
event_type r = if str_eq r.event_header "" then none else some r.event_header

-- `NewGitHubConnector`
abbrev pub new_github_connector :
    (Text → Text → Text) → (Text → Option Envelope) → GitHubConfig → Connector
new_github_connector hmac unmarshal cfg = record {
  id = cfg.connector_id;
  event_type = event_type;
  subscribed = subscribed;
  delivery_id = λ r. r.delivery_header;
  verify_signature = λ body r secret. verify_github_signature hmac body r.signature_header secret;
  filter = filter unmarshal;
  map_event = map_event unmarshal cfg;
}
