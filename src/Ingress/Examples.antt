-- ===== src/Ingress/Examples.antt =====
-- A delivery of GitHub, at concrete inputs.
use garrison.Common.{
  ℕ, String, ◌≡◌, refl, ◌≢◌, ◌↔◌, ◌⊎◌, true, false, Option, none, some, [], ◌∷◌, ◌++◌, ok, take,
}
use garrison.Common.Int.{pos}
use garrison.Common.Bytes.{codes, bytes_eq}
use garrison.Ingress.Connector.{Text, Request, filter_accept, TicketDraft, Connector}
use garrison.Ingress.Signature.{
  verify_github_signature, signature_prefix, decode_string, verify_iff,
}
use garrison.Ingress.GitHub.{
  Entity, Envelope, GitHubConfig, subscribed, filter, map_event, new_github_connector,
}
use garrison.Ingress.GitHub.Accepts.{AsksForWork, filter_iff}
use garrison.Ingress.Handler.{Run, State, handle}
use garrison.Ingress.Handler.Accepted.{
  created, Created, handle-Created, handle-accepts, Passes, Succeeds,
}
use garrison.Ingress.Handler.Once.{
  empty_db, handle_all, WellFormed, handle_all-WellFormed, redelivery-keeps,
}

-- In place of HMAC-SHA256: the secret and the first byte of the body.
abbrev hmac : Text → Text → Text
hmac secret body = secret ++ take 1 body

abbrev secret : Text
secret = 255 ∷ []

abbrev issue : Entity
issue = record {
  id = codes "17";
  title = codes "T";
  body = none;
  html_url = codes "u";
  number = pos 40;
}

abbrev envelope : Envelope
envelope = record {
  action = "opened";
  sender_type = "User";
  sender_login = codes "ann";
  issue = some issue;
  pull_request = none;
}

-- Bodies that begin with `{` parse to the one envelope.
abbrev unmarshal : Text → Option Envelope
unmarshal [] = none
unmarshal (c ∷ body) = some envelope

abbrev config : GitHubConfig
config = record {
  connector_id = "gh";
  routes =
      (
        "issues",
        record {
          department_slug = "growth";
          objective_template = codes "{{title}} #{{number}}";
          acceptance_template = codes "{{body}}";
        },
      )
      ∷ [];
}

abbrev github : Connector
github = new_github_connector hmac unmarshal config

abbrev header : Text
header = signature_prefix ++ codes "fF7b"

abbrev opened : Request
opened = record {
  body = some (codes "{}");
  event_header = "issues";
  delivery_header = "guid-1";
  signature_header = header;
}

abbrev department : String → Option ℕ
department slug = some 9

abbrev quiet : Run
quiet = record { fails = λ c. false; department = department; within_cap = true }

abbrev empty : State
empty = record { db = empty_db; rejections = 0; rate_cap_events = [] }

abbrev expected : TicketDraft
expected = record {
  department_slug = "growth";
  objective = codes "T #40";
  acceptance = codes "(no description provided)";
  external_id = codes "17";
  external_url = codes "u";
}

rendered : map_event unmarshal config "issues" (codes "{}") ≡ ok expected
unfolding map_event bytes_eq
rendered = refl

signed : verify_github_signature hmac (codes "{}") header secret ≡ true
unfolding verify_github_signature bytes_eq
signed = refl

verify_iff_example : (verify_github_signature hmac (codes "{}") header secret ≡ true) ↔ (
    (hex_part : Text) × (header ≡ signature_prefix ++ hex_part)
    × (decode_string hex_part ≡ some (255 ∷ 123 ∷ [])))
verify_iff_example = verify_iff hmac (codes "{}") header secret

is_subscribed : subscribed "issues" ≡ true
unfolding subscribed
is_subscribed = refl

accepts : filter unmarshal "issues" (codes "{}") ≡ filter_accept
unfolding filter bytes_eq
accepts = refl

filter_iff_example :
    (filter unmarshal "issues" (codes "{}") ≡ filter_accept)
    ↔ ((env : Envelope) × (unmarshal (codes "{}") ≡ some env) × AsksForWork "issues" env)
filter_iff_example = filter_iff unmarshal "issues" (codes "{}") is_subscribed

passes : Passes github secret quiet opened expected
passes = (codes "{}", "issues", refl, refl, is_subscribed, signed, accepts, refl, refl, rendered)

succeeds : Succeeds quiet
succeeds = (refl, refl, refl, refl, refl, refl)

handle-accepts_example :
    handle github secret quiet opened empty
    ≡ (record empty { db = created github "guid-1" expected 9 empty_db }, 202)
handle-accepts_example =
    handle-accepts github secret quiet opened empty expected 9 tt passes succeeds refl refl

first_answer : (handle github secret quiet opened empty).1 ≡ 202
unfolding handle subscribed verify_github_signature bytes_eq filter map_event
first_answer = refl

empty-WellFormed : WellFormed empty_db
empty-WellFormed = (tt, tt, refl)

handle-Created_example :
    Created github secret quiet opened empty
    ⊎ (((handle github secret quiet opened empty).1 ≢ 202)
        × ((handle github secret quiet opened empty).0.db ≡ empty_db))
handle-Created_example = handle-Created github secret quiet opened empty tt

handle_all-WellFormed_example :
    WellFormed (handle_all github secret ((quiet, opened) ∷ (quiet, opened) ∷ []) empty).db
handle_all-WellFormed_example =
    handle_all-WellFormed github secret ((quiet, opened) ∷ (quiet, opened) ∷ []) empty
      empty-WellFormed

abbrev after : State
after = handle_all github secret ((quiet, opened) ∷ []) (handle github secret quiet opened empty).0

redelivery-keeps_example :
    ((handle github secret quiet opened after).1 ≢ 202)
    × ((handle github secret quiet opened after).0.db ≡ after.db)
redelivery-keeps_example =
    redelivery-keeps github secret quiet quiet opened opened ((quiet, opened) ∷ []) empty
      empty-WellFormed first_answer refl
