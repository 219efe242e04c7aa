-- ===== src/Ingress/GitHub/Accepts.antt =====
-- Which events of GitHub become tickets.
use garrison.Common.{
  String, ◌≡◌, refl, ◌≢◌, ◌↔◌, ◌⊎◌, inl, inr, Bool, true, false, Option, none, some, ap, ◌∙◌, arith,
  eq_iff, str_eq, if◌then◌else◌, ◌||◌,
}
use garrison.Common.Bytes.{codes}
use garrison.Ingress.Connector.{Text, FilterDecision, filter_accept, filter_discard}
use garrison.Ingress.GitHub.{
  Envelope, has_suffix, subscribed, filter, filter_parsed, filter_envelope,
}

-- The sender is not a bot, and the action is one that asks for work.
abbrev pub AsksForWork : String → Envelope → Type 0
AsksForWork event env =
    (env.sender_type ≢ "Bot")
    × (has_suffix env.sender_login (codes "[bot]") ≡ false)
    × (((event ≡ "issues") × ((env.action ≡ "opened") ⊎ (env.action ≡ "reopened")))
        ⊎ ((event ≡ "pull_request") × (env.action ≡ "review_requested")))

-- The rules on their tests: bot by type, bot by login, issues, opened, reopened, pull request,
-- review requested.
rules : Bool → Bool → Bool → Bool → Bool → Bool → Bool → FilterDecision
rules a b i o r p v =
    if a || b
    then filter_discard
    else if i
    then (if o || r then filter_accept else filter_discard)
    else if p
    then (if v then filter_accept else filter_discard)
    else filter_accept

rules_iff :
    (a b i o r p v : Bool)
    → (i ≡ true) ⊎ ((i ≡ false) × (p ≡ true))
    → (rules a b i o r p v ≡ filter_accept) ↔ (
        (a ≢ true)
        × (b ≡ false)
        × (((i ≡ true) × ((o ≡ true) ⊎ (r ≡ true))) ⊎ ((i ≡ false) × (p ≡ true) × (v ≡ true))))
unfolding rules
rules_iff a b i o r p v k = ground arith

apart : (event : String) → event ≡ "pull_request" → str_eq event "issues" ≡ false
apart event e = rw e refl

-- The tests of the rules say what `AsksForWork` says.
tests_iff :
    (event : String) (env : Envelope)
    → ((str_eq env.sender_type "Bot" ≢ true)
        × (has_suffix env.sender_login (codes "[bot]") ≡ false)
        × (((str_eq event "issues" ≡ true)
              × ((str_eq env.action "opened" ≡ true) ⊎ (str_eq env.action "reopened" ≡ true)))
            ⊎ ((str_eq event "issues" ≡ false)
                × (str_eq event "pull_request" ≡ true)
                × (str_eq env.action "review_requested" ≡ true))))
      ↔ AsksForWork event env
tests_iff event env = (
  (λ (n, b, c). (
    λ e. n ((eq_iff _ _).1 e),
    b,
    elim c [
      | inl (x, inl o) ↦ inl ((eq_iff _ _).0 x, inl ((eq_iff _ _).0 o))
      | inl (x, inr r) ↦ inl ((eq_iff _ _).0 x, inr ((eq_iff _ _).0 r))
      | inr (f, p, v) ↦ inr ((eq_iff _ _).0 p, (eq_iff _ _).0 v)
    ],
  )),
  (λ (n, b, c). (
    λ e. n ((eq_iff _ _).0 e),
    b,
    elim c [
      | inl (x, inl o) ↦ inl ((eq_iff _ _).1 x, inl ((eq_iff _ _).1 o))
      | inl (x, inr r) ↦ inl ((eq_iff _ _).1 x, inr ((eq_iff _ _).1 r))
      | inr (p, v) ↦ inr (apart event p, (eq_iff _ _).1 p, (eq_iff _ _).1 v)
    ],
  )),
)

handled :
    (event : String)
    → (event ≡ "issues") ⊎ (event ≡ "pull_request")
    → (str_eq event "issues" ≡ true)
      ⊎ ((str_eq event "issues" ≡ false) × (str_eq event "pull_request" ≡ true))
handled event (inl e) = inl ((eq_iff _ _).1 e)
handled event (inr e) = inr (apart event e, (eq_iff _ _).1 e)

envelope_iff :
    (event : String) (env : Envelope)
    → (event ≡ "issues") ⊎ (event ≡ "pull_request")
    → (filter_envelope event env ≡ filter_accept) ↔ AsksForWork event env
unfolding filter_envelope rules
envelope_iff event env k =
    let i =
      rules_iff (str_eq env.sender_type "Bot") (has_suffix env.sender_login (codes "[bot]"))
        (str_eq event "issues") (str_eq env.action "opened") (str_eq env.action "reopened")
        (str_eq event "pull_request") (str_eq env.action "review_requested") (handled event k) in
    let t = tests_iff event env in ((λ h. t.0 (i.0 h)), (λ w. i.1 (t.1 w)))

parsed_iff :
    (event : String) (o : Option Envelope)
    → (event ≡ "issues") ⊎ (event ≡ "pull_request")
    → (filter_parsed event o ≡ filter_accept)
      ↔ ((env : Envelope) × (o ≡ some env) × AsksForWork event env)
unfolding filter_parsed
parsed_iff event none k = ((λ h. cc), (λ h. cc))
parsed_iff event (some env) k = (
  (λ h. (env, refl, (envelope_iff event env k).0 h)),
  (λ (e, same, asks). ap (filter_parsed event) same ∙ (envelope_iff event e k).1 asks),
)

subscribed-cases :
    (event : String)
    → subscribed event ≡ true
    → (event ≡ "issues") ⊎ (event ≡ "pull_request") ⊎ (event ≡ "ping")
unfolding subscribed
subscribed-cases event s =
    ground (arith, eq_iff event "issues", eq_iff event "pull_request", eq_iff event "ping")

of_ping : (event : String) (env : Envelope) → event ≡ "ping" → ¬ AsksForWork event env
of_ping event env e (n, b, inl (x, _)) = cc
of_ping event env e (n, b, inr (x, _)) = cc

not_ping :
    (event : String) → (event ≡ "issues") ⊎ (event ≡ "pull_request") → str_eq event "ping" ≡ false
not_ping event (inl e) = rw e refl
not_ping event (inr e) = rw e refl

ping_discards :
    (unmarshal : Text → Option Envelope) (event : String) (body : Text)
    → event ≡ "ping"
    → filter unmarshal event body ≡ filter_discard
unfolding filter
ping_discards unmarshal event body e = rw e refl

-- An event of a subscribed kind passes the noise filter exactly if it is not a ping, its body
-- parses, its sender is not a bot, and its action asks for work.
pub filter_iff :
    (unmarshal : Text → Option Envelope) (event : String) (body : Text)
    → subscribed event ≡ true
    → (filter unmarshal event body ≡ filter_accept)
      ↔ ((env : Envelope) × (unmarshal body ≡ some env) × AsksForWork event env)
unfolding filter
filter_iff unmarshal event body s = elim (subscribed-cases event s) [
  | inl issues ↦ rw (not_ping event (inl issues)) (parsed_iff event (unmarshal body) (inl issues))
  | inr (inl pull) ↦ rw (not_ping event (inr pull)) (parsed_iff event (unmarshal body) (inr pull))
  | inr (inr ping) ↦ (
    (λ h. absurd (let d = ping_discards unmarshal event body ping in cc)),
    (λ (env, u, asks). absurd (of_ping event env ping asks)),
  )
]
