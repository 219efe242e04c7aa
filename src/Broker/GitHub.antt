-- ===== src/Broker/GitHub.antt =====
-- supervisor/internal/actionbroker/github.go: how PostComment reads the response of GitHub. The
-- HTTP client and the JSON of the response body are not modelled: the response is an input.
use garrison.Common.{
  ℕ, ◌≤◌, String, ◌≡◌, ◌↔◌, ◌⊎◌, Bool, true, false, ◌||◌, Option, none, some, arith, leb, ◌==◌,
  if◌then◌else◌, Result, ok, err,
}

-- What `client.Do` gives: no response, or a status with the outcome of reading `html_url`.
pub data Response : Type 0 where
  network_error : Response
  response : ℕ → Option String → Response

-- An error that wraps `ErrRecoverable`, or a plain one.
pub data PostError : Type 0 where
  recoverable terminal : String → PostError

unfoldable pub post_comment : Response → Result PostError String
post_comment network_error = err (recoverable "network error")
post_comment (response code html_url) =
    if code == 201
    then (elim html_url [ some url ↦ ok url | none ↦ err (terminal "parse 201 response") ])
    else if code == 403 || code == 429
    then err (recoverable "rate limited or blocked")
    else if leb 500 code
    then err (recoverable "server error")
    else if code == 404 || code == 422
    then err (terminal "terminal provider error")
    else err (terminal "unexpected status")

-- Responses after which a later attempt could succeed.
abbrev pub IsTransient : Response → Type 0
IsTransient network_error = Unit
IsTransient (response code b) = (code ≡ 403) ⊎ (code ≡ 429) ⊎ (500 ≤ code)

-- A comment counts as posted exactly if GitHub answers 201 with a readable URL.
pub post_comment-ok :
    (r : Response) (url : String) → (post_comment r ≡ ok url) ↔ (r ≡ response 201 (some url))
unfolding post_comment
post_comment-ok network_error url = ground arith
post_comment-ok (response code none) url = ground arith
post_comment-ok (response code (some u)) url = ground arith

-- `errors.Is(err, ErrRecoverable)`
abbrev pub is_recoverable : Result PostError String → Bool
is_recoverable (err (recoverable e)) = true
is_recoverable _ = false

-- A failure is recoverable exactly if there was no answer, or the status is 403, 429 or at least
-- 500.
pub post_comment-recoverable :
    (r : Response) → (is_recoverable (post_comment r) ≡ true) ↔ IsTransient r
unfolding post_comment
post_comment-recoverable network_error = ground arith
post_comment-recoverable (response code none) = ground arith
post_comment-recoverable (response code (some u)) = ground arith
