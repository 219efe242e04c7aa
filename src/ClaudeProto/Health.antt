-- ===== src/ClaudeProto/Health.antt =====
-- supervisor/internal/claudeproto/init.go
use garrison.Common.{
  String, ◌≡◌, refl, ◌↔◌, Bool, true, false, ◌||◌, List, [], ◌∷◌, ◌++◌, str_eq, Bool-cases,
  if◌then◌else◌, inl, inr, All, ap, ◌∙◌,
}

pub record McpServer : Type 0 where
  pub name : String
  pub status : String

-- `(ok, offenderName, offenderStatus)`
pub data Health : Type 0 where
  healthy : Health
  offender : String → String → Health

abbrev pub is_live : McpServer → Bool
is_live s = str_eq s.status "connected" || str_eq s.status "pending"

unfoldable pub check_mcp_health : List McpServer → Health
check_mcp_health [] = healthy
check_mcp_health (s ∷ servers) =
    if is_live s then check_mcp_health servers else offender s.name s.status

unfoldable pub pending_mcp_servers : List McpServer → List String
pending_mcp_servers [] = []
pending_mcp_servers (s ∷ servers) =
    let rest = pending_mcp_servers servers in
    if str_eq s.status "pending" then s.name ∷ rest else rest

abbrev pub IsLive : McpServer → Type 0
IsLive s = is_live s ≡ true

-- The servers before `s` are live, and `s` is not.
abbrev pub IsFirst : List McpServer → McpServer → Type 0
IsFirst servers s =
    (live : List McpServer) × (rest : List McpServer) × (servers ≡ live ++ s ∷ rest)
    × All IsLive live
    × (is_live s ≡ false)

cons-All :
    (s : McpServer) (servers : List McpServer)
    → IsLive s
    → All IsLive servers
    → All IsLive (s ∷ servers)
cons-All s servers a b = (a, b)

healthy-All : (servers : List McpServer) → check_mcp_health servers ≡ healthy → All IsLive servers
unfolding check_mcp_health
healthy-All [] h = tt
healthy-All (s ∷ servers) h = elim (Bool-cases (is_live s)) [
  | inl y ↦ (y, healthy-All servers (rw y at h))
  | inr n ↦ let e = rw n at h in cc
]

All-healthy : (servers : List McpServer) → All IsLive servers → check_mcp_health servers ≡ healthy
unfolding check_mcp_health
All-healthy [] a = refl
All-healthy (s ∷ servers) a = rw a.0 (All-healthy servers a.1)

First-offender :
    (live rest : List McpServer) (s : McpServer)
    → All IsLive live
    → is_live s ≡ false
    → check_mcp_health (live ++ s ∷ rest) ≡ offender s.name s.status
unfolding check_mcp_health
First-offender [] rest s a n = rw n
First-offender (l ∷ live) rest s a n = rw a.0 (First-offender live rest s a.1 n)

offender-First :
    (servers : List McpServer) (name status : String)
    → check_mcp_health servers ≡ offender name status
    → (s : McpServer) × IsFirst servers s × (s.name ≡ name) × (s.status ≡ status)
unfolding check_mcp_health
offender-First [] name status h = cc
offender-First (s ∷ servers) name status h = elim (Bool-cases (is_live s)) [
  | inl y ↦
      let (t, (live, rest, e, a, n), p, q) = offender-First servers name status (rw y at h) in
      (t, (s ∷ live, rest, ap (λ xs. s ∷ xs) e, (y, a), n), p, q)
  | inr n ↦ let e = rw n at h in (s, ([], servers, refl, tt, n), cc, cc)
]

-- The check accepts a list of servers exactly when every server is connected or pending. It refuses
-- with a name and a status exactly when they are those of the first server that is neither.
pub check_mcp_health_iff :
    (servers : List McpServer)
    → ((check_mcp_health servers ≡ healthy) ↔ All IsLive servers)
      × ((name status : String)
          → (check_mcp_health servers ≡ offender name status)
            ↔ ((s : McpServer) × IsFirst servers s × (s.name ≡ name) × (s.status ≡ status)))
check_mcp_health_iff servers = (
  (healthy-All servers, All-healthy servers),
  (λ name status. (
    offender-First servers name status,
    (λ (s, (live, rest, e, a, n), p, q). rw e (First-offender live rest s a n ∙ cc)),
  )),
)
