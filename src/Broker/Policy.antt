-- ===== src/Broker/Policy.antt =====
-- supervisor/internal/actionbroker/policy.go: the classification of action types.
pub mod Floor
use garrison.Common.{
  ℕ, zero, suc, ◌+◌, ◌-◌, ◌*◌, ◌/◌, ◌%◌, ◌^◌, ◌≤◌, ◌<◌, String, ◌≡◌, refl, sym, ap, ◌∙◌, ◌≢◌, ◌↔◌,
  ◌⊎◌, inl, inr, Bool, true, false, not, ◌&&◌, ◌||◌, Option, none, some, List, [], ◌∷◌, ◌++◌, map,
  arith, eq_iff, ltb, leb, ◌==◌, str_eq, if◌then◌else◌, ltb→lt, lt→ltb, leb→le, ==_iff, Bool-cases,
  Option-cases, length, take, length-append, All, Result, ok, err, ◌>>=◌, ◌>>◌,
}

-- The four strings that the tier column admits, and any other.
pub data Tier : Type 0 where
  auto notify approve human_only : Tier
  other : String → Tier

-- A deploy-time table, as `map[string]Tier`.
abbrev pub PolicyTable : Type 0
PolicyTable = List (String × Tier)

unfoldable pub lookup : String → PolicyTable → Option Tier
lookup k [] = none
lookup k ((j, t) ∷ m) = if str_eq j k then some t else lookup k m

-- `policy[k] = t`
unfoldable pub insert : String → Tier → PolicyTable → PolicyTable
insert k t [] = (k, t) ∷ []
insert k t ((j, u) ∷ m) = if str_eq j k then (k, t) ∷ m else (j, u) ∷ insert k t m

-- `delete(policy, k)`
unfoldable pub delete : String → PolicyTable → PolicyTable
delete k [] = []
delete k ((j, u) ∷ m) = let rest = delete k m in if str_eq j k then rest else (j, u) ∷ rest

-- The two tables as they are compiled in. A Go map has no order; `FloorActionTypes` lists its keys.
abbrev pub floor_action_types : List String
floor_action_types = "github_issue_comment" ∷ []

abbrev pub policy : PolicyTable
policy = ("github_issue_comment", approve) ∷ []

abbrev pub in_floor : String → Bool
in_floor a = str_eq "github_issue_comment" a

-- Layers 2 and 3 of `Classify`.
abbrev by_policy : Option Tier → Tier × String
by_policy (some t) = (t, "deploy-time tier policy")
by_policy none = (approve, "unclassified action type — safe-by-construction default")

-- The table is a package variable of the source, and an argument here.
unfoldable pub classify : PolicyTable → String → Tier × String
unfolding lookup
classify table action_type =
    if in_floor action_type
    then (approve, "permanent-Approve floor (public-facing)")
    else by_policy (lookup action_type table)

-- `RegisterTestPolicyEntry`: the changed table, and the cleanup function that it returns.
restore : String → Option Tier → PolicyTable → PolicyTable
unfolding insert delete
restore action_type (some original) table = insert action_type original table
restore action_type none table = delete action_type table

unfoldable pub register_test_policy_entry :
    PolicyTable → String → Tier → PolicyTable × (PolicyTable → PolicyTable)
unfolding lookup insert restore
register_test_policy_entry table action_type tier =
    (insert action_type tier table, restore action_type (lookup action_type table))
