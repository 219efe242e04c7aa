-- ===== src/Spawn/Diary.antt =====
-- supervisor/internal/spawn/finalize.go: the body of a drawer. `json.Marshal` of a text, the text of
-- a ticket's id and that of an instant are parameters.
pub mod Lines
use garrison.Common.{
  ℕ, String, Bool, true, false, not, ◌&&◌, ◌||◌, List, [], ◌∷◌, ◌++◌, ltb, ◌==◌, if◌then◌else◌,
}
use garrison.Common.Bytes.{codes}
use garrison.ClaudeProto.Events.{Text}
use garrison.Spawn.Payload.{FinalizePayload}

-- The bytes that are no part of a bare value: controls, and " ' : # & * ! | > % @ `
abbrev pub is_significant : ℕ → Bool
is_significant c =
    if ltb c 32
    then true
    else if c == 127
    then true
    else if c == 34
    then true
    else if c == 39
    then true
    else if c == 58
    then true
    else if c == 35
    then true
    else if c == 38
    then true
    else if c == 42
    then true
    else if c == 33
    then true
    else if c == 124
    then true
    else if c == 62
    then true
    else if c == 37
    then true
    else if c == 64
    then true
    else c == 96

abbrev pub all_plain : Text → Bool
all_plain [] = true
all_plain (c ∷ s) = if is_significant c then false else all_plain s

unfoldable pub yaml_safe : Text → Bool
yaml_safe [] = false
yaml_safe (c ∷ s) = all_plain (c ∷ s)

-- `strings.TrimRight(s, "\n")`
unfoldable pub trim_newlines : Text → Text
trim_newlines [] = []
trim_newlines (c ∷ s) =
    let rest = trim_newlines s in
    elim rest [ [] ↦ if c == 10 then [] else c ∷ [] | d ∷ t ↦ c ∷ d ∷ t ]

module _ (marshal : Text → Text) where
  unfoldable pub escape_yaml : Text → Text
  unfolding yaml_safe
  escape_yaml s = if yaml_safe s then s else marshal s

  -- "name: value\n"
  abbrev pub entry : Text → Text → Text
  entry name value = name ++ value ++ 10 ∷ []

  list_items : List Text → Text
  unfolding escape_yaml
  list_items [] = []
  list_items (s ∷ items) = entry (codes "  - ") (escape_yaml s) ++ list_items items

  -- The lines between the two rules.
  unfoldable pub front_matter : Text → Text → FinalizePayload → Text
  unfolding escape_yaml list_items
  front_matter ticket_id completed_at payload =
      entry (codes "ticket_id: ") ticket_id
      ++ entry (codes "outcome: ") (escape_yaml payload.outcome)
      ++ entry (codes "artifacts:") []
      ++ list_items payload.diary_entry.artifacts
      ++ entry (codes "blockers:") []
      ++ list_items payload.diary_entry.blockers
      ++ entry (codes "discoveries:") []
      ++ list_items payload.diary_entry.discoveries
      ++ entry (codes "completed_at: ") completed_at

  unfoldable pub serialize_diary : Text → Text → Text → FinalizePayload → Text
  unfolding trim_newlines front_matter
  serialize_diary objective ticket_id completed_at payload =
      trim_newlines objective
      ++ (10 ∷ 10 ∷ 45 ∷ 45 ∷ 45 ∷ 10 ∷ [])
      ++ front_matter ticket_id completed_at payload
      ++ (45 ∷ 45 ∷ 45 ∷ 10 ∷ 10 ∷ [])
      ++ payload.diary_entry.rationale
