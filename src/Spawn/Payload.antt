-- ===== src/Spawn/Payload.antt =====
-- supervisor/internal/finalize/tool.go: the payload of a finalize call, and its redaction by
-- supervisor/internal/spawn/finalize.go and supervisor/internal/vault/scanner.go. `regexp` is a
-- parameter: a pattern is its label with `MatchString` and with `ReplaceAllString` for its marker.
use garrison.Common.{ℕ, String, Bool, List, [], ◌∷◌, ◌++◌, map, if◌then◌else◌}
use garrison.ClaudeProto.Events.{Text}

pub record KgTriple : Type 0 where
  pub subject : Text
  pub predicate : Text
  pub object : Text
  pub valid_from : ℕ

pub record DiaryEntry : Type 0 where
  pub rationale : Text
  pub artifacts : List Text
  pub blockers : List Text
  pub discoveries : List Text

pub record FinalizePayload : Type 0 where
  pub ticket_id : Text
  pub outcome : Text
  pub diary_entry : DiaryEntry
  pub kg_triples : List KgTriple

pub record Pattern : Type 0 where
  pub label : String
  pub match_string : Text → Bool
  pub redact : Text → Text

-- `(redacted, matched)`
abbrev pub Redacted : Type 0 → Type 0
Redacted A = A × List String

scan_pattern : Pattern → Redacted Text → Redacted Text
scan_pattern p (s, matched) =
    if p.match_string s then (p.redact s, matched ++ p.label ∷ []) else (s, matched)

scan_from : List Pattern → Redacted Text → Redacted Text
unfolding scan_pattern
scan_from [] r = r
scan_from (p ∷ patterns) r = scan_from patterns (scan_pattern p r)

unfoldable pub scan_and_redact : List Pattern → Text → Redacted Text
unfolding scan_from
scan_and_redact patterns s = scan_from patterns (s, [])

-- A field of a triple stays as it is if nothing matched.
kept_or : Text → Redacted Text → Text
kept_or s (redacted, []) = s
kept_or s (redacted, l ∷ labels) = redacted

module _ (patterns : List Pattern) where
  redact_field : Text → Text
  unfolding scan_and_redact kept_or
  redact_field s = kept_or s (scan_and_redact patterns s)

  labels_of : Text → List String
  unfolding scan_and_redact
  labels_of s = (scan_and_redact patterns s).1

  redact_triple : KgTriple → KgTriple
  unfolding redact_field
  redact_triple t = record t {
    subject = redact_field t.subject;
    predicate = redact_field t.predicate;
    object = redact_field t.object;
  }

  triples_labels : List KgTriple → List String
  unfolding labels_of
  triples_labels [] = []
  triples_labels (t ∷ triples) =
      labels_of t.subject ++ labels_of t.predicate ++ labels_of t.object ++ triples_labels triples

  unfoldable pub scan_and_redact_payload : FinalizePayload → Redacted FinalizePayload
  unfolding scan_and_redact labels_of redact_triple triples_labels
  scan_and_redact_payload p = (
    record p {
      diary_entry = record p.diary_entry {
        rationale = (scan_and_redact patterns p.diary_entry.rationale).0;
      };
      kg_triples = map redact_triple p.kg_triples;
    },
    labels_of p.diary_entry.rationale ++ triples_labels p.kg_triples,
  )
