-- ===== src/FinalizeTool/Validate.antt =====
-- supervisor/internal/finalize/tool.go: Validate and ValidateOneshot. `json.Unmarshal` is a
-- parameter: what it decodes, or its error.
pub mod Accepts
use garrison.Common.{
  ℕ, ◌≡◌, Bool, true, false, Option, none, some, List, [], ◌∷◌, length, Result, ok, err, ◌>>=◌,
  ◌>>◌,
}
use garrison.ClaudeProto.Events.{Text}
use garrison.Spawn.Payload.{KgTriple, DiaryEntry, FinalizePayload}
use garrison.FinalizeTool.Fields.{
  ValidationError, decode_error, type_error, invalid, ticket_id_field, unknown_field, RawKgTriple,
  Clock, validate_ticket_id, validate_outcome, validate_diary_entry, validate_kg_triple_count,
  validate_kg_triples, Check,
}

pub record RawPayload : Type 0 where
  pub ticket_id : Text
  pub outcome : Text
  pub diary_entry : DiaryEntry
  pub kg_triples : List RawKgTriple

pub record RawOneshotPayload : Type 0 where
  pub ticket_id : Option Text
  pub outcome : Text
  pub diary_entry : DiaryEntry
  pub kg_triples : List RawKgTriple

pub record OneshotPayload : Type 0 where
  pub outcome : Text
  pub diary_entry : DiaryEntry
  pub kg_triples : List KgTriple

-- The errors of `json.Unmarshal`: one of syntax, or a type that does not match.
pub data JsonError : Type 0 where
  syntax_error mismatch : JsonError

abbrev pub Decoded : Type 0 → Type 0
Decoded A = Result JsonError A

decoded : {A : Type 0} → Result JsonError A → Result ValidationError A
decoded (ok a) = ok a
decoded (err syntax_error) = err decode_error
decoded (err mismatch) = err type_error

unfoldable pub validate :
    Clock → (Text → Result JsonError RawPayload) → Text → Result ValidationError FinalizePayload
unfolding decoded
validate clock unmarshal raw = do
  p ← decoded (unmarshal raw)
  validate_ticket_id p.ticket_id
  validate_outcome p.outcome
  validate_diary_entry p.diary_entry
  validate_kg_triple_count (length p.kg_triples)
  triples ← validate_kg_triples clock 0 p.kg_triples
  ok (record {
    ticket_id = p.ticket_id;
    outcome = p.outcome;
    diary_entry = p.diary_entry;
    kg_triples = triples;
  })

reject_ticket_id : Option Text → Check
reject_ticket_id none = ok tt
reject_ticket_id (some id) = err (invalid ticket_id_field unknown_field)

unfoldable pub validate_oneshot :
    Clock
    → (Text → Result JsonError RawOneshotPayload)
    → Text
    → Result ValidationError OneshotPayload
unfolding decoded reject_ticket_id
validate_oneshot clock unmarshal raw = do
  p ← decoded (unmarshal raw)
  reject_ticket_id p.ticket_id
  validate_outcome p.outcome
  validate_diary_entry p.diary_entry
  validate_kg_triple_count (length p.kg_triples)
  triples ← validate_kg_triples clock 0 p.kg_triples
  ok (record { outcome = p.outcome; diary_entry = p.diary_entry; kg_triples = triples })
