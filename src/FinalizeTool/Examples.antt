-- ===== src/FinalizeTool/Examples.antt =====
-- The tools, at concrete inputs.
use garrison.Common.{◌≡◌, refl, ◌↔◌, true, none, [], ◌∷◌, ◌++◌, Result, ok, err}
use garrison.Common.Bytes.{codes, bytes_eq}
use garrison.ClaudeProto.Events.{Text}
use garrison.Spawn.Payload.{FinalizePayload}
use garrison.FinalizeTool.Fields.{
  Clock, invalid, outcome_field, min_length, is_uuid, is_now, validate_ticket_id, validate_outcome,
}
use garrison.FinalizeTool.Validate.{
  RawPayload, RawOneshotPayload, JsonError, validate, validate_oneshot,
}
use garrison.FinalizeTool.Validate.Accepts.{
  IsAccepted, validate_iff, without_ticket, validate_oneshot-validate,
}

abbrev clock : Clock
clock = record { now = 5; rfc3339 = λ s. none; rfc3339_nano = λ s. none }

abbrev payload : RawPayload
payload = record {
  ticket_id = codes "123e4567-e89b-12d3-a456-426614174000";
  outcome = codes "too short";
  diary_entry = record { rationale = []; artifacts = []; blockers = []; discoveries = [] };
  kg_triples = [];
}

abbrev unmarshal : Text → Result JsonError RawPayload
unmarshal raw = ok payload

abbrev unmarshal_oneshot : Text → Result JsonError RawOneshotPayload
unmarshal_oneshot raw = ok (record {
  ticket_id = none;
  outcome = payload.outcome;
  diary_entry = payload.diary_entry;
  kg_triples = payload.kg_triples;
})

abbrev accepted : FinalizePayload
accepted = record {
  ticket_id = payload.ticket_id;
  outcome = payload.outcome;
  diary_entry = payload.diary_entry;
  kg_triples = [];
}

validate_iff_example :
    (validate clock unmarshal [] ≡ ok accepted)
    ↔ ((p : RawPayload) × (unmarshal [] ≡ ok p) × IsAccepted clock p accepted)
validate_iff_example = validate_iff clock unmarshal [] accepted

id_is_uuid : is_uuid payload.ticket_id ≡ true
unfolding is_uuid
id_is_uuid = refl

validate_oneshot-validate_example :
    validate_oneshot clock unmarshal_oneshot [] ≡ without_ticket (validate clock unmarshal [])
validate_oneshot-validate_example =
    validate_oneshot-validate clock unmarshal unmarshal_oneshot [] [] payload refl id_is_uuid refl

outcome_too_short : validate clock unmarshal [] ≡ err (invalid outcome_field min_length)
unfolding validate validate_ticket_id validate_outcome
outcome_too_short = refl

-- A no-break space before the word, and an ideographic one behind it.
wide_now : is_now (0xc2 ∷ 0xa0 ∷ codes "Now " ++ 0xe3 ∷ 0x80 ∷ 0x80 ∷ []) ≡ true
unfolding is_now bytes_eq
wide_now = refl
