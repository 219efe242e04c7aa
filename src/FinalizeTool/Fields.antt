-- ===== src/FinalizeTool/Fields.antt =====
-- supervisor/internal/finalize/tool.go: the fields of a payload. An error is its class, its field and
-- its constraint; the texts that the source renders from them are left out. `time.Parse` is a
-- parameter, and an instant is a number of nanoseconds.
use garrison.Common.{
  ℕ, zero, suc, ◌+◌, Bool, false, ◌&&◌, ◌||◌, Option, none, some, List, [], ◌∷◌, ltb, leb, ◌==◌,
  length, if◌then◌else◌, Result, ok, err, ◌>>=◌, ◌>>◌,
}
use garrison.Common.Bytes.{codes, bytes_eq}
use garrison.ClaudeProto.Events.{Text}
use garrison.ClaudeProto.Decode.{is_empty}
use garrison.Spawn.Payload.{KgTriple, DiaryEntry}

pub data Part : Type 0 where
  subject_part predicate_part object_part valid_from_part : Part

pub data Field : Type 0 where
  ticket_id_field outcome_field rationale_field kg_triples_field : Field
  artifacts_field blockers_field discoveries_field : Field
  item_of : Field → ℕ → Field
  triple_field : ℕ → Part → Field

pub data Constraint : Type 0 where
  required_constraint min_length max_length min_items max_items type_mismatch : Constraint
  format_constraint unknown_field : Constraint

-- A decode error, or a validation error at a field; a mismatch of types is at the root here.
pub data ValidationError : Type 0 where
  decode_error type_error : ValidationError
  invalid : Field → Constraint → ValidationError

abbrev pub Checked : Type 0 → Type 0
Checked A = Result ValidationError A

-- A check that passes gives `tt`.
abbrev pub Check : Type 0
Check = Checked Unit

abbrev pub passed : Check
passed = ok tt

-- The bounds of a length.
abbrev pub bounded : Field → ℕ → ℕ → ℕ → Constraint → Constraint → Check
bounded field least most n low high =
    if ltb n least
    then err (invalid field low)
    else if ltb most n
    then err (invalid field high)
    else passed

abbrev pub is_hex : ℕ → Bool
is_hex c = (leb 48 c && leb c 57) || ((leb 97 c && leb c 102) || (leb 65 c && leb c 70))

-- `n` hexadecimal digits, and what follows them.
abbrev pub hex_run : ℕ → Text → Option Text
hex_run zero s = some s
hex_run (suc n) [] = none
hex_run (suc n) (c ∷ s) = if is_hex c then hex_run n s else none

abbrev pub dash : Option Text → Option Text
dash none = none
dash (some []) = none
dash (some (c ∷ s)) = if c == 45 then some s else none

abbrev pub then_hex : ℕ → Option Text → Option Text
then_hex n none = none
then_hex n (some s) = hex_run n s

-- `uuidRe`
unfoldable pub is_uuid : Text → Bool
is_uuid s =
    elim (then_hex 12
      (dash (then_hex 4 (dash (then_hex 4 (dash (then_hex 4 (dash (hex_run 8 s))))))))) [
        | none ↦ false
        | some rest ↦ is_empty rest
      ]

unfoldable pub validate_ticket_id : Text → Check
unfolding is_uuid
validate_ticket_id id =
    if is_empty id
    then err (invalid ticket_id_field required_constraint)
    else if is_uuid id
    then passed
    else err (invalid ticket_id_field format_constraint)

unfoldable pub validate_outcome : Text → Check
validate_outcome outcome = bounded outcome_field 10 500 (length outcome) min_length max_length

unfoldable pub validate_items : Field → ℕ → List Text → Check
validate_items field i [] = passed
validate_items field i (s ∷ items) =
    let rest = validate_items field (suc i) items in
    if ltb 500 (length s) then err (invalid (item_of field i) max_length) else rest

unfoldable pub validate_string_array : Field → List Text → Check
unfolding validate_items
validate_string_array field items =
    if ltb 50 (length items) then err (invalid field max_items) else validate_items field 0 items

unfoldable pub validate_diary_entry : DiaryEntry → Check
unfolding validate_string_array
validate_diary_entry d = do
  bounded rationale_field 50 4000 (length d.rationale) min_length max_length
  validate_string_array artifacts_field d.artifacts
  validate_string_array blockers_field d.blockers
  validate_string_array discoveries_field d.discoveries

unfoldable pub validate_kg_triple_count : ℕ → Check
validate_kg_triple_count n = bounded kg_triples_field 1 100 n min_items max_items

pub record RawKgTriple : Type 0 where
  pub subject : Text
  pub predicate : Text
  pub object : Text
  pub valid_from : Text

unfoldable pub validate_triple_field : ℕ → Part → Text → Check
validate_triple_field i part s =
    bounded (triple_field i part) 3 500 (length s) min_length max_length

abbrev is_space : ℕ → Bool
is_space c = (leb 9 c && leb c 13) || c == 32

-- The white space of Unicode whose encoding has two bytes, and three.
abbrev is_space_2 : ℕ → ℕ → Bool
is_space_2 a b = a == 0xc2 && (b == 0x85 || b == 0xa0)

abbrev is_space_3 : ℕ → ℕ → ℕ → Bool
is_space_3 a b c =
    (a == 0xe1 && b == 0x9a && c == 0x80)
    || (a == 0xe2
        && b == 0x80
        && ((leb 0x80 c && leb c 0x8a) || c == 0xa8 || c == 0xa9 || c == 0xaf))
    || (a == 0xe2 && b == 0x81 && c == 0x9f)
    || (a == 0xe3 && b == 0x80 && c == 0x80)

-- The bytes of the white space at the front of a text, and at the front of a reversed one.
abbrev space_width : Text → ℕ
space_width [] = 0
space_width (a ∷ []) = if is_space a then 1 else 0
space_width (a ∷ b ∷ []) = if is_space a then 1 else if is_space_2 a b then 2 else 0
space_width (a ∷ b ∷ c ∷ s) =
    if is_space a then 1 else if is_space_2 a b then 2 else if is_space_3 a b c then 3 else 0

abbrev space_width_back : Text → ℕ
space_width_back [] = 0
space_width_back (a ∷ []) = if is_space a then 1 else 0
space_width_back (a ∷ b ∷ []) = if is_space a then 1 else if is_space_2 b a then 2 else 0
space_width_back (a ∷ b ∷ c ∷ s) =
    if is_space a then 1 else if is_space_2 b a then 2 else if is_space_3 c b a then 3 else 0

abbrev drop : ℕ → Text → Text
drop zero s = s
drop (suc n) [] = []
drop (suc n) (c ∷ s) = drop n s

-- Each round takes at least a byte, so the length of the text is enough fuel.
abbrev trim : (Text → ℕ) → ℕ → Text → Text
trim width zero s = s
trim width (suc n) s =
    let rest = trim width n (drop (width s) s) in if width s == 0 then s else rest

abbrev reversed : Text → Text → Text
reversed [] t = t
reversed (c ∷ s) t = reversed s (c ∷ t)

-- `strings.TrimSpace`
trim_space : Text → Text
trim_space s =
    let front = trim space_width (length s) s in
    reversed (trim space_width_back (length front) (reversed front [])) []

abbrev lower_all : Text → Text
lower_all [] = []
lower_all (c ∷ s) = (if leb 65 c && leb c 90 then c + 32 else c) ∷ lower_all s

-- `strings.EqualFold(strings.TrimSpace(s), "now")`; no letter outside of ASCII folds to one of these.
unfoldable pub is_now : Text → Bool
unfolding trim_space
is_now s = bytes_eq (lower_all (trim_space s)) (codes "now")

-- `time.Parse` for the two layouts
pub record Clock : Type 0 where
  pub now : ℕ
  pub rfc3339 : Text → Option ℕ
  pub rfc3339_nano : Text → Option ℕ

unfoldable pub parse_valid_from : Clock → ℕ → Text → Result ValidationError ℕ
unfolding is_now
parse_valid_from clock i s = if is_now s then ok clock.now else elim (clock.rfc3339 s) [
  | some t ↦ ok t
  | none ↦ elim (clock.rfc3339_nano s) [
    | some t ↦ ok t
    | none ↦ err (invalid (triple_field i valid_from_part) format_constraint)
  ]
]

unfoldable pub validate_triple : Clock → ℕ → RawKgTriple → Result ValidationError KgTriple
unfolding validate_triple_field parse_valid_from
validate_triple clock i t = do
  validate_triple_field i subject_part t.subject
  validate_triple_field i predicate_part t.predicate
  validate_triple_field i object_part t.object
  valid_from ← parse_valid_from clock i t.valid_from
  ok (record {
    subject = t.subject;
    predicate = t.predicate;
    object = t.object;
    valid_from = valid_from;
  })

unfoldable pub validate_kg_triples :
    Clock → ℕ → List RawKgTriple → Result ValidationError (List KgTriple)
unfolding validate_triple
validate_kg_triples clock i [] = ok []
validate_kg_triples clock i (t ∷ triples) =
    let rest = validate_kg_triples clock (suc i) triples in
    validate_triple clock i t >>= λ first. rest >>= λ others. ok (first ∷ others)
