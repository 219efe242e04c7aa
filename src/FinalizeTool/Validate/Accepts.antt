-- ===== src/FinalizeTool/Validate/Accepts.antt =====
-- What the two tools accept.
use garrison.Common.{
  ℕ, suc, ◌≤◌, ◌≡◌, refl, ◌↔◌, ◌⊎◌, inl, inr, true, false, none, some, List, [], ◌∷◌, length,
  Result, ok, err, ◌>>=◌, ◌>>◌, bind_iff, then_iff, All, arith, Bool-cases,
}
use garrison.ClaudeProto.Events.{Text}
use garrison.ClaudeProto.Decode.{is_empty}
use garrison.Spawn.Payload.{KgTriple, DiaryEntry, FinalizePayload}
use garrison.FinalizeTool.Fields.{
  Field, Constraint, ValidationError, RawKgTriple, Clock, Check, passed, bounded, is_uuid, is_now,
  validate_ticket_id, validate_outcome, validate_items, validate_string_array, validate_diary_entry,
  validate_kg_triple_count, validate_triple_field, parse_valid_from, validate_triple,
  validate_kg_triples,
}
use garrison.FinalizeTool.Validate.{
  RawPayload, RawOneshotPayload, OneshotPayload, JsonError, syntax_error, mismatch, decoded,
  validate, reject_ticket_id, validate_oneshot,
}

abbrev pub Between : ℕ → ℕ → ℕ → Type 0
Between least most n = (least ≤ n) × (n ≤ most)

bounded_iff :
    (f : Field) (least most n : ℕ) (low high : Constraint)
    → least ≤ most
    → (bounded f least most n low high ≡ passed) ↔ Between least most n
bounded_iff f least most n low high o = ((λ h. (ground arith, ground arith)), (λ h. ground arith))

-- At most 50 texts, each of at most 500 bytes.
abbrev pub IsItems : List Text → Type 0
IsItems items = (length items ≤ 50) × All (λ s. length s ≤ 500) items

validate_items_iff :
    (f : Field) (i : ℕ) (items : List Text)
    → (validate_items f i items ≡ passed) ↔ All (λ s. length s ≤ 500) items
unfolding validate_items
validate_items_iff f i [] = ((λ h. tt), (λ h. refl))
validate_items_iff f i (s ∷ items) =
    let rest = validate_items_iff f (suc i) items in
    ((λ h. (ground arith, rest.0 (ground arith))), (λ (a, b). let e = rest.1 b in ground arith))

string_array_iff :
    (f : Field) (items : List Text) → (validate_string_array f items ≡ passed) ↔ IsItems items
unfolding validate_string_array
string_array_iff f items =
    let rest = validate_items_iff f 0 items in
    ((λ h. (ground arith, rest.0 (ground arith))), (λ (a, b). let e = rest.1 b in ground arith))

pub record IsDiary (d : DiaryEntry) : Type 0 where
  pub rationale : Between 50 4000 (length d.rationale)
  pub artifacts : IsItems d.artifacts
  pub blockers : IsItems d.blockers
  pub discoveries : IsItems d.discoveries

-- What a triple is filled with.
pub record IsFilled (clock : Clock) (t : RawKgTriple) (u : KgTriple) : Type 0 where
  pub subject : Between 3 500 (length t.subject) × (u.subject ≡ t.subject)
  pub predicate : Between 3 500 (length t.predicate) × (u.predicate ≡ t.predicate)
  pub object : Between 3 500 (length t.object) × (u.object ≡ t.object)
  pub valid_from :
      ((is_now t.valid_from ≡ true) × (u.valid_from ≡ clock.now))
      ⊎ ((is_now t.valid_from ≡ false)
          × ((clock.rfc3339 t.valid_from ≡ some u.valid_from)
              ⊎ ((clock.rfc3339 t.valid_from ≡ none)
                  × (clock.rfc3339_nano t.valid_from ≡ some u.valid_from))))

pub data AreFilled (clock : Clock) : List RawKgTriple → List KgTriple → Type 0 where
  no_triples : AreFilled clock [] []
  one_more :
      (t : RawKgTriple) (u : KgTriple) (ts : List RawKgTriple) (us : List KgTriple)
      → IsFilled clock t u
      → AreFilled clock ts us
      → AreFilled clock (t ∷ ts) (u ∷ us)

from_iff :
    (clock : Clock) (i : ℕ) (s : Text) (v : ℕ)
    → (parse_valid_from clock i s ≡ ok v) ↔ (
        ((is_now s ≡ true) × (v ≡ clock.now))
        ⊎ ((is_now s ≡ false)
            × ((clock.rfc3339 s ≡ some v)
                ⊎ ((clock.rfc3339 s ≡ none) × (clock.rfc3339_nano s ≡ some v)))))
unfolding parse_valid_from
from_iff clock i s v = elim (Bool-cases (is_now s)) [
  | inl y ↦ ((λ h. inl (y, let e = rw (y, parse_valid_from) at h in cc)), (λ h. ground arith))
  | inr n ↦ ((λ h. inr (n, ground arith)), (λ h. ground arith))
]

triple_sound :
    (clock : Clock) (i : ℕ) (t : RawKgTriple) (u : KgTriple)
    → validate_triple clock i t ≡ ok u
    → IsFilled clock t u
unfolding validate_triple validate_triple_field
triple_sound clock i t u h =
    let (a, h1) = (then_iff _ _ u).0 h in
    let (b, h2) = (then_iff _ _ u).0 h1 in
    let (c, h3) = (then_iff _ _ u).0 h2 in
    let (v, d, e) = (bind_iff (parse_valid_from clock i t.valid_from) _ u).0 h3 in
    let f = (from_iff clock i t.valid_from v).0 d in
    record {
      subject = ((bounded_iff _ 3 500 _ _ _ (omega arith)).0 a, cc);
      predicate = ((bounded_iff _ 3 500 _ _ _ (omega arith)).0 b, cc);
      object = ((bounded_iff _ 3 500 _ _ _ (omega arith)).0 c, cc);
      valid_from = let w : v ≡ u.valid_from = cc in rw (← w) f;
    }

triple_complete :
    (clock : Clock) (i : ℕ) (t : RawKgTriple) (u : KgTriple)
    → IsFilled clock t u
    → validate_triple clock i t ≡ ok u
unfolding validate_triple validate_triple_field
triple_complete clock i t u f = (then_iff _ _ u).1 (
  (bounded_iff _ 3 500 _ _ _ (omega arith)).1 f.subject.0,
  (then_iff _ _ u).1 (
    (bounded_iff _ 3 500 _ _ _ (omega arith)).1 f.predicate.0,
    (then_iff _ _ u).1 (
      (bounded_iff _ 3 500 _ _ _ (omega arith)).1 f.object.0,
      (bind_iff (parse_valid_from clock i t.valid_from) _ u).1
          (u.valid_from, (from_iff clock i t.valid_from u.valid_from).1 f.valid_from, cc),
    ),
  ),
)

triples_sound :
    (clock : Clock) (i : ℕ) (ts : List RawKgTriple) (us : List KgTriple)
    → validate_kg_triples clock i ts ≡ ok us
    → AreFilled clock ts us
unfolding validate_kg_triples
triples_sound clock i [] [] h = no_triples
triples_sound clock i [] (u ∷ us) h = cc
triples_sound clock i (t ∷ ts) us h =
    let (u, a, h1) = (bind_iff (validate_triple clock i t) _ us).0 h in
    let (vs, b, h2) = (bind_iff (validate_kg_triples clock (suc i) ts) _ us).0 h1 in
    let e : us ≡ u ∷ vs = cc in
    rw e (one_more t u ts vs (triple_sound clock i t u a) (triples_sound clock (suc i) ts vs b))

triples_complete :
    (clock : Clock) (i : ℕ) (ts : List RawKgTriple) (us : List KgTriple)
    → AreFilled clock ts us
    → validate_kg_triples clock i ts ≡ ok us
unfolding validate_kg_triples
triples_complete clock i [] [] no_triples = refl
triples_complete clock i [] (u ∷ us) f = elim f [ ]
triples_complete clock i (t ∷ ts) [] f = elim f [ ]
triples_complete clock i (t ∷ ts) (u ∷ us) (one_more _ _ _ _ f fs) =
    (bind_iff (validate_triple clock i t) _ (u ∷ us)).1 (
      u,
      triple_complete clock i t u f,
      (bind_iff (validate_kg_triples clock (suc i) ts) _ (u ∷ us)).1
          (us, triples_complete clock (suc i) ts us fs, refl),
    )

IsDiary-iff : (d : DiaryEntry) → (validate_diary_entry d ≡ passed) ↔ IsDiary d
unfolding validate_diary_entry
IsDiary-iff d = (
  (λ h.
      let (a, h1) = (then_iff _ _ tt).0 h in
      let (b, h2) = (then_iff _ _ tt).0 h1 in
      let (c, h3) = (then_iff _ _ tt).0 h2 in
      record {
        rationale = (bounded_iff _ 50 4000 _ _ _ (omega arith)).0 a;
        artifacts = (string_array_iff _ d.artifacts).0 b;
        blockers = (string_array_iff _ d.blockers).0 c;
        discoveries = (string_array_iff _ d.discoveries).0 h3;
      }),
  (λ i. (then_iff _ _ tt).1 (
    (bounded_iff _ 50 4000 _ _ _ (omega arith)).1 i.rationale,
    (then_iff _ _ tt).1 (
      (string_array_iff _ d.artifacts).1 i.artifacts,
      (then_iff _ _ tt).1 (
        (string_array_iff _ d.blockers).1 i.blockers,
        (string_array_iff _ d.discoveries).1 i.discoveries,
      ),
    ),
  )),
)

-- The payload that is returned for what was decoded.
pub record IsAccepted (clock : Clock) (p : RawPayload) (q : FinalizePayload) : Type 0 where
  pub ticket_id : is_uuid p.ticket_id ≡ true
  pub outcome : Between 10 500 (length p.outcome)
  pub diary_entry : IsDiary p.diary_entry
  pub count : Between 1 100 (length p.kg_triples)
  pub triples : AreFilled clock p.kg_triples q.kg_triples
  pub same : (q.ticket_id ≡ p.ticket_id) × (q.outcome ≡ p.outcome) × (q.diary_entry ≡ p.diary_entry)

uuid-nonempty : (s : Text) → is_uuid s ≡ true → is_empty s ≡ false
unfolding is_uuid
uuid-nonempty [] h = cc
uuid-nonempty (c ∷ s) h = refl

ticket_id_iff : (id : Text) → (validate_ticket_id id ≡ passed) ↔ (is_uuid id ≡ true)
unfolding validate_ticket_id
ticket_id_iff id = ((λ h. ground arith), (λ h. let e = uuid-nonempty id h in ground arith))

decoded_iff : {A : Type 0} (r : Result JsonError A) (a : A) → (decoded r ≡ ok a) ↔ (r ≡ ok a)
unfolding decoded
decoded_iff (ok b) a = ((λ h. cc), (λ h. cc))
decoded_iff (err syntax_error) a = ((λ h. cc), (λ h. cc))
decoded_iff (err mismatch) a = ((λ h. cc), (λ h. cc))

validate_sound :
    (clock : Clock) (unmarshal : Text → Result JsonError RawPayload) (raw : Text)
    (q : FinalizePayload)
    → validate clock unmarshal raw ≡ ok q
    → (p : RawPayload) × (unmarshal raw ≡ ok p) × IsAccepted clock p q
unfolding validate validate_outcome validate_kg_triple_count
validate_sound clock unmarshal raw q h =
    let (p, d, h0) = (bind_iff (decoded (unmarshal raw)) _ q).0 h in
    let (a, h1) = (then_iff _ _ q).0 h0 in
    let (b, h2) = (then_iff _ _ q).0 h1 in
    let (c, h3) = (then_iff _ _ q).0 h2 in
    let (e, h4) = (then_iff _ _ q).0 h3 in
    let (us, f, h5) = (bind_iff (validate_kg_triples clock 0 p.kg_triples) _ q).0 h4 in
    let us_eq : us ≡ q.kg_triples = cc in
    (
      p,
      (decoded_iff (unmarshal raw) p).0 d,
      record {
        ticket_id = (ticket_id_iff p.ticket_id).0 a;
        outcome = (bounded_iff _ 10 500 _ _ _ (omega arith)).0 b;
        diary_entry = (IsDiary-iff p.diary_entry).0 c;
        count = (bounded_iff _ 1 100 _ _ _ (omega arith)).0 e;
        triples = rw us_eq at (triples_sound clock 0 p.kg_triples us f);
        same = (cc, cc, cc);
      },
    )

validate_complete :
    (clock : Clock) (unmarshal : Text → Result JsonError RawPayload) (raw : Text)
    (q : FinalizePayload) (p : RawPayload)
    → unmarshal raw ≡ ok p
    → IsAccepted clock p q
    → validate clock unmarshal raw ≡ ok q
unfolding validate validate_outcome validate_kg_triple_count
validate_complete clock unmarshal raw q p d i =
    let (s1, s2, s3) = i.same in
    (bind_iff (decoded (unmarshal raw)) _ q).1 (
      p,
      (decoded_iff (unmarshal raw) p).1 d,
      (then_iff _ _ q).1 (
        (ticket_id_iff p.ticket_id).1 i.ticket_id,
        (then_iff _ _ q).1 (
          (bounded_iff _ 10 500 _ _ _ (omega arith)).1 i.outcome,
          (then_iff _ _ q).1 (
            (IsDiary-iff p.diary_entry).1 i.diary_entry,
            (then_iff _ _ q).1 (
              (bounded_iff _ 1 100 _ _ _ (omega arith)).1 i.count,
              (bind_iff (validate_kg_triples clock 0 p.kg_triples) _ q).1
                  (q.kg_triples, triples_complete clock 0 p.kg_triples q.kg_triples i.triples, cc),
            ),
          ),
        ),
      ),
    )

-- The tool accepts exactly the arguments that decode to a UUID, an outcome of 10 to 500 bytes, a
-- rationale of 50 to 4000, at most 50 artifacts, blockers and discoveries each of at most 500, and 1
-- to 100 triples with fields of 3 to 500 bytes and a time that is "now" or parses. The payload that it
-- returns is what was decoded, with the times filled in.
pub validate_iff :
    (clock : Clock) (unmarshal : Text → Result JsonError RawPayload) (raw : Text)
    (q : FinalizePayload)
    → (validate clock unmarshal raw ≡ ok q)
      ↔ ((p : RawPayload) × (unmarshal raw ≡ ok p) × IsAccepted clock p q)
validate_iff clock unmarshal raw q = (
  validate_sound clock unmarshal raw q,
  (λ (p, d, i). validate_complete clock unmarshal raw q p d i),
)

-- A payload of tickets without its ticket.
abbrev pub without_ticket :
    Result ValidationError FinalizePayload → Result ValidationError OneshotPayload
without_ticket (ok p) =
    ok (record { outcome = p.outcome; diary_entry = p.diary_entry; kg_triples = p.kg_triples })
without_ticket (err e) = err e

checks-without_ticket :
    (id o : Text) (d : DiaryEntry) (m1 m2 m3 : Check) (m4 : Result ValidationError (List KgTriple))
    → (m1
        >> (m2
            >> (m3
                >> (m4 >>= λ ts. ok (record { outcome = o; diary_entry = d; kg_triples = ts })))))
      ≡ without_ticket (
          m1
          >> (m2
              >> (m3
                  >> (m4 >>= λ ts.
                      ok (record {
                        ticket_id = id;
                        outcome = o;
                        diary_entry = d;
                        kg_triples = ts;
                      })))))
checks-without_ticket id o d m1 m2 m3 m4 = ground arith

-- The two tools judge the same arguments alike: without a ticket's id the oneshot tool gives the
-- payload, or the error, that the ticket tool gives with a UUID for one.
pub validate_oneshot-validate :
    (clock : Clock) (unmarshal : Text → Result JsonError RawPayload)
    (unmarshal_oneshot : Text → Result JsonError RawOneshotPayload) (raw other : Text)
    (p : RawPayload)
    → unmarshal raw ≡ ok p
    → is_uuid p.ticket_id ≡ true
    → unmarshal_oneshot other
      ≡ ok (record {
        ticket_id = none;
        outcome = p.outcome;
        diary_entry = p.diary_entry;
        kg_triples = p.kg_triples;
      })
    → validate_oneshot clock unmarshal_oneshot other ≡ without_ticket (validate clock unmarshal raw)
unfolding validate validate_oneshot decoded reject_ticket_id
validate_oneshot-validate clock unmarshal unmarshal_oneshot raw other p d u e =
    let t = (ticket_id_iff p.ticket_id).1 u in
    rw (d, e, t)
      (checks-without_ticket p.ticket_id p.outcome p.diary_entry (validate_outcome p.outcome)
        (validate_diary_entry p.diary_entry) (validate_kg_triple_count (length p.kg_triples))
        (validate_kg_triples clock 0 p.kg_triples))
