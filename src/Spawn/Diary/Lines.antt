-- ===== src/Spawn/Diary/Lines.antt =====
-- No value of a payload can add a line to the front matter of its drawer.
use garrison.Common.{
  ℕ, ◌+◌, ◌≡◌, refl, true, List, [], ◌∷◌, ◌++◌, ◌==◌, if◌then◌else◌, arith, length, if-elim,
}
use garrison.Common.Bytes.{codes}
use garrison.ClaudeProto.Events.{Text}
use garrison.Spawn.Payload.{FinalizePayload}
use garrison.Spawn.Diary.{all_plain, yaml_safe, escape_yaml, entry, list_items, front_matter}

-- The number of line ends.
abbrev pub lines : Text → ℕ
lines [] = 0
lines (c ∷ s) = (if c == 10 then 1 else 0) + lines s

lines-append : (s t : Text) → lines (s ++ t) ≡ lines s + lines t
lines-append [] t = omega arith
lines-append (c ∷ s) t = omega (arith, lines-append s t)

plain-lines : (s : Text) → all_plain s ≡ true → lines s ≡ 0
plain-lines [] h = refl
plain-lines (c ∷ s) h = ground (arith, plain-lines s)

module _ (marshal : Text → Text) (one_line : (s : Text) → lines (marshal s) ≡ 0) where
  escape_yaml-lines : (s : Text) → lines (escape_yaml marshal s) ≡ 0
  unfolding escape_yaml yaml_safe
  escape_yaml-lines [] = one_line []
  escape_yaml-lines (c ∷ s) =
      if-elim (λ t. lines t ≡ 0) (all_plain (c ∷ s)) (c ∷ s) _ (plain-lines (c ∷ s))
        (λ n. one_line (c ∷ s))

  entry-lines :
      (name value : Text) → lines name ≡ 0 → lines value ≡ 0 → lines (entry marshal name value) ≡ 1
  entry-lines name value n v =
      omega (arith, lines-append (name ++ value) (10 ∷ []), lines-append name value, n, v)

  list_items-lines : (items : List Text) → lines (list_items marshal items) ≡ length items
  unfolding list_items
  list_items-lines [] = refl
  list_items-lines (s ∷ items) = omega (
    arith,
    lines-append (entry marshal (codes "  - ") (escape_yaml marshal s)) (list_items marshal items),
    entry-lines (codes "  - ") (escape_yaml marshal s) refl (escape_yaml-lines s),
    list_items-lines items,
  )

  -- If `json.Marshal` writes no line end, and neither do the texts of an id and of an instant, the
  -- front matter of a drawer has exactly six lines and one more for each artifact, blocker and
  -- discovery, whatever an agent puts into them or into the outcome.
  pub front_matter-lines :
      (ticket_id completed_at : Text) (payload : FinalizePayload)
      → lines ticket_id ≡ 0
      → lines completed_at ≡ 0
      → lines (front_matter marshal ticket_id completed_at payload)
        ≡ 6
          + length payload.diary_entry.artifacts
          + length payload.diary_entry.blockers
          + length payload.diary_entry.discoveries
  unfolding front_matter
  front_matter-lines ticket_id completed_at payload t c =
      let d = payload.diary_entry in
      let e1 = entry marshal (codes "ticket_id: ") ticket_id in
      let e2 = e1 ++ entry marshal (codes "outcome: ") (escape_yaml marshal payload.outcome) in
      let e3 = e2 ++ entry marshal (codes "artifacts:") [] in
      let e4 = e3 ++ list_items marshal d.artifacts in
      let e5 = e4 ++ entry marshal (codes "blockers:") [] in
      let e6 = e5 ++ list_items marshal d.blockers in
      let e7 = e6 ++ entry marshal (codes "discoveries:") [] in
      let e8 = e7 ++ list_items marshal d.discoveries in
      omega (
        arith,
        entry-lines (codes "ticket_id: ") ticket_id refl t,
        lines-append e1 (entry marshal (codes "outcome: ") (escape_yaml marshal payload.outcome)),
        entry-lines (codes "outcome: ") (escape_yaml marshal payload.outcome) refl
            (escape_yaml-lines payload.outcome),
        lines-append e2 (entry marshal (codes "artifacts:") []),
        lines-append e3 (list_items marshal d.artifacts),
        list_items-lines d.artifacts,
        lines-append e4 (entry marshal (codes "blockers:") []),
        lines-append e5 (list_items marshal d.blockers),
        list_items-lines d.blockers,
        lines-append e6 (entry marshal (codes "discoveries:") []),
        lines-append e7 (list_items marshal d.discoveries),
        list_items-lines d.discoveries,
        lines-append e8 (entry marshal (codes "completed_at: ") completed_at),
        entry-lines (codes "completed_at: ") completed_at refl c,
      )
