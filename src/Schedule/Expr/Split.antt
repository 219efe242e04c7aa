-- ===== src/Schedule/Expr/Split.antt =====
-- `strings.Split` on a byte: the parts join to the text, and a part ends at the first separator.
use garrison.Common.{
  ℕ, ◌≡◌, ◌≢◌, refl, ap, List, [], ◌∷◌, ◌++◌, arith, ◌==◌, Bool-cases, inl, inr, ◌∙◌, ==_iff, sym,
}
use garrison.Schedule.Expr.{split_cons, split}

-- The parts after the first, each behind a separator.
abbrev pub joined : ℕ → List (List ℕ) → List ℕ
joined sep [] = []
joined sep (p ∷ ps) = sep ∷ (p ++ joined sep ps)

abbrev pub join : ℕ → List (List ℕ) → List ℕ
join sep [] = []
join sep (p ∷ ps) = p ++ joined sep ps

split-ne_nil : (sep : ℕ) (s : List ℕ) → split sep s ≢ []
unfolding split
split-ne_nil sep [] h = cc
split-ne_nil sep (c ∷ s) h = ground arith

join-cons : (sep : ℕ) (ps : List (List ℕ)) → ps ≢ [] → join sep ([] ∷ ps) ≡ sep ∷ join sep ps
join-cons sep [] h = absurd (h refl)
join-cons sep (p ∷ ps) h = refl

join-split_cons : (sep c : ℕ) (ps : List (List ℕ)) → join sep (split_cons c ps) ≡ c ∷ join sep ps
unfolding split_cons
join-split_cons sep c [] = refl
join-split_cons sep c (p ∷ ps) = refl

pub join-split : (sep : ℕ) (s : List ℕ) → join sep (split sep s) ≡ s
unfolding split
join-split sep [] = refl
join-split sep (c ∷ s) = elim (Bool-cases (c == sep)) [
  | inl e ↦ rw e (
      join-cons sep (split sep s) (split-ne_nil sep s)
      ∙ ap (λ r. sep ∷ r) (join-split sep s)
      ∙ ap (λ a. a ∷ s) (sym ((==_iff c sep).0 e)))
  | inr e ↦ rw e (join-split_cons sep c (split sep s) ∙ ap (λ r. c ∷ r) (join-split sep s))
]

abbrev pub Absent : ℕ → List ℕ → Type 0
Absent sep [] = Unit
Absent sep (c ∷ s) = (c ≢ sep) × Absent sep s

pub split-Absent : (sep : ℕ) (s : List ℕ) → Absent sep s → split sep s ≡ s ∷ []
unfolding split
split-Absent sep [] h = refl
split-Absent sep (c ∷ s) h = ground (arith, split-Absent sep s h.1)

pub split_part :
    (sep : ℕ) (s r : List ℕ) → Absent sep s → split sep (s ++ sep ∷ r) ≡ s ∷ split sep r
unfolding split
split_part sep [] r h = ground arith
split_part sep (c ∷ s) r h = ground (arith, split_part sep s r h.1)
