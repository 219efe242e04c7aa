-- ===== src/Common/Replace.antt =====
-- Replacing in texts as lists of bytes.
use garrison.Common.{
  ℕ, zero, suc, ◌-◌, Bool, true, false, ◌||◌, Option, none, some, List, [], ◌∷◌, ◌++◌, ◌==◌, length,
  if◌then◌else◌,
}

-- What is left of a text behind a prefix: `strings.HasPrefix` and `strings.TrimPrefix` in one.
abbrev pub strip_prefix : List ℕ → List ℕ → Option (List ℕ)
strip_prefix [] s = some s
strip_prefix (p ∷ ps) [] = none
strip_prefix (p ∷ ps) (c ∷ cs) = if p == c then strip_prefix ps cs else none

abbrev pub is_prefix : List ℕ → List ℕ → Bool
is_prefix p s = elim (strip_prefix p s) [ none ↦ false | some rest ↦ true ]

-- `strings.Contains`
unfoldable pub contains : List ℕ → List ℕ → Bool
contains [] token = is_prefix token []
contains (c ∷ s) token = is_prefix token (c ∷ s) || contains s token

-- `strings.ReplaceAll` for a token that is not empty; `skip` bytes of a match are still to pass.
unfoldable pub replace_all : ℕ → List ℕ → List ℕ → List ℕ → List ℕ
replace_all skip [] token value = []
replace_all (suc skip) (c ∷ s) token value = replace_all skip s token value
replace_all zero (c ∷ s) token value =
    let matched = replace_all (length token - 1) s token value in
    let kept = replace_all zero s token value in
    if is_prefix token (c ∷ s) then value ++ matched else c ∷ kept
