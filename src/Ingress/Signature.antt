-- ===== src/Ingress/Signature.antt =====
-- supervisor/internal/ingress/signature.go. HMAC-SHA256 is a parameter.
use garrison.Common.{
  ℕ, ◌+◌, ◌-◌, ◌*◌, ◌≡◌, refl, ap, ◌↔◌, Bool, true, false, ◌&&◌, Option, none, some, [], ◌∷◌, ◌++◌,
  arith, leb, if◌then◌else◌,
}
use garrison.Common.Bytes.{codes, bytes_eq, bytes_eq_refl, bytes_eq_sound}
use garrison.Common.Replace.{strip_prefix}
use garrison.Ingress.Connector.{Text}

-- The value of a digit of `encoding/hex`.
abbrev pub from_hex : ℕ → Option ℕ
from_hex c =
    if leb 48 c && leb c 57
    then some (c - 48)
    else if leb 97 c && leb c 102
    then some (c - 87)
    else if leb 65 c && leb c 70
    then some (c - 55)
    else none

abbrev joined : Option ℕ → Option ℕ → Option Text → Option Text
joined (some high) (some low) (some rest) = some ((high * 16 + low) ∷ rest)
joined _ _ _ = none

-- `hex.DecodeString`: a text of odd length is an error.
unfoldable pub decode_string : Text → Option Text
decode_string [] = some []
decode_string (c ∷ []) = none
decode_string (c ∷ d ∷ s) = joined (from_hex c) (from_hex d) (decode_string s)

abbrev pub signature_prefix : Text
signature_prefix = codes "sha256="

signature_matches : Option Text → Text → Bool
signature_matches none got = false
signature_matches (some want) got = bytes_eq want got

signed_part : Option Text → Text → Bool
unfolding decode_string signature_matches
signed_part none got = false
signed_part (some hex_part) got = signature_matches (decode_string hex_part) got

-- `verifyGitHubSignature`; `ConstantTimeCompare` gives 1 exactly for equal bytes.
unfoldable pub verify_github_signature : (Text → Text → Text) → Text → Text → Text → Bool
unfolding signed_part
verify_github_signature hmac raw_body header secret =
    signed_part (strip_prefix signature_prefix header) (hmac secret raw_body)

strip_prefix-some : (p s rest : Text) → strip_prefix p s ≡ some rest → s ≡ p ++ rest
strip_prefix-some [] s rest h = ground arith
strip_prefix-some (p ∷ ps) [] rest h = cc
strip_prefix-some (p ∷ ps) (c ∷ cs) rest h = ground (arith, strip_prefix-some ps cs rest)

pub strip_prefix-append : (p rest : Text) → strip_prefix p (p ++ rest) ≡ some rest
strip_prefix-append [] rest = refl
strip_prefix-append (p ∷ ps) rest = ground (arith, strip_prefix-append ps rest)

matches_iff : (o : Option Text) (got : Text) → (signature_matches o got ≡ true) ↔ (o ≡ some got)
unfolding signature_matches
matches_iff none got = ((λ h. cc), (λ h. cc))
matches_iff (some want) got =
    ((λ h. ap some (bytes_eq_sound want got h)), (λ h. ground (arith, bytes_eq_refl got)))

part_iff :
    (o : Option Text) (got : Text)
    → (signed_part o got ≡ true)
      ↔ ((hex_part : Text) × (o ≡ some hex_part) × (decode_string hex_part ≡ some got))
unfolding signed_part
part_iff none got = ((λ h. cc), (λ h. cc))
part_iff (some x) got = (
  (λ h. (x, refl, (matches_iff (decode_string x) got).0 h)),
  (λ (y, e, d). (matches_iff (decode_string x) got).1 ground arith),
)

-- A header is accepted exactly if it is `sha256=` followed by a hexadecimal text that decodes to
-- the HMAC of the raw body under the secret.
pub verify_iff :
    (hmac : Text → Text → Text) (body header secret : Text)
    → (verify_github_signature hmac body header secret ≡ true) ↔ (
        (hex_part : Text) × (header ≡ signature_prefix ++ hex_part)
        × (decode_string hex_part ≡ some (hmac secret body)))
unfolding verify_github_signature
verify_iff hmac body header secret =
    let i = part_iff (strip_prefix signature_prefix header) (hmac secret body) in
    (
      (λ h. let (x, e, d) = i.0 h in (x, strip_prefix-some signature_prefix header x e, d)),
      (λ (x, e, d). i.1 (x, rw e (strip_prefix-append signature_prefix x), d)),
    )
