-- ===== src/Resource/Docker/Encoding.antt =====
-- How a docker client decodes the token.
use jfrog_registry_operator.Base.{
  false, ℕ, ◌+◌, ◌-◌, ◌*◌, ◌/◌, ◌%◌, ◌<◌, ◌≡◌, refl, Text, [], ◌∷◌, IsBytes, ltb, ◌==◌,
  if◌then◌else◌, arith,
}
use jfrog_registry_operator.Resource.Docker.{base64_digit, base64}

-- The number of a digit of the alphabet.
abbrev digit_value : ℕ → ℕ
digit_value c =
    if c == b'+'
    then 62
    else if c == b'/'
    then 63
    else if ltb c b'A'
    then c - b'0' + 52
    else if ltb c b'a'
    then c - b'A'
    else c - b'a' + 26

-- What RFC 4648 says of a quantum of four characters: `=` stands for bytes that are not there.
pub decode : Text → Text
decode (p ∷ q ∷ r ∷ s ∷ rest) =
    let later = decode rest in
    let a = digit_value p * 4 + digit_value q / 16 in
    let b = digit_value q % 16 * 16 + digit_value r / 4 in
    let c = digit_value r % 4 * 64 + digit_value s in
    if r == b'=' then a ∷ [] else if s == b'=' then a ∷ b ∷ [] else a ∷ b ∷ c ∷ later
decode _ = []

digit_value-base64_digit : (n : ℕ) → n < 64 → digit_value (base64_digit n) ≡ n
unfolding base64_digit
digit_value-base64_digit n h = ground arith

base64_digit-ne : (n : ℕ) → n < 64 → (base64_digit n == b'=') ≡ false
unfolding base64_digit
base64_digit-ne n h = ground arith

-- Decoding an encoding gives the bytes back.
pub decode-base64 : (s : Text) → IsBytes s → decode (base64 s) ≡ s
unfolding base64 decode
decode-base64 [] h = refl
decode-base64 (a ∷ []) h = ground (
  arith,
  digit_value-base64_digit (a / 4) (ground arith),
  digit_value-base64_digit (a % 4 * 16) (omega arith),
)
decode-base64 (a ∷ b ∷ []) h = ground (
  arith,
  digit_value-base64_digit (a / 4) (ground arith),
  digit_value-base64_digit (a % 4 * 16 + b / 16) (ground arith),
  digit_value-base64_digit (b % 16 * 4) (omega arith),
  base64_digit-ne (b % 16 * 4) (omega arith),
)
decode-base64 (a ∷ b ∷ c ∷ rest) h = ground (
  arith,
  digit_value-base64_digit (a / 4) (ground arith),
  digit_value-base64_digit (a % 4 * 16 + b / 16) (ground arith),
  digit_value-base64_digit (b % 16 * 4 + c / 64) (ground arith),
  digit_value-base64_digit (c % 64) (omega arith),
  base64_digit-ne (b % 16 * 4 + c / 64) (ground arith),
  base64_digit-ne (c % 64) (omega arith),
  decode-base64 rest h.1.1.1,
)
