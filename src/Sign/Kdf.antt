-- ===== src/Sign/Kdf.antt =====
-- internal/sign/v4a/crypto/ecc.go, `HMACKeyDerivation`: the counter mode of NIST SP 800-108 over
-- HMAC with a hash that is a parameter.
pub mod Output
use jfrog_registry_operator.Base.Int.{ℤ, pos, negsuc}
use jfrog_registry_operator.Base.{
  ℕ, zero, suc, ◌+◌, ◌-◌, ◌*◌, ◌/◌, ◌≡◌, [], ◌∷◌, ◌++◌, Text, str, length, take, IsBytes, be32,
  decimal, Outcome, ok, err, panic, plain, ltb, ◌<◌, if◌then◌else◌,
}

-- HMAC over a hash of the standard library: the size of its sums, and the sum of a key and a message.
pub record Hmac : Type 0 where
  pub size : ℕ
  pub sum : Text → Text → Text

-- What the standard library says of every hash.
pub record IsLawful (h : Hmac) : Type 0 where
  pub size_pos : 0 < h.size
  pub length-sum : (key message : Text) → length (h.sum key message) ≡ h.size
  pub sum-IsBytes : (key message : Text) → IsBytes (h.sum key message)

module _ (h : Hmac) where
  -- `math.Ceil((float64(bitLen) / 8) / float64(hash().Size()))`
  unfoldable pub block_count : ℕ → ℕ
  block_count bit_len = (bit_len + 8 * h.size - 1) / (8 * h.size)

  -- The loop over `i`, with the rounds that are left.
  unfoldable pub blocks : ℕ → ℕ → Text → Text → Text
  blocks zero i key fixed_input = []
  blocks (suc rounds) i key fixed_input =
      h.sum key (be32 i ++ fixed_input) ++ blocks rounds (i + 1) key fixed_input

  -- `output[:n]`
  unfoldable pub cut : ℕ → Text → Outcome Text
  cut n output = if ltb (length output) n then panic else ok (take n output)

  -- A negative length makes no block: the slice of the empty output panics below -7, since `bitLen/8` is
  -- rounded towards zero.
  unfoldable pub hmac_key_derivation : ℤ → Text → Text → Text → Outcome Text
  unfolding block_count blocks cut
  hmac_key_derivation (negsuc n) key label context = if ltb n 7 then ok [] else panic
  hmac_key_derivation (pos bit_len) key label context =
      let n = block_count bit_len in
      let fixed_input = label ++ (0 ∷ (context ++ be32 bit_len)) in
      if ltb 0x7FFFFFFF n
      then err (
          plain (
            str "unable to derive key of size "
            ++ (decimal bit_len ++ str " using 32-bit counter")))
      else if ltb 0x7FFFFFFF bit_len
      then err (plain (str "bitLen is greater than 32-bits"))
      else cut (bit_len / 8) (blocks n 1 key fixed_input)
