-- ===== src/Sign/Kdf/Output.antt =====
-- How long the derived key is, and what it is up to one sum.
use jfrog_registry_operator.Base.Int.{pos}
use native.Mathlib.Nat.{div-add-mod, mod-lt}
use mathlib.Core.List.{append-nil}
use jfrog_registry_operator.Base.{
  ℕ, zero, suc, ◌+◌, ◌-◌, ◌*◌, ◌/◌, ◌≡◌, ◌≤◌, ◌<◌, ◌∷◌, ◌++◌, Text, str, length, take,
  length-append, length-take, be32, decimal, ok, err, plain, ltb, GoError, inl, inr, Bool-cases,
  refl, arith,
}
use jfrog_registry_operator.Sign.Kdf.{Hmac, IsLawful, block_count, blocks, cut, hmac_key_derivation}

-- A rounded-up quotient, from both sides.
ceil_bounds : (n d : ℕ) → 0 < d → (n ≤ (n + d - 1) / d * d) × ((n + d - 1) / d * d ≤ n + d - 1)
ceil_bounds n d p = (
  omega (arith, div-add-mod (n + d - 1) d, mod-lt (n + d - 1) p),
  omega (arith, div-add-mod (n + d - 1) d),
)

le_of_mul : (q d n : ℕ) → 0 < d → q * d ≤ n + d - 1 → q ≤ n
le_of_mul zero d n p h = omega arith
le_of_mul (suc q) zero n p h = absurd (omega arith)
le_of_mul (suc q) (suc d) n p h = omega arith

one_of_bounds : (q d n : ℕ) → 0 < n → n ≤ d → (n ≤ q * d) × (q * d ≤ n + d - 1) → q ≡ 1
one_of_bounds zero d n positive fits h = absurd (omega arith)
one_of_bounds (suc zero) d n positive fits h = refl
one_of_bounds (suc (suc q)) d n positive fits h = absurd (omega arith)

module _ (h : Hmac) (lawful : IsLawful h) where
  length-blocks :
      (n i : ℕ) (key fixed_input : Text) → length (blocks h n i key fixed_input) ≡ n * h.size
  unfolding blocks
  length-blocks zero i key fixed_input = omega arith
  length-blocks (suc n) i key fixed_input = omega (
    arith,
    length-append (h.sum key (be32 i ++ fixed_input)) (blocks h n (i + 1) key fixed_input),
    lawful.length-sum key (be32 i ++ fixed_input),
    length-blocks n (i + 1) key fixed_input,
  )

  block_count-enough : (bit_len : ℕ) → bit_len / 8 ≤ block_count h bit_len * h.size
  unfolding block_count
  block_count-enough bit_len = omega (arith, ceil_bounds bit_len (8 * h.size), lawful.size_pos)

  block_count-le : (bit_len : ℕ) → block_count h bit_len ≤ bit_len
  unfolding block_count
  block_count-le bit_len =
      let p = lawful.size_pos in
      le_of_mul _ (8 * h.size) bit_len (omega arith)
        (ceil_bounds bit_len (8 * h.size) (omega arith)).1

  -- Whatever length from 0 to 2^31 - 1 bits is asked for, there is a key. It has as many bytes as there
  -- are whole ones in that length: bits beyond a multiple of 8 are dropped.
  pub length-hmac_key_derivation :
      (bit_len : ℕ) (key label context : Text)
      → bit_len ≤ 0x7FFFFFFF
      → (out : Text) × (hmac_key_derivation h (pos bit_len) key label context ≡ ok out)
        × (length out ≡ bit_len / 8)
  unfolding hmac_key_derivation cut
  length-hmac_key_derivation bit_len key label context fits = (
    take (bit_len / 8)
        (blocks h (block_count h bit_len) 1 key (label ++ (0 ∷ (context ++ be32 bit_len)))),
    ground (
      arith,
      block_count-le bit_len,
      block_count-enough bit_len,
      length-blocks (block_count h bit_len) 1 key (label ++ (0 ∷ (context ++ be32 bit_len))),
    ),
    omega (
      arith,
      length-take (bit_len / 8)
          (blocks h (block_count h bit_len) 1 key (label ++ (0 ∷ (context ++ be32 bit_len)))),
      block_count-enough bit_len,
      length-blocks (block_count h bit_len) 1 key (label ++ (0 ∷ (context ++ be32 bit_len))),
    ),
  )

  -- A length beyond 2^31 - 1 bits is an error, and never a shorter key or a panic.
  pub hmac_key_derivation_long :
      (bit_len : ℕ) (key label context : Text)
      → 0x7FFFFFFF < bit_len
      → (e : GoError) × (hmac_key_derivation h (pos bit_len) key label context ≡ err e)
  unfolding hmac_key_derivation
  hmac_key_derivation_long bit_len key label context long =
      elim (Bool-cases (ltb 0x7FFFFFFF (block_count h bit_len))) [
        | inl many ↦ (
          plain (
              str "unable to derive key of size "
              ++ (decimal bit_len ++ str " using 32-bit counter")),
          rw many,
        )
        | inr few ↦ (plain (str "bitLen is greater than 32-bits"), ground arith)
      ]

  -- Up to the size of one sum the key is the start of that sum.
  pub hmac_key_derivation_one_block :
      (bit_len : ℕ) (key label context : Text)
      → 0 < bit_len
      → bit_len ≤ 8 * h.size
      → bit_len ≤ 0x7FFFFFFF
      → hmac_key_derivation h (pos bit_len) key label context
        ≡ ok (take (bit_len / 8) (h.sum key (be32 1 ++ (label ++ (0 ∷ (context ++ be32 bit_len))))))
  unfolding hmac_key_derivation cut blocks
  hmac_key_derivation_one_block bit_len key label context positive short fits =
      let one : block_count h bit_len ≡ 1 =
        one_of_bounds _ _ bit_len positive short (ceil_bounds bit_len (8 * h.size) (omega arith)) in
      rw (one, append-nil)
        (ground
          (arith, lawful.length-sum key (be32 1 ++ (label ++ (0 ∷ (context ++ be32 bit_len))))))
