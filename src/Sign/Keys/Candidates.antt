-- ===== src/Sign/Keys/Candidates.antt =====
-- Which of the candidates the key is derived from.
use jfrog_registry_operator.Base.{
  ℕ, zero, suc, ◌+◌, ◌-◌, ◌%◌, ◌<◌, ◌≤◌, ◌≡◌, refl, sym, ◌∙◌, [], ◌∷◌, ◌++◌, >>=-eq-ok, Text, str,
  none, some, value, big_bytes, be32, ok, err, plain, length, take, IsBytes, ltb, if◌then◌else◌,
  arith,
}
use jfrog_registry_operator.Sign.Compare.Order.{constant_time_byte_compare_lem}
use jfrog_registry_operator.Sign.Kdf.{Hmac, IsLawful}
use jfrog_registry_operator.Sign.Kdf.Output.{hmac_key_derivation_one_block}
use jfrog_registry_operator.Sign.Keys.{
  curve_order, n_minus_two_p256, attempt, derive_loop, derive_key_from_access_key_pair, PrivateKey,
  private_key_of,
}

-- The bytes of the bound, and the number that they stand for.
bound_lem :
    (length (big_bytes n_minus_two_p256) ≡ 32)
    × (value (big_bytes n_minus_two_p256) ≡ curve_order - 2)
    × IsBytes (big_bytes n_minus_two_p256)
unfolding big_bytes value n_minus_two_p256
bound_lem = (refl, refl, omega arith)

take_all : (n : ℕ) (xs : Text) → length xs ≡ n → take n xs ≡ xs
take_all zero [] e = refl
take_all zero (x ∷ xs) e = absurd (omega arith)
take_all (suc n) [] e = refl
take_all (suc n) (x ∷ xs) e = rw (take_all n xs (omega arith))

module _ (h : Hmac) where
  -- The number that FIPS 186-4 B.4.2 draws for a counter: one HMAC sum over the fixed input.
  unfoldable pub candidate : Text → Text → ℕ → ℕ
  candidate access_key secret_key counter = value (
      h.sum (str "AWS4A" ++ secret_key) (
        be32 1
        ++ (str "AWS4-ECDSA-P256-SHA256"
            ++ (0 ∷ ((access_key ++ (counter % 256) ∷ []) ++ be32 256)))))

  module _ (lawful : IsLawful h) (sha256 : h.size ≡ 32) (access_key secret_key : Text) where
    attempt_lem :
        (counter : ℕ)
        → attempt h access_key secret_key counter
          ≡ ok (
              if ltb (candidate access_key secret_key counter) (curve_order - 2)
              then some (candidate access_key secret_key counter)
              else none)
    unfolding attempt candidate
    attempt_lem counter =
        let context : Text = access_key ++ (counter % 256) ∷ [] in
        let label : Text = str "AWS4-ECDSA-P256-SHA256" in
        let input : Text = str "AWS4A" ++ secret_key in
        let sum : Text = h.sum input (be32 1 ++ (label ++ (0 ∷ (context ++ be32 256)))) in
        let long : length sum ≡ 32 = lawful.length-sum _ _ ∙ sha256 in
        rw
          (
            hmac_key_derivation_one_block h lawful 256 input label context (omega arith)
                (omega arith) (omega arith),
            take_all 32 sum long,
            constant_time_byte_compare_lem sum (big_bytes n_minus_two_p256) (long ∙ sym bound_lem.0)
                (lawful.sum-IsBytes _ _) bound_lem.2,
            bound_lem.1,
          )
          (ground arith)

    attempt_hit :
        (c : ℕ)
        → candidate access_key secret_key c < curve_order - 2
        → attempt h access_key secret_key c ≡ ok (some (candidate access_key secret_key c))
    attempt_hit c below = attempt_lem c ∙ ground arith

    attempt_miss :
        (c : ℕ)
        → curve_order - 2 ≤ candidate access_key secret_key c
        → attempt h access_key secret_key c ≡ ok none
    attempt_miss c above = attempt_lem c ∙ ground arith

    -- The loop takes the first counter whose candidate is below the bound.
    derive_loop_first :
        (k left counter c : ℕ)
        → c ≡ counter + k
        → k ≤ left
        → ((b : ℕ) → counter ≤ b → b < c → curve_order - 2 ≤ candidate access_key secret_key b)
        → candidate access_key secret_key c < curve_order - 2
        → derive_loop h access_key secret_key left counter ≡ ok (candidate access_key secret_key c)
    unfolding derive_loop
    derive_loop_first zero zero counter c e fits rejected found =
        let e' : c ≡ counter = omega arith in rw (← e') (rw (attempt_hit c found))
    derive_loop_first zero (suc left) counter c e fits rejected found =
        let e' : c ≡ counter = omega arith in rw (← e') (rw (attempt_hit c found))
    derive_loop_first (suc k) zero counter c e fits rejected found = absurd (omega arith)
    derive_loop_first (suc k) (suc left) counter c e fits rejected found =
        rw (attempt_miss counter (rejected counter (omega arith) (omega arith))) (
          derive_loop_first k left (counter + 1) c (omega arith) (omega arith)
            (λ b low high. rejected b (omega arith) high) found)

    derive_loop_exhausted :
        (left counter : ℕ)
        → ((c : ℕ)
            → counter ≤ c
            → c ≤ counter + left
            → curve_order - 2 ≤ candidate access_key secret_key c)
        → derive_loop h access_key secret_key left counter
          ≡ err (plain (str "exhausted single byte external counter"))
    unfolding derive_loop
    derive_loop_exhausted zero counter rejected =
        rw (attempt_miss counter (rejected counter (omega arith) (omega arith)))
    derive_loop_exhausted (suc left) counter rejected =
        rw (attempt_miss counter (rejected counter (omega arith) (omega arith))) (
          derive_loop_exhausted left (counter + 1)
            (λ c low high. rejected c (omega arith) (omega arith)))

    module _ (scalar_base_mult : Text → ℕ × ℕ) where
      -- With sums of 32 bytes, the first counter from 1 to 255 whose candidate is below the order
      -- minus two gives the key: its private number is the candidate plus one, and its point is
      -- that multiple of the base.
      pub derive_key_first :
          (c : ℕ)
          → 1 ≤ c
          → c ≤ 255
          → ((b : ℕ) → 1 ≤ b → b < c → curve_order - 2 ≤ candidate access_key secret_key b)
          → candidate access_key secret_key c < curve_order - 2
          → derive_key_from_access_key_pair h scalar_base_mult access_key secret_key ≡ (
              let d = candidate access_key secret_key c + 1 in
              let (x, y) = scalar_base_mult (big_bytes d) in ok (record { d = d; x = x; y = y }))
      unfolding derive_key_from_access_key_pair
      derive_key_first c low high rejected found =
          unfold private_key_of in
          rw (derive_loop_first (c - 1) 0xFE 1 c (omega arith) (omega arith) rejected found)

      -- With sums of 32 bytes, where all 255 candidates are too large, the derivation ends in an
      -- error.
      pub derive_key_exhausted :
          ((c : ℕ) → 1 ≤ c → c ≤ 255 → curve_order - 2 ≤ candidate access_key secret_key c)
          → derive_key_from_access_key_pair h scalar_base_mult access_key secret_key
            ≡ err (plain (str "exhausted single byte external counter"))
      unfolding derive_key_from_access_key_pair
      derive_key_exhausted rejected =
          rw (derive_loop_exhausted 0xFE 1 (λ c low high. rejected c low (omega arith)))

      derive_loop_range :
          (left counter found : ℕ)
          → derive_loop h access_key secret_key left counter ≡ ok found
          → found < curve_order - 2
      unfolding derive_loop
      derive_loop_range zero counter found e = ground (arith, attempt_lem counter)
      derive_loop_range (suc left) counter found e =
          ground (arith, attempt_lem counter, derive_loop_range left (counter + 1) found)

      -- With sums of 32 bytes, every derived private number is at least 1 and at most the order of
      -- the curve less 2.
      pub derive_key_range :
          (k : PrivateKey)
          → derive_key_from_access_key_pair h scalar_base_mult access_key secret_key ≡ ok k
          → (1 ≤ k.d) × (k.d ≤ curve_order - 2)
      unfolding derive_key_from_access_key_pair private_key_of
      derive_key_range k e =
          let (found, looped, built) =
            >>=-eq-ok (derive_loop h access_key secret_key 0xFE 0x01) _ e in
          ground (arith, derive_loop_range 0xFE 0x01 found looped, built)
