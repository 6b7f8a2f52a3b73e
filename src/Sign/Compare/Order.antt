-- ===== src/Sign/Compare/Order.antt =====
-- The constant-time comparison, and the order of the numbers that the bytes stand for.
use jfrog_registry_operator.Base.{
  ℕ, ◌+◌, ◌<◌, ◌≡◌, refl, ◌⊎◌, inl, inr, ap, sym, [], ◌∷◌, Text, length, ok, IsBytes, value,
  value-lt, ltb, ◌==◌, if◌then◌else◌, arith,
}
use jfrog_registry_operator.Base.Int.{ℤ, pos, negsuc}
use jfrog_registry_operator.Sign.Compare.{
  sign_bit, and_not, round, compare_loop, constant_time_byte_compare,
}

-- -1, 0 or +1.
abbrev pub order : ℕ → ℕ → ℤ
order a b = if ltb a b then negsuc 0 else if a == b then pos 0 else pos 1

sign_bit-lt : (a b : ℕ) → a < 256 → b < 256 → sign_bit a b ≡ (if ltb a b then 1 else 0)
unfolding sign_bit
sign_bit-lt a b h k = ground arith

-- The flags of the order of two numbers.
abbrev flags : ℕ → ℕ → ℕ × ℕ
flags a b = if ltb a b then (0, 1) else if a == b then (0, 0) else (1, 0)

round_start : (x y : ℕ) → x < 256 → y < 256 → round x y 0 0 ≡ flags x y
unfolding round and_not
round_start x y h k = ground (arith, sign_bit-lt x y h k, sign_bit-lt y x k h)

-- Once one side is known to be larger, no later byte changes it.
round_x : (x y : ℕ) → x < 256 → y < 256 → round x y 1 0 ≡ (1, 0)
unfolding round and_not
round_x x y h k = ground (arith, sign_bit-lt x y h k, sign_bit-lt y x k h)

round_y : (x y : ℕ) → x < 256 → y < 256 → round x y 0 1 ≡ (0, 1)
unfolding round and_not
round_y x y h k = ground (arith, sign_bit-lt x y h k, sign_bit-lt y x k h)

compare_loop_x : (xs ys : Text) → IsBytes xs → IsBytes ys → compare_loop xs ys 1 0 ≡ (1, 0)
unfolding compare_loop
compare_loop_x [] ys h k = refl
compare_loop_x (x ∷ xs) [] h k = refl
compare_loop_x (x ∷ xs) (y ∷ ys) h k = rw (round_x x y h.0 k.0) (compare_loop_x xs ys h.1 k.1)

compare_loop_y : (xs ys : Text) → IsBytes xs → IsBytes ys → compare_loop xs ys 0 1 ≡ (0, 1)
unfolding compare_loop
compare_loop_y [] ys h k = refl
compare_loop_y (x ∷ xs) [] h k = refl
compare_loop_y (x ∷ xs) (y ∷ ys) h k = rw (round_y x y h.0 k.0) (compare_loop_y xs ys h.1 k.1)

-- A larger first byte outweighs all the bytes behind it.
value_head :
    (x y : ℕ) (xs ys : Text)
    → length xs ≡ length ys
    → IsBytes xs
    → x < y
    → value (x ∷ xs) < value (y ∷ ys)
unfolding value
value_head x y xs ys e h lt = rw (← e) (grind (arith, value-lt xs h))

-- Behind equal first bytes both numbers have grown by the same.
value_same :
    (x : ℕ) (xs ys : Text)
    → length xs ≡ length ys
    → value (x ∷ ys) + value xs ≡ value (x ∷ xs) + value ys
unfolding value
value_same x xs ys e = rw e (omega arith)

trichotomy : (a b : ℕ) → (a < b) ⊎ ((a ≡ b) ⊎ (b < a))
trichotomy a b = grind arith

compare_loop_from :
    (x y : ℕ) (xs ys : Text)
    → length xs ≡ length ys
    → IsBytes (x ∷ xs)
    → IsBytes (y ∷ ys)
    → compare_loop xs ys 0 0 ≡ flags (value xs) (value ys)
    → compare_loop xs ys (flags x y).0 (flags x y).1 ≡ flags (value (x ∷ xs)) (value (y ∷ ys))
compare_loop_from x y xs ys e h k ih = elim (trichotomy x y) [
  | inl p ↦ ground (arith, compare_loop_y xs ys h.1 k.1, value_head x y xs ys e h.1 p)
  | inr (inl p) ↦ ground (arith, value_same x xs ys e, ap (λ z. value (z ∷ ys)) p)
  | inr (inr p) ↦ ground (arith, compare_loop_x xs ys h.1 k.1, value_head y x ys xs (sym e) k.1 p)
]

-- The loop ends in the flags of the order of the two numbers.
compare_loop_lem :
    (xs ys : Text)
    → length xs ≡ length ys
    → IsBytes xs
    → IsBytes ys
    → compare_loop xs ys 0 0 ≡ flags (value xs) (value ys)
unfolding compare_loop
compare_loop_lem [] [] e h k = unfold value in refl
compare_loop_lem [] (y ∷ ys) e h k = absurd (omega arith)
compare_loop_lem (x ∷ xs) [] e h k = absurd (omega arith)
compare_loop_lem (x ∷ xs) (y ∷ ys) e h k =
    rw (round_start x y h.0 k.0)
      (compare_loop_from x y xs ys (omega arith) h k (compare_loop_lem xs ys (omega arith) h.1 k.1))

-- On byte slices of one length the result is the order of the numbers that they stand for.
pub constant_time_byte_compare_lem :
    (x y : Text)
    → length x ≡ length y
    → IsBytes x
    → IsBytes y
    → constant_time_byte_compare x y ≡ ok (order (value x) (value y))
unfolding constant_time_byte_compare
constant_time_byte_compare_lem x y e h k = ground (arith, compare_loop_lem x y e h k)
