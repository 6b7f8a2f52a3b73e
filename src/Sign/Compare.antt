-- ===== src/Sign/Compare.antt =====
-- internal/sign/v4a/crypto/compare.go: the comparison of two big-endian numbers in constant time.
pub mod Order
use Prim.Native.Nat.{bit_and, bit_or}
use jfrog_registry_operator.Base.{
  ℕ, ◌+◌, ◌-◌, ◌/◌, ◌%◌, ◌^◌, [], ◌∷◌, Text, str, length, Outcome, ok, err, plain, ◌==◌,
  if◌then◌else◌,
}
use jfrog_registry_operator.Base.Int.{ℤ, sub_ℕ}

-- `((a - b) >> 8) & 1` on 64-bit integers, in two's complement.
sign_bit : ℕ → ℕ → ℕ
sign_bit a b = (a + 2 ^ 64 - b) % 2 ^ 64 / 2 ^ 8 % 2

-- `a &^ b`
and_not : ℕ → ℕ → ℕ
and_not a b = bit_and a (2 ^ 64 - 1 - b)

-- `xLarger` and `yLarger` after one round.
round : ℕ → ℕ → ℕ → ℕ → ℕ × ℕ
unfolding sign_bit and_not
round x y x_larger y_larger =
    let x_larger' = bit_or x_larger (and_not (sign_bit y x) y_larger) in
    (x_larger', bit_or y_larger (and_not (sign_bit x y) x_larger'))

-- The loop, from `xLarger` and `yLarger`, over slices of one length.
compare_loop : Text → Text → ℕ → ℕ → ℕ × ℕ
compare_loop [] ys x_larger y_larger = (x_larger, y_larger)
compare_loop (x ∷ xs) [] x_larger y_larger = (x_larger, y_larger)
compare_loop (x ∷ xs) (y ∷ ys) x_larger y_larger =
    let (x_larger', y_larger') = round x y x_larger y_larger in
    compare_loop xs ys x_larger' y_larger'

unfoldable pub constant_time_byte_compare : Text → Text → Outcome ℤ
unfolding compare_loop round str
constant_time_byte_compare x y =
    if length x == length y
    then (let (x_larger, y_larger) = compare_loop x y 0 0 in ok (sub_ℕ x_larger y_larger))
    else err (plain (str "slice lengths do not match"))
