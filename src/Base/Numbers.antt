-- ===== src/Base/Numbers.antt =====
-- Numbers written as bytes and digits: the parts of `encoding/binary`, `math/big` and `strconv` that
-- the code uses.
use Prim.Native.Nat.{ℕ, zero, suc, ◌+◌, ◌*◌, ◌/◌, ◌%◌, ◌^◌, ◌<◌}
use native.Mathlib.Nat.{pow-suc}
use mathlib.Core.List.{[], ◌∷◌}
use native.Mathlib.Omega.{arith}
use jfrog_registry_operator.Base.Tests.{◌==◌, if◌then◌else◌}
use jfrog_registry_operator.Base.Lists.{length, All}
use jfrog_registry_operator.Base.Texts.{Text}

abbrev pub IsBytes : Text → Type 0
IsBytes = All (λ b. b < 256)

-- `SetBytes`: the big-endian number that bytes stand for.
unfoldable pub value : Text → ℕ
value [] = 0
value (b ∷ bs) = b * 256 ^ length bs + value bs

-- `binary.Write` of an `int32`, big endian.
unfoldable pub be32 : ℕ → Text
be32 n = (n / 2 ^ 24 % 256) ∷ (n / 2 ^ 16 % 256) ∷ (n / 2 ^ 8 % 256) ∷ (n % 256) ∷ []

-- The last digits of `n` in a base, before the digits that are there.
digits_loop : ℕ → ℕ → (ℕ → ℕ) → ℕ → Text → Text
digits_loop zero base digit n acc = acc
digits_loop (suc fuel) base digit n acc =
    let more = digits_loop fuel base digit (n / base) (digit (n % base) ∷ acc) in
    if n == 0 then acc else more

-- `Bytes` of a `big.Int`: no leading zero byte. The fuel is more than the number of bytes.
unfoldable pub big_bytes : ℕ → Text
unfolding digits_loop
big_bytes n = digits_loop (suc n) 256 (λ d. d) n []

-- `%d`
unfoldable pub decimal : ℕ → Text
unfolding digits_loop
decimal n = if n == 0 then b'0' ∷ [] else digits_loop (suc n) 10 (λ d. b'0' + d) n []

pub value-lt : (bs : Text) → IsBytes bs → value bs < 256 ^ length bs
unfolding value
value-lt [] h = omega arith
value-lt (b ∷ bs) h = rw pow-suc (grind (arith, value-lt bs h.1))
