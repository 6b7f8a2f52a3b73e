-- ===== src/Sign/Tests.antt =====
-- internal/sign at concrete inputs, with a hash whose sums can be foreseen.
use jfrog_registry_operator.Base.Int.{pos}
use jfrog_registry_operator.Base.{
  ◌==◌, ℕ, zero, suc, ◌+◌, ◌-◌, ◌<◌, ◌≤◌, ◌≡◌, refl, [], ◌∷◌, Text, str, length, value, be32,
  big_bytes, IsBytes, none, some, Outcome, ok, err, plain, Bool, true, false, if◌then◌else◌, arith,
}
use jfrog_registry_operator.Sign.Compare.{constant_time_byte_compare}
use jfrog_registry_operator.Sign.Compare.Order.{order, constant_time_byte_compare_lem}
use jfrog_registry_operator.Sign.Kdf.{Hmac, IsLawful, hmac_key_derivation}
use jfrog_registry_operator.Sign.Kdf.Output.{length-hmac_key_derivation}
use jfrog_registry_operator.Sign.Keys.{
  PrivateKey, AwsCredentials, V4aCredentials, curve_order, derive_key_from_access_key_pair,
  retrieve_private_key,
}
use jfrog_registry_operator.Sign.Keys.Candidates.{candidate, derive_key_first, derive_key_exhausted}
use jfrog_registry_operator.Sign.Keys.Cache.{retrieve_private_key_again}

abbrev fill : ℕ → ℕ → Text
fill zero b = []
fill (suc n) b = b ∷ fill n b

length-fill : (n b : ℕ) → length (fill n b) ≡ n
length-fill zero b = refl
length-fill (suc n) b = omega (arith, length-fill n b)

fill-IsBytes : (n b : ℕ) → b < 256 → IsBytes (fill n b)
fill-IsBytes zero b h = tt
fill-IsBytes (suc n) b h = (h, fill-IsBytes n b h)

-- Sums of 32 bytes, 7 where the message has the byte `b` and 255 elsewhere.
abbrev has_byte : ℕ → Text → Bool
has_byte b [] = false
has_byte b (c ∷ s) = if c == b then true else has_byte b s

abbrev hash_of : (Text → Bool) → Hmac
hash_of small = record {
  size = 32;
  sum = λ key message. fill 32 (if small message then 7 else 255);
}

hash_of-IsLawful : (small : Text → Bool) → IsLawful (hash_of small)
hash_of-IsLawful small = record {
  size_pos = omega arith;
  length-sum = λ key message. length-fill 32 (if small message then 7 else 255);
  sum-IsBytes = λ key message. fill-IsBytes 32 (if small message then 7 else 255) (ground arith);
}

abbrev hash : ℕ → Hmac
hash b = hash_of (has_byte b)

hash-IsLawful : (b : ℕ) → IsLawful (hash b)
hash-IsLawful b = hash_of-IsLawful (has_byte b)

-- Every candidate is too large.
abbrev large : Hmac
large = hash_of (λ message. false)

abbrev base_mult : Text → ℕ × ℕ
base_mult bytes = (length bytes, 0)

constant_time_byte_compare_lem_example :
    constant_time_byte_compare (1 ∷ 200 ∷ 7 ∷ []) (1 ∷ 199 ∷ 255 ∷ [])
    ≡ ok (order (value (1 ∷ 200 ∷ 7 ∷ [])) (value (1 ∷ 199 ∷ 255 ∷ [])))
constant_time_byte_compare_lem_example =
    constant_time_byte_compare_lem (1 ∷ 200 ∷ 7 ∷ []) (1 ∷ 199 ∷ 255 ∷ []) refl (omega arith)
      (omega arith)

length-hmac_key_derivation_example :
    (out : Text) × (hmac_key_derivation (hash 2) (pos 600) (str "key") (str "label") (str "context")
      ≡ ok out)
    × (length out ≡ 75)
length-hmac_key_derivation_example =
    length-hmac_key_derivation (hash 2) (hash-IsLawful 2) 600 (str "key") (str "label")
      (str "context") (omega arith)

-- The candidate of the counter 1 is too large, that of 2 is not.
first_rejected :
    (b : ℕ) → 1 ≤ b → b < 2 → curve_order - 2 ≤ candidate (hash 2) (str "AKIA") (str "secret") b
unfolding candidate str be32 value
first_rejected zero low high = absurd (omega arith)
first_rejected (suc zero) low high = omega arith
first_rejected (suc (suc b)) low high = absurd (omega arith)

second_accepted : candidate (hash 2) (str "AKIA") (str "secret") 2 < curve_order - 2
unfolding candidate str be32 value
second_accepted = omega arith

derive_key_first_example :
    derive_key_from_access_key_pair (hash 2) base_mult (str "AKIA") (str "secret") ≡ (
      let d = candidate (hash 2) (str "AKIA") (str "secret") 2 + 1 in
      let (x, y) = base_mult (big_bytes d) in ok (record { d = d; x = x; y = y }))
derive_key_first_example =
    derive_key_first (hash 2) (hash-IsLawful 2) refl (str "AKIA") (str "secret") base_mult 2
      (omega arith) (omega arith) first_rejected second_accepted

large_rejected :
    (c : ℕ) → 1 ≤ c → c ≤ 255 → curve_order - 2 ≤ candidate large (str "AKIA") (str "secret") c
unfolding candidate value
large_rejected c low high = omega arith

derive_key_exhausted_example :
    derive_key_from_access_key_pair large base_mult (str "AKIA") (str "secret")
    ≡ err (plain (str "exhausted single byte external counter"))
derive_key_exhausted_example =
    derive_key_exhausted large (hash_of-IsLawful (λ message. false)) refl (str "AKIA")
      (str "secret") base_mult large_rejected

-- The key for the candidate of the counter 2.
abbrev key : PrivateKey
key = record {
  d = candidate (hash 2) (str "AKIA") (str "secret") 2 + 1;
  x = length (big_bytes (candidate (hash 2) (str "AKIA") (str "secret") 2 + 1));
  y = 0;
}

-- The cache, with a derivation that has one key for each access key.
abbrev one_key : PrivateKey
one_key = record { d = 5; x = 1; y = 2 }

abbrev derive : Text → Text → Outcome PrivateKey
derive access_key secret_key = if has_byte 7 secret_key then ok one_key else err (plain (str "no"))

abbrev alice : AwsCredentials
alice = record {
  access_key = 1 ∷ [];
  secret_key = 7 ∷ [];
  region_name = [];
  session_token = 3 ∷ [];
}

abbrev alice_later : AwsCredentials
alice_later = record {
  access_key = 1 ∷ [];
  secret_key = 8 ∷ [];
  region_name = [];
  session_token = 4 ∷ [];
}

abbrev kept : V4aCredentials
kept = record { context = 1 ∷ []; private_key = one_key; session_token = 3 ∷ [] }

retrieved : (retrieve_private_key derive none alice).0 ≡ ok kept
unfolding retrieve_private_key
retrieved = refl

retrieve_private_key_again_example :
    retrieve_private_key derive (retrieve_private_key derive none alice).1 alice_later
    ≡ (ok kept, some kept)
retrieve_private_key_again_example =
    retrieve_private_key_again derive none alice alice_later kept tt retrieved refl
