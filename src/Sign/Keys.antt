-- ===== src/Sign/Keys.antt =====
-- internal/sign/signer.go: the signing key that is derived from an access key pair, and the cache of
-- the last one. The curve P-256 belongs to the standard library: its order is a constant, and the
-- multiples of its base point are a parameter.
pub mod Candidates
pub mod Cache
use jfrog_registry_operator.Base.{
  ℕ, zero, suc, ◌+◌, ◌-◌, ◌%◌, [], ◌∷◌, ◌++◌, Text, str, eqb, Option, none, some, value, big_bytes,
  Outcome, ok, err, panic, plain, ◌>>=◌, if◌then◌else◌,
}
use jfrog_registry_operator.Base.Int.{ℤ, pos, negsuc}
use jfrog_registry_operator.Sign.Compare.{constant_time_byte_compare}
use jfrog_registry_operator.Sign.Kdf.{Hmac, hmac_key_derivation}

-- `p256.Params().N`, and its `BitSize`.
abbrev pub curve_order : ℕ
curve_order = 0xFFFFFFFF00000000FFFFFFFFFFFFFFFFBCE6FAADA7179E84F3B9CAC2FC632551

abbrev pub bit_size : ℕ
bit_size = 256

pub n_minus_two_p256 : ℕ
n_minus_two_p256 = curve_order - 2

-- `ecdsa.PrivateKey`
pub record PrivateKey : Type 0 where
  pub d : ℕ
  pub x : ℕ
  pub y : ℕ

pub record AwsCredentials : Type 0 where
  pub access_key : Text
  pub secret_key : Text
  pub region_name : Text
  pub session_token : Text

-- The field `Context` holds the access key.
pub record V4aCredentials : Type 0 where
  pub context : Text
  pub private_key : PrivateKey
  pub session_token : Text

-- The test of `cmp`: the number of the key, or `none` where the next counter is to be tried.
accept : Text → ℤ → Option ℕ
accept key (negsuc zero) = some (value key)
accept key _ = none

module _ (h : Hmac) where
  -- One round of the loop.
  pub attempt : Text → Text → ℕ → Outcome (Option ℕ)
  unfolding accept
  attempt access_key secret_key counter = do
    key ←
        hmac_key_derivation h (pos bit_size) (str "AWS4A" ++ secret_key)
          (str "AWS4-ECDSA-P256-SHA256") (access_key ++ (counter % 256) ∷ [])
    cmp ← constant_time_byte_compare key (big_bytes n_minus_two_p256)
    ok (accept key cmp)

  -- The loop at `counter`, with the number of counters that are left up to 0xFF.
  pub derive_loop : Text → Text → ℕ → ℕ → Outcome ℕ
  derive_loop access_key secret_key zero counter =
      attempt access_key secret_key counter >>= λ found. elim found [
        | some d ↦ ok d
        | none ↦ err (plain (str "exhausted single byte external counter"))
      ]
  derive_loop access_key secret_key (suc left) counter =
      attempt access_key secret_key counter >>= λ found. elim found [
        | some d ↦ ok d
        | none ↦ derive_loop access_key secret_key left (counter + 1)
      ]

  module _ (scalar_base_mult : Text → ℕ × ℕ) where
    -- The private key for a number that was found.
    private_key_of : ℕ → PrivateKey
    private_key_of found =
        let (x, y) = scalar_base_mult (big_bytes (found + 1)) in
        record { d = found + 1; x = x; y = y }

    unfoldable pub derive_key_from_access_key_pair : Text → Text → Outcome PrivateKey
    unfolding private_key_of
    derive_key_from_access_key_pair access_key secret_key = do
      found ← derive_loop access_key secret_key 0xFE 0x01
      ok (private_key_of found)

-- The cached credentials, if they are for this access key.
unfoldable pub cached : Option V4aCredentials → Text → Option V4aCredentials
cached none access_key = none
cached (some c) access_key = if eqb c.context access_key then some c else none

unfoldable pub store :
    Option V4aCredentials
    → AwsCredentials
    → Outcome PrivateKey
    → Outcome V4aCredentials × Option V4aCredentials
store cache symmetric (ok key) =
    let creds : V4aCredentials = record {
      context = symmetric.access_key;
      private_key = key;
      session_token = symmetric.session_token;
    } in
    (ok creds, some creds)
store cache symmetric (err e) =
    (err (plain (str "failed to derive asymmetric key from credentials")), cache)
store cache symmetric panic = (panic, cache)

module _ (derive : Text → Text → Outcome PrivateKey) where
  -- The credentials, and what the cache holds afterwards. The lock is held throughout, so no other
  -- call comes between. `derive` is `derive_key_from_access_key_pair`.
  unfoldable pub retrieve_private_key :
      Option V4aCredentials → AwsCredentials → Outcome V4aCredentials × Option V4aCredentials
  unfolding cached store
  retrieve_private_key cache symmetric = elim (cached cache symmetric.access_key) [
    | some c ↦ (ok c, cache)
    | none ↦ store cache symmetric (derive symmetric.access_key symmetric.secret_key)
  ]
