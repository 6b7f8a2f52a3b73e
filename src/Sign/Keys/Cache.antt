-- ===== src/Sign/Keys/Cache.antt =====
-- The cache of the last derived credentials.
use jfrog_registry_operator.Base.{
  Text, eqb, eqb_iff, Option, none, some, Outcome, ok, ◌≡◌, refl, sym, ◌∙◌, false, inl, inr, err,
  panic, Bool-cases, arith,
}
use jfrog_registry_operator.Sign.Keys.{
  PrivateKey, AwsCredentials, V4aCredentials, store, retrieve_private_key,
}

module _ (derive : Text → Text → Outcome PrivateKey) where
  -- What the cache may hold: credentials whose key is derived from their context and some secret.
  abbrev pub IsDerived : Option V4aCredentials → Type 0
  IsDerived none = Unit
  IsDerived (some c) = (secret : Text) × (derive c.context secret ≡ ok c.private_key)

  retrieve_cached :
      (c : V4aCredentials) (symmetric : AwsCredentials)
      → c.context ≡ symmetric.access_key
      → retrieve_private_key derive (some c) symmetric ≡ (ok c, some c)
  unfolding retrieve_private_key
  retrieve_cached c symmetric e = ground (arith, eqb_iff c.context symmetric.access_key)

  retrieve_fresh :
      (c : V4aCredentials) (symmetric : AwsCredentials)
      → eqb c.context symmetric.access_key ≡ false
      → retrieve_private_key derive (some c) symmetric
        ≡ store (some c) symmetric (derive symmetric.access_key symmetric.secret_key)
  unfolding retrieve_private_key
  retrieve_fresh c symmetric e = ground arith

  store-IsDerived :
      (cache : Option V4aCredentials) (symmetric : AwsCredentials) (r : Outcome PrivateKey)
      → derive symmetric.access_key symmetric.secret_key ≡ r
      → IsDerived cache
      → IsDerived (store cache symmetric r).1
  unfolding store
  store-IsDerived cache symmetric (ok key) e h = (symmetric.secret_key, e)
  store-IsDerived cache symmetric (err _) e h = h
  store-IsDerived cache symmetric panic e h = h

  store_lem :
      (cache : Option V4aCredentials) (symmetric : AwsCredentials) (r : Outcome PrivateKey)
      (c : V4aCredentials)
      → derive symmetric.access_key symmetric.secret_key ≡ r
      → (store cache symmetric r).0 ≡ ok c
      → (c.context ≡ symmetric.access_key)
        × ((secret : Text) × (derive symmetric.access_key secret ≡ ok c.private_key))
        × ((store cache symmetric r).1 ≡ some c)
  unfolding store
  store_lem cache symmetric (ok key) c d e = (cc, (symmetric.secret_key, ground arith), cc)
  store_lem cache symmetric (err _) c d e = cc
  store_lem cache symmetric panic c d e = cc

  -- A call leaves a cache that is empty or holds a derived key.
  pub retrieve_private_key-IsDerived :
      (cache : Option V4aCredentials) (symmetric : AwsCredentials)
      → IsDerived cache
      → IsDerived (retrieve_private_key derive cache symmetric).1
  retrieve_private_key-IsDerived none symmetric h =
      unfold retrieve_private_key in store-IsDerived none symmetric _ refl h
  retrieve_private_key-IsDerived (some c) symmetric h =
      elim (Bool-cases (eqb c.context symmetric.access_key)) [
        | inl same ↦ rw (retrieve_cached c symmetric ((eqb_iff _ _).0 same)) h
        | inr differ ↦
            rw (retrieve_fresh c symmetric differ) (store-IsDerived (some c) symmetric _ refl h)
      ]

  cached_lem :
      (b : V4aCredentials) (symmetric : AwsCredentials) (c : V4aCredentials)
      → IsDerived (some b)
      → b.context ≡ symmetric.access_key
      → ◌≡◌ {A = Outcome V4aCredentials} (ok b) (ok c)
      → (c.context ≡ symmetric.access_key)
        × ((secret : Text) × (derive symmetric.access_key secret ≡ ok c.private_key))
        × (◌≡◌ {A = Option V4aCredentials} (some b) (some c))
  cached_lem b symmetric c h same e = (ground arith, (h.0, ground (arith, h.1)), ground arith)

  -- The credentials that a call returns are for the access key that was asked for, they carry a key
  -- that was derived for it, and the cache holds them.
  pub retrieve_private_key_lem :
      (cache : Option V4aCredentials) (symmetric : AwsCredentials) (c : V4aCredentials)
      → IsDerived cache
      → (retrieve_private_key derive cache symmetric).0 ≡ ok c
      → (c.context ≡ symmetric.access_key)
        × ((secret : Text) × (derive symmetric.access_key secret ≡ ok c.private_key))
        × ((retrieve_private_key derive cache symmetric).1 ≡ some c)
  retrieve_private_key_lem none symmetric c h e =
      unfold retrieve_private_key in store_lem none symmetric _ c refl e
  retrieve_private_key_lem (some b) symmetric c h e =
      elim (Bool-cases (eqb b.context symmetric.access_key)) [
        | inl same ↦
            let hit = retrieve_cached b symmetric ((eqb_iff _ _).0 same) in
            rw hit (cached_lem b symmetric c h ((eqb_iff _ _).0 same) (rw hit at e))
        | inr differ ↦
            let miss = retrieve_fresh b symmetric differ in
            rw miss (store_lem (some b) symmetric _ c refl (rw miss at e))
      ]

  -- After a call that succeeded, on a cache that is empty or whose key was derived from its access key
  -- and some secret key, a call for the same access key returns the same credentials and derives
  -- nothing, whatever its secret key and session token are.
  pub retrieve_private_key_again :
      (cache : Option V4aCredentials) (symmetric again : AwsCredentials) (c : V4aCredentials)
      → IsDerived cache
      → (retrieve_private_key derive cache symmetric).0 ≡ ok c
      → again.access_key ≡ symmetric.access_key
      → retrieve_private_key derive (retrieve_private_key derive cache symmetric).1 again
        ≡ (ok c, some c)
  retrieve_private_key_again cache symmetric again c h e same =
      let (context, _, kept) = retrieve_private_key_lem cache symmetric c h e in
      rw kept (retrieve_cached c again (context ∙ sym same))
