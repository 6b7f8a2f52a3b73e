-- ===== src/Handler/Identity/Keys.antt =====
-- The cache of the signing keys, which the operator keeps between the runs.
use jfrog_registry_operator.Base.{Text, Option, ◌≡◌}
use jfrog_registry_operator.Base.Exec.{Keeps}
use jfrog_registry_operator.Sign.Keys.{V4aCredentials, AwsCredentials}
use jfrog_registry_operator.Sign.Keys.Cache.{IsDerived, retrieve_private_key-IsDerived}
use jfrog_registry_operator.Sign.Request.{Time}
use jfrog_registry_operator.Sign.Build.{sign_v4a}
use jfrog_registry_operator.Handler.Identity.{Signing, sign_caller_identity}

module _ {S : Type 0} (signing : Signing S) where
  -- The cache is empty or holds a derived key.
  abbrev pub KeysDerived : S → Type 0
  KeysDerived s = IsDerived signing.derive (signing.cache s)

  sign_v4a-IsDerived :
      (cache : Option V4aCredentials) (now : Time) (method url service : Text)
      (creds : AwsCredentials)
      → IsDerived signing.derive cache
      → IsDerived signing.derive
          (sign_v4a signing.crypto signing.parse_query signing.new_request signing.derive cache now
            method url service creds).1
  unfolding sign_v4a
  sign_v4a-IsDerived cache now method url service creds h =
      retrieve_private_key-IsDerived signing.derive cache creds h

  -- The request for the caller's identity is signed with a cache that is empty or holds a derived key
  -- afterwards, if it was so before.
  pub sign_caller_identity-Keeps :
      ((c : Option V4aCredentials) (s : S) → signing.cache (signing.set_cache c s) ≡ c)
      → (creds : AwsCredentials) → Keeps KeysDerived (sign_caller_identity signing creds)
  unfolding sign_caller_identity
  sign_caller_identity-Keeps law creds = record {
    at = λ s h. rw (law _ s) (sign_v4a-IsDerived (signing.cache s) (signing.now s) _ _ _ creds h);
  }
