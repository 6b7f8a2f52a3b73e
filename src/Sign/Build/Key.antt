-- ===== src/Sign/Build/Key.antt =====
-- `SignV4a`: the key that a request is signed with, and when there is a signature.
use jfrog_registry_operator.Base.{
  split_at, [], ◌∷◌, Text, Bool, true, false, not, if◌then◌else◌, List, Outcome, ok, err, panic,
  ◌>>=◌, >>=-eq-err, is_empty, ◌≢◌, ◌≡◌, refl, inl, inr, GoError,
}
use jfrog_registry_operator.Base.Dict.{Dict}
use jfrog_registry_operator.Sign.Encoding.{hex_encode}
use jfrog_registry_operator.Sign.Request.{
  Url, HttpSigner, Crypto, get_uri_path, build_string_to_sign, build_signature,
  build_credential_scope, make_hash, raw_path, from_third,
}
use jfrog_registry_operator.Sign.Build.{SignedRequest, signed_request, canonical_string_of, build}

-- Taking the path may panic, but it has no error.
from_third-err : (parts : List Text) (e : GoError) → from_third parts ≢ err e
unfolding from_third
from_third-err [] e h = cc
from_third-err (a ∷ []) e h = cc
from_third-err (a ∷ b ∷ []) e h = cc
from_third-err (a ∷ b ∷ c ∷ parts) e h = cc

step-err {ℓ} :
    {V : Type ℓ} (first : Outcome V) (make : V → Text) (e : GoError)
    → first ≢ err e
    → (first >>= λ v. ok (make v)) ≢ err e
step-err (ok v) make e h k = cc
step-err (err problem) make e h k = h (cc)
step-err panic make e h k = cc

choice-err :
    (test : Bool) (yes_way no_way : Outcome Text) (e : GoError)
    → yes_way ≢ err e
    → no_way ≢ err e
    → (if test then yes_way else no_way) ≢ err e
choice-err true yes_way no_way e h k = h
choice-err false yes_way no_way e h k = k

raw_path-err : (u : Url) (e : GoError) → raw_path u ≢ err e
unfolding raw_path
raw_path-err u e =
    choice-err (not (is_empty u.opaque)) _ _ e
      (step-err (from_third (split_at b'/' u.opaque)) _ e (from_third-err _ e)) (λ h. cc)

get_uri_path-err : (u : Url) (e : GoError) → get_uri_path u ≢ err e
unfolding get_uri_path
get_uri_path-err u e = step-err (raw_path u) _ e (raw_path-err u e)

module _ (crypto : Crypto) (parse_query : Text → Dict (List Text)) where
  -- `Build` returns a signed request whenever the path can be taken from the URL and the key can sign.
  pub build_total :
      (s : HttpSigner) (uri : Text)
      → get_uri_path s.request.url ≡ ok uri
      → ((digest : Text) → (raw : Text) × (crypto.sign s.credentials.private_key digest ≡ ok raw))
      → (r : SignedRequest) × (build parse_query crypto s ≡ ok r)
  unfolding build build_signature
  build_total s uri path signs =
      let str_to_sign =
        build_string_to_sign crypto s (build_credential_scope s)
          (canonical_string_of parse_query s uri) in
      let (raw, signed) = signs (make_hash crypto str_to_sign) in
      (
        signed_request parse_query s (canonical_string_of parse_query s uri) str_to_sign
            (hex_encode raw),
        rw (path, signed) refl,
      )

  build_signature-err :
      (s : HttpSigner) (str_to_sign : Text) (e : GoError)
      → build_signature crypto s str_to_sign ≡ err e
      → crypto.sign s.credentials.private_key (crypto.sha256 str_to_sign) ≡ err e
  unfolding build_signature make_hash
  build_signature-err s str_to_sign e h =
      elim (>>=-eq-err (crypto.sign s.credentials.private_key (crypto.sha256 str_to_sign)) _ h) [
        | inl signing ↦ signing
        | inr (raw, signed, done) ↦ absurd (cc)
      ]

  -- `Build` has an error only where the private key's signing has this error.
  pub build-err :
      (s : HttpSigner) (e : GoError)
      → build parse_query crypto s ≡ err e
      → (digest : Text) × (crypto.sign s.credentials.private_key digest ≡ err e)
  unfolding build
  build-err s e h = elim (>>=-eq-err (get_uri_path s.request.url) _ h) [
    | inl path ↦ absurd (get_uri_path-err s.request.url e path)
    | inr (uri, path, more) ↦
        let str_to_sign =
          build_string_to_sign crypto s (build_credential_scope s)
            (canonical_string_of parse_query s uri) in
        elim (>>=-eq-err (build_signature crypto s str_to_sign) _ more) [
          | inl signing ↦ (crypto.sha256 str_to_sign, build_signature-err s str_to_sign e signing)
          | inr (signature, made, done) ↦ absurd (cc)
        ]
  ]
