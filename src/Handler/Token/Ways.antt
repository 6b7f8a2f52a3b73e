-- ===== src/Handler/Token/Ways.antt =====
-- Which ways to sign a rotator allows.
use jfrog_registry_operator.Base.{
  ◌⊎◌, Bool, eqb_refl, eqb_iff, str, [], true, false, Text, ◌≡◌, ◌≢◌, arith,
}
use jfrog_registry_operator.Api.{SecretRotator}
use jfrog_registry_operator.Cluster.Objects.{ClientSet}
use jfrog_registry_operator.Operations.{
  pod_identity_auth_type, web_identity_auth_type, auto_auth_type, detect_pod_identity,
}
use jfrog_registry_operator.Handler.Token.{
  takes_pod_identity, takes_web_identity, configured_auth_type,
}

-- The rotator names this way to sign, or leaves the choice to the operator.
abbrev pub LetsSign : Text → SecretRotator → Type 0
LetsSign way r =
    (r.spec.auth_type ≡ []) ⊎ ((r.spec.auth_type ≡ str "auto") ⊎ (r.spec.auth_type ≡ way))

names_pod :
    (r : SecretRotator) (detected : Bool)
    → takes_pod_identity (configured_auth_type r) detected ≡ true
    → LetsSign (str "podIdentity") r × (detected ≡ true)
unfolding takes_pod_identity configured_auth_type pod_identity_auth_type auto_auth_type
names_pod r detected h = ground (
  arith,
  eqb_iff r.spec.auth_type [],
  eqb_iff r.spec.auth_type (str "podIdentity"),
  eqb_iff r.spec.auth_type (str "auto"),
)

no_pod :
    (r : SecretRotator) (detected : Bool)
    → takes_pod_identity (configured_auth_type r) detected ≡ false
    → ¬ (LetsSign (str "podIdentity") r × (detected ≡ true))
unfolding takes_pod_identity configured_auth_type pod_identity_auth_type auto_auth_type str
no_pod r detected h (named, there) = ground (
  arith,
  eqb_refl (str "auto"),
  eqb_iff r.spec.auth_type [],
  eqb_iff r.spec.auth_type (str "podIdentity"),
  eqb_iff r.spec.auth_type (str "auto"),
)

pub names_web :
    (r : SecretRotator)
    → takes_web_identity (configured_auth_type r) ≡ true
    → LetsSign (str "webIdentity") r
unfolding takes_web_identity configured_auth_type web_identity_auth_type auto_auth_type
names_web r h = ground (
  arith,
  eqb_iff r.spec.auth_type [],
  eqb_iff r.spec.auth_type (str "webIdentity"),
  eqb_iff r.spec.auth_type (str "auto"),
)

module _ {S : Type 0} (clients : ClientSet S) where
  -- The rotator lets pod identity sign, and the pod has its token file.
  abbrev pub AllowsPod : SecretRotator → Type 0
  AllowsPod r =
      LetsSign (str "podIdentity") r
      × (clients.getenv (str "AWS_CONTAINER_AUTHORIZATION_TOKEN_FILE") ≢ [])

  pub by_pod :
      (r : SecretRotator)
      → takes_pod_identity (configured_auth_type r) (detect_pod_identity clients) ≡ true
      → AllowsPod r
  unfolding detect_pod_identity
  by_pod r h =
      let (named, there) = names_pod r (detect_pod_identity clients) h in
      (
        named,
        λ e.
            ground
              (arith, eqb_iff (clients.getenv (str "AWS_CONTAINER_AUTHORIZATION_TOKEN_FILE")) []),
      )

  pub not_by_pod :
      (r : SecretRotator)
      → takes_pod_identity (configured_auth_type r) (detect_pod_identity clients) ≡ false
      → ¬ (AllowsPod r)
  unfolding detect_pod_identity
  not_by_pod r h (named, there) = no_pod r (detect_pod_identity clients) h (
    named,
    ground (arith, eqb_iff (clients.getenv (str "AWS_CONTAINER_AUTHORIZATION_TOKEN_FILE")) []),
  )
