-- ===== src/Operations/Validate/Accepted.antt =====
-- What holds of the details after a validation that succeeded.
use jfrog_registry_operator.Base.Exec.{
  Gives-pure, Gives-raise, Gives-lift, Gives-any, Gives-then, Gives-if, Gives-handle, Gives-bind,
  Gives,
}
use jfrog_registry_operator.Base.{
  Text, eqb, eqb_iff, [], ok, All, Distinct, ◌≡◌, refl, ap, sym, ◌∙◌, ◌≢◌, arith, is_empty,
  if◌then◌else◌, str, List, ◌++◌, ◌∷◌, ◌⊎◌, inl, inr, Bool-cases,
}
use mathlib.Core.Path.{subst}
use mathlib.Core.List.{append-nil}
use jfrog_registry_operator.Operations.{secret_type_docker, TokenDetails, aws_region}
use jfrog_registry_operator.Api.{GeneratedSecret, SecretRotator, SecretRotatorSpec}
use jfrog_registry_operator.Operations.Validate.Address.{IsHost, trim_scheme-IsHost}
use jfrog_registry_operator.Cluster.Objects.{NamespaceStore, ClientSet}
use jfrog_registry_operator.Operations.Validate.{
  collect_secrets, check_secrets, trim_scheme, get_service_account, select_namespaces, set_address,
  validate_object_spec,
}
use jfrog_registry_operator.Operations.Validate.Secrets.{names, IsNamed, check_secrets_iff}

-- The secrets of the specification: the listed ones, and behind them a docker secret of the single
-- name, where there is one.
abbrev pub IsAsked : SecretRotatorSpec → List GeneratedSecret → Type 0
IsAsked spec secrets =
    ((spec.secret_name ≡ []) × (secrets ≡ spec.generated_secrets))
    ⊎ ((spec.secret_name ≢ [])
        × (secrets
            ≡ spec.generated_secrets
              ++ record { secret_name = spec.secret_name; secret_type = str "docker"; scope = [] }
                ∷ []))

collect_secrets-IsAsked : (spec : SecretRotatorSpec) → IsAsked spec (collect_secrets spec)
unfolding collect_secrets secret_type_docker
collect_secrets-IsAsked spec = elim (Bool-cases (eqb spec.secret_name [])) [
  | inl none_given ↦
      rw none_given
        (inl ((eqb_iff spec.secret_name []).0 none_given, append-nil spec.generated_secrets))
  | inr given ↦ rw given (inr ((λ e. ground (arith, eqb_iff spec.secret_name [])), refl))
]

-- The region of the specification, by default us-west-2.
abbrev pub IsRegion : Text → Text → Type 0
IsRegion given region =
    ((given ≡ []) × (region ≡ str "us-west-2")) ⊎ ((given ≢ []) × (region ≡ given))

given_or_default : (given : Text) → IsRegion given (if eqb given [] then aws_region else given)
unfolding aws_region
given_or_default given = elim (Bool-cases (eqb given [])) [
  | inl missing ↦ rw missing (inl ((eqb_iff given []).0 missing, refl))
  | inr there ↦ rw there (inr ((λ e. ground (arith, eqb_iff given [])), refl))
]

-- What the rest of a reconciliation may rely on.
pub record IsComplete (spec : SecretRotatorSpec) (details : TokenDetails) : Type 0 where
  pub secrets : IsAsked spec details.generated_secrets
  pub distinct : Distinct (names details.generated_secrets)
  pub named : All IsNamed details.generated_secrets
  pub some_secret : details.generated_secrets ≢ []
  pub some_namespace : details.namespace_list ≢ []
  pub url : (spec.artifactory_url ≢ []) × IsHost spec.artifactory_url details.artifactory_url
  pub region : IsRegion spec.aws_region details.iam_role_aws_region

module _ {S : Type 0} (namespaces : NamespaceStore S) (clients : ClientSet S) where
  select_namespaces-Gives :
      (spec : SecretRotatorSpec) (details : TokenDetails)
      → Gives
          (λ d.
            (d.namespace_list ≢ [])
            × (d.generated_secrets ≡ details.generated_secrets)
            × (d.token ≡ details.token))
          (select_namespaces namespaces clients spec details)
  unfolding select_namespaces
  select_namespaces-Gives spec details =
      Gives-handle _ _ _ (Gives-any _)
        (λ selector _.
          Gives-handle _ _ _ (Gives-any _)
            (λ items _.
              Gives-if (is_empty items) _ _ (λ empty. Gives-raise _)
                (λ more. Gives-pure _ ((λ e. ground arith), refl, refl)))
            (λ e. Gives-raise _))
        (λ e. Gives-raise _)

  set_address-Gives :
      (spec : SecretRotatorSpec) (details : TokenDetails)
      → Gives
          (λ d.
            (spec.artifactory_url ≢ [])
            × (d ≡ record details {
              artifactory_url = trim_scheme spec.artifactory_url;
              iam_role_aws_region = if eqb spec.aws_region [] then aws_region else spec.aws_region;
            }))
          (set_address namespaces clients spec details)
  unfolding set_address
  set_address-Gives spec details =
      Gives-if (eqb spec.artifactory_url []) _ _ (λ missing. Gives-raise _)
        (λ given. Gives-pure _ ((λ e. ground (arith, eqb_iff spec.artifactory_url [])), refl))

  get_service_account-Gives :
      (details : TokenDetails)
      → Gives
          (λ found.
            (name namespace : Text) × (found.1 ≡ record details {
              default_service_account_name = name;
              default_service_account_namespace = namespace;
            }))
          (get_service_account namespaces clients details)
  unfolding get_service_account
  get_service_account-Gives details = Gives-then _ _ (Gives-any _) (λ _ _.
      Gives-bind _ _ (Gives-any _)
        (λ name _. Gives-bind _ _ (Gives-any _) (λ account _. Gives-pure _ (name, _, refl))))

  assemble :
      (spec : SecretRotatorSpec) (token : Text) (selected addressed d : TokenDetails)
      → check_secrets (collect_secrets spec) ≡ ok tt
      → (selected.namespace_list ≢ [])
        × (selected.generated_secrets ≡ collect_secrets spec)
        × (selected.token ≡ token)
      → (spec.artifactory_url ≢ [])
        × (addressed ≡ record selected {
          artifactory_url = trim_scheme spec.artifactory_url;
          iam_role_aws_region = if eqb spec.aws_region [] then aws_region else spec.aws_region;
        })
      → (name namespace : Text) × (d ≡ record addressed {
        default_service_account_name = name;
        default_service_account_namespace = namespace;
      })
      → IsComplete spec d × (d.token ≡ token)
  assemble spec token selected addressed d passed (has_namespace, gathered, same) (given, placed)
        (name, namespace, known) =
      let (some_secret, distinct, named) = (check_secrets_iff (collect_secrets spec)).0 passed in
      let secrets : d.generated_secrets ≡ collect_secrets spec =
        ap (λ x. x.generated_secrets) known ∙ (ap (λ x. x.generated_secrets) placed ∙ gathered) in
      let items : d.namespace_list ≡ selected.namespace_list =
        ap (λ x. x.namespace_list) known ∙ ap (λ x. x.namespace_list) placed in
      let host : d.artifactory_url ≡ trim_scheme spec.artifactory_url =
        ap (λ x. x.artifactory_url) known ∙ ap (λ x. x.artifactory_url) placed in
      let place : d.iam_role_aws_region
          ≡ (if eqb spec.aws_region [] then aws_region else spec.aws_region) =
        ap (λ x. x.iam_role_aws_region) known ∙ ap (λ x. x.iam_role_aws_region) placed in
      (
        record {
          secrets = subst (IsAsked spec) (sym secrets) (collect_secrets-IsAsked spec);
          distinct = subst (λ l. Distinct (names l)) (sym secrets) distinct;
          named = subst (All IsNamed) (sym secrets) named;
          some_secret = λ e. some_secret (sym secrets ∙ e);
          some_namespace = λ e. has_namespace (sym items ∙ e);
          url = (
            given,
            subst (IsHost spec.artifactory_url) (sym host)
                (trim_scheme-IsHost spec.artifactory_url),
          );
          region = subst (IsRegion spec.aws_region) (sym place) (given_or_default spec.aws_region);
        },
        ap (λ x. x.token) known ∙ (ap (λ x. x.token) placed ∙ same),
      )

  -- The token stays as it was.
  pub validate_object_spec-Gives :
      (details : TokenDetails) (rotator : SecretRotator)
      → Gives
          (λ d. IsComplete rotator.spec d × (d.token ≡ details.token))
          (validate_object_spec namespaces clients details rotator)
  unfolding validate_object_spec
  validate_object_spec-Gives details rotator =
      Gives-then _ _ (Gives-lift _ (λ _ passed. passed)) (λ _ passed.
        Gives-bind _ _ (select_namespaces-Gives rotator.spec _) (λ selected chosen.
          Gives-bind _ _ (set_address-Gives rotator.spec selected) (λ addressed placed.
            Gives-bind _ _
              (Gives-handle _ _ _ (get_service_account-Gives addressed) (λ found h. Gives-pure _ h)
                (λ e. Gives-raise _))
              (λ found known. Gives-then _ _ (Gives-any _) (λ _ _. Gives-pure _ (
                assemble rotator.spec details.token selected addressed found.1 passed chosen placed
                  known))))))

  -- After a validation that succeeded the details hold the secrets of the resource: the listed ones
  -- and behind them a docker secret of its single secret name, where it has one. There is at least one,
  -- and all have names of their own and one of the two types. There is at least one namespace. The
  -- resource has a URL, and the details have what stands in it behind `https://` or `http://`, or all of
  -- it where nothing or neither stands there; and they have its region, by default us-west-2.
  pub validate_object_spec-IsComplete :
      (details d : TokenDetails) (rotator : SecretRotator) (s : S)
      → (validate_object_spec namespaces clients details rotator s).0 ≡ ok d
      → IsComplete rotator.spec d
  validate_object_spec-IsComplete details d rotator s h =
      ((validate_object_spec-Gives details rotator).at s d h).0
