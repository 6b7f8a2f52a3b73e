-- ===== src/Operations/Tests.antt =====
-- internal/operations at concrete inputs.
use jfrog_registry_operator.Operations.Validate.{
  set_address, select_namespaces, get_service_account, collect_secrets, check_each, check_account,
  check_secrets, trim_scheme, validate_object_spec,
}
use jfrog_registry_operator.Operations.Outdated.{
  delete_one, delete_names, delete_all, delete_outdated_generated_secrets,
}
use jfrog_registry_operator.Operations.Differences.{
  note, find_string_slice_difference, differences_loop, differs, dropped, find_secret_differences,
}
use jfrog_registry_operator.Operations.{
  secret_type_generic, secret_type_docker, detect_pod_identity, TokenDetails, no_details,
  aws_region,
}
use jfrog_registry_operator.Base.Exec.{◌>>◌, lift}
use jfrog_registry_operator.Base.Dict.{insert, Dict, lookup, get_or, keys}
use jfrog_registry_operator.Base.{
  ◌≢◌, ◌↔◌, Text, str, List, [], ◌∷◌, All, Distinct, elem, eqb, true, false, none, ok, ◌≡◌, refl,
  has_prefix,
}
use jfrog_registry_operator.Cluster.Memory.{memory, memory-IsLawful, find, remove}
use jfrog_registry_operator.Operations.Differences.Dropped.{differs-find_secret_differences}
use jfrog_registry_operator.Operations.Outdated.Effect.{
  delete_outdated_generated_secrets_keeps, delete_outdated_generated_secrets_gone,
}
use jfrog_registry_operator.Operations.Validate.Secrets.{IsNamed, names, check_secrets_iff}
use jfrog_registry_operator.Operations.Validate.Accepted.{
  IsComplete, validate_object_spec-IsComplete,
}
use jfrog_registry_operator.Samples.{
  docker_secret, generic_secret, rotator, spec, dev, prod, before, namespaces, clients,
}

-- What was written in `dev` this time, and what the status lists.
abbrev managed : Dict (List Text)
managed = (str "dev", str "login" ∷ []) ∷ []

abbrev listed_before : Dict (List Text)
listed_before = (str "dev", str "gone" ∷ str "login" ∷ []) ∷ (str "prod", str "pull" ∷ []) ∷ []

distinct : Distinct (keys listed_before)
unfolding keys elem str eqb
distinct = (refl, (refl, tt))

differs-find_secret_differences_example :
    differs (find_secret_differences managed listed_before).0 (str "dev") (str "gone")
    ≡ dropped managed listed_before (str "dev") (str "gone")
differs-find_secret_differences_example =
    differs-find_secret_differences managed listed_before (str "dev") (str "gone") distinct

not_dropped : dropped managed listed_before (str "prod") (str "pull") ≡ false
unfolding lookup str eqb elem
not_dropped = refl

gone_dropped : dropped managed listed_before (str "dev") (str "gone") ≡ true
unfolding lookup str eqb elem
gone_dropped = refl

deleted : (delete_outdated_generated_secrets memory managed listed_before before).0 ≡ ok tt
unfolding delete_outdated_generated_secrets memory find remove str eqb find_secret_differences
    differences_loop note lookup find_string_slice_difference elem insert delete_all ◌>>◌
    delete_names delete_one
deleted = refl

delete_outdated_generated_secrets_keeps_example :
    find
      (str "prod")
      (str "pull")
      (delete_outdated_generated_secrets memory managed listed_before before).1
    ≡ find (str "prod") (str "pull") before
unfolding memory
delete_outdated_generated_secrets_keeps_example =
    delete_outdated_generated_secrets_keeps memory memory-IsLawful (str "prod") (str "pull") managed
      listed_before before distinct not_dropped

delete_outdated_generated_secrets_gone_example :
    find
      (str "dev")
      (str "gone")
      (delete_outdated_generated_secrets memory managed listed_before before).1
    ≡ none
unfolding memory
delete_outdated_generated_secrets_gone_example =
    delete_outdated_generated_secrets_gone memory memory-IsLawful (str "dev") (str "gone") managed
      listed_before before distinct gone_dropped deleted

check_secrets_iff_example : (check_secrets (docker_secret ∷ generic_secret ∷ []) ≡ ok tt) ↔ (
    ((docker_secret ∷ generic_secret ∷ []) ≢ [])
    × Distinct (names (docker_secret ∷ generic_secret ∷ []))
    × All IsNamed (docker_secret ∷ generic_secret ∷ []))
check_secrets_iff_example = check_secrets_iff (docker_secret ∷ generic_secret ∷ [])

host_given : str "art.example" ≢ []
unfolding str
host_given = λ e. cc

no_https : has_prefix (str "art.example") (str "https://") ≡ false
unfolding str has_prefix
no_https = refl

no_http : has_prefix (str "art.example") (str "http://") ≡ false
unfolding str has_prefix
no_http = refl

abbrev validated : TokenDetails
validated = record no_details {
  generated_secrets = docker_secret ∷ generic_secret ∷ [];
  namespace_list = dev ∷ prod ∷ [];
  namespace_selector = str "env=dev";
  artifactory_url = str "art.example";
  iam_role_aws_region = aws_region;
  default_service_account_name = str "sa";
  default_service_account_namespace = str "operator";
}

validates : (validate_object_spec namespaces clients no_details rotator before).0 ≡ ok validated
unfolding validate_object_spec str eqb ◌>>◌ lift check_secrets collect_secrets check_each elem
    secret_type_docker secret_type_generic select_namespaces set_address get_service_account
    check_account get_or detect_pod_identity trim_scheme
validates = refl

validate_object_spec-IsComplete_example : IsComplete spec validated
validate_object_spec-IsComplete_example =
    validate_object_spec-IsComplete namespaces clients no_details validated rotator before validates
