-- ===== src/Resource/Tests.antt =====
-- internal/resource at concrete inputs.
use jfrog_registry_operator.Resource.Writing.Auth.{decode-docker_auth}
use jfrog_registry_operator.Resource.Writing.{
  docker_auth, write_new, write_missing, write, set_secret_metadata, configure, about_secret,
  create_or_update_secrets,
}
use jfrog_registry_operator.Base.{
  ◌++◌, wrap, ◌≢◌, ◌⊎◌, inl, str, [], ◌∷◌, IsBytes, elem, eqb, not, ◌&&◌, false, none, some,
  GoError, api, plain, ok, ◌≡◌, ◌∙◌, refl, arith, if◌then◌else◌,
}
use jfrog_registry_operator.Operations.{secret_type_docker}
use jfrog_registry_operator.Cluster.Secrets.{is_not_found}
use jfrog_registry_operator.Base.Exec.{pure, handle, Keeps}
use jfrog_registry_operator.Base.Dict.{Dict, lookup}
use jfrog_registry_operator.Cluster.Memory.{Memory, memory, memory-IsLawful, find}
use jfrog_registry_operator.Resource.Ownership.{is_secret_owned_by}
use jfrog_registry_operator.Resource.Removal.{namespace_names, delete_outdated_secrets}
use jfrog_registry_operator.Resource.Removal.Effect.{delete_outdated_secrets_foreign}
use jfrog_registry_operator.Resource.Docker.{docker_auths}
use jfrog_registry_operator.Resource.Docker.Encoding.{decode}
use jfrog_registry_operator.Resource.Docker.Auths.{lookup-docker_auths}
use jfrog_registry_operator.Resource.Writing.Frame.{
  create_or_update_secrets_other, create_or_update_secrets-fails,
}
use jfrog_registry_operator.Samples.{
  spec, rotator, prod, details, foreign, before, set_reference, set_reference-SetsController,
}

not_owned : is_secret_owned_by foreign (str "rotator") ≡ false
unfolding is_secret_owned_by
not_owned = refl

foreign_there : find (str "dev") (str "pull") before ≡ some foreign
unfolding find eqb str
foreign_there = refl

-- `dev` is no longer selected, so what is owned there goes.
delete_outdated_secrets_foreign_example :
    find
      (str "dev")
      (str "pull")
      (delete_outdated_secrets memory
        (record details { namespace_list = prod ∷ [] })
        (str "rotator")
        (str "old" ∷ str "dev" ∷ [])
        before).1
    ≡ some foreign
unfolding memory
delete_outdated_secrets_foreign_example =
    delete_outdated_secrets_foreign memory memory-IsLawful (str "dev") (str "pull")
      (record details { namespace_list = prod ∷ [] }) (str "rotator") (str "old" ∷ str "dev" ∷ [])
      before foreign foreign_there not_owned

dev_selected :
    (elem (str "dev") (str "old" ∷ str "dev" ∷ [])
      && not (elem (str "dev") (namespace_names details.namespace_list)))
    ≡ false
unfolding elem eqb str namespace_names
dev_selected = refl

username-IsBytes : IsBytes details.username
unfolding str
username-IsBytes = omega arith

token-IsBytes : IsBytes details.token
unfolding str
token-IsBytes = omega arith

decode-docker_auth_example :
    decode (docker_auth details) ≡ details.username ++ (str ":" ++ details.token)
decode-docker_auth_example = decode-docker_auth details username-IsBytes token-IsBytes

lookup-docker_auths_example : lookup (str "docker.example") (docker_auths (str "dXNlcg==") spec) ≡ (
    if elem (str "docker.example") (spec.artifactory_url ∷ spec.artifactory_subdomains)
    then some (str "dXNlcg==")
    else none)
lookup-docker_auths_example = lookup-docker_auths (str "docker.example") (str "dXNlcg==") spec

abbrev failed : Dict GoError
failed = (str "prod", plain (str "no")) ∷ (str "dev", api false (str "refused")) ∷ []

-- The secret that holds the certificates stays as it was.
abbrev HasForeign : Memory → Type 0
HasForeign s = find (str "dev") (str "pull") s ≡ some foreign

read-Keeps : Keeps HasForeign (memory.get (str "dev") (str "pull"))
unfolding memory find eqb str
read-Keeps = record {
  at = λ s h. memory-IsLawful.stored-get (str "dev") (str "pull") (str "dev") (str "pull") s ∙ h;
}

elsewhere : (str "dev" ≢ str "prod") ⊎ (str "pull" ≢ str "pull")
unfolding str
elsewhere = inl (λ e. cc)

create_or_update_secrets_other_example :
    find
      (str "dev")
      (str "pull")
      (create_or_update_secrets memory set_reference details rotator
        (str "prod")
        (str "pull")
        (str "docker")
        before).1
    ≡ some foreign
unfolding memory
create_or_update_secrets_other_example =
    create_or_update_secrets_other memory memory-IsLawful (str "dev") (str "pull") (some foreign)
      set_reference set_reference-SetsController details rotator (str "prod") (str "pull")
      (str "docker") elsewhere before foreign_there

-- The cluster refuses every write to this namespace.
abbrev refused : GoError
refused =
    wrap (about_secret (str "create") (str "docker") (str "pull")) (api false (str "write refused"))

fails :
    (create_or_update_secrets memory set_reference details rotator
      (str "broken")
      (str "pull")
      (str "docker")
      before).0
    ≡ ok (some refused, false)
unfolding create_or_update_secrets handle memory eqb str write_missing is_not_found write_new
    set_secret_metadata set_reference write configure secret_type_docker pure
fails = refl

create_or_update_secrets-fails_example :
    find
      (str "dev")
      (str "pull")
      (create_or_update_secrets memory set_reference details rotator
        (str "broken")
        (str "pull")
        (str "docker")
        before).1
    ≡ find (str "dev") (str "pull") before
unfolding memory
create_or_update_secrets-fails_example =
    create_or_update_secrets-fails memory memory-IsLawful (str "dev") (str "pull") set_reference
      details rotator (str "broken") (str "pull") (str "docker") before refused false fails
