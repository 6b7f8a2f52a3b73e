-- ===== src/Resource/Writing.antt =====
-- internal/resource/secret.go, `CreateOrUpdateSecrets`: one secret of one namespace.
-- `controllerutil.SetControllerReference` is a parameter, which reads the scheme of the manager.
pub mod Effect
pub mod Frame
pub mod Auth
use jfrog_registry_operator.Base.{
  Text, str, eqb, List, [], ◌∷◌, ◌++◌, contains, Bool, true, false, Option, none, some, Done,
  GoError, plain, wrap, error_text, Outcome, ok, err, panic, ◌≡◌, if◌then◌else◌,
}
use jfrog_registry_operator.Base.Dict.{Dict}
use jfrog_registry_operator.Base.Exec.{Exec, pure, crash, handle}
use jfrog_registry_operator.Api.{SecretRotator}
use jfrog_registry_operator.Cluster.Secrets.{SecretStore, Secret, is_not_found}
use jfrog_registry_operator.Operations.{TokenDetails, secret_type_docker, secret_type_generic}
use jfrog_registry_operator.Resource.Docker.{base64, generate_docker_config_json}

-- The user and the token, as the docker configuration has them.
unfoldable pub docker_auth : TokenDetails → Text
docker_auth details = base64 (details.username ++ (str ":" ++ details.token))

-- The content and the type, by the type that the specification asks for.
unfoldable pub configure : TokenDetails → SecretRotator → Text → Secret → Secret
configure details rotator secret_type x =
    if eqb secret_type secret_type_docker
    then record x {
      content =
          (str ".dockerconfigjson", generate_docker_config_json (docker_auth details) rotator.spec)
          ∷ [];
      secret_type = str "kubernetes.io/dockerconfigjson";
    }
    else if eqb secret_type secret_type_generic
    then record x {
      content = (str "user", details.username) ∷ (str "token", details.token) ∷ [];
      secret_type = str "Opaque";
    }
    else x

-- The secret object before anything is read.
unfoldable pub empty_secret : Text → Text → Secret
empty_secret namespace secret_name = record {
  name = secret_name;
  namespace = namespace;
  labels = [];
  annotations = [];
  controller = none;
  content = [];
  secret_type = [];
}

-- `failed to <verb> <type> secret <name>`
unfoldable pub about_secret : Text → Text → Text → Text
about_secret verb secret_type secret_name =
    str "failed to " ++ (verb ++ (str " " ++ (secret_type ++ (str " secret " ++ secret_name))))

-- The error, if any, and whether the owner is in another namespace.
abbrev pub WriteResult : Type 0
WriteResult = Option GoError × Bool

module _ {S : Type 0} (store : SecretStore S) where
  -- Update, or else create.
  unfoldable pub write : Text → Text → Secret → Exec S WriteResult
  write secret_name secret_type x =
      handle (store.update x) (λ _. pure (none, false))
        λ e.
          if is_not_found e
          then handle (store.create x) (λ _. pure (none, false))
              (λ e'.
                pure (some (wrap (about_secret (str "create") secret_type secret_name) e'), false))
          else pure (some (wrap (about_secret (str "update") secret_type secret_name) e), false)

module _ (set_controller_reference : SecretRotator → Secret → Outcome Secret) where
  unfoldable pub set_secret_metadata : SecretRotator → Text → Secret → Outcome Secret
  set_secret_metadata rotator namespace x = set_controller_reference rotator (record x {
    namespace = namespace;
    labels = rotator.spec.secret_metadata.labels;
    annotations = rotator.spec.secret_metadata.annotations;
  })

module _ {S : Type 0} (store : SecretStore S)
    (set_controller_reference : SecretRotator → Secret → Outcome Secret) where
  -- The new secret, with its owner, or what prevented that.
  unfoldable pub write_new :
      TokenDetails → SecretRotator → Text → Text → Outcome Secret → Exec S WriteResult
  write_new details rotator secret_name secret_type (ok x) =
      write store secret_name secret_type (configure details rotator secret_type x)
  write_new details rotator secret_name secret_type (err e) =
      if contains (error_text e) (str "cross-namespace owner references are disallowed")
      then pure (
        some (
            plain (
              about_secret (str "set cross-namespace owner references for") secret_type
                secret_name)),
        true,
      )
      else pure (
        some (wrap (about_secret (str "set controller reference for") secret_type secret_name) e),
        false,
      )
  write_new details rotator secret_name secret_type panic = crash

  -- After a read that failed.
  unfoldable pub write_missing :
      TokenDetails → SecretRotator → Text → Text → Text → GoError → Exec S WriteResult
  write_missing details rotator namespace secret_name secret_type e =
      if is_not_found e
      then write_new details rotator secret_name secret_type (
          set_secret_metadata set_controller_reference rotator namespace
            (empty_secret namespace secret_name))
      else pure (some (wrap (about_secret (str "get") secret_type secret_name) e), false)

  unfoldable pub create_or_update_secrets :
      TokenDetails → SecretRotator → Text → Text → Text → Exec S WriteResult
  create_or_update_secrets details rotator namespace secret_name secret_type =
      handle (store.get namespace secret_name)
        (λ x. write store secret_name secret_type (configure details rotator secret_type x))
        (write_missing details rotator namespace secret_name secret_type)
