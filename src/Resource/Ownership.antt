-- ===== src/Resource/Ownership.antt =====
-- internal/resource/secret.go: whose secret a secret is.
use jfrog_registry_operator.Base.{Text, eqb, Option, none, some, Bool, false, ◌&&◌}
use jfrog_registry_operator.Api.{group_version, secret_kind}
use jfrog_registry_operator.Cluster.Secrets.{OwnerReference, Secret}

owns : Option OwnerReference → Text → Bool
owns none secret_operator_name = false
owns (some owner) secret_operator_name =
    eqb owner.api_version group_version
    && (eqb owner.kind secret_kind && eqb owner.name secret_operator_name)

-- The rotator of that name controls the secret.
unfoldable pub is_secret_owned_by : Secret → Text → Bool
unfolding owns
is_secret_owned_by secret secret_operator_name = owns secret.controller secret_operator_name
