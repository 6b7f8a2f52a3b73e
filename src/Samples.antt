-- ===== src/Samples.antt =====
-- Concrete resources and services for the tests of internal/operations, internal/resource and
-- controllers, over a cluster that holds its secrets in a map.
use jfrog_registry_operator.Base.{
  Text, str, eqb_refl, List, [], ◌∷◌, true, false, Option, none, some, Outcome, ok, ◌≡◌, refl,
  arith, elem,
}
use jfrog_registry_operator.Api.{
  GeneratedSecret, SecretRotatorSpec, SecretRotator, Condition, group_version, secret_kind,
}
use jfrog_registry_operator.Cluster.Secrets.{Secret, OwnerReference}
use jfrog_registry_operator.Cluster.Memory.{Memory}
use jfrog_registry_operator.Cluster.Objects.{
  Namespace, NamespaceStore, ClientSet, RotatorStore, Files, Finalizers,
}
use jfrog_registry_operator.Operations.{TokenDetails, no_details}
use jfrog_registry_operator.Resource.Ownership.{is_secret_owned_by}
use jfrog_registry_operator.Resource.Writing.Effect.{SetsController}
use jfrog_registry_operator.Controller.Managing.{TokenHandler}

abbrev pub docker_secret : GeneratedSecret
docker_secret = record { secret_name = str "pull"; secret_type = str "docker"; scope = [] }

abbrev pub generic_secret : GeneratedSecret
generic_secret = record { secret_name = str "login"; secret_type = str "generic"; scope = [] }

abbrev pub spec : SecretRotatorSpec
spec = record {
  secret_metadata = record { annotations = []; labels = (str "team", str "dev") ∷ [] };
  secret_name = [];
  generated_secrets = docker_secret ∷ generic_secret ∷ [];
  namespace_selector = record { match_labels = []; match_expressions = [] };
  artifactory_url = str "https://art.example";
  artifactory_subdomains = str "docker.example" ∷ [];
  service_account = record { name = []; namespace = [] };
  refresh_interval = none;
  security = record {
    enabled = false;
    certificate_secret_name = [];
    secret_namespace = [];
    insecure_skip_verify = false;
  };
  auth_type = [];
  aws_region = [];
}

abbrev pub rotator : SecretRotator
rotator = record {
  name = str "rotator";
  namespace = str "operator";
  annotations = [];
  finalizers = [];
  is_deleted = false;
  spec = spec;
  status = record {
    conditions = [];
    failed_namespaces = [];
    provisioned_namespaces = str "old" ∷ str "dev" ∷ [];
    secret_managed_by_namespaces = (str "dev", str "gone" ∷ []) ∷ [];
    auth_type = [];
  };
}

abbrev pub dev : Namespace
dev = record { name = str "dev"; labels = (str "env", str "dev") ∷ [] }

abbrev pub prod : Namespace
prod = record { name = str "prod"; labels = [] }

abbrev pub details : TokenDetails
details = record no_details {
  generated_secrets = docker_secret ∷ generic_secret ∷ [];
  namespace_list = dev ∷ prod ∷ [];
  username = str "user";
  token = str "token";
  ttl_in_seconds = 3600;
}

abbrev pub owned_by : Text → OwnerReference
owned_by name = record { api_version = group_version; kind = secret_kind; name = name }

-- A secret of a name in a namespace, controlled by the rotator of a name, if any.
abbrev pub secret : Text → Text → Option OwnerReference → Secret
secret namespace name controller = record {
  name = name;
  namespace = namespace;
  labels = [];
  annotations = [];
  controller = controller;
  content = [];
  secret_type = [];
}

-- In `dev`, `pull` belongs to nobody and `gone` to the rotator, and so does `pull` in `old`.
abbrev pub foreign : Secret
foreign = secret (str "dev") (str "pull") none

abbrev pub before : Memory
before =
    foreign
    ∷ secret (str "dev") (str "gone") (some (owned_by (str "rotator")))
    ∷ secret (str "old") (str "pull") (some (owned_by (str "rotator")))
    ∷ []

unfoldable pub set_reference : SecretRotator → Secret → Outcome Secret
set_reference r x = ok (record x { controller = some (owned_by r.name) })

pub set_reference-SetsController : SetsController set_reference
unfolding set_reference is_secret_owned_by
set_reference-SetsController = record {
  set-owned =
      λ r x y h. ground (arith, eqb_refl r.name, eqb_refl group_version, eqb_refl secret_kind);
  set-same =
      λ r x y h. let e : record x { controller = some (owned_by r.name) } ≡ y = cc in rw (← e) refl;
}

-- A handler that always gets the same token.
unfoldable pub same_token : TokenHandler Memory
same_token r d s =
    (ok (r.spec.service_account, record d { token = str "token"; ttl_in_seconds = 3600 }), s)

abbrev pub namespaces : NamespaceStore Memory
namespaces = record {
  selector_of = λ l. ok (str "env=dev");
  list = λ selector s. (ok (dev ∷ prod ∷ []), s);
}

abbrev pub clients : ClientSet Memory
clients = record {
  getenv = λ name. str "operator";
  get_k8s_client = λ s. (ok tt, s);
  pod_service_account_name = λ namespace name s. (ok (str "sa"), s);
  service_account = λ namespace name s. (ok (record { annotations = [] }), s);
  create_token = λ namespace name audience s. (ok (str "jwt"), s);
}

-- The server gives back what it is given, and has the rotator.
abbrev pub rotators : RotatorStore Memory
rotators = record {
  get = λ namespace name s. (ok rotator, s);
  update = λ r s. (ok r, s);
  update_status = λ r s. (ok r, s);
  patch_status = λ r r' s. (ok r, s);
}

abbrev pub files : Files Memory
files = record { create_dir = λ dir s. (ok tt, s); create_file = λ path content s. (ok tt, s) }

abbrev pub finalizers : Finalizers
finalizers = record {
  contains_finalizer = λ r f. elem f r.finalizers;
  add_finalizer = λ r f. (record r { finalizers = f ∷ r.finalizers }, true);
  remove_finalizer = λ r f. (record r { finalizers = [] }, true);
}

abbrev pub set_condition : List Condition → Condition → List Condition
set_condition conditions c = c ∷ conditions
