-- ===== src/Cluster/Objects.antt =====
-- Namespaces, pods, service accounts and the environment of the operator's own pod.
use jfrog_registry_operator.Base.{Bool, Text, List, Done, Outcome}
use jfrog_registry_operator.Api.{SecretRotator, LabelSelector}
use jfrog_registry_operator.Base.Dict.{Dict}
use jfrog_registry_operator.Base.Exec.{Exec}

pub record Namespace : Type 0 where
  pub name : Text
  pub labels : Dict Text

pub record ServiceAccount : Type 0 where
  pub annotations : Dict Text

-- A `labels.Selector` is kept as its printed form. `selector_of` is `LabelSelectorAsSelector`, `list`
-- is `List` at namespaces.
pub record NamespaceStore (S : Type 0) : Type 0 where
  pub selector_of : LabelSelector → Outcome Text
  pub list : Text → Exec S (List Namespace)

-- `getenv` is `os.Getenv`. The others are `GetK8sClient` and the client set that it gives: the service
-- account's name in a pod's spec, and a service account, each by namespace and name.
pub record ClientSet (S : Type 0) : Type 0 where
  pub getenv : Text → Text
  pub get_k8s_client : Exec S Done
  pub pod_service_account_name : Text → Text → Exec S Text
  pub service_account : Text → Text → Exec S ServiceAccount
  pub create_token : Text → Text → Text → Exec S Text

-- `client.Client` at `SecretRotator`: `Get` by namespace and name, `Update`, `Status().Update`, and
-- `Status().Patch` of what has changed since. A write gives the object back as the server has it.
pub record RotatorStore (S : Type 0) : Type 0 where
  pub get : Text → Text → Exec S SecretRotator
  pub update : SecretRotator → Exec S SecretRotator
  pub update_status : SecretRotator → Exec S SecretRotator
  pub patch_status : SecretRotator → SecretRotator → Exec S SecretRotator

-- The files of the container: `CreateDir`, and `CreateFile` with its content.
pub record Files (S : Type 0) : Type 0 where
  pub create_dir : Text → Exec S Done
  pub create_file : Text → Text → Exec S Done

-- The finalizers of an object: `controllerutil.ContainsFinalizer`, `AddFinalizer` and
-- `RemoveFinalizer`, of which the last two also say whether they changed the object.
pub record Finalizers : Type 0 where
  pub contains_finalizer : SecretRotator → Text → Bool
  pub add_finalizer : SecretRotator → Text → SecretRotator × Bool
  pub remove_finalizer : SecretRotator → Text → SecretRotator × Bool
