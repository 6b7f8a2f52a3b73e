-- ===== src/Cluster/Secrets.antt =====
-- Secrets: `client.Client` at `corev1.Secret`.
use jfrog_registry_operator.Base.{
  Text, Option, none, some, Bool, true, false, Done, GoError, api, plain, wrap, reconcile,
  reconcile_by, ok, err, ◌≡◌, ◌⊎◌, ◌≢◌,
}
use jfrog_registry_operator.Base.Dict.{Dict}
use jfrog_registry_operator.Base.Exec.{Exec}

-- What `metav1.GetControllerOf` gives of the owner that controls an object.
pub record OwnerReference : Type 0 where
  pub api_version : Text
  pub kind : Text
  pub name : Text

pub record Secret : Type 0 where
  pub name : Text
  pub namespace : Text
  pub labels : Dict Text
  pub annotations : Dict Text
  pub controller : Option OwnerReference
  pub content : Dict Text
  pub secret_type : Text

-- `apierrors.IsNotFound`, which looks through `%w`.
unfoldable pub is_not_found : GoError → Bool
is_not_found (api not_found message) = not_found
is_not_found (plain message) = false
is_not_found (wrap message cause) = is_not_found cause
is_not_found (reconcile retry message) = false
is_not_found (reconcile_by retry message cause) = false

-- `Get`, `Update`, `Create` and `Delete`; a secret is named by its namespace and its name. `stored`
-- is what the API server holds, which the operator sees only through the four calls.
pub record SecretStore (S : Type 0) : Type 0 where
  pub stored : Text → Text → S → Option Secret
  pub get : Text → Text → Exec S Secret
  pub update : Secret → Exec S Done
  pub create : Secret → Exec S Done
  pub delete : Text → Text → Exec S Done

-- The API server holds this, or nothing, under a namespace and a name.
abbrev pub Holds : {S : Type 0} → SecretStore S → Text → Text → Option Secret → S → Type 0
Holds store ns name held s = store.stored ns name s ≡ held

module _ {S : Type 0} (store : SecretStore S) where
  open store use {stored, get, update, create, delete}

  -- The API server answers with what it holds, a failed write changes nothing, and no call touches
  -- another secret.
  pub record IsLawful : Type 0 where
    pub stored-get : (ns name j k : Text) (s : S) → stored j k (get ns name s).1 ≡ stored j k s
    pub get-ok :
        (ns name : Text) (s : S) (x : Secret) → (get ns name s).0 ≡ ok x → stored ns name s ≡ some x
    pub get-named :
        (ns name : Text) (s : S) (x : Secret)
        → (get ns name s).0 ≡ ok x
        → (x.namespace ≡ ns) × (x.name ≡ name)
    pub get-missing :
        (ns name : Text) (s : S) (e : GoError)
        → (get ns name s).0 ≡ err e
        → is_not_found e ≡ true
        → stored ns name s ≡ none
    pub stored-update_ok :
        (x : Secret) (s : S)
        → (update x s).0 ≡ ok tt
        → stored x.namespace x.name (update x s).1 ≡ some x
    pub stored-update_other :
        (x : Secret) (j k : Text) (s : S)
        → (j ≢ x.namespace) ⊎ (k ≢ x.name)
        → stored j k (update x s).1 ≡ stored j k s
    pub stored-create_ok :
        (x : Secret) (s : S)
        → (create x s).0 ≡ ok tt
        → stored x.namespace x.name (create x s).1 ≡ some x
    pub stored-create_other :
        (x : Secret) (j k : Text) (s : S)
        → (j ≢ x.namespace) ⊎ (k ≢ x.name)
        → stored j k (create x s).1 ≡ stored j k s
    pub stored-delete_ok :
        (ns name : Text) (s : S)
        → (delete ns name s).0 ≡ ok tt
        → stored ns name (delete ns name s).1 ≡ none
    pub stored-delete_other :
        (ns name j k : Text) (s : S)
        → (j ≢ ns) ⊎ (k ≢ name)
        → stored j k (delete ns name s).1 ≡ stored j k s
    pub delete-missing :
        (ns name : Text) (s : S) (e : GoError)
        → (delete ns name s).0 ≡ err e
        → is_not_found e ≡ true
        → stored ns name s ≡ none
    pub stored-delete_fails :
        (ns name j k : Text) (s : S)
        → (delete ns name s).0 ≢ ok tt
        → stored j k (delete ns name s).1 ≡ stored j k s
    pub stored-update_fails :
        (x : Secret) (j k : Text) (s : S)
        → (update x s).0 ≢ ok tt
        → stored j k (update x s).1 ≡ stored j k s
    pub stored-create_fails :
        (x : Secret) (j k : Text) (s : S)
        → (create x s).0 ≢ ok tt
        → stored j k (create x s).1 ≡ stored j k s
