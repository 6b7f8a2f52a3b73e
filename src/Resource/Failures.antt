-- ===== src/Resource/Failures.antt =====
-- internal/resource/namespace.go: the failures as the status lists them.
use jfrog_registry_operator.Base.{
  text_le, text_le_total, text_le_trans, sort, sort-perm, sort-IsSorted, IsSorted, List, [], ◌∷◌,
  Bool, GoError, error_text,
}
use mathlib.Core.List.{Perm}
use jfrog_registry_operator.Base.Dict.{Dict}
use jfrog_registry_operator.Api.{SecretNamespaceFailure}

-- One failure for each entry, in the order in which the map gives them.
unfoldable pub listed_failures : Dict GoError → List SecretNamespaceFailure
listed_failures [] = []
listed_failures ((ns, e) ∷ rest) =
    record { namespace = ns; reason = error_text e } ∷ listed_failures rest

abbrev pub failure_le : SecretNamespaceFailure → SecretNamespaceFailure → Bool
failure_le f g = text_le f.namespace g.namespace

unfoldable pub to_namespace_failures : Dict GoError → List SecretNamespaceFailure
to_namespace_failures failed = sort failure_le (listed_failures failed)

-- The list has one failure for each namespace that failed, with the text of its error, and is sorted
-- by namespace.
pub to_namespace_failures_lem :
    (failed : Dict GoError)
    → IsSorted failure_le (to_namespace_failures failed)
      × Perm (to_namespace_failures failed) (listed_failures failed)
unfolding to_namespace_failures
to_namespace_failures_lem failed = (
  sort-IsSorted failure_le (λ f g. text_le_total f.namespace g.namespace)
      (λ f g h. text_le_trans f.namespace g.namespace h.namespace) (listed_failures failed),
  sort-perm failure_le (listed_failures failed),
)
