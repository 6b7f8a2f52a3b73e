-- ===== src/Controller/Watch/Tests.antt =====
-- The event filters at concrete inputs.
use jfrog_registry_operator.Base.{◌⊎◌, Text, List, All, ltb, ◌&&◌, str, [], ◌∷◌, true, ok, ◌≡◌}
use jfrog_registry_operator.Samples.{dev, spec, rotator}
use jfrog_registry_operator.Controller.Watch.{
  Matches, selects, handling_namespace_events, on_update, on_update_keeps,
}
use jfrog_registry_operator.Base.Exec.{Exec, Keeps, ◌>>=◌, pure, handle}
use jfrog_registry_operator.Cluster.Objects.{RotatorStore}
use jfrog_registry_operator.Api.{SecretRotator}

-- A server that keeps what was written: here two rotators, of which one is for other namespaces.
abbrev Written : Type 0
Written = List SecretRotator

abbrev picky : SecretRotator
picky = record rotator {
  spec = record spec {
    namespace_selector = record {
      match_labels = (str "env", str "prod") ∷ [];
      match_expressions = [];
    };
  };
}

abbrev listing : Exec Written (List SecretRotator)
listing s = (ok (rotator ∷ picky ∷ []), s)

abbrev uid : Exec Written Text
uid s = (ok (str "abc"), s)

abbrev server : RotatorStore Written
server = record {
  get = λ namespace name s. (ok rotator, s);
  update = λ r s. (ok r, r ∷ s);
  update_status = λ r s. (ok r, s);
  patch_status = λ r r' s. (ok r, s);
}

-- Everything written so far matches the new labels or the old ones.
abbrev Affected : Written → Type 0
Affected = All (λ r. Matches dev.labels r ⊎ Matches [] r)

notified :
    (r : SecretRotator)
    → Matches dev.labels r ⊎ Matches [] r
    → Keeps Affected (handling_namespace_events server listing uid r)
unfolding handling_namespace_events handle pure ◌>>=◌
notified r affected = record { at = λ s h. (affected, h) }

on_update_keeps_example : Affected (on_update server listing uid [] dev.labels true []).1
on_update_keeps_example =
    on_update_keeps server listing uid Affected (record { at = λ s h. h }) [] dev.labels true []
      notified tt

abbrev Young : Written → Type 0
Young = All (λ r. (selects dev.labels r && ltb 3 20) ≡ true)

notified-Young :
    (r : SecretRotator)
    → (selects dev.labels r && ltb 3 20) ≡ true
    → Keeps Young (handling_namespace_events server listing uid r)
unfolding handling_namespace_events handle pure ◌>>=◌ selects
notified-Young r affected = record { at = λ s h. (affected, h) }
