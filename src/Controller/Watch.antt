-- ===== src/Controller/Watch.antt =====
-- controllers/secretrotator_controller.go, `WatchNsChanges`, with `ListSecretRotatorObjects` and
-- `HandlingNamespaceEvents` of internal/operations: events of namespaces. Those of other objects pass.
-- `List` at `SecretRotator` and the random string are parameters.
mod Tests
use jfrog_registry_operator.Base.{
  ℕ, Text, str, List, [], ◌∷◌, Bool, true, false, not, ◌&&◌, ◌||◌, ltb, ◌≡◌, if◌then◌else◌, some,
  inl, inr, ◌⊎◌, Bool-cases,
}
use jfrog_registry_operator.Base.Dict.{Dict, insert, lookup, get_or}
use jfrog_registry_operator.Operations.Differences.Labels.{is_exist_iff}
use jfrog_registry_operator.Base.Exec.{
  Exec, pure, handle, ◌>>=◌, Keeps, Keeps-pure, Keeps-if, Keeps-if_on, Keeps-bind, Keeps-handle,
}
use jfrog_registry_operator.Api.{SecretRotator}
use jfrog_registry_operator.Cluster.Objects.{RotatorStore}
use jfrog_registry_operator.Operations.Differences.{is_exist}

-- `IsExist` on the match labels of the rotator; its match expressions are not asked.
unfoldable pub selects : Dict Text → SecretRotator → Bool
selects labels r = is_exist labels r.spec.namespace_selector.match_labels

-- Every match label of the rotator has its value among these labels, where a missing one is empty.
abbrev pub Matches : Dict Text → SecretRotator → Type 0
Matches labels r =
    (k v : Text) → lookup k r.spec.namespace_selector.match_labels ≡ some v → get_or [] k labels ≡ v

selected :
    (new_labels old_labels : Dict Text) (r : SecretRotator)
    → (selects new_labels r || selects old_labels r) ≡ true
    → Matches new_labels r ⊎ Matches old_labels r
unfolding selects
selected new_labels old_labels r h = elim (Bool-cases (selects new_labels r)) [
  | inl now ↦ inl ((is_exist_iff new_labels r.spec.namespace_selector.match_labels).0 now)
  | inr not_now ↦
      inr ((is_exist_iff old_labels r.spec.namespace_selector.match_labels).0 (rw not_now at h))
]

module _ {S : Type 0} (rotators : RotatorStore S) (list : Exec S (List SecretRotator))
    (get_random_string : Exec S Text) where
  -- No rotators where they cannot be listed.
  unfoldable pub list_secret_rotator_objects : Exec S (List SecretRotator)
  list_secret_rotator_objects = handle list pure (λ _. pure [])

  -- A new annotation makes the controller see the rotator again.
  unfoldable pub handling_namespace_events : SecretRotator → Exec S Bool
  handling_namespace_events r = get_random_string >>= λ uid.
      handle (rotators.update (record r { annotations = insert (str "uid") uid r.annotations }))
        (λ _. pure true) (λ _. pure false)

  -- The loop, up to the first rotator that cannot be updated.
  unfoldable pub notify : (SecretRotator → Bool) → List SecretRotator → Exec S Bool
  notify affected [] = pure true
  notify affected (r ∷ rest) =
      let later = notify affected rest in
      if affected r
      then (handling_namespace_events r >>= λ flag. if not flag then pure false else later)
      else later

  -- `CreateFunc`; `age` is the number of whole seconds since the namespace was created.
  unfoldable pub on_create : Dict Text → ℕ → Exec S Bool
  on_create labels age =
      list_secret_rotator_objects >>= notify (λ r. selects labels r && ltb age 20)

  -- `UpdateFunc`; `changed` says that the labels are not deeply equal.
  unfoldable pub on_update : Dict Text → Dict Text → Bool → Exec S Bool
  on_update old_labels new_labels changed =
      if changed
      then (list_secret_rotator_objects
          >>= notify (λ r. selects new_labels r || selects old_labels r))
      else pure true

  module _ (P : S → Type 0) (listing : Keeps P list) where
    notify-Keeps :
        (affected : SecretRotator → Bool) (rs : List SecretRotator)
        → ((r : SecretRotator) → affected r ≡ true → Keeps P (handling_namespace_events r))
        → Keeps P (notify affected rs)
    unfolding notify
    notify-Keeps affected [] kept = Keeps-pure true
    notify-Keeps affected (r ∷ rest) kept =
        Keeps-if_on (affected r) _ _
          (λ matches.
            Keeps-bind _ _ (kept r matches) (λ flag.
              Keeps-if (not flag) _ _ (Keeps-pure false) (notify-Keeps affected rest kept)))
          (λ _. notify-Keeps affected rest kept)

    list-Keeps : Keeps P list_secret_rotator_objects
    unfolding list_secret_rotator_objects
    list-Keeps = Keeps-handle _ _ _ listing (λ rs. Keeps-pure rs) (λ e. Keeps-pure [])

    -- A change of labels touches no rotator but those all of whose match labels are among the new labels
    -- or all among the old ones, where a label that is missing reads as the empty text, and match
    -- expressions are not looked at: what listing, and notifying any of these, keeps true is true after
    -- the event.
    pub on_update_keeps :
        (old_labels new_labels : Dict Text) (changed : Bool) (s : S)
        → ((r : SecretRotator)
            → Matches new_labels r ⊎ Matches old_labels r
            → Keeps P (handling_namespace_events r))
        → P s
        → P (on_update old_labels new_labels changed s).1
    unfolding on_update
    on_update_keeps old_labels new_labels changed s kept h =
        (Keeps-if changed _ _
            (Keeps-bind _ _ list-Keeps (λ rs.
              notify-Keeps (λ r. selects new_labels r || selects old_labels r) rs
                (λ r touched. kept r (selected new_labels old_labels r touched))))
            (Keeps-pure true)).at
          s h

    -- A new namespace touches no rotator but those that select its labels, and none where it is twenty
    -- seconds old or older.
    pub on_create_keeps :
        (labels : Dict Text) (age : ℕ) (s : S)
        → ((r : SecretRotator)
            → (selects labels r && ltb age 20) ≡ true
            → Keeps P (handling_namespace_events r))
        → P s
        → P (on_create labels age s).1
    unfolding on_create
    on_create_keeps labels age s kept h =
        (Keeps-bind _ _ list-Keeps
            (λ rs. notify-Keeps (λ r. selects labels r && ltb age 20) rs kept)).at
          s h
