-- ===== src/Controller/Reconcile/Answers.antt =====
-- How a run of `Reconcile` goes, step by step, and what it answers.
use jfrog_registry_operator.Base.Exec.{
  Gives-if, Exec, pure, handle, Gives, Gives-pure, handle-cases,
}
use jfrog_registry_operator.Base.{
  ℕ, ◌*◌, ◌+◌, ◌≤◌, ◌<◌, Text, List, Bool, true, false, Option, none, some, GoError, Outcome, ok,
  err, panic, ◌≡◌, ◌⊎◌, inl, inr, refl, sym, ap, ◌∙◌, arith,
}
use jfrog_registry_operator.Base.Int.{ℤ, pos}
use jfrog_registry_operator.Api.{SecretRotator, SecretRotatorSpec, Condition}
use jfrog_registry_operator.Cluster.Secrets.{SecretStore, Secret, is_not_found}
use jfrog_registry_operator.Cluster.Objects.{
  RotatorStore, Finalizers, NamespaceStore, ClientSet, Files,
}
use jfrog_registry_operator.Operations.{TokenDetails, no_details}
use jfrog_registry_operator.Controller.Managing.{TokenHandler, managing_secrets}
use jfrog_registry_operator.Controller.Status.{update_status}
use jfrog_registry_operator.Controller.Reconcile.{
  second, as_reconcile_error, handle_error, requeue_interval_of, Answer, answer, again,
  initialize_resource, complete, manage, unread, reconcile_request,
}

-- When the next run comes after one that is over: after the configured interval, or else after three
-- quarters of the token's lifetime in seconds, in whole nanoseconds.
abbrev pub IsNext : Option ℤ → ℕ → ℤ → Type 0
IsNext none ttl after =
    (n : ℕ) × (after ≡ pos n) × (4 * n ≤ ttl * second * 3) × (ttl * second * 3 < 4 * n + 4)
IsNext (some interval) ttl after = after ≡ interval

requeue_interval_of-IsNext :
    (spec : SecretRotatorSpec) (details : TokenDetails) (refresh : Option ℤ)
    → spec.refresh_interval ≡ refresh
    → IsNext refresh details.ttl_in_seconds (requeue_interval_of spec details)
unfolding requeue_interval_of
requeue_interval_of-IsNext spec details none unset = rw unset (_, refl, omega arith, omega arith)
requeue_interval_of-IsNext spec details (some n) set = rw set refl

-- Never an error, since controller-runtime would then choose the time itself.
abbrev pub Plain : Bool → ℤ → ℤ → Answer
Plain requeue after interval = record {
  result = record { requeue = requeue; requeue_after = after };
  error = none;
  requeue_interval = interval;
}

module _ {S : Type 0} (store : SecretStore S) (rotators : RotatorStore S)
    (namespaces : NamespaceStore S) (clients : ClientSet S) (files : Files S)
    (finalizers : Finalizers) (set_status_condition : List Condition → Condition → List Condition)
    (set_controller_reference : SecretRotator → Secret → Outcome Secret)
    (handling_token : TokenHandler S) (interval : ℤ) (ns name : Text) where
  -- The first step of a run, from the rotator and the state that reading it gave.
  abbrev pub preparing : SecretRotator → Exec S (SecretRotator × TokenDetails)
  preparing r =
      initialize_resource store rotators namespaces clients files finalizers set_status_condition
        set_controller_reference handling_token no_details r ns name

  abbrev pub managing : SecretRotator × TokenDetails → Exec S (SecretRotator × TokenDetails)
  managing (r, d) = managing_secrets store set_controller_reference handling_token interval r d

  abbrev pub reporting : SecretRotator × TokenDetails → Exec S SecretRotator
  reporting (r, d) = update_status set_status_condition rotators d r

  -- The steps of a run that all succeed, from the rotator that was read: what each of them gave.
  pub record Completes (r : SecretRotator) (s : S) (details : TokenDetails)
      (updated : SecretRotator) : Type 0 where
    pub prepared : SecretRotator × TokenDetails
    pub managed : SecretRotator
    pub prepares : (preparing r s).0 ≡ ok prepared
    pub manages : (managing prepared (preparing r s).1).0 ≡ ok (managed, details)
    pub reports :
        (reporting (managed, details) (managing prepared (preparing r s).1).1).0 ≡ ok updated

  -- One of the steps ends in an error, after those before it have succeeded.
  pub data Fails (r : SecretRotator) (s : S) : Type 0 where
    not_prepared : (e : GoError) → (preparing r s).0 ≡ err e → Fails r s
    not_managed :
        (prepared : SecretRotator × TokenDetails) (e : GoError)
        → (preparing r s).0 ≡ ok prepared
        → (managing prepared (preparing r s).1).0 ≡ err e
        → Fails r s
    not_reported :
        (prepared managed : SecretRotator × TokenDetails) (e : GoError)
        → (preparing r s).0 ≡ ok prepared
        → (managing prepared (preparing r s).1).0 ≡ ok managed
        → (reporting managed (managing prepared (preparing r s).1).1).0 ≡ err e
        → Fails r s

  -- What is answered after the rotator was read.
  abbrev pub IsRun : SecretRotator → S → Answer → Type 0
  IsRun r s a =
      (Fails r s × (a ≡ Plain true (pos second) interval))
      ⊎ ((details : TokenDetails) × (updated : SecretRotator) × (after : ℤ) × Completes r s details
            updated
          × IsNext updated.spec.refresh_interval details.ttl_in_seconds after
          × (a ≡ Plain false after after))

  -- What may be answered, by what reading the rotator gave.
  abbrev pub IsAnswer : Outcome SecretRotator × S → Answer → Type 0
  IsAnswer (ok r, s) a = IsRun r s a
  IsAnswer (err e, s) a =
      ((is_not_found e ≡ true) × (a ≡ Plain false (pos 0) interval))
      ⊎ ((is_not_found e ≡ false) × (a ≡ Plain false (pos (600 * second)) interval))
  IsAnswer (panic, s) a = ⊥

  abbrev finishing : SecretRotator × TokenDetails → Exec S Answer
  finishing =
      complete store rotators namespaces clients files finalizers set_status_condition
        set_controller_reference handling_token interval

  abbrev continuing : SecretRotator × TokenDetails → Exec S Answer
  continuing =
      manage store rotators namespaces clients files finalizers set_status_condition
        set_controller_reference handling_token interval

  -- After a step that ended in an error, and after the last one.
  abbrev failed : GoError → Exec S Answer
  failed e = pure (again interval)

  abbrev ended : TokenDetails → SecretRotator → Exec S Answer
  ended d updated =
      let next = requeue_interval_of updated.spec d in
      pure (answer (record { requeue = false; requeue_after = next }, none) next)

  abbrev pub run : SecretRotator → Exec S Answer
  run r = handle (preparing r) continuing failed

  answer-ok : (a b : Answer) (s : S) → (pure b s).0 ≡ ok a → a ≡ b
  unfolding pure
  answer-ok a b s h = cc

  complete-IsRun :
      (r : SecretRotator) (s : S) (prepared managed : SecretRotator × TokenDetails) (a : Answer)
      → (preparing r s).0 ≡ ok prepared
      → (managing prepared (preparing r s).1).0 ≡ ok managed
      → (finishing managed (managing prepared (preparing r s).1).1).0 ≡ ok a
      → IsRun r s a
  unfolding complete answer again
  complete-IsRun r s prepared (m, d) a first second_step done =
      elim (handle-cases (reporting (m, d)) (ended d) failed
        (managing prepared (preparing r s).1).1) [
          | inl (updated, ran, eq) ↦ inr (
            d,
            updated,
            requeue_interval_of updated.spec d,
            record {
              prepared = prepared;
              managed = m;
              prepares = first;
              manages = second_step;
              reports = ran;
            },
            requeue_interval_of-IsNext updated.spec d _ refl,
            answer-ok a _ _ (ap (λ p. p.0) (sym eq) ∙ done),
          )
          | inr (inl (e, ran, eq)) ↦ inl (
            not_reported prepared (m, d) e first second_step ran,
            answer-ok a _ _ (ap (λ p. p.0) (sym eq) ∙ done),
          )
          | inr (inr (ran, eq)) ↦ absurd (ground (arith, ap (λ p. p.0) (sym eq) ∙ done))
        ]

  manage-IsRun :
      (r : SecretRotator) (s : S) (prepared : SecretRotator × TokenDetails) (a : Answer)
      → (preparing r s).0 ≡ ok prepared
      → (continuing prepared (preparing r s).1).0 ≡ ok a
      → IsRun r s a
  unfolding manage again
  manage-IsRun r s (p, d) a first done =
      elim (handle-cases (managing (p, d)) finishing failed (preparing r s).1) [
        | inl (managed, ran, eq) ↦
            complete-IsRun r s (p, d) managed a first ran (ap (λ p. p.0) (sym eq) ∙ done)
        | inr (inl (e, ran, eq)) ↦
            inl (not_managed (p, d) e first ran, answer-ok a _ _ (ap (λ p. p.0) (sym eq) ∙ done))
        | inr (inr (ran, eq)) ↦ absurd (ground (arith, ap (λ p. p.0) (sym eq) ∙ done))
      ]

  run-IsRun : (r : SecretRotator) (s : S) (a : Answer) → (run r s).0 ≡ ok a → IsRun r s a
  unfolding again
  run-IsRun r s a done = elim (handle-cases (preparing r) continuing failed s) [
    | inl (prepared, ran, eq) ↦ manage-IsRun r s prepared a ran (ap (λ p. p.0) (sym eq) ∙ done)
    | inr (inl (e, ran, eq)) ↦
        inl (not_prepared e ran, answer-ok a _ _ (ap (λ p. p.0) (sym eq) ∙ done))
    | inr (inr (ran, eq)) ↦ absurd (ground (arith, ap (λ p. p.0) (sym eq) ∙ done))
  ]

  abbrev after_failure : GoError → Exec S Answer
  after_failure =
      unread store rotators namespaces clients files finalizers set_status_condition
        set_controller_reference handling_token interval

  unread-IsAnswer : (e : GoError) (s : S) → Gives (IsAnswer (err e, s)) (after_failure e)
  unfolding unread answer handle_error as_reconcile_error
  unread-IsAnswer e s =
      Gives-if (is_not_found e) _ _ (λ missing. Gives-pure _ (inl (missing, refl)))
        (λ other. Gives-pure _ (inr (other, refl)))

  read-IsAnswer :
      (s : S) (a : Answer) (read : Outcome SecretRotator × S)
      → rotators.get ns name s ≡ read
      → (handle (rotators.get ns name) run after_failure s).0 ≡ ok a
      → IsAnswer read a
  unfolding handle
  read-IsAnswer s a (ok r, s') eq done = run-IsRun r s' a (rw eq at done)
  read-IsAnswer s a (err e, s') eq done = (unread-IsAnswer e s').at s' a (rw eq at done)
  read-IsAnswer s a (panic, s') eq done = absurd (ground (arith, rw eq at done))

  pub reconcile_request-IsAnswer :
      (s : S) (a : Answer)
      → (reconcile_request store rotators namespaces clients files finalizers set_status_condition
          set_controller_reference handling_token interval ns name s).0
        ≡ ok a
      → IsAnswer (rotators.get ns name s) a
  unfolding reconcile_request
  reconcile_request-IsAnswer s a done = read-IsAnswer s a (rotators.get ns name s) refl done
