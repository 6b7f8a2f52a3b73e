-- ===== src/Controller/Managing/Truthful/Loop.antt =====
-- The loop over the namespaces, and what the details list as managed.
use jfrog_registry_operator.Base.Int.{ℤ}
use jfrog_registry_operator.Operations.Validate.Secrets.{IsNamed}
use jfrog_registry_operator.Base.{
  All, Text, Distinct, List, [], ◌∷◌, true, Option, Outcome, ok, ◌≡◌, inr, refl, ◌∙◌, arith,
  is_empty,
}
use jfrog_registry_operator.Base.Exec.{
  ◌>>◌, Keeps, Keeps-pure, Keeps-if, Ends, Ends-pure, Ends-bind,
}
use jfrog_registry_operator.Base.Dict.{Dict, lookup, keys}
use jfrog_registry_operator.Api.{SecretRotator, ServiceAccountDetails}
use jfrog_registry_operator.Cluster.Secrets.{SecretStore, Secret, Holds, IsLawful}
use jfrog_registry_operator.Cluster.Objects.{Namespace}
use jfrog_registry_operator.Operations.{TokenDetails}
use jfrog_registry_operator.Operations.Differences.{listed}
use jfrog_registry_operator.Operations.Outdated.Effect.{delete_outdated_generated_secrets_keeps}
use jfrog_registry_operator.Resource.Writing.Effect.{SetsController}
use jfrog_registry_operator.Controller.Managing.Foreign.{LeavesSecrets}
use jfrog_registry_operator.Resource.Removal.{delete_outdated_secrets}
use jfrog_registry_operator.Controller.Managing.{
  scan, Progress, note_failures, TokenHandler, with_account, write_all, delete_unlisted, finish,
  manage_namespace, manage_namespaces, managing_secrets,
}
use jfrog_registry_operator.Controller.Managing.Truthful.{
  IsThere, Truthful, MayHold, GivesToken, moved, scan-Keeps, Sound, write_all-Ends,
}

module _ {S : Type 0} (store : SecretStore S) (lawful : IsLawful store) (j k : Text)
    (T : Text → Type 0) (set_controller_reference : SecretRotator → Secret → Outcome Secret)
    (sets : SetsController set_controller_reference) (handling_token : TokenHandler S)
    (leaves : LeavesSecrets store handling_token)
    (gives : GivesToken store lawful j k T handling_token) where
  abbrev SoundDetails : TokenDetails → S → Type 0
  SoundDetails d s = T d.token × Truthful store lawful j k T d s

  note_failures-Sound :
      (ns : Text) (progress : Progress) (s : S)
      → Sound store lawful j k T set_controller_reference sets handling_token leaves gives progress
          s
      → SoundDetails (note_failures ns progress) s
  unfolding note_failures
  note_failures-Sound ns (d, []) s h = h
  note_failures-Sound ns (d, m ∷ failed) s h = h

  -- The status of the rotator lists no namespace twice.
  abbrev IsDistinct : SecretRotator → Type 0
  IsDistinct r = Distinct (keys r.status.secret_managed_by_namespaces)

  delete_unlisted-Keeps :
      (held : Option Secret) (r : SecretRotator) (d : TokenDetails)
      → IsDistinct r
      → listed d.secret_managed_by_namespaces j k ≡ true
      → Keeps
          (Holds store j k held)
          (delete_unlisted store set_controller_reference handling_token r d)
  unfolding delete_unlisted
  delete_unlisted-Keeps held r d distinct there =
      Keeps-if (is_empty r.status.secret_managed_by_namespaces) _ _ (Keeps-pure tt) (record {
        at = λ s h.
            delete_outdated_generated_secrets_keeps store lawful j k d.secret_managed_by_namespaces
              r.status.secret_managed_by_namespaces s distinct (ground arith)
            ∙ h;
      })

  delete_unlisted-Ends :
      (r : SecretRotator) (d : TokenDetails)
      → IsDistinct r
      → Ends
          (SoundDetails d)
          (λ _. SoundDetails d)
          (delete_unlisted store set_controller_reference handling_token r d)
  delete_unlisted-Ends r d distinct = record {
    at = λ s (held, t) _ done. (
      held,
      (
        t.0,
        λ h.
            (moved store lawful j k T d s _
                ((delete_unlisted-Keeps (store.stored j k s) r d distinct h).at s refl) t).1
              h,
      ),
    );
  }

  -- The state of the loop over the namespaces.
  abbrev Loop : SecretRotator × TokenDetails → S → Type 0
  Loop (r, d) s = IsDistinct r × MayHold store lawful j k T d × Truthful store lawful j k T d s

  finish-Ends :
      (r : SecretRotator) (ns : Text) (d : TokenDetails)
      → IsDistinct r
      → Ends (SoundDetails d) Loop (finish store set_controller_reference handling_token r ns d)
  unfolding finish ◌>>◌
  finish-Ends r ns d distinct =
      Ends-bind _ _ (delete_unlisted-Ends r d distinct)
        (λ _. Ends-pure _ (λ s sound. (distinct, inr sound.0, sound.1)))

  scan-Ends :
      (r : SecretRotator) (d : TokenDetails) (ns : Text)
      → Ends (Loop (r, d)) (λ _. Loop (r, d)) (scan store r.name ns d.generated_secrets ([], []))
  scan-Ends r d ns = record {
    at = λ s (distinct, may, t) found done. (
      distinct,
      may,
      moved store lawful j k T d s _
          ((scan-Keeps store lawful j k T (store.stored j k s) r.name ns d.generated_secrets
              ([], [])).at
            s refl)
          t,
    );
  }

  -- Once the handler has run, there is a token.
  abbrev Handled : SecretRotator → ServiceAccountDetails × TokenDetails → S → Type 0
  Handled r (account, d) s = IsDistinct r × SoundDetails d s

  handler-Ends :
      (r : SecretRotator) (d : TokenDetails) → Ends (Loop (r, d)) (Handled r) (handling_token r d)
  handler-Ends r d = record {
    at = λ s (distinct, may, t) handled done.
        let (holds, same) = (gives.handling_token-Holds r d may).at s handled done in
        let names = (leaves.handling_token-secrets r d s handled done).0 in
        (
          distinct,
          (
            holds,
            (
              rw names (t.0),
              λ h.
                  (moved store lawful j k T d s _ (leaves.stored-handling_token r d j k s) t).1
                    (rw same at h),
            ),
          ),
        );
  }

  turn-Ends :
      (r : SecretRotator) (ns : Text) (skipped : Dict Text) (failed : List Text)
      (handled : ServiceAccountDetails × TokenDetails)
      → Ends
          (Handled r handled)
          (λ progress s.
            IsDistinct r
            × Sound store lawful j k T set_controller_reference sets handling_token leaves gives
                progress s)
          (write_all store set_controller_reference handling_token
            (with_account r handled.0)
            ns
            skipped
            handled.1.generated_secrets
            (handled.1, failed))
  turn-Ends r ns skipped failed handled = record {
    at = λ s (distinct, sound) progress done. (
      distinct,
      (write_all-Ends store lawful j k T set_controller_reference sets handling_token leaves gives _
            ns skipped _ _ sound.1.0).at
          s sound progress done,
    );
  }

  close-Ends :
      (r : SecretRotator) (account : ServiceAccountDetails) (ns : Text) (progress : Progress)
      → Ends
          (λ s.
            IsDistinct r
            × Sound store lawful j k T set_controller_reference sets handling_token leaves gives
                progress s)
          Loop
          (finish store set_controller_reference handling_token
            (with_account r account)
            ns
            (note_failures ns progress))
  unfolding with_account
  close-Ends r account ns progress = record {
    at = λ s (distinct, sound) next done.
        (finish-Ends _ ns (note_failures ns progress) distinct).at s
          (note_failures-Sound ns progress s sound) next done;
  }

  manage_namespace-Ends :
      (ns : Namespace) (now : SecretRotator × TokenDetails)
      → Ends (Loop now) Loop (manage_namespace store set_controller_reference handling_token ns now)
  unfolding manage_namespace
  manage_namespace-Ends ns (r, d) = Ends-bind _ _ (scan-Ends r d ns.name) (λ found.
      Ends-bind _ _ (handler-Ends r d) (λ handled.
        Ends-bind _ _ (turn-Ends r ns.name found.1 found.0 handled)
          (λ progress. close-Ends r handled.0 ns.name progress)))

  manage_namespaces-Ends :
      (namespaces : List Namespace) (now : SecretRotator × TokenDetails)
      → Ends
          (Loop now)
          Loop
          (manage_namespaces store set_controller_reference handling_token namespaces now)
  unfolding manage_namespaces
  manage_namespaces-Ends [] now = Ends-pure now (λ s h. h)
  manage_namespaces-Ends (ns ∷ rest) now =
      Ends-bind _ _ (manage_namespace-Ends ns now) (λ next. manage_namespaces-Ends rest next)

  -- What is reported as managed is there, for every handler of the token that writes no secret.
  pub managing_secrets_truthful :
      (interval : ℤ) (r : SecretRotator) (d : TokenDetails) (s : S) (r' : SecretRotator)
      (d' : TokenDetails)
      → IsDistinct r
      → All IsNamed d.generated_secrets
      → MayHold store lawful j k T d
      → (managing_secrets store set_controller_reference handling_token interval r d s).0
        ≡ ok (r', d')
      → listed d'.secret_managed_by_namespaces j k ≡ true
      → IsThere store lawful j k T
          (managing_secrets store set_controller_reference handling_token interval r d s).1
  unfolding managing_secrets lookup
  managing_secrets_truthful interval r d s r' d' distinct named may done there =
      let (_, _, truthful) =
        (Ends-bind _ _ started (λ failed. manage_namespaces-Ends d.namespace_list _)).at s
          (distinct, may) (r', d') done in
      truthful.1 there
    where
      started :
          Ends
            (λ _. IsDistinct r × MayHold store lawful j k T d)
            (λ failed. Loop (
              r,
              record d {
                failed_namespaces = failed;
                requeue_interval = interval;
                secret_managed_by_namespaces = [];
              },
            ))
            (delete_outdated_secrets store d r.name r.status.provisioned_namespaces)
      started = record { at = λ s' h failed ran. (h.0, h.1, (named, λ l. absurd (ground arith))) }
