-- ===== src/Handler/Identity/Schedule.antt =====
-- A whole reconciliation whose tokens come from `HandlingToken`, with both ways to sign.
mod Tests
use jfrog_registry_operator.Base.{false, Text, List, Option, some, Outcome, ok, ◌≡◌}
use jfrog_registry_operator.Api.{SecretRotator, Condition}
use jfrog_registry_operator.Cluster.Secrets.{SecretStore, Secret, Holds, IsLawful}
use jfrog_registry_operator.Cluster.Objects.{
  RotatorStore, Finalizers, NamespaceStore, ClientSet, Files,
}
use jfrog_registry_operator.Controller.Reconcile.{reconcile_request}
use jfrog_registry_operator.Controller.Reconcile.Next.{IsDue, reconcile_request-IsDue}
use jfrog_registry_operator.Controller.Reconcile.Answers.{Plain, Completes, preparing}
use jfrog_registry_operator.Base.Int.{ℤ}
use jfrog_registry_operator.Operations.{TokenDetails}
use jfrog_registry_operator.Controller.Managing.{TokenHandler}
use jfrog_registry_operator.Handler.Token.Given.{Answers}
use jfrog_registry_operator.Resource.Writing.Effect.{SetsController}
use jfrog_registry_operator.Controller.Reconcile.Calls.{StepsKeep}
use jfrog_registry_operator.Controller.Reconcile.Foreign.{IsForeign, reconcile_request_foreign}
use jfrog_registry_operator.Handler.Http.{HttpServices}
use jfrog_registry_operator.Handler.Token.{handling_token}
use jfrog_registry_operator.Handler.Identity.{CredentialsResponse, AwsServices, Signing}
use jfrog_registry_operator.Handler.Identity.Durations.{RolesInRange}
use jfrog_registry_operator.Handler.Identity.Implementation.{
  CallsLeave, identity_signers, identity-GivesLasting, identity-LeavesSecrets,
}

module _ {S : Type 0} (store : SecretStore S) (rotators : RotatorStore S)
    (namespaces : NamespaceStore S) (clients : ClientSet S) (files : Files S)
    (finalizers : Finalizers) (set_status_condition : List Condition → Condition → List Condition)
    (set_controller_reference : SecretRotator → Secret → Outcome Secret) (services : HttpServices S)
    (aws : AwsServices S) (signing : Signing S)
    (decode_credentials : Text → Outcome CredentialsResponse) where
  abbrev with_tokens : TokenHandler S
  with_tokens =
      handling_token clients (identity_signers clients services aws signing decode_credentials)
        services

  -- A reconciliation all of whose steps succeed, from the reading of the rotator on, with the tokens of
  -- either way to sign, answers without an error and asks for the next run: after the interval that is
  -- configured in the rotator that the status update gave back, as it is written there, or, where none
  -- is configured, after 45 minutes at the earliest and nine hours at the latest. The sessions of every
  -- role that IAM knows are taken to last from an hour to twelve hours.
  pub reconciliation-IsDue :
      (roles : RolesInRange aws) (interval : ℤ) (ns name : Text) (s s' : S) (r : SecretRotator)
      (d : TokenDetails) (updated : SecretRotator)
      → rotators.get ns name s ≡ (ok r, s')
      → Completes store rotators namespaces clients files finalizers set_status_condition
          set_controller_reference with_tokens interval ns name r s' d updated
      → (after : ℤ) × ((reconcile_request store rotators namespaces clients files finalizers
            set_status_condition set_controller_reference with_tokens interval ns name s).0
          ≡ ok (Plain false after after))
        × IsDue updated.spec.refresh_interval after
  reconciliation-IsDue roles interval ns name s s' r d updated read completes =
      reconcile_request-IsDue store rotators namespaces clients files finalizers
        set_status_condition set_controller_reference _
        (identity-GivesLasting clients services aws signing decode_credentials roles) interval ns
        name s s' r d updated read completes

  -- A secret that the rotator does not own is as it was after a reconciliation of the rotator, with
  -- the tokens of either way to sign, whatever the reconciliation ends in. The rotator with which this
  -- run goes on to the secrets, where it gets so far, is taken not to own the secret by its name and
  -- not to list it in its status, which lists no namespace twice; and what the run asks of others but
  -- the server of the secrets, and reading a secret there, is taken to write no secret.
  pub reconciliation_foreign :
      (lawful : IsLawful store) (sets : SetsController set_controller_reference)
      (leave : CallsLeave clients services aws signing decode_credentials store) (j k : Text)
      (x : Secret)
      (steps : StepsKeep store rotators namespaces clients files (Holds store j k (some x)))
      (interval : ℤ) (ns name : Text) (s : S)
      → ((r : SecretRotator) (prepared : SecretRotator × TokenDetails)
          → (rotators.get ns name s).0 ≡ ok r
          → (preparing store rotators namespaces clients files finalizers set_status_condition
              set_controller_reference with_tokens interval ns name r
              (rotators.get ns name s).1).0
            ≡ ok prepared
          → IsForeign j k x prepared.0)
      → store.stored j k s ≡ some x
      → store.stored j k
          (reconcile_request store rotators namespaces clients files finalizers set_status_condition
            set_controller_reference with_tokens interval ns name s).1
        ≡ some x
  reconciliation_foreign lawful sets leave j k x steps interval ns name s foreign there =
      reconcile_request_foreign store lawful set_controller_reference sets _
        (identity-LeavesSecrets clients services aws signing decode_credentials store leave)
        rotators namespaces clients files finalizers set_status_condition j k x steps interval ns
        name s foreign there
