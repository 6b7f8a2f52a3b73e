-- ===== src/Lib.antt =====
-- The JFrog registry operator rotates the pull secrets of a Kubernetes cluster: it trades an AWS
-- identity for an Artifactory token and writes the token into the secrets of every namespace that
-- a custom resource, the SecretRotator, selects.
--
-- One reconciliation (controllers/secretrotator_controller.go, Reconcile) reads the rotator,
-- prepares it (InitializeResource: conditions, finalizer, removal, validation, certificates),
-- manages the secrets (ManagingSecrets), writes the status (UpdateStatus) and says when it wants
-- to run again.
--
--   Base        texts as byte lists, maps as association lists, sorting, numbers, outcomes with errors
--               and panics as values (Base.Outcomes), and actions that thread a state, with rules for
--               what they keep and what they return (Base.Exec)
--   Api         api/v1alpha1: the records of the resource, one field for each field of the source
--   Cluster     what the operator asks of Kubernetes: records of operations for secrets, with the laws
--               that the proofs use (Cluster.Secrets), for rotators, namespaces, service accounts and
--               files (Cluster.Objects), and a cluster in memory that has the laws (Cluster.Memory)
--   Operations  internal/operations: TokenDetails and the constants; ValidateObjectSpec
--               (Operations.Validate), findSecretDifferences and IsExist (Operations.Differences),
--               DeleteOutdatedGeneratedSecrets (Operations.Outdated)
--   Resource    internal/resource: IsSecretOwnedBy, DeleteOutdatedSecrets and DeleteSecret
--               (Resource.Removal), CreateOrUpdateSecrets (Resource.Writing), the docker configuration
--               (Resource.Docker), HandleCerts (Resource.Certs), ToNamespaceFailures
--               (Resource.Failures)
--   Controller  controllers: ManagingSecrets, UpdateStatus, HandleConditions, HandleFinalizers,
--               SecretRotatorChecker (Controller.Lifecycle), InitializeResource, handleError and
--               Reconcile (Controller.Reconcile), WatchNsChanges (Controller.Watch)
--   Handler     internal/handler: createArtifactoryToken and createCustomHTTPClient (Handler.Http),
--               HandlingToken (Handler.Token), GetMaxSession and its sibling (Handler.Identity),
--               GetSignedRequestForPodIdentity (Handler.Identity.Pod), GetSignedRequestForWebIdentity
--               and GetSignedRequestAndHandleRoleMaxSession (Handler.Identity.Web), the conversion
--               of the ARN of a session (Handler.RoleArn), and a whole reconciliation with all of
--               these (Handler.Identity.Schedule)
--   Sign        internal/sign: ConstantTimeByteCompare (Sign.Compare), HMACKeyDerivation (Sign.Kdf),
--               deriveKeyFromAccessKeyPair and retrievePrivateKey (Sign.Keys), buildCanonicalHeaders
--               (Sign.Canonical), the texts that are signed (Sign.Request), Build and SignV4a
--               (Sign.Build); of internal/sign/v4a/v4 StripExcessSpaces (Sign.Spaces), the host
--               (Sign.Host) and the header rules (Sign.Rules); the encodings of the standard library
--               that these use (Sign.Encoding)
--   Samples     concrete resources and services for the tests, which stand in the modules Tests
--
-- State and errors. The cluster is a state of any type that the operations of Cluster act on; a Go
-- function that calls them is an action, which returns a value, an error or a panic beside the
-- state, so what was written before an error stays written. A pointer that a function fills in is
-- returned instead. A Go map is an association list; where the code ranges over a map, the order
-- of the list is the order that the range takes. Numbers are natural numbers; a length that may be
-- negative, the interval of a rotator and the time until the next run are integers (Base.Int), and
-- where the code works on machine words the wrap-around is written out. An update or a patch gives
-- the rotator as the server answers with it, and the run goes on with that one.
--
-- Parameters. Code outside the repository is a parameter with its documented behaviour as named
-- laws: the API server (Cluster.Secrets.IsLawful), SetControllerReference
-- (Resource.Writing.Effect.SetsController), finalizers
-- (Controller.Lifecycle.Guarded.KeepsFinalizers), HMAC (Sign.Kdf.IsLawful), the multiples of a
-- curve's base point. The management of the secrets takes the handler of the token as an
-- interface, Controller.Managing.TokenHandler with the law LeavesSecrets, that it writes no secret
-- and leaves the names and the namespaces of the run alone; Handler.Token fills the interface. The
-- handler in turn takes the two ways to sign a request as Handler.Token.Signers, which
-- Handler.Identity.Implementation fills. The AWS SDK is Handler.Identity.AwsServices; what SignV4a
-- takes from the standard library (SHA-256, ECDSA, net/url, the clock) is Sign.Request.Crypto and
-- Handler.Identity.Signing. A time is what its Format shows in a layout, and a parsed URL is a
-- record of its parts.
--
-- Loops are structural recursion over lists. The search for a signing key counts down the 255
-- external counters that are left, and the digits of a number use the number itself as fuel, which
-- is more than its digits.
--
-- Texts are byte sequences; lower case, case folding and white space are those of ASCII texts.
--
-- Not modelled: the presigning signer internal/sign/v4a/v4a.go, which nothing imports, with its
-- cached times; logs and events, the command line, generated code.
pub mod Base
pub mod Sign
pub mod Api
pub mod Cluster
pub mod Operations
pub mod Resource
pub mod Controller
pub mod Handler
pub mod Samples
