-- ===== src/Handler/Identity/Samples.antt =====
-- The services of the tests of internal/handler.
use jfrog_registry_operator.Samples.{clients}
use jfrog_registry_operator.Handler.Identity.Implementation.{CallsLeave}
use jfrog_registry_operator.Handler.Identity.{
  sign_caller_identity, CredentialsResponse, default_chain, AwsServices, Signing,
}
use jfrog_registry_operator.Cluster.Memory.{memory, Memory}
use jfrog_registry_operator.Base.{zero, [], Text, str, Bool, Outcome, ok, none, some, arith}
use jfrog_registry_operator.Base.Exec.{Gives-pure, pure}
use jfrog_registry_operator.Handler.Http.{HttpServices}
use jfrog_registry_operator.Sign.Request.{HttpRequest}
use jfrog_registry_operator.Base.Int.{pos}
use jfrog_registry_operator.Handler.Identity.Durations.{RolesInRange}

-- Artifactory answers with a token, and so does the endpoint of the credentials.
abbrev pub services : HttpServices Memory
services = record {
  new_request = λ method url. ok tt;
  file_exists = λ path s. Bool.false;
  load_x509_key_pair = λ cert key s. (ok tt, s);
  read_file = λ path s. (ok [], s);
  do_request = λ client request s. (ok (record { status_code = 200; body = [] }), s);
  decode_response = λ body. ok (record { access_token = str "new"; username = str "user" });
}

abbrev pub endpoint_answer : CredentialsResponse
endpoint_answer = record {
  access_key_id = str "AKIDAKID";
  secret_access_key = str "s";
  token = str "t";
}

abbrev pub decode_credentials : Text → Outcome CredentialsResponse
decode_credentials body = ok endpoint_answer

-- A role whose sessions last two hours.
abbrev pub aws : AwsServices Memory
aws = record {
  load_default_config = λ options s. (ok (record { source = default_chain; region = [] }), s);
  get_caller_identity =
      λ cfg s. (ok (some (str "arn:aws:sts::12:assumed-role/Rotator/run"), some (str "12")), s);
  get_role = λ cfg name s. (ok (some (some 7200)), s);
  retrieve = λ cfg source s. (ok endpoint_answer, s);
  unix_milli = λ s. 0;
}

abbrev pub request : HttpRequest
request = record {
  method = str "GET";
  url = record { scheme = []; opaque = []; host = []; escaped_path = []; raw_query = [] };
  header = [];
  host = [];
  content_length = pos zero;
}

-- Without a cache: every run derives the key again.
abbrev pub signing : Signing Memory
signing = record {
  cache = λ s. none;
  set_cache = λ c s. s;
  now = λ s layout. [];
  crypto = record { sha256 = λ s. []; sign = λ key digest. ok [] };
  parse_query = λ s. [];
  new_request = λ method url. some request;
  derive = λ access_key secret_key. ok (record { d = 1; x = 0; y = 0 });
}

pub roles : RolesInRange aws
unfolding pure
roles cfg name = Gives-pure (some (some 7200)) (omega arith, omega arith)

pub leave : CallsLeave clients services aws signing decode_credentials memory
unfolding sign_caller_identity
leave = record {
  client-Keeps = λ j k held. record { at = λ s h. h };
  account-Keeps = λ j k held ns name. record { at = λ s h. h };
  pair-Keeps = λ j k held cert key. record { at = λ s h. h };
  identity-Keeps = λ j k held. record {
    create_token-Keeps = λ ns name audience. record { at = λ s h. h };
    read_file-Keeps = λ path. record { at = λ s h. h };
    do_request-Keeps = λ c r. record { at = λ s h. h };
    load_default_config-Keeps = λ o. record { at = λ s h. h };
    get_caller_identity-Keeps = λ cfg. record { at = λ s h. h };
    get_role-Keeps = λ cfg name. record { at = λ s h. h };
    retrieve-Keeps = λ cfg c. record { at = λ s h. h };
    sign-Keeps = λ creds. record { at = λ s h. h };
  };
}
