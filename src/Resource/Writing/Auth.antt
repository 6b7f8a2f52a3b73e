-- ===== src/Resource/Writing/Auth.antt =====
-- What the docker configuration says of the user.
use jfrog_registry_operator.Base.{str, ◌++◌, IsBytes, All-append, ◌<◌, ◌≡◌, arith}
use jfrog_registry_operator.Operations.{TokenDetails}
use jfrog_registry_operator.Resource.Docker.Encoding.{decode, decode-base64}
use jfrog_registry_operator.Resource.Writing.{docker_auth}

colon-IsBytes : IsBytes (str ":")
unfolding str
colon-IsBytes = omega arith

-- A docker client that decodes the entry reads the user and the token, with a colon between them, where
-- both are bytes.
pub decode-docker_auth :
    (details : TokenDetails)
    → IsBytes details.username
    → IsBytes details.token
    → decode (docker_auth details) ≡ details.username ++ (str ":" ++ details.token)
unfolding docker_auth
decode-docker_auth details user token =
    decode-base64 (details.username ++ (str ":" ++ details.token)) (
      All-append (λ b. b < 256) details.username (str ":" ++ details.token) user
        (All-append (λ b. b < 256) (str ":") details.token colon-IsBytes token))
