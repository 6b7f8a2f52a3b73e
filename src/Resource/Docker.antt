-- ===== src/Resource/Docker.antt =====
-- internal/resource/secret.go: the configuration that a docker client reads. Base64 and JSON are those
-- of the standard library; a text is taken to be UTF-8 without U+2028 and U+2029, which JSON escapes.
pub mod Encoding
pub mod Auths
use jfrog_registry_operator.Base.{
  ℕ, ◌+◌, ◌-◌, ◌*◌, ◌/◌, ◌%◌, Text, str, eqb, text_le, sort, List, [], ◌∷◌, ◌++◌, join, Bool, ◌||◌,
  ltb, ◌==◌, if◌then◌else◌,
}
use jfrog_registry_operator.Base.Dict.{Dict, insert, keys, get_or}
use jfrog_registry_operator.Api.{SecretRotatorSpec}

-- The standard alphabet.
unfoldable pub base64_digit : ℕ → ℕ
base64_digit n =
    if ltb n 26
    then b'A' + n
    else if ltb n 52
    then b'a' + (n - 26)
    else if ltb n 62
    then b'0' + (n - 52)
    else if n == 62
    then b'+'
    else b'/'

-- `base64.StdEncoding.EncodeToString`
unfoldable pub base64 : Text → Text
unfolding base64_digit
base64 [] = []
base64 (a ∷ []) = base64_digit (a / 4) ∷ base64_digit (a % 4 * 16) ∷ b'=' ∷ b'=' ∷ []
base64 (a ∷ b ∷ []) =
    base64_digit (a / 4)
    ∷ base64_digit (a % 4 * 16 + b / 16)
    ∷ base64_digit (b % 16 * 4)
    ∷ b'='
    ∷ []
base64 (a ∷ b ∷ c ∷ rest) =
    base64_digit (a / 4)
    ∷ base64_digit (a % 4 * 16 + b / 16)
    ∷ base64_digit (b % 16 * 4 + c / 64)
    ∷ base64_digit (c % 64)
    ∷ base64 rest

hex_digit : ℕ → ℕ
hex_digit n = if ltb n 10 then b'0' + n else b'a' + (n - 10)

-- One byte within a JSON string; `json.Marshal` escapes for HTML too.
json_byte : ℕ → Text
unfolding str hex_digit
json_byte c =
    if c == 34 || c == 92
    then 92 ∷ c ∷ []
    else if c == 8
    then str "\\b"
    else if c == 9
    then str "\\t"
    else if c == 10
    then str "\\n"
    else if c == 12
    then str "\\f"
    else if c == 13
    then str "\\r"
    else if ltb c 32 || (c == b'<' || (c == b'>' || c == b'&'))
    then str "\\u00" ++ hex_digit (c / 16) ∷ hex_digit (c % 16) ∷ []
    else c ∷ []

json_bytes : Text → Text
json_bytes [] = []
json_bytes (c ∷ s) = json_byte c ++ json_bytes s

unfoldable pub json_string : Text → Text
unfolding json_bytes json_byte
json_string s = 34 ∷ (json_bytes s ++ 34 ∷ [])

-- The entry of each server, with the same token: the URL of Artifactory, then its subdomains.
add_subdomains : Text → List Text → Dict Text → Dict Text
add_subdomains tokenb64 [] auths = auths
add_subdomains tokenb64 (url ∷ urls) auths =
    add_subdomains tokenb64 urls (insert url tokenb64 auths)

unfoldable pub docker_auths : Text → SecretRotatorSpec → Dict Text
unfolding add_subdomains
docker_auths tokenb64 spec =
    add_subdomains tokenb64 spec.artifactory_subdomains (insert spec.artifactory_url tokenb64 [])

-- The members of the object `auths`, in the order of the keys.
json_members : Dict Text → List Text → List Text
unfolding json_string
json_members auths [] = []
json_members auths (k ∷ ks) =
    (json_string k ++ (str ":{\"auth\":" ++ (json_string (get_or [] k auths) ++ str "}")))
    ∷ json_members auths ks

-- `json.Marshal` sorts the keys of a map, and cannot fail on texts.
unfoldable pub generate_docker_config_json : Text → SecretRotatorSpec → Text
unfolding json_members docker_auths
generate_docker_config_json tokenb64 spec =
    let auths = docker_auths tokenb64 spec in
    str "{\"auths\":{"
    ++ (join (json_members auths (sort text_le (keys auths))) (str ",") ++ str "}}")
