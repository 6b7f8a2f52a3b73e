-- ===== src/Resource/Docker/Auths.antt =====
-- Which servers the docker configuration logs in to.
use jfrog_registry_operator.Base.{
  Text, eqb_iff, elem, List, [], ◌∷◌, none, some, ◌≡◌, arith, if◌then◌else◌,
}
use jfrog_registry_operator.Base.Dict.{Dict, lookup, insert, lookup-insert}
use jfrog_registry_operator.Api.{SecretRotatorSpec}
use jfrog_registry_operator.Resource.Docker.{add_subdomains, docker_auths}

lookup-add_subdomains :
    (u tokenb64 : Text) (urls : List Text) (auths : Dict Text)
    → lookup u (add_subdomains tokenb64 urls auths)
      ≡ (if elem u urls then some tokenb64 else lookup u auths)
unfolding add_subdomains elem
lookup-add_subdomains u tokenb64 [] auths = ground arith
lookup-add_subdomains u tokenb64 (url ∷ urls) auths = ground (
  arith,
  eqb_iff url u,
  eqb_iff u url,
  lookup-insert url u tokenb64 auths,
  lookup-add_subdomains u tokenb64 urls (insert url tokenb64 auths),
)

-- The configuration logs in, with the token, to the URL of Artifactory and to each of its
-- subdomains, and to no other server.
pub lookup-docker_auths :
    (u tokenb64 : Text) (spec : SecretRotatorSpec)
    → lookup u (docker_auths tokenb64 spec) ≡ (
        if elem u (spec.artifactory_url ∷ spec.artifactory_subdomains) then some tokenb64 else none)
unfolding docker_auths elem lookup
lookup-docker_auths u tokenb64 spec = ground (
  arith,
  eqb_iff spec.artifactory_url u,
  eqb_iff u spec.artifactory_url,
  lookup-insert spec.artifactory_url u tokenb64 [],
  lookup-add_subdomains u tokenb64 spec.artifactory_subdomains
      (insert spec.artifactory_url tokenb64 []),
)
