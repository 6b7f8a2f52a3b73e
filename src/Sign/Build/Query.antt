-- ===== src/Sign/Build/Query.antt =====
-- The query that is signed and sent.
use mathlib.Core.List.{Perm}
use jfrog_registry_operator.Base.{
  Text, str, List, [], ◌∷◌, ◌++◌, map, join, sort, text_le, IsSorted, eqb, ◌≡◌, refl, sort-perm,
  sort-IsSorted, text_le_total, text_le_trans, Option, none, some, Bool, true, false, if◌then◌else◌,
}
use jfrog_registry_operator.Base.Dict.{Dict, keys, get_or, lookup}
use jfrog_registry_operator.Sign.Encoding.{by_bytes, encode_with, encode_keys, encode_values}
use jfrog_registry_operator.Sign.Encoding.Percent.{percent_byte, replace_plus-encode}
use jfrog_registry_operator.Sign.Request.{HttpRequest}
use jfrog_registry_operator.Sign.Build.{sort_values, raw_query_of}

-- RFC 3986, a space as %20.
abbrev pub percent : Text → Text
percent = by_bytes percent_byte

-- `key=value` for each of the keys, with each of its values.
abbrev pub parameters : (Text → List Text) → List Text → List Text
parameters values [] = []
parameters values (k ∷ ks) =
    map (λ v. percent k ++ (b'=' ∷ percent v)) (values k) ++ parameters values ks

encode_values-percent :
    (key : Text) (vs : List Text)
    → encode_values percent key vs ≡ map (λ v. percent key ++ (b'=' ∷ percent v)) vs
unfolding encode_values
encode_values-percent key [] = refl
encode_values-percent key (v ∷ vs) = rw (encode_values-percent key vs) refl

encode_keys-percent :
    (query : Dict (List Text)) (ks : List Text)
    → encode_keys percent query ks ≡ parameters (λ k. get_or [] k query) ks
unfolding encode_keys
encode_keys-percent query [] = refl
encode_keys-percent query (k ∷ ks) =
    rw (encode_values-percent k (get_or [] k query), encode_keys-percent query ks) refl

keys-sort_values : (query : Dict (List Text)) → keys (sort_values query) ≡ keys query
unfolding sort_values keys
keys-sort_values [] = refl
keys-sort_values ((k, vs) ∷ query) = rw (keys-sort_values query) refl

-- No values where there is no key.
abbrev value_of : Option (List Text) → List Text
value_of o = elim o [ none ↦ [] | some v ↦ v ]

if_both :
    (b : Bool) (o p : Option (List Text)) (vs : List Text)
    → value_of o ≡ sort text_le (value_of p)
    → value_of (if b then some (sort text_le vs) else o)
      ≡ sort text_le (value_of (if b then some vs else p))
if_both true o p vs h = refl
if_both false o p vs h = h

get_or-sort_values :
    (k : Text) (query : Dict (List Text))
    → get_or [] k (sort_values query) ≡ sort text_le (get_or [] k query)
unfolding sort_values get_or lookup
get_or-sort_values k [] = unfold sort in refl
get_or-sort_values k ((j, vs) ∷ query) =
    if_both (eqb j k) (lookup k (sort_values query)) (lookup k query) vs
      (get_or-sort_values k query)

-- The query that is signed and sent is `key=value` for every parameter of the request's query, with
-- both sides in the RFC 3986 encoding, a space as %20, joined by `&`: the keys are in order, each as often
-- as the query has it, and the values of each key are in order, each as often as the key has it.
pub raw_query_of-parameters :
    (parse_query : Text → Dict (List Text)) (req : HttpRequest)
    → (ks : List Text) × (values : Text → List Text) × (raw_query_of parse_query req
        ≡ join (parameters values ks) (str "&"))
      × IsSorted text_le ks
      × Perm ks (keys (parse_query req.url.raw_query))
      × ((k : Text)
          → IsSorted text_le (values k)
            × Perm (values k) (get_or [] k (parse_query req.url.raw_query)))
unfolding raw_query_of encode_with str
raw_query_of-parameters parse_query req =
    let query = parse_query req.url.raw_query in
    (
      sort text_le (keys query),
      λ k. get_or [] k (sort_values query),
      rw
          (
            replace_plus-encode (sort_values query),
            keys-sort_values query,
            encode_keys-percent (sort_values query) (sort text_le (keys query)),
          )
          refl,
      sort-IsSorted text_le text_le_total text_le_trans (keys query),
      sort-perm text_le (keys query),
      λ k. rw (get_or-sort_values k query) (
        sort-IsSorted text_le text_le_total text_le_trans (get_or [] k query),
        sort-perm text_le (get_or [] k query),
      ),
    )
