-- ===== src/Operations/Differences/Labels.antt =====
-- When the labels of a namespace satisfy those that an object selects by.
use jfrog_registry_operator.Base.{
  ◌∙◌, Text, elem, eqb_iff, List, [], ◌∷◌, some, true, ◌≡◌, refl, ◌↔◌, arith,
}
use jfrog_registry_operator.Base.Dict.{Dict, lookup, get_or, keys, lookup-elem-keys}
use jfrog_registry_operator.Operations.Differences.{all_equal, is_exist}

all_equal_elim :
    (namespace_labels object_labels : Dict Text) (ks : List Text) (k : Text)
    → all_equal namespace_labels object_labels ks ≡ true
    → elem k ks ≡ true
    → get_or [] k namespace_labels ≡ get_or [] k object_labels
unfolding all_equal elem
all_equal_elim namespace_labels object_labels [] k h m = cc
all_equal_elim namespace_labels object_labels (j ∷ ks) k h m = ground (
  arith,
  eqb_iff k j,
  eqb_iff (get_or [] j namespace_labels) (get_or [] j object_labels),
  all_equal_elim namespace_labels object_labels ks k,
)

all_equal_intro :
    (namespace_labels object_labels : Dict Text) (ks : List Text)
    → ((k : Text) → elem k ks ≡ true → get_or [] k namespace_labels ≡ get_or [] k object_labels)
    → all_equal namespace_labels object_labels ks ≡ true
unfolding all_equal elem
all_equal_intro namespace_labels object_labels [] h = refl
all_equal_intro namespace_labels object_labels (j ∷ ks) h = ground (
  arith,
  eqb_iff j j,
  h j,
  eqb_iff (get_or [] j namespace_labels) (get_or [] j object_labels),
  all_equal_intro namespace_labels object_labels ks (λ k m. h k (ground arith)),
)

get_or_of_lookup : (k v : Text) (m : Dict Text) → lookup k m ≡ some v → get_or [] k m ≡ v
unfolding get_or
get_or_of_lookup k v m h = ground arith

lookup_of_elem :
    (k : Text) (m : Dict Text) → elem k (keys m) ≡ true → lookup k m ≡ some (get_or [] k m)
unfolding get_or
lookup_of_elem k m h = ground (arith, lookup-elem-keys k m)

-- The labels agree exactly when every key of the object has its value in the namespace, where a
-- missing label reads as the empty text.
pub is_exist_iff :
    (namespace_labels object_labels : Dict Text)
    → (is_exist namespace_labels object_labels ≡ true)
      ↔ ((k v : Text) → lookup k object_labels ≡ some v → get_or [] k namespace_labels ≡ v)
unfolding is_exist
is_exist_iff namespace_labels object_labels = (
  λ h k v found.
      all_equal_elim namespace_labels object_labels (keys object_labels) k h
        (lookup-elem-keys k object_labels ∙ rw found)
      ∙ get_or_of_lookup k v object_labels found,
  λ h.
      all_equal_intro namespace_labels object_labels (keys object_labels)
        (λ k m. h k _ (lookup_of_elem k object_labels m)),
)
