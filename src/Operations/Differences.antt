-- ===== src/Operations/Differences.antt =====
-- internal/operations/operations.go: the comparisons of labels and of managed secrets.
pub mod Dropped
pub mod Labels
use jfrog_registry_operator.Base.{
  Bool-cases, ◌∙◌, inr, inl, ◌||◌, Option-cases, All, Text, eqb, elem, eqb_iff, List, [], ◌∷◌,
  Option, none, some, Bool, true, false, not, ◌&&◌, is_empty, keep, ◌≡◌, refl, ◌↔◌, if◌then◌else◌,
  arith, Distinct,
}
use jfrog_registry_operator.Base.Dict.{
  Dict, lookup, insert, get_or, keys, lookup-insert, lookup-elem-keys, insert-Distinct,
}

-- The labels that the object selects by all have the same value among those of the namespace, where
-- a label that is missing reads as the empty text. The range reads each value by its key.
unfoldable pub all_equal : Dict Text → Dict Text → List Text → Bool
all_equal namespace_labels object_labels [] = true
all_equal namespace_labels object_labels (k ∷ ks) =
    eqb (get_or [] k namespace_labels) (get_or [] k object_labels)
    && all_equal namespace_labels object_labels ks

unfoldable pub is_exist : Dict Text → Dict Text → Bool
is_exist namespace_labels object_labels =
    all_equal namespace_labels object_labels (keys object_labels)

-- The elements of the first slice that the second lacks.
unfoldable pub find_string_slice_difference : List Text → List Text → List Text
find_string_slice_difference a b = keep (λ item. not (elem item b)) a

-- What the loop notes for a namespace, from what the new state holds for it.
unfoldable pub note : Text → List Text → Option (List Text) → Dict (List Text) → Dict (List Text)
note key old_values none found = found
note key old_values (some new_values) found =
    let diff = find_string_slice_difference old_values new_values in
    if is_empty diff then found else insert key diff found

-- The loop over the old state, with the differences so far.
unfoldable pub differences_loop :
    Dict (List Text) → Dict (List Text) → Dict (List Text) → Dict (List Text)
differences_loop new_state [] found = found
differences_loop new_state ((key, old_values) ∷ rest) found =
    differences_loop new_state rest (note key old_values (lookup key new_state) found)

-- The differences, and whether there are any.
unfoldable pub find_secret_differences :
    Dict (List Text) → Dict (List Text) → Dict (List Text) × Bool
find_secret_differences new_state old_state =
    let differences = differences_loop new_state old_state [] in
    if is_empty differences then ([], false) else (differences, true)

-- A secret is among the differences.
abbrev pub differs : Dict (List Text) → Text → Text → Bool
differs differences key item = elim (lookup key differences) [
  | none ↦ false
  | some items ↦ elem item items
]

-- A secret is listed in a state.
abbrev pub listed : Dict (List Text) → Text → Text → Bool
listed state key item = elim (lookup key state) [ none ↦ false | some items ↦ elem item items ]

-- A namespace is listed in a state.
abbrev pub has_key : Dict (List Text) → Text → Bool
has_key state key = elim (lookup key state) [ none ↦ false | some items ↦ true ]

-- An item of the old state that the new state, which has its namespace, does not list.
abbrev pub dropped : Dict (List Text) → Dict (List Text) → Text → Text → Bool
dropped new_state old_state key item =
    listed old_state key item && (has_key new_state key && not (listed new_state key item))
