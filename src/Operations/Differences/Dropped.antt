-- ===== src/Operations/Differences/Dropped.antt =====
-- Which secrets the comparison of the two states reports.
use jfrog_registry_operator.Base.{
  Bool-cases, inr, inl, ◌||◌, All, Text, eqb, elem, eqb_iff, List, [], ◌∷◌, Option, none, some,
  Bool, true, false, not, ◌&&◌, is_empty, ◌≡◌, refl, if◌then◌else◌, arith, Distinct,
}
use jfrog_registry_operator.Base.Dict.{
  Dict, lookup, insert, keys, lookup-insert, lookup-elem-keys, insert-Distinct,
}
use jfrog_registry_operator.Operations.Differences.{
  find_string_slice_difference, note, differences_loop, find_secret_differences, differs, dropped,
}

elem-difference :
    (x : Text) (a b : List Text)
    → elem x (find_string_slice_difference a b) ≡ (elem x a && not (elem x b))
unfolding find_string_slice_difference elem
elem-difference x [] b = refl
elem-difference x (y ∷ a) b = ground (arith, elem-difference x a b, eqb_iff x y)

is_empty-elem : (x : Text) (l : List Text) → is_empty l ≡ true → elem x l ≡ false
unfolding elem
is_empty-elem x [] h = refl
is_empty-elem x (y ∷ l) h = cc

-- No key of a state has an entry yet.
abbrev Fresh : Dict (List Text) → List Text → Type 0
Fresh found = All (λ key. lookup key found ≡ none)

Fresh-insert :
    (key : Text) (items : List Text) (found : Dict (List Text)) (ks : List Text)
    → elem key ks ≡ false
    → Fresh found ks
    → Fresh (insert key items found) ks
unfolding elem
Fresh-insert key items found [] absent h = tt
Fresh-insert key items found (k ∷ ks) absent h = (
  ground (arith, lookup-insert key k items found, eqb_iff key k),
  Fresh-insert key items found ks (ground arith) h.1,
)

Fresh-insert_if :
    (b : Bool) (key : Text) (items : List Text) (found : Dict (List Text)) (ks : List Text)
    → elem key ks ≡ false
    → Fresh found ks
    → Fresh (if b then found else insert key items found) ks
Fresh-insert_if true key items found ks absent h = h
Fresh-insert_if false key items found ks absent h = Fresh-insert key items found ks absent h

Fresh-note :
    (key : Text) (old_values : List Text) (new : Option (List Text)) (found : Dict (List Text))
    (ks : List Text)
    → elem key ks ≡ false
    → Fresh found ks
    → Fresh (note key old_values new found) ks
unfolding note
Fresh-note key old_values none found ks absent h = h
Fresh-note key old_values (some new_values) found ks absent h =
    Fresh-insert_if (is_empty diff) key diff found ks absent h
  where
    diff : List Text
    diff = find_string_slice_difference old_values new_values

differs-note :
    (key : Text) (old_values : List Text) (new : Option (List Text)) (found : Dict (List Text))
    (k item : Text)
    → lookup key found ≡ none
    → differs (note key old_values new found) k item ≡ (
        differs found k item
        || (eqb key k
            && (elem item old_values
                && elim new [ none ↦ false | some new_values ↦ not (elem item new_values) ])))
unfolding note
differs-note key old_values none found k item fresh = ground arith
differs-note key old_values (some new_values) found k item fresh = ground (
  arith,
  lookup-insert key k (find_string_slice_difference old_values new_values) found,
  elem-difference item old_values new_values,
  is_empty-elem item (find_string_slice_difference old_values new_values),
  eqb_iff key k,
)

Fresh-nil : (ks : List Text) → Fresh [] ks
unfolding lookup
Fresh-nil [] = tt
Fresh-nil (k ∷ ks) = (refl, Fresh-nil ks)

is_empty-differs :
    (found : Dict (List Text)) (key item : Text)
    → is_empty found ≡ true
    → differs found key item ≡ false
unfolding lookup
is_empty-differs [] key item h = refl
is_empty-differs (x ∷ found) key item h = cc

differs-loop :
    (new_state old_state found : Dict (List Text)) (k item : Text)
    → Distinct (keys old_state)
    → Fresh found (keys old_state)
    → differs (differences_loop new_state old_state found) k item
      ≡ (differs found k item || dropped new_state old_state k item)
unfolding differences_loop keys lookup
differs-loop new_state [] found k item distinct fresh = ground arith
differs-loop new_state ((key, old_values) ∷ rest) found k item distinct fresh = ground (
  arith,
  differs-loop new_state rest (note key old_values (lookup key new_state) found) k item distinct.1
      (Fresh-note key old_values (lookup key new_state) found (keys rest) distinct.0 fresh.1),
  differs-note key old_values (lookup key new_state) found k item fresh.0,
  lookup-elem-keys key rest,
  eqb_iff key k,
)

note-Distinct :
    (key : Text) (old_values : List Text) (new : Option (List Text)) (found : Dict (List Text))
    → Distinct (keys found)
    → Distinct (keys (note key old_values new found))
unfolding note
note-Distinct key old_values none found h = h
note-Distinct key old_values (some new_values) found h =
    elim (Bool-cases (is_empty (find_string_slice_difference old_values new_values))) [
      | inl same ↦ rw (same, note) h
      | inr more ↦ rw (more, note) (insert-Distinct key _ found h)
    ]

differences_loop-Distinct :
    (new_state old_state found : Dict (List Text))
    → Distinct (keys found)
    → Distinct (keys (differences_loop new_state old_state found))
unfolding differences_loop
differences_loop-Distinct new_state [] found h = h
differences_loop-Distinct new_state ((key, old_values) ∷ rest) found h =
    differences_loop-Distinct new_state rest _ (note-Distinct key old_values _ found h)

-- No namespace has two entries among the differences.
pub find_secret_differences-Distinct :
    (new_state old_state : Dict (List Text))
    → Distinct (keys (find_secret_differences new_state old_state).0)
unfolding find_secret_differences keys
find_secret_differences-Distinct new_state old_state =
    ground (arith, differences_loop-Distinct new_state old_state [] tt)

-- Where nothing has changed, nothing differs.
pub differs-unchanged :
    (new_state old_state : Dict (List Text)) (key item : Text)
    → (find_secret_differences new_state old_state).1 ≡ false
    → differs (find_secret_differences new_state old_state).0 key item ≡ false
unfolding find_secret_differences lookup
differs-unchanged new_state old_state key item h = ground arith

-- Where the old state lists no namespace twice, the differences are exactly what the new state has
-- dropped from a namespace that it lists.
pub differs-find_secret_differences :
    (new_state old_state : Dict (List Text)) (key item : Text)
    → Distinct (keys old_state)
    → differs (find_secret_differences new_state old_state).0 key item
      ≡ dropped new_state old_state key item
unfolding find_secret_differences lookup
differs-find_secret_differences new_state old_state key item distinct = ground (
  arith,
  differs-loop new_state old_state [] key item distinct (Fresh-nil (keys old_state)),
  is_empty-differs (differences_loop new_state old_state []) key item,
)
