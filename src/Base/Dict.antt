-- ===== src/Base/Dict.antt =====
-- Go maps with text keys, as association lists. Where the code ranges over a map, the order of the
-- list stands for the order that the range happens to take.
use mathlib.Core.Bool.{◌||◌, true, false}
use jfrog_registry_operator.Base.Texts.{Distinct, Text, eqb, eqb_iff, elem}
use mathlib.Core.Path.{◌≡◌, refl}
use mathlib.Core.Option.{Option, none, some}
use mathlib.Core.List.{List, [], ◌∷◌}
use native.Mathlib.Omega.{arith}
use jfrog_registry_operator.Base.Tests.{if◌then◌else◌}

abbrev pub Dict {ℓ} : Type ℓ → Type ℓ
Dict V = List (Text × V)

module _ {ℓ} {V : Type ℓ} where
  -- `v, ok := m[k]`
  unfoldable pub lookup : Text → Dict V → Option V
  lookup k [] = none
  lookup k ((j, v) ∷ m) = if eqb j k then some v else lookup k m

  -- `m[k] = v`
  unfoldable pub insert : Text → V → Dict V → Dict V
  insert k v [] = (k, v) ∷ []
  insert k v ((j, w) ∷ m) = if eqb j k then (j, v) ∷ m else (j, w) ∷ insert k v m

  -- `m[k]`, with the zero value where the key is missing.
  unfoldable pub get_or : V → Text → Dict V → V
  unfolding lookup
  get_or d k m = elim (lookup k m) [ none ↦ d | some v ↦ v ]

  unfoldable pub keys : Dict V → List Text
  keys [] = []
  keys ((k, _) ∷ m) = k ∷ keys m

  pub lookup-insert :
      (k j : Text) (v : V) (m : Dict V)
      → lookup j (insert k v m) ≡ (if eqb k j then some v else lookup j m)
  unfolding lookup insert
  lookup-insert k j v [] = refl
  lookup-insert k j v ((i, w) ∷ m) =
      ground (arith, eqb_iff k j, eqb_iff i k, eqb_iff i j, lookup-insert k j v m)

  pub lookup-insert_self : (k : Text) (v : V) (m : Dict V) → lookup k (insert k v m) ≡ some v
  lookup-insert_self k v m = ground (arith, lookup-insert k k v m, eqb_iff k k)

  -- A key has an entry exactly when it is listed.
  pub lookup-elem-keys :
      (k : Text) (m : Dict V) → elem k (keys m) ≡ elim (lookup k m) [ none ↦ false | some v ↦ true ]
  unfolding lookup keys elem
  lookup-elem-keys k [] = refl
  lookup-elem-keys k ((j, w) ∷ m) = ground (arith, eqb_iff j k, eqb_iff k j, lookup-elem-keys k m)

  pub elem-keys-insert :
      (j k : Text) (v : V) (m : Dict V)
      → elem j (keys (insert k v m)) ≡ (eqb k j || elem j (keys m))
  unfolding insert keys elem
  elem-keys-insert j k v [] = ground (arith, eqb_iff k j, eqb_iff j k)
  elem-keys-insert j k v ((i, w) ∷ m) =
      ground (arith, eqb_iff k j, eqb_iff i k, eqb_iff j i, elem-keys-insert j k v m)

  pub insert-Distinct :
      (k : Text) (v : V) (m : Dict V) → Distinct (keys m) → Distinct (keys (insert k v m))
  unfolding insert keys elem
  insert-Distinct k v [] h = (refl, tt)
  insert-Distinct k v ((i, w) ∷ m) h =
      ground (arith, eqb_iff i k, eqb_iff k i, elem-keys-insert i k v m, insert-Distinct k v m)
