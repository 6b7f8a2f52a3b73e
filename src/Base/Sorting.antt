-- ===== src/Base/Sorting.antt =====
-- `sort.Strings` and `sort.Slice`, as insertion sort over a Boolean order.
use mathlib.Core.Path.{◌≡◌, refl, ◌∙◌}
use mathlib.Core.Bool.{Bool, true, ◌||◌}
use mathlib.Core.Logic.{∥∥₁_elim, inl, inr}
use mathlib.Core.List.{List, [], ◌∷◌, Perm, Permᴰ}
use native.Mathlib.Omega.{arith}
use jfrog_registry_operator.Base.Tests.{if◌then◌else◌, Bool-cases}
use jfrog_registry_operator.Base.Lists.{All}
use mathlib.Core.List.Perm

list_set {ℓ} : {A : Type ℓ} → IsSet A → IsSet (List A)
list_set s = hlevel s

module _ {ℓ} {A : Type ℓ} (le : A → A → Bool) where
  unfoldable pub insert : A → List A → List A
  insert x [] = x ∷ []
  insert x (y ∷ ys) = if le x y then x ∷ y ∷ ys else y ∷ insert x ys

  unfoldable pub sort : List A → List A
  unfolding insert
  sort [] = []
  sort (x ∷ xs) = insert x (sort xs)

  abbrev pub IsSorted : List A → Type ℓ
  IsSorted [] = Unit
  IsSorted (x ∷ xs) = All (λ y. le x y ≡ true) xs × IsSorted xs

  pub insert-perm : (x : A) (xs : List A) → Perm (insert x xs) (x ∷ xs)
  unfolding insert
  insert-perm x [] = Perm.refl _
  insert-perm x (y ∷ ys) = elim (Bool-cases (le x y)) [
    | inl h ↦ rw h (Perm.refl _)
    | inr h ↦ rw h (Perm.trans (Perm.cons y (insert-perm x ys)) (Perm.swap x y ys))
  ]

  pub sort-perm : (xs : List A) → Perm (sort xs) xs
  unfolding sort
  sort-perm [] = Perm.refl []
  sort-perm (x ∷ xs) = Perm.trans (insert-perm x (sort xs)) (Perm.cons x (sort-perm xs))

  module _ (total : (x y : A) → (le x y || le y x) ≡ true)
      (transitive : (x y z : A) → le x y ≡ true → le y z ≡ true → le x z ≡ true) where
    All-le_trans :
        (x y : A) (zs : List A)
        → le x y ≡ true
        → All (λ z. le y z ≡ true) zs
        → All (λ z. le x z ≡ true) zs
    All-le_trans x y [] h hs = tt
    All-le_trans x y (z ∷ zs) h hs = (transitive x y z h hs.0, All-le_trans x y zs h hs.1)

    All-insert :
        (x y : A) (zs : List A)
        → le x y ≡ true
        → All (λ z. le x z ≡ true) zs
        → All (λ z. le x z ≡ true) (insert y zs)
    unfolding insert
    All-insert x y [] h hs = (h, tt)
    All-insert x y (z ∷ zs) h hs = ground (arith, All-insert x y zs h hs.1)

    insert-IsSorted : (x : A) (ys : List A) → IsSorted ys → IsSorted (insert x ys)
    unfolding insert
    insert-IsSorted x [] h = (tt, tt)
    insert-IsSorted x (y ∷ ys) h =
        ground (arith, total x y, All-le_trans x y ys, All-insert y x ys, insert-IsSorted x ys h.1)

    pub sort-IsSorted : (xs : List A) → IsSorted (sort xs)
    unfolding sort
    sort-IsSorted [] = tt
    sort-IsSorted (x ∷ xs) = insert-IsSorted x (sort xs) (sort-IsSorted xs)

    module _ (antisymm : (x y : A) → le x y ≡ true → le y x ≡ true → x ≡ y) where
      insert_comm : (x y : A) (zs : List A) → insert x (insert y zs) ≡ insert y (insert x zs)
      unfolding insert
      insert_comm x y [] = ground (arith, total x y, antisymm x y)
      insert_comm x y (z ∷ zs) = ground (
        arith,
        total x y,
        total x z,
        total y z,
        antisymm x y,
        transitive x y z,
        transitive y x z,
        transitive x z y,
        transitive y z x,
        insert_comm x y zs,
      )

      sort-Permᴰ : {xs ys : List A} → Permᴰ xs ys → sort xs ≡ sort ys
      unfolding sort
      sort-Permᴰ Permᴰ.nil = refl
      sort-Permᴰ (Permᴰ.cons e p) = rw (e, sort-Permᴰ p)
      sort-Permᴰ (Permᴰ.swap {a} {b} {l} e f) = rw (← e, ← f) (insert_comm a b (sort l))
      sort-Permᴰ (Permᴰ.trans p q) = sort-Permᴰ p ∙ sort-Permᴰ q

      -- The result does not depend on the order in which the elements come.
      pub sort_of_perm : IsSet A → {xs ys : List A} → Perm xs ys → sort xs ≡ sort ys
      sort_of_perm is_set p = ∥∥₁_elim p (list_set is_set _ _) sort-Permᴰ
