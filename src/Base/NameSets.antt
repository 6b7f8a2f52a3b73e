-- ===== src/Base/NameSets.antt =====
-- Sorted lists of distinct texts are determined by what they hold.
use mathlib.Core.Path.{◌≡◌, refl, ◌∙◌, sym, ap, subst}
use mathlib.Core.Bool.{true, false}
use mathlib.Core.Logic.{∥∥₁_elim, inl, inr}
use mathlib.Core.List.{List, [], ◌∷◌, Perm, Permᴰ}
use native.Mathlib.Omega.{arith}
use jfrog_registry_operator.Base.Tests.{Bool-cases}
use jfrog_registry_operator.Base.Lists.{All}
use jfrog_registry_operator.Base.Texts.{
  Text, eqb, eqb_iff, elem, Distinct, text_le, text_le_total, text_le_antisymm,
}
use jfrog_registry_operator.Base.Sorting.{IsSorted}

elem-Permᴰ : (s : Text) {xs ys : List Text} → Permᴰ xs ys → elem s xs ≡ elem s ys
unfolding elem
elem-Permᴰ s Permᴰ.nil = refl
elem-Permᴰ s (Permᴰ.cons e p) = rw (e, elem-Permᴰ s p) refl
elem-Permᴰ s (Permᴰ.swap {a} {b} {l} e f) = rw (← e, ← f) (ground arith)
elem-Permᴰ s (Permᴰ.trans p q) = elem-Permᴰ s p ∙ elem-Permᴰ s q

pub elem-perm : (s : Text) {xs ys : List Text} → Perm xs ys → elem s xs ≡ elem s ys
elem-perm s p = ∥∥₁_elim p (hlevel) (elem-Permᴰ s)

Distinct-swap : (s t : Text) (l : List Text) → Distinct (s ∷ t ∷ l) → Distinct (t ∷ s ∷ l)
unfolding elem
Distinct-swap s t l h = ground (arith, eqb_iff s t, eqb_iff t s)

Distinct-Permᴰ : {xs ys : List Text} → Permᴰ xs ys → Distinct xs → Distinct ys
unfolding elem
Distinct-Permᴰ Permᴰ.nil h = h
Distinct-Permᴰ (Permᴰ.cons {a} e p) h = rw (← e) (rw (← elem-Permᴰ a p) h.0, Distinct-Permᴰ p h.1)
Distinct-Permᴰ (Permᴰ.swap {a} {b} {a'} {b'} {l} e f) h =
    subst (λ z. Distinct (z ∷ b' ∷ l)) f
      (subst (λ z. Distinct (b ∷ z ∷ l)) e (Distinct-swap a b l h))
Distinct-Permᴰ (Permᴰ.trans p q) h = Distinct-Permᴰ q (Distinct-Permᴰ p h)

Distinct-IsProp : (xs : List Text) → IsProp (Distinct xs)
Distinct-IsProp [] = hlevel
Distinct-IsProp (x ∷ xs) = hlevel (Distinct-IsProp xs)

pub Distinct-perm : {xs ys : List Text} → Perm xs ys → Distinct xs → Distinct ys
Distinct-perm {xs} {ys} p h = ∥∥₁_elim p (Distinct-IsProp ys) (λ d. Distinct-Permᴰ d h)

-- An element of a list satisfies what all do.
elem-All {κ} : (P : Text → Type κ) (s : Text) (xs : List Text) → All P xs → elem s xs ≡ true → P s
unfolding elem
elem-All P s [] all h = cc
elem-All P s (x ∷ xs) all h = elim (Bool-cases (eqb s x)) [
  | inl same ↦ rw ((eqb_iff s x).0 same) all.0
  | inr other ↦ elem-All P s xs all.1 (ground arith)
]

elem_head : (x : Text) (xs : List Text) → elem x (x ∷ xs) ≡ true
unfolding elem
elem_head x xs = ground (arith, eqb_iff x x)

elem_nil : (x : Text) → elem x [] ≡ false
unfolding elem
elem_nil x = refl

text_le_refl : (s : Text) → text_le s s ≡ true
text_le_refl s = ground (arith, text_le_total s s)

head_le :
    (x s : Text) (xs : List Text)
    → IsSorted text_le (x ∷ xs)
    → elem s (x ∷ xs) ≡ true
    → text_le x s ≡ true
head_le x s xs sorted h = elem-All (λ t. text_le x t ≡ true) s (x ∷ xs) (text_le_refl x, sorted.0) h

-- Without the head that they share, two lists of distinct texts still hold the same.
elem-tail :
    (x s : Text) (xs ys : List Text)
    → elem x xs ≡ false
    → elem x ys ≡ false
    → elem s (x ∷ xs) ≡ elem s (x ∷ ys)
    → elem s xs ≡ elem s ys
unfolding elem
elem-tail x s xs ys h k same = elim (Bool-cases (eqb s x)) [
  | inl e ↦ let at : s ≡ x = (eqb_iff s x).0 e in rw at (h ∙ sym k)
  | inr other ↦ ground arith
]

pub IsSorted-ext :
    (xs ys : List Text)
    → IsSorted text_le xs
    → IsSorted text_le ys
    → Distinct xs
    → Distinct ys
    → ((s : Text) → elem s xs ≡ elem s ys)
    → xs ≡ ys
IsSorted-ext [] [] sx sy dx dy same = refl
IsSorted-ext [] (y ∷ ys) sx sy dx dy same =
    absurd (ground (arith, same y, elem_head y ys, elem_nil y))
IsSorted-ext (x ∷ xs) [] sx sy dx dy same =
    absurd (ground (arith, same x, elem_head x xs, elem_nil x))
IsSorted-ext (x ∷ xs) (y ∷ ys) sx sy dx dy same =
    let head : x ≡ y =
      text_le_antisymm x y (head_le x y xs sx (same y ∙ elem_head y ys))
        (head_le y x ys sy (sym (same x) ∙ elem_head x xs)) in
    rw head (
      ap (λ zs. y ∷ zs)
        (IsSorted-ext xs ys sx.1 sy.1 dx.1 dy.1
          (λ s. elem-tail y s xs ys (rw head at dx.0) dy.0 (rw head at (same s)))))
