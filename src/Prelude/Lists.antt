-- ===== src/Prelude/Lists.antt =====
-- Lists over the native numbers, and the two ends of a list.
use mathlib.Core.List.{append_assoc}
use swiftpaste.Prelude.{ℕ, suc, ◌≡◌, refl, sym, ap, ◌∙◌, Option, none, some, List, [], ◌∷◌, ◌++◌}

abbrev pub length {ℓ} : {A : Type ℓ} → List A → ℕ
length [] = 0
length (x ∷ xs) = suc (length xs)

-- 1 for a value.
abbrev pub one_if {ℓ} : {A : Type ℓ} → Option A → ℕ
one_if none = 0
one_if (some _) = 1

module _ {A : Type 0} where
  -- The last element, and the elements before it.
  abbrev pub last : List A → Option A
  last [] = none
  last (x ∷ []) = some x
  last (x ∷ y ∷ ys) = last (y ∷ ys)

  abbrev pub init : List A → List A
  init [] = []
  init (x ∷ []) = []
  init (x ∷ y ∷ ys) = x ∷ init (y ∷ ys)

  pub last-append : (xs : List A) (y : A) (ys : List A) → last (xs ++ (y ∷ ys)) ≡ last (y ∷ ys)
  last-append [] y ys = refl
  last-append (x ∷ []) y ys = refl
  last-append (x ∷ x' ∷ xs) y ys = last-append (x' ∷ xs) y ys

  pub last-some : (y : A) (ys : List A) → (x : A) × (last (y ∷ ys) ≡ some x)
  last-some y [] = (y, refl)
  last-some y (z ∷ zs) = last-some z zs

  pub init-append :
      (xs : List A) (y : A) (ys : List A) → init (xs ++ (y ∷ ys)) ≡ xs ++ init (y ∷ ys)
  init-append [] y ys = refl
  init-append (x ∷ []) y ys = refl
  init-append (x ∷ x' ∷ xs) y ys = ap (λ l. x ∷ l) (init-append (x' ∷ xs) y ys)

  pub length-init : (y : A) (ys : List A) → length (init (y ∷ ys)) ≡ length ys
  length-init y [] = refl
  length-init y (z ∷ zs) = ap suc (length-init z zs)

  -- `ys` has been put in front of `xs`.
  abbrev pub HasInFront : List A → List A → Type 0
  HasInFront xs zs = (ys : List A) × (zs ≡ ys ++ xs)

  pub HasInFront-trans :
      {xs ys zs : List A} → HasInFront xs ys → HasInFront ys zs → HasInFront xs zs
  HasInFront-trans {xs} (l, e) (l', e') =
      (l' ++ l, e' ∙ ap (λ r. l' ++ r) e ∙ sym (append_assoc l' l xs))
