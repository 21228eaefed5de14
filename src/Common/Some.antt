-- ===== src/Common/Some.antt =====
-- That some member of a list satisfies a predicate, through filters, sorting and limits.
use Prim.Native.Nat.{ℕ, zero, suc, ◌≤◌}
use mathlib.Core.Path.{◌≡◌, refl}
use mathlib.Core.Logic.{◌⊎◌, inl, inr}
use mathlib.Core.Bool.{Bool, true}
use mathlib.Core.List.{List, [], ◌∷◌, ◌++◌}
use native.Mathlib.Omega.{arith}
use avasettile.Common.Tests.{Bool-cases}
use avasettile.Common.Lists.{length, filter, insert_sorted, sort_by, take}

abbrev pub Some : {A : Type 0} → (A → Type 0) → List A → Type 0
Some P [] = ⊥
Some P (x ∷ xs) = P x ⊎ Some P xs

module _ {A : Type 0} where
  length-filter-le : (test : A → Bool) (xs : List A) → length (filter test xs) ≤ length xs
  length-filter-le test [] = omega arith
  length-filter-le test (x ∷ xs) = ground (arith, length-filter-le test xs)

  length-insert_sorted :
      (before : A → A → Bool) (x : A) (xs : List A)
      → length (insert_sorted before x xs) ≡ suc (length xs)
  length-insert_sorted before x [] = refl
  length-insert_sorted before x (y ∷ ys) = ground (arith, length-insert_sorted before x ys)

  length-sort_by : (before : A → A → Bool) (xs : List A) → length (sort_by before xs) ≡ length xs
  length-sort_by before [] = refl
  length-sort_by before (x ∷ xs) =
      omega (arith, length-insert_sorted before x (sort_by before xs), length-sort_by before xs)

module _ {A : Type 0} (P : A → Type 0) where
  pub Some-filter :
      (test : A → Bool)
      → ((x : A) → P x → test x ≡ true)
      → (xs : List A) → Some P xs
      → Some P (filter test xs)
  Some-filter test holds [] h = h
  Some-filter test holds (x ∷ xs) (inl h) = rw (holds x h) (inl h)
  Some-filter test holds (x ∷ xs) (inr h) = elim (Bool-cases (test x)) [
    | inl kept ↦ rw kept (inr (Some-filter test holds xs h))
    | inr dropped ↦ rw dropped (Some-filter test holds xs h)
  ]

  Some-insert_sorted :
      (before : A → A → Bool) (x : A) (xs : List A)
      → P x ⊎ Some P xs
      → Some P (insert_sorted before x xs)
  Some-insert_sorted before x [] h = h
  Some-insert_sorted before x (y ∷ ys) h = elim (Bool-cases (before x y)) [
    | inl first ↦ rw first h
    | inr later ↦ rw later (elim h [
      | inl here ↦ inr (Some-insert_sorted before x ys (inl here))
      | inr there ↦ elim there [
        | inl head ↦ inl head
        | inr tail ↦ inr (Some-insert_sorted before x ys (inr tail))
      ]
    ])
  ]

  Some-sort_by : (before : A → A → Bool) (xs : List A) → Some P xs → Some P (sort_by before xs)
  Some-sort_by before [] h = h
  Some-sort_by before (x ∷ xs) (inl h) = Some-insert_sorted before x (sort_by before xs) (inl h)
  Some-sort_by before (x ∷ xs) (inr h) =
      Some-insert_sorted before x (sort_by before xs) (inr (Some-sort_by before xs h))

  Some-take : (n : ℕ) (xs : List A) → length xs ≤ n → Some P xs → Some P (take n xs)
  Some-take n [] le h = absurd h
  Some-take zero (x ∷ xs) le h = absurd (omega arith)
  Some-take (suc n) (x ∷ xs) le (inl h) = inl h
  Some-take (suc n) (x ∷ xs) le (inr h) = inr (Some-take n xs (omega arith) h)

  -- A limit that the whole list does not reach.
  pub Some-page :
      (n : ℕ) (before : A → A → Bool) (test : A → Bool)
      → ((x : A) → P x → test x ≡ true)
      → (xs : List A) → length xs ≤ n
      → Some P xs
      → Some P (take n (sort_by before (filter test xs)))
  Some-page n before test holds xs le h =
      Some-take n (sort_by before (filter test xs))
        (omega (arith, length-sort_by before (filter test xs), length-filter-le test xs))
        (Some-sort_by before (filter test xs) (Some-filter test holds xs h))

  pub Some-append_left : (xs ys : List A) → Some P xs → Some P (xs ++ ys)
  Some-append_left [] ys h = absurd h
  Some-append_left (x ∷ xs) ys (inl h) = inl h
  Some-append_left (x ∷ xs) ys (inr h) = inr (Some-append_left xs ys h)

  pub Some-append_right : (xs ys : List A) → Some P ys → Some P (xs ++ ys)
  Some-append_right [] ys h = h
  Some-append_right (x ∷ xs) ys h = inr (Some-append_right xs ys h)
