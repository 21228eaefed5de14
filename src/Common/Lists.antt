-- ===== src/Common/Lists.antt =====
-- Lists measured by native numbers, and predicates and loops over lists.
use Prim.Native.Nat.{ℕ, zero, suc, ◌+◌, ◌≤◌}
use mathlib.Core.Path.{◌≡◌, refl, ap, ◌∙◌}
use mathlib.Core.Bool.{Bool, true, false, ◌||◌, ◌&&◌}
use mathlib.Core.List.{List, [], ◌∷◌, ◌++◌, map}
use native.Mathlib.Omega.{arith}
use avasettile.Common.Tests.{if◌then◌else◌, ◌==◌}

module _ {ℓ} {A : Type ℓ} where
  abbrev pub length : List A → ℕ
  length [] = 0
  length (x ∷ xs) = suc (length xs)

  abbrev pub take : ℕ → List A → List A
  take zero xs = []
  take (suc n) [] = []
  take (suc n) (x ∷ xs) = x ∷ take n xs

  abbrev pub drop : ℕ → List A → List A
  drop zero xs = xs
  drop (suc n) [] = []
  drop (suc n) (x ∷ xs) = drop n xs

  -- `xs.some(test)`
  abbrev pub any : (A → Bool) → List A → Bool
  any test [] = false
  any test (x ∷ xs) = test x || any test xs

  -- `xs.filter(test)`
  abbrev pub filter : (A → Bool) → List A → List A
  filter test [] = []
  filter test (x ∷ xs) = if test x then x ∷ filter test xs else filter test xs

  -- `xs.reduce((sum, x) => sum + f(x), 0n)`
  abbrev pub sum_of : (A → ℕ) → List A → ℕ
  sum_of f [] = 0
  sum_of f (x ∷ xs) = f x + sum_of f xs

  -- `xs.sort(…)`, or `ORDER BY …`: stable, by whether the first may stand before the second.
  abbrev pub insert_sorted : (A → A → Bool) → A → List A → List A
  insert_sorted before x [] = x ∷ []
  insert_sorted before x (y ∷ ys) = if before x y then x ∷ y ∷ ys else y ∷ insert_sorted before x ys

  abbrev pub sort_by : (A → A → Bool) → List A → List A
  sort_by before [] = []
  sort_by before (x ∷ xs) = insert_sorted before x (sort_by before xs)

  -- The predicate holds of every member.
  abbrev pub All {κ} : (A → Type κ) → List A → Type κ
  All P [] = Unit
  All P (x ∷ xs) = P x × All P xs

  pub sum_of-append : (f : A → ℕ) (xs ys : List A) → sum_of f (xs ++ ys) ≡ sum_of f xs + sum_of f ys
  sum_of-append f [] ys = omega arith
  sum_of-append f (x ∷ xs) ys = omega (arith, sum_of-append f xs ys)

-- `[...new Set(ids)]` keeps the first occurrence of each.
abbrev pub member : ℕ → List ℕ → Bool
member i xs = any (λ x. x == i) xs

abbrev pub erase_all : ℕ → List ℕ → List ℕ
erase_all i [] = []
erase_all i (x ∷ xs) = if x == i then erase_all i xs else x ∷ erase_all i xs

module _ {ℓ} {A : Type ℓ} where
  pub any-filter :
      (p test : A → Bool) (xs : List A) → any p (filter test xs) ≡ any (λ x. p x && test x) xs
  any-filter p test [] = refl
  any-filter p test (x ∷ xs) = ground (arith, any-filter p test xs)

  any-insert_sorted :
      (p : A → Bool) (before : A → A → Bool) (x : A) (xs : List A)
      → any p (insert_sorted before x xs) ≡ (p x || any p xs)
  any-insert_sorted p before x [] = refl
  any-insert_sorted p before x (y ∷ ys) = ground (arith, any-insert_sorted p before x ys)

  pub any-sort_by :
      (p : A → Bool) (before : A → A → Bool) (xs : List A) → any p (sort_by before xs) ≡ any p xs
  any-sort_by p before [] = refl
  any-sort_by p before (x ∷ xs) =
      any-insert_sorted p before x (sort_by before xs)
      ∙ ap (λ (b : Bool). p x || b) (any-sort_by p before xs)

  pub any-take : (p : A → Bool) (n : ℕ) (xs : List A) → any p (take n xs) ≡ true → any p xs ≡ true
  any-take p zero xs h = cc
  any-take p (suc n) [] h = h
  any-take p (suc n) (x ∷ xs) h = ground (arith, any-take p n xs)

  pub length-take-le : (n : ℕ) (xs : List A) → length (take n xs) ≤ n
  length-take-le zero xs = omega arith
  length-take-le (suc n) [] = omega arith
  length-take-le (suc n) (x ∷ xs) = omega (arith, length-take-le n xs)

  pub member-map :
      (key : A → ℕ) (i : ℕ) (xs : List A) → member i (map key xs) ≡ any (λ x. key x == i) xs
  member-map key i [] = refl
  member-map key i (x ∷ xs) = ap (λ (b : Bool). (key x == i) || b) (member-map key i xs)

  pub length-map : (key : A → ℕ) (xs : List A) → length (map key xs) ≡ length xs
  length-map key [] = refl
  length-map key (x ∷ xs) = omega (arith, length-map key xs)
