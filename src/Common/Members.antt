-- ===== src/Common/Members.antt =====
-- What holds of every member of a list that is filtered, sorted, cut or turned around.
use mathlib.Core.Path.{◌≡◌, refl}
use mathlib.Core.Logic.{inl, inr}
use mathlib.Core.Bool.{Bool, true}
use mathlib.Core.List.{List, [], ◌∷◌, ◌++◌}
use Prim.Native.Nat.{ℕ, zero, suc}
use avasettile.Common.Tests.{Bool-cases}
use native.Mathlib.Omega.{arith}
use avasettile.Common.Lists.{length, filter, insert_sorted, sort_by, take, All}

-- `xs.reverse()`
abbrev pub reverse : {A : Type 0} → List A → List A
reverse [] = []
reverse (x ∷ xs) = reverse xs ++ x ∷ []

pub All-filter :
    {A : Type 0} (test : A → Bool) (xs : List A) → All (λ x. test x ≡ true) (filter test xs)
All-filter test [] = tt
All-filter test (x ∷ xs) = elim (Bool-cases (test x)) [
  | inl holds ↦ rw holds (holds, All-filter test xs)
  | inr fails ↦ rw fails (All-filter test xs)
]

module _ {A : Type 0} (P : A → Type 0) where
  All-insert_sorted :
      (before : A → A → Bool) (x : A) (xs : List A)
      → P x
      → All P xs
      → All P (insert_sorted before x xs)
  All-insert_sorted before x [] h hs = (h, tt)
  All-insert_sorted before x (y ∷ ys) h (k, ks) = elim (Bool-cases (before x y)) [
    | inl holds ↦ rw holds (h, (k, ks))
    | inr fails ↦ rw fails (k, All-insert_sorted before x ys h ks)
  ]

  pub All-sort_by : (before : A → A → Bool) (xs : List A) → All P xs → All P (sort_by before xs)
  All-sort_by before [] h = tt
  All-sort_by before (x ∷ xs) (h, hs) =
      All-insert_sorted before x (sort_by before xs) h (All-sort_by before xs hs)

  pub All-take : (n : ℕ) (xs : List A) → All P xs → All P (take n xs)
  All-take zero xs h = tt
  All-take (suc n) [] h = tt
  All-take (suc n) (x ∷ xs) (h, hs) = (h, All-take n xs hs)

  All-snoc : (xs : List A) (x : A) → All P xs → P x → All P (xs ++ x ∷ [])
  All-snoc [] x hs h = (h, tt)
  All-snoc (y ∷ ys) x (k, ks) h = (k, All-snoc ys x ks h)

  pub All-reverse : (xs : List A) → All P xs → All P (reverse xs)
  All-reverse [] h = tt
  All-reverse (x ∷ xs) (h, hs) = All-snoc (reverse xs) x (All-reverse xs hs) h

length-snoc : {A : Type 0} (xs : List A) (x : A) → length (xs ++ x ∷ []) ≡ suc (length xs)
length-snoc [] x = refl
length-snoc (y ∷ ys) x = omega (arith, length-snoc ys x)

pub length-reverse : {A : Type 0} (xs : List A) → length (reverse xs) ≡ length xs
length-reverse [] = refl
length-reverse (x ∷ xs) = omega (arith, length-snoc (reverse xs) x, length-reverse xs)

pub All-map :
    {A : Type 0} (P Q : A → Type 0) (xs : List A) → ((x : A) → P x → Q x) → All P xs → All Q xs
All-map P Q [] f h = tt
All-map P Q (x ∷ xs) f (h, hs) = (f x h, All-map P Q xs f hs)

pub All-filter_of :
    {A : Type 0} (P : A → Type 0) (test : A → Bool) (xs : List A)
    → All P xs
    → All P (filter test xs)
All-filter_of P test [] h = tt
All-filter_of P test (x ∷ xs) (h, hs) = elim (Bool-cases (test x)) [
  | inl holds ↦ rw holds (h, All-filter_of P test xs hs)
  | inr fails ↦ rw fails (All-filter_of P test xs hs)
]
