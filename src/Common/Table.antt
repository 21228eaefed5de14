-- ===== src/Common/Table.antt =====
-- A database table as the list of its rows in order of insertion, with a numeric primary key.
use Prim.Native.Nat.{ℕ}
use mathlib.Core.Path.{◌≡◌, refl, subst}
use mathlib.Core.Logic.{inl, inr}
use mathlib.Core.Option
use mathlib.Core.Option.{Option, none, some}
use mathlib.Core.List.{List, [], ◌∷◌, ◌++◌, map}
use native.Mathlib.Omega.{arith}
use avasettile.Common.Tests.{if◌then◌else◌, ◌==◌, Bool-cases}
use avasettile.Common.Lists.{All}

module _ {A : Type 0} (key : A → ℕ) where
  -- `SELECT … WHERE id = $1`
  abbrev pub find_row : ℕ → List A → Option A
  find_row i [] = none
  find_row i (r ∷ rs) = if key r == i then some r else find_row i rs

  -- `UPDATE … SET … WHERE id = $1`
  abbrev pub update_row : ℕ → (A → A) → List A → List A
  update_row i f [] = []
  update_row i f (r ∷ rs) = if key r == i then f r ∷ rs else r ∷ update_row i f rs

  -- `DELETE … WHERE id = $1`
  abbrev pub delete_row : ℕ → List A → List A
  delete_row i [] = []
  delete_row i (r ∷ rs) = if key r == i then rs else r ∷ delete_row i rs

  pub find_row-update_row :
      (f : A → A)
      → ((r : A) → key (f r) ≡ key r)
      → (i j : ℕ) (rs : List A)
      → find_row j (update_row i f rs)
        ≡ (if i == j then Option.map f (find_row j rs) else find_row j rs)
  find_row-update_row f keeps i j [] = ground arith
  find_row-update_row f keeps i j (r ∷ rs) =
      ground (arith, keeps r, find_row-update_row f keeps i j rs)

  pub find_row-append :
      (j : ℕ) (rs : List A) (r : A)
      → find_row j (rs ++ r ∷ [])
        ≡ elim (find_row j rs) [ some q ↦ some q | none ↦ if key r == j then some r else none ]
  find_row-append j [] r = refl
  find_row-append j (q ∷ rs) r = ground (arith, find_row-append j rs r)

  pub key-find_row : (j : ℕ) (rs : List A) (r : A) → find_row j rs ≡ some r → key r ≡ j
  key-find_row j [] r h = cc
  key-find_row j (q ∷ rs) r h = ground (arith, key-find_row j rs r)

  pub find_row-map :
      (f : A → A)
      → ((r : A) → key (f r) ≡ key r)
      → (j : ℕ) (rs : List A) → find_row j (map f rs) ≡ Option.map f (find_row j rs)
  find_row-map f keeps j [] = refl
  find_row-map f keeps j (r ∷ rs) = ground (arith, keeps r, find_row-map f keeps j rs)

-- What holds of every row.
module _ {A : Type 0} (P : A → Type 0) where
  pub All-append : (xs : List A) (x : A) → All P xs → P x → All P (xs ++ x ∷ [])
  All-append [] x hs h = (h, tt)
  All-append (y ∷ ys) x (h', hs) h = (h', All-append ys x hs h)

  module _ (key : A → ℕ) where
    pub All-find_row : (i : ℕ) (xs : List A) (x : A) → All P xs → find_row key i xs ≡ some x → P x
    All-find_row i [] x h e = cc
    All-find_row i (y ∷ ys) x (h, hs) e = elim (Bool-cases (key y == i)) [
      | inl same ↦ let eq : y ≡ x = cc (rw same at e) in subst P eq h
      | inr other ↦ All-find_row i ys x hs (rw other at e)
    ]

    pub All-delete_row : (i : ℕ) (xs : List A) → All P xs → All P (delete_row key i xs)
    All-delete_row i [] h = tt
    All-delete_row i (y ∷ ys) (h, hs) = elim (Bool-cases (key y == i)) [
      | inl same ↦ rw same hs
      | inr other ↦ rw other (h, All-delete_row i ys hs)
    ]

    pub All-update_row :
        (i : ℕ) (f : A → A) (xs : List A)
        → ((x : A) → P x → P (f x))
        → All P xs
        → All P (update_row key i f xs)
    All-update_row i f [] keep h = tt
    All-update_row i f (y ∷ ys) keep (h, hs) = elim (Bool-cases (key y == i)) [
      | inl same ↦ rw same (keep y h, hs)
      | inr other ↦ rw other (h, All-update_row i f ys keep hs)
    ]
