-- ===== src/Prelude/Sort.antt =====
-- `sort.Slice` with a strict order: insertion into a sorted list. With an order that tells any two
-- elements apart every sorting algorithm has this result.
use Prim.Native.Nat.{ℕ, ◌+◌, suc}
use mathlib.Core.Path.{◌≡◌, refl}
use mathlib.Core.Logic.{inl, inr}
use mathlib.Core.Bool.{Bool, true, false}
use mathlib.Core.List.{List, [], ◌∷◌}
use native.Mathlib.Omega.{arith}
use steem_virtual_machine_ev.Prelude.Tests.{Bool-cases, ltb, ◌==◌, if◌then◌else◌}
use steem_virtual_machine_ev.Prelude.Lists.{Bytes, length, sum_by, All}

module _ {ℓ} {A : Type ℓ} where
  unfoldable pub insert_by : (A → A → Bool) → A → List A → List A
  insert_by less x [] = x ∷ []
  insert_by less x (y ∷ ys) =
      let rest = insert_by less x ys in if less y x then y ∷ rest else x ∷ y ∷ ys

  unfoldable pub sort_by : (A → A → Bool) → List A → List A
  unfolding insert_by
  sort_by less [] = []
  sort_by less (x ∷ xs) = insert_by less x (sort_by less xs)

  sum_by-insert_by :
      (f : A → ℕ) (less : A → A → Bool) (x : A) (xs : List A)
      → sum_by f (insert_by less x xs) ≡ f x + sum_by f xs
  unfolding insert_by
  sum_by-insert_by f less x [] = refl
  sum_by-insert_by f less x (y ∷ ys) = ground (arith, sum_by-insert_by f less x ys)

  pub sum_by-sort_by :
      (f : A → ℕ) (less : A → A → Bool) (xs : List A) → sum_by f (sort_by less xs) ≡ sum_by f xs
  unfolding sort_by
  sum_by-sort_by f less [] = refl
  sum_by-sort_by f less (x ∷ xs) =
      ground (arith, sum_by-insert_by f less x (sort_by less xs), sum_by-sort_by f less xs)

  length-insert_by :
      (less : A → A → Bool) (x : A) (xs : List A) → length (insert_by less x xs) ≡ suc (length xs)
  unfolding insert_by
  length-insert_by less x [] = refl
  length-insert_by less x (y ∷ ys) = ground (arith, length-insert_by less x ys)

  pub length-sort_by : (less : A → A → Bool) (xs : List A) → length (sort_by less xs) ≡ length xs
  unfolding sort_by
  length-sort_by less [] = refl
  length-sort_by less (x ∷ xs) =
      ground (arith, length-insert_by less x (sort_by less xs), length-sort_by less xs)

  All-insert_by :
      (P : A → Type 0) (less : A → A → Bool) (x : A) (xs : List A)
      → P x
      → All P xs
      → All P (insert_by less x xs)
  unfolding insert_by
  All-insert_by P less x [] h a = (h, tt)
  All-insert_by P less x (y ∷ ys) h a = elim (Bool-cases (less y x)) [
    | inl before ↦ rw before (a.0, All-insert_by P less x ys h a.1)
    | inr after ↦ rw after (h, a)
  ]

  pub All-sort_by :
      (P : A → Type 0) (less : A → A → Bool) (xs : List A) → All P xs → All P (sort_by less xs)
  unfolding sort_by
  All-sort_by P less [] a = tt
  All-sort_by P less (x ∷ xs) a =
      All-insert_by P less x (sort_by less xs) a.0 (All-sort_by P less xs a.1)

-- `<` on strings.
unfoldable pub bytes_ltb : Bytes → Bytes → Bool
bytes_ltb [] [] = false
bytes_ltb [] (y ∷ ys) = true
bytes_ltb (x ∷ xs) [] = false
bytes_ltb (x ∷ xs) (y ∷ ys) = let rest = bytes_ltb xs ys in if x == y then rest else ltb x y
