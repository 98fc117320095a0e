-- ===== src/Prelude/Lists.antt =====
-- Lists measured and indexed by native numbers, under the library's names, and byte strings.
use Prim.Native.Nat.{ℕ, zero, suc, ◌+◌, ◌≤◌}
use mathlib.Core.Path.{◌≡◌, refl, ap}
use mathlib.Core.List.{List, [], ◌∷◌, ◌++◌}
use native.Mathlib.Omega.{arith}
use Prim.Native.Char.{code}
use Prim.Native.String.{String}

-- A Go string is a sequence of bytes.
abbrev pub Bytes : Type 0
Bytes = List ℕ

-- The code points of a literal: its bytes, since every literal here is ASCII.
abbrev pub codes : String → Bytes
codes String.[] = []
codes (String.◌∷◌ c s) = code c ∷ codes s

module _ {ℓ} {A : Type ℓ} where
  abbrev pub length : List A → ℕ
  length [] = 0
  length (x ∷ xs) = suc (length xs)

  abbrev pub take : ℕ → List A → List A
  take zero xs = []
  take (suc n) [] = []
  take (suc n) (x ∷ xs) = x ∷ take n xs

  pub length-append : (xs ys : List A) → length (xs ++ ys) ≡ length xs + length ys
  length-append [] ys = omega arith
  length-append (x ∷ xs) ys = omega (arith, length-append xs ys)

  pub length-take : (n : ℕ) (xs : List A) → n ≤ length xs → length (take n xs) ≡ n
  length-take zero xs h = refl
  length-take (suc n) [] h = elim h [ ]
  length-take (suc n) (x ∷ xs) h = omega (arith, length-take n xs (omega arith))

  pub length-take-le : (n : ℕ) (xs : List A) → length (take n xs) ≤ n
  length-take-le zero xs = omega arith
  length-take-le (suc n) [] = omega arith
  length-take-le (suc n) (x ∷ xs) = omega (arith, length-take-le n xs)

-- The sum of a measure over a list.
abbrev pub sum_by {ℓ} : {A : Type ℓ} → (A → ℕ) → List A → ℕ
sum_by f [] = 0
sum_by f (x ∷ xs) = f x + sum_by f xs

-- A predicate on every element, by recursion.
abbrev pub All {ℓ κ} : {A : Type ℓ} → (A → Type κ) → List A → Type κ
All P [] = Unit
All P (x ∷ xs) = P x × All P xs

-- Lists with parts of one length agree part by part.
pub append_inj {ℓ} :
    {A : Type ℓ} (xs ys us vs : List A)
    → length xs ≡ length ys
    → xs ++ us ≡ ys ++ vs
    → (xs ≡ ys) × (us ≡ vs)
append_inj [] [] us vs h e = (refl, e)
append_inj [] (y ∷ ys) us vs h e = absurd (omega arith)
append_inj (x ∷ xs) [] us vs h e = absurd (omega arith)
append_inj (x ∷ xs) (y ∷ ys) us vs h e = ground (arith, append_inj xs ys us vs)

pub append_cancel-right {ℓ} : {A : Type ℓ} (xs ys zs : List A) → xs ++ zs ≡ ys ++ zs → xs ≡ ys
append_cancel-right xs ys zs e =
    let same : length (xs ++ zs) ≡ length (ys ++ zs) = ap length e in
    let parts =
      append_inj xs ys zs zs (omega (arith, length-append xs zs, length-append ys zs, same)) e in
    parts.0
