-- ===== src/Multisig/Apportion/Minimum/Donor.antt =====
-- The donor of a unit of weight, and what setting one weight does to the rows.
use steem_virtual_machine_ev.Prelude.{
  ℕ, zero, suc, ◌+◌, ◌*◌, ◌≡◌, ◌≢◌, ◌≤◌, ◌<◌, refl, arith, ltb, Bool, false, List, [], ◌∷◌, length,
  none, some, Bool-cases, inl, inr, ◌⊎◌, ltb→lt, ltb→le,
}
use native.Mathlib.Nat.{suc-mul}
use steem_virtual_machine_ev.Multisig.Apportion.{Row, weight_at, set_weight, donor_loop, donor}
use steem_virtual_machine_ev.Multisig.Apportion.Shares.{weights}

-- A row that is there and has a weight.
abbrev pub is_heavy : ℕ → List Row → Bool
is_heavy i rows = elim (weight_at i rows) [ none ↦ false | some w ↦ ltb 0 w ]

pub weights-set_weight :
    (i w : ℕ) (f : ℕ → ℕ) (rows : List Row)
    → weight_at i rows ≡ some w
    → weights (set_weight i f rows) + w ≡ weights rows + f w
unfolding weight_at set_weight
weights-set_weight i w f [] h = ground arith
weights-set_weight zero w f (r ∷ rows) h = ground arith
weights-set_weight (suc i) w f (r ∷ rows) h = omega (arith, weights-set_weight i w f rows h)

pub length-set_weight :
    (i : ℕ) (f : ℕ → ℕ) (rows : List Row) → length (set_weight i f rows) ≡ length rows
unfolding set_weight
length-set_weight i f [] = refl
length-set_weight zero f (r ∷ rows) = refl
length-set_weight (suc i) f (r ∷ rows) = omega (arith, length-set_weight i f rows)

pub weight_at-same :
    (i w : ℕ) (f : ℕ → ℕ) (rows : List Row)
    → weight_at i rows ≡ some w
    → weight_at i (set_weight i f rows) ≡ some (f w)
unfolding weight_at set_weight
weight_at-same i w f [] h = ground arith
weight_at-same zero w f (r ∷ rows) h = ground arith
weight_at-same (suc i) w f (r ∷ rows) h = weight_at-same i w f rows h

pub weight_at-other :
    (i j : ℕ) (f : ℕ → ℕ) (rows : List Row)
    → i ≢ j
    → weight_at j (set_weight i f rows) ≡ weight_at j rows
unfolding weight_at set_weight
weight_at-other i j f [] ne = refl
weight_at-other zero zero f (r ∷ rows) ne = elim (ne refl) [ ]
weight_at-other zero (suc j) f (r ∷ rows) ne = refl
weight_at-other (suc i) zero f (r ∷ rows) ne = refl
weight_at-other (suc i) (suc j) f (r ∷ rows) ne =
    weight_at-other i j f rows (λ e. ne (omega (arith, e)))

-- The loop's result is at least as heavy as what it started with and as every row.
donor_loop-heaviest :
    (best bw at : ℕ) (rows : List Row)
    → (bw ≤ (donor_loop best bw at rows).1)
      × (weights rows ≤ length rows * (donor_loop best bw at rows).1)
unfolding donor_loop
donor_loop-heaviest best bw at [] = (omega arith, omega arith)
donor_loop-heaviest best bw at (r ∷ rows) = elim (Bool-cases (ltb bw r.weight)) [
  | inl better ↦
      let (above, whole) = donor_loop-heaviest at r.weight (suc at) rows in
      let m = (donor_loop at r.weight (suc at) rows).1 in
      rw (donor_loop, better)
        (
          omega (arith, above, ltb→lt bw r.weight better),
          omega (arith, above, whole, suc-mul (length rows) m),
        )
  | inr worse ↦
      let (above, whole) = donor_loop-heaviest best bw (suc at) rows in
      let m = (donor_loop best bw (suc at) rows).1 in
      rw (donor_loop, worse)
        (above, omega (arith, above, whole, ltb→le bw r.weight worse, suc-mul (length rows) m))
]

-- It is the row that the loop started with, or the one at the place that it names.
donor_loop-place :
    (best bw at : ℕ) (rows : List Row)
    → (donor_loop best bw at rows ≡ (best, bw))
      ⊎ ((j : ℕ) × ((donor_loop best bw at rows).0 ≡ at + j)
          × (weight_at j rows ≡ some (donor_loop best bw at rows).1))
unfolding donor_loop weight_at
donor_loop-place best bw at [] = inl refl
donor_loop-place best bw at (r ∷ rows) = elim (Bool-cases (ltb bw r.weight)) [
  | inl better ↦ elim (donor_loop-place at r.weight (suc at) rows) [
    | inl same ↦ inr (0, ground arith, ground arith)
    | inr (j, place, found) ↦ inr (suc j, ground arith, ground arith)
  ]
  | inr worse ↦ elim (donor_loop-place best bw (suc at) rows) [
    | inl same ↦ inl (ground arith)
    | inr (j, place, found) ↦ inr (suc j, ground arith, ground arith)
  ]
]

pub nonempty : (rows : List Row) → 0 < weights rows → 0 < length rows
nonempty [] h = h
nonempty (r ∷ rows) h = omega arith

-- The donor is a row, and it has at least the average weight.
pub donor-heaviest :
    (rows : List Row)
    → 0 < length rows
    → (m : ℕ) × (weight_at (donor rows) rows ≡ some m) × (weights rows ≤ length rows * m)
unfolding donor weight_at
donor-heaviest [] h = elim h [ ]
donor-heaviest (r ∷ rows) h =
    let (above, whole) = donor_loop-heaviest 0 r.weight 1 rows in
    let m = (donor_loop 0 r.weight 1 rows).1 in
    let bound : r.weight + weights rows ≤ suc (length rows) * m =
      omega (arith, above, whole, suc-mul (length rows) m) in
    elim (donor_loop-place 0 r.weight 1 rows) [
      | inl same ↦ (m, ground arith, bound)
      | inr (j, place, found) ↦ (m, ground arith, bound)
    ]
