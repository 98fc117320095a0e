-- ===== src/Multisig/Apportion/Shares.antt =====
-- The floors of the shares and what is missing from them.
use steem_virtual_machine_ev.Prelude.{
  ℕ, zero, suc, ◌+◌, ◌-◌, ◌*◌, ◌≡◌, ◌≤◌, ◌<◌, refl, arith, List, [], ◌∷◌, map, length, sum_by,
}
use native.Mathlib.Nat.{
  div-add-mod, mod-lt, mul_comm, mul-sub, lt_of_mul-lt-mul_left, le_of_mul-le-mul_left,
}
use steem_virtual_machine_ev.Multisig.Apportion.{Stake, Row, share, weigh, top_up}

abbrev pub weights : List Row → ℕ
weights rows = sum_by (λ r. r.weight) rows

abbrev remainders : List Row → ℕ
remainders rows = sum_by (λ r. r.rem) rows

abbrev pub stakes : List Stake → ℕ
stakes vals = sum_by (λ s. s.tokens) vals

shares_exact :
    (t : ℕ) (vals : List Stake)
    → t * weights (map (share t) vals) + remainders (map (share t) vals) ≡ 10000 * stakes vals
unfolding share
shares_exact t [] = omega arith
shares_exact t (v ∷ vals) = ground (arith, shares_exact t vals, div-add-mod (10000 * v.tokens) t)

remainders_small :
    (t : ℕ) (vals : List Stake)
    → 0 < t
    → remainders (map (share t) vals) + length vals ≤ length vals * t
unfolding share
remainders_small t [] h = omega arith
remainders_small t (v ∷ vals) h =
    ground (arith, remainders_small t vals h, mod-lt (10000 * v.tokens) h)

pub length-map-share : (t : ℕ) (vals : List Stake) → length (map (share t) vals) ≡ length vals
length-map-share t [] = refl
length-map-share t (v ∷ vals) = omega (arith, length-map-share t vals)

-- The floors fall short of the whole by less than one point for each row.
pub deficit_fits :
    (vals : List Stake)
    → 0 < stakes vals
    → 0 < length vals
    → (weights (weigh vals) ≤ 10000) × (10000 - weights (weigh vals) < length (weigh vals))
unfolding weigh
deficit_fits vals positive some_vals =
    let t = stakes vals in
    let q = weights (map (share t) vals) in
    let exact = shares_exact t vals in
    let small = remainders_small t vals positive in
    let whole : q ≤ 10000 =
      le_of_mul-le-mul_left (omega (arith, exact, mul_comm 10000 t)) positive in
    let gap : t * (10000 - q) < t * length vals =
      rw (mul-sub t 10000 q) (omega (arith, exact, small, mul_comm (length vals) t)) in
    let under : 10000 - q < length vals = lt_of_mul-lt-mul_left t gap in
    (whole, rw (length-map-share t vals) under)

pub top_up-sum :
    (n : ℕ) (rows : List Row) → n ≤ length rows → weights (top_up n rows) ≡ weights rows + n
unfolding top_up
top_up-sum zero rows h = omega arith
top_up-sum (suc n) [] h = elim h [ ]
top_up-sum (suc n) (r ∷ rows) h = omega (arith, top_up-sum n rows (omega arith))

pub length-top_up : (n : ℕ) (rows : List Row) → length (top_up n rows) ≡ length rows
unfolding top_up
length-top_up zero rows = refl
length-top_up (suc n) [] = refl
length-top_up (suc n) (r ∷ rows) = omega (arith, length-top_up n rows)
