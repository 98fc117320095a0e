-- ===== src/Multisig/Apportion/Minimum.antt =====
-- The loop that gives every row a weight: it ends, keeps the sum, and leaves no row without weight.
pub mod Donor
use steem_virtual_machine_ev.Prelude.{
  ℕ, zero, suc, ◌+◌, ◌-◌, ◌*◌, ◌≡◌, ◌≢◌, ◌≤◌, ◌<◌, refl, arith, ltb, ◌==◌, if◌then◌else◌, Bool,
  true, false, List, [], ◌∷◌, length, sum_by, All, Option, none, some, Bool-cases, Option-cases,
  inl, inr, ◌⊎◌, subst, sym, ==_iff, ltb→lt, ltb→le, lt→ltb,
}
use native.Mathlib.Nat.{suc-mul, mul-le-mul_right}
use steem_virtual_machine_ev.Multisig.Apportion.{
  Row, weight_at, set_weight, donor_loop, donor, lift, fill_row, fill_fuel, fill_rows,
}
use steem_virtual_machine_ev.Multisig.Apportion.Shares.{weights}
use steem_virtual_machine_ev.Multisig.Apportion.Minimum.Donor.{
  is_heavy, weights-set_weight, length-set_weight, weight_at-same, weight_at-other, nonempty,
  donor-heaviest,
}

-- What the loop for one row relies on: the weights are the whole, and the rows are few.
pub record Sharing (rows : List Row) : Type 0 where
  pub whole : weights rows ≡ 10000
  pub few : length rows ≤ 40

-- The unit moves from another row, which keeps a weight.
record Lifted (i : ℕ) (rows rows' : List Row) : Type 0 where
  sharing : Sharing rows'
  same_length : length rows' ≡ length rows
  heavy : is_heavy i rows' ≡ true
  others : (j : ℕ) → is_heavy j rows ≡ true → is_heavy j rows' ≡ true

lift-Lifted :
    (i : ℕ) (rows : List Row)
    → Sharing rows
    → weight_at i rows ≡ some 0
    → Lifted i rows (lift i rows)
unfolding lift
lift-Lifted i rows sh empty =
    let one = set_weight i (λ w. 1) rows in
    let sum = weights-set_weight i 0 (λ w. 1) rows empty in
    let len = length-set_weight i (λ w. 1) rows in
    let some_rows : 0 < length one = nonempty one (omega (arith, sum, sh.whole)) in
    let (m, found, average) = donor-heaviest one some_rows in
    let big : 1 < m = omega (
      arith,
      average,
      sum,
      sh.whole,
      mul-le-mul_right {m = length one} {n = 40} m (omega (arith, len, sh.few)),
    ) in
    let own = weight_at-same i 0 (λ w. 1) rows empty in
    let apart : donor one ≢ i = λ e. ground (arith, big, own, found, e) in
    let sum' = weights-set_weight (donor one) m (λ w. w - 1) one found in
    let given = weight_at-same (donor one) m (λ w. w - 1) one found in
    record {
      sharing = record {
        whole = omega (arith, sum, sum', sh.whole, big);
        few = omega (arith, len, length-set_weight (donor one) (λ w. w - 1) one, sh.few);
      };
      same_length = omega (arith, len, length-set_weight (donor one) (λ w. w - 1) one);
      heavy = rw (is_heavy, weight_at-other (donor one) i (λ w. w - 1) one apart, own) refl;
      others = λ j h. elim (Bool-cases (donor one == j)) [
        | inl donates ↦
            let same : donor one ≡ j = ground (arith, ==_iff (donor one) j) in
            rw (← same, is_heavy, given) (lt→ltb 0 (m - 1) (omega (arith, big)))
        | inr keeps ↦
            let ne : donor one ≢ j = λ e. ground (arith, ==_iff (donor one) j) in
            rw (is_heavy, weight_at-other (donor one) j (λ w. w - 1) one ne)
              (elim (Bool-cases (i == j)) [
                | inl same ↦ let here : i ≡ j = ground (arith, ==_iff i j) in rw (← here, own) refl
                | inr other ↦
                    let there : i ≢ j = λ e. ground (arith, ==_iff i j) in
                    rw (weight_at-other i j (λ w. 1) rows there) h
              ])
      ];
    }

-- The loop for one row ends at its second look.
record Filled (i : ℕ) (rows rows' : List Row) : Type 0 where
  sharing : Sharing rows'
  same_length : length rows' ≡ length rows
  heavy : i < length rows → is_heavy i rows' ≡ true
  others : (j : ℕ) → is_heavy j rows ≡ true → is_heavy j rows' ≡ true

weight_at-there : (i : ℕ) (rows : List Row) → i < length rows → weight_at i rows ≢ none
unfolding weight_at
weight_at-there i [] h = elim h [ ]
weight_at-there zero (r ∷ rows) h = λ e. ground arith
weight_at-there (suc i) (r ∷ rows) h = weight_at-there i rows (omega (arith, h))

fill_row-heavy :
    (fuel i : ℕ) (rows : List Row) → is_heavy i rows ≡ true → fill_row (suc fuel) i rows ≡ some rows
unfolding fill_row
fill_row-heavy fuel i rows h = elim (Option-cases (weight_at i rows)) [
  | inl missing ↦ ground arith
  | inr (w, found) ↦ ground arith
]

fill_row-Filled :
    (i : ℕ) (rows : List Row)
    → Sharing rows
    → (rows' : List Row) × (fill_row fill_fuel i rows ≡ some rows') × Filled i rows rows'
unfolding fill_row
fill_row-Filled i rows sh = elim (Option-cases (weight_at i rows)) [
  | inl missing ↦ (
    rows,
    rw (fill_row, missing) refl,
    record {
      sharing = sh;
      same_length = refl;
      heavy = λ h. elim (weight_at-there i rows h missing) [ ];
      others = λ j h. h;
    },
  )
  | inr (zero, empty) ↦
      let l = lift-Lifted i rows sh empty in
      (
        lift i rows,
        rw (fill_row, empty) (fill_row-heavy 0 i (lift i rows) l.heavy),
        record {
          sharing = l.sharing;
          same_length = l.same_length;
          heavy = λ h. l.heavy;
          others = l.others;
        },
      )
  | inr (suc w, weighs) ↦ (
    rows,
    rw (fill_row, weighs) refl,
    record {
      sharing = sh;
      same_length = refl;
      heavy = λ h. rw (is_heavy, weighs) (lt→ltb 0 (suc w) (omega arith));
      others = λ j h. h;
    },
  )
]

-- The loop over all rows returns, and every row that it visits has a weight then.
pub record AllFilled (count i : ℕ) (rows rows' : List Row) : Type 0 where
  pub sharing : Sharing rows'
  pub same_length : length rows' ≡ length rows
  pub heavy : (j : ℕ) → i ≤ j → j < i + count → j < length rows → is_heavy j rows' ≡ true
  others : (j : ℕ) → is_heavy j rows ≡ true → is_heavy j rows' ≡ true

pub fill_rows-AllFilled :
    (count i : ℕ) (rows : List Row)
    → Sharing rows
    → (rows' : List Row) × (fill_rows count i rows ≡ some rows') × AllFilled count i rows rows'
unfolding fill_rows
fill_rows-AllFilled zero i rows sh = (
  rows,
  refl,
  record { sharing = sh; same_length = refl; heavy = λ j a b c. ground arith; others = λ j h. h },
)
fill_rows-AllFilled (suc count) i rows sh =
    let (rows1, first, one) = fill_row-Filled i rows sh in
    let (rows2, after, rest) = fill_rows-AllFilled count (suc i) rows1 one.sharing in
    (
      rows2,
      rw (fill_rows, first) after,
      record {
        sharing = rest.sharing;
        same_length = omega (arith, rest.same_length, one.same_length);
        heavy = λ j a b c. elim (Bool-cases (i == j)) [
          | inl same ↦
              let here : i ≡ j = ground (arith, ==_iff i j) in
              rest.others j (subst (λ n. is_heavy n rows1 ≡ true) here (one.heavy (ground arith)))
          | inr other ↦
              rest.heavy j (ground (arith, ==_iff i j)) (omega (arith, b))
                (omega (arith, c, one.same_length))
        ];
        others = λ j h. rest.others j (one.others j h);
      },
    )

All-heavy :
    (rows : List Row)
    → ((j : ℕ) → j < length rows → is_heavy j rows ≡ true)
    → All (λ r. 1 ≤ r.weight) rows
unfolding weight_at
All-heavy [] h = tt
All-heavy (r ∷ rows) h =
    (ltb→lt 0 r.weight (h 0 (omega arith)), All-heavy rows (λ j b. h (suc j) (omega (arith, b))))

-- The loop leaves no row without weight.
pub fill_rows-minimum :
    (rows : List Row)
    → Sharing rows
    → (rows' : List Row) × (fill_rows (length rows) 0 rows ≡ some rows')
      × Sharing rows'
      × (length rows' ≡ length rows)
      × All (λ r. 1 ≤ r.weight) rows'
fill_rows-minimum rows sh =
    let (rows', filled, f) = fill_rows-AllFilled (length rows) 0 rows sh in
    (
      rows',
      filled,
      f.sharing,
      f.same_length,
      All-heavy rows' (λ j b.
          f.heavy j (omega arith) (omega (arith, b, f.same_length))
            (omega (arith, b, f.same_length))),
    )
