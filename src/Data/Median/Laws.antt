-- ===== src/Data/Median/Laws.antt =====
-- The weighted median is one, by its definition in terms of the votes as they were cast.
use steem_virtual_machine_ev.Prelude.{
  ℕ, ◌+◌, ◌*◌, ◌≤◌, ◌<◌, ◌≡◌, arith, leb, ltb, if◌then◌else◌, List, [], ◌∷◌, sum_by, All,
  Bool-cases, inl, inr, subst,
}
use steem_virtual_machine_ev.Data.Median.{
  RateWeight, insert_ballot, sort_ballots, last_rate, median_loop, weighted_median,
}

-- The power behind rates below `x`, up to `x`, and behind all rates.
abbrev pub power_below : ℕ → List RateWeight → ℕ
power_below x = sum_by (λ b. if ltb b.rate x then b.power else 0)

abbrev pub power_up_to : ℕ → List RateWeight → ℕ
power_up_to x = sum_by (λ b. if leb b.rate x then b.power else 0)

abbrev pub total_power : List RateWeight → ℕ
total_power = sum_by (λ b. b.power)

abbrev Sorted : List RateWeight → Type 0
Sorted [] = Unit
Sorted (b ∷ bs) = All (λ c. b.rate ≤ c.rate) bs × Sorted bs

All-mono :
    (x y : ℕ) (bs : List RateWeight) → x ≤ y → All (λ c. y ≤ c.rate) bs → All (λ c. x ≤ c.rate) bs
All-mono x y [] h a = tt
All-mono x y (c ∷ cs) h a = (omega arith, All-mono x y cs h a.1)

All-insert_ballot :
    (P : ℕ → Type 0) (b : RateWeight) (bs : List RateWeight)
    → P b.rate
    → All (λ c. P c.rate) bs
    → All (λ c. P c.rate) (insert_ballot b bs)
unfolding insert_ballot
All-insert_ballot P b [] h a = (h, tt)
All-insert_ballot P b (c ∷ cs) h a = elim (Bool-cases (ltb c.rate b.rate)) [
  | inl lt ↦ rw lt (a.0, All-insert_ballot P b cs h a.1)
  | inr ge ↦ rw ge (h, a)
]

insert_ballot-Sorted :
    (b : RateWeight) (bs : List RateWeight) → Sorted bs → Sorted (insert_ballot b bs)
unfolding insert_ballot
insert_ballot-Sorted b [] s = ground arith
insert_ballot-Sorted b (c ∷ cs) s = elim (Bool-cases (ltb c.rate b.rate)) [
  | inl lt ↦
      rw lt
        (All-insert_ballot (λ x. c.rate ≤ x) b cs (ground arith) s.0, insert_ballot-Sorted b cs s.1)
  | inr ge ↦ rw ge ((ground arith, All-mono b.rate c.rate cs (ground arith) s.0), s)
]

sort_ballots-Sorted : (bs : List RateWeight) → Sorted (sort_ballots bs)
unfolding sort_ballots
sort_ballots-Sorted [] = tt
sort_ballots-Sorted (b ∷ bs) = insert_ballot-Sorted b (sort_ballots bs) (sort_ballots-Sorted bs)

-- Sorting keeps every sum over the ballots.
module _ (f : RateWeight → ℕ) where
  sum_by-insert_ballot :
      (b : RateWeight) (bs : List RateWeight) → sum_by f (insert_ballot b bs) ≡ f b + sum_by f bs
  unfolding insert_ballot
  sum_by-insert_ballot b [] = ground arith
  sum_by-insert_ballot b (c ∷ cs) = ground (arith, sum_by-insert_ballot b cs)

  sum_by-sort_ballots : (bs : List RateWeight) → sum_by f (sort_ballots bs) ≡ sum_by f bs
  unfolding sort_ballots
  sum_by-sort_ballots [] = ground arith
  sum_by-sort_ballots (b ∷ bs) =
      ground (arith, sum_by-insert_ballot b (sort_ballots bs), sum_by-sort_ballots bs)

power_below_none :
    (x y : ℕ) (bs : List RateWeight) → y ≤ x → All (λ c. x ≤ c.rate) bs → power_below y bs ≡ 0
power_below_none x y [] h a = ground arith
power_below_none x y (c ∷ cs) h a = ground (arith, power_below_none x y cs h a.1)

power_up_to_mono : (x y : ℕ) (bs : List RateWeight) → x ≤ y → power_up_to x bs ≤ power_up_to y bs
power_up_to_mono x y [] h = ground arith
power_up_to_mono x y (c ∷ cs) h = ground (arith, power_up_to_mono x y cs h)

-- The loop stops at the rate of a ballot.
median_loop-All :
    (P : ℕ → Type 0) (total median cumulative : ℕ) (bs : List RateWeight)
    → All (λ b. P b.rate) bs
    → cumulative * 2 < total
    → total ≤ (cumulative + total_power bs) * 2
    → P (median_loop total median cumulative bs)
unfolding median_loop
median_loop-All P total median cumulative [] a lo hi = absurd (omega arith)
median_loop-All P total median cumulative (b ∷ bs) a lo hi =
    elim (Bool-cases (leb total ((cumulative + b.power) * 2))) [
      | inl stop ↦ rw stop a.0
      | inr go ↦ rw go (
          median_loop-All P total median (cumulative + b.power) bs a.1 (ground arith)
            (ground arith))
    ]

-- With the power `cumulative` before the ballots, at most half of the total is strictly below `m`,
-- and at least half up to it.
abbrev Halves : ℕ → ℕ → List RateWeight → ℕ → Type 0
Halves total cumulative bs m =
    ((cumulative + power_below m bs) * 2 ≤ total) × (total ≤ (cumulative + power_up_to m bs) * 2)

median_loop-Halves :
    (total median cumulative : ℕ) (bs : List RateWeight)
    → Sorted bs
    → cumulative * 2 < total
    → total ≤ (cumulative + total_power bs) * 2
    → Halves total cumulative bs (median_loop total median cumulative bs)
unfolding median_loop
median_loop-Halves total median cumulative [] s lo hi = absurd (omega arith)
median_loop-Halves total median cumulative (b ∷ bs) s lo hi =
    elim (Bool-cases (leb total ((cumulative + b.power) * 2))) [
      | inl stop ↦
          let e : b.rate ≡ median_loop total median cumulative (b ∷ bs) = rw (stop, median_loop) in
          subst (Halves total cumulative (b ∷ bs)) e
            (ground (arith, power_below_none b.rate b.rate bs, s.0))
      | inr go ↦
          let c = cumulative + b.power in
          let hi' : total ≤ (c + total_power bs) * 2 = omega arith in
          let lo' : c * 2 < total = ground arith in
          let rest = median_loop-Halves total median c bs s.1 lo' hi' in
          let above = median_loop-All (λ x. b.rate ≤ x) total median c bs s.0 lo' hi' in
          let e : median_loop total median c bs ≡ median_loop total median cumulative (b ∷ bs) =
            rw (go, median_loop) in
          subst (Halves total cumulative (b ∷ bs)) e (ground (arith, rest, above))
    ]

module _ (ballots : List RateWeight) (powered : 0 < total_power ballots) where
  -- The rate that the tally finalizes is a weighted median of the ballots in the order in which
  -- they came: at most half of their power is strictly below it, and at least half is at it or
  -- below. The ballots have some power.
  pub weighted_median_halves :
      let m = weighted_median (sort_ballots ballots) (total_power ballots) in
      (power_below m ballots * 2 ≤ total_power ballots)
      × (total_power ballots ≤ power_up_to m ballots * 2)
  unfolding weighted_median
  weighted_median_halves =
      let m = weighted_median (sort_ballots ballots) (total_power ballots) in
      ground (
        arith,
        median_loop-Halves (total_power ballots) (last_rate (sort_ballots ballots)) 0
            (sort_ballots ballots) (sort_ballots-Sorted ballots),
        sum_by-sort_ballots (λ b. b.power) ballots,
        sum_by-sort_ballots (λ b. if ltb b.rate m then b.power else 0) ballots,
        sum_by-sort_ballots (λ b. if leb b.rate m then b.power else 0) ballots,
      )
