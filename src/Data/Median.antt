-- ===== src/Data/Median.antt =====
-- x/oracle/data/keeper/abci.go, `weightedMedian` and the sort before it.
pub mod Laws
use steem_virtual_machine_ev.Prelude.{
  ℕ, ◌+◌, ◌*◌, ◌≤◌, ◌<◌, arith, leb, ltb, if◌then◌else◌, Bool, true, false, List, [], ◌∷◌,
}

pub record RateWeight : Type 0 where
  pub rate : ℕ
  pub power : ℕ

-- `sort.Slice` by `pairBallots[i].rate.LT(pairBallots[j].rate)`: insertion into a sorted list. Go
-- leaves the order of equal rates open; the median is a rate, and does not depend on it.
unfoldable pub insert_ballot : RateWeight → List RateWeight → List RateWeight
insert_ballot b [] = b ∷ []
insert_ballot b (c ∷ cs) = if ltb c.rate b.rate then c ∷ insert_ballot b cs else b ∷ c ∷ cs

unfoldable pub sort_ballots : List RateWeight → List RateWeight
unfolding insert_ballot
sort_ballots [] = []
sort_ballots (b ∷ bs) = insert_ballot b (sort_ballots bs)

-- `ballots[len(ballots)-1].rate`
unfoldable pub last_rate : List RateWeight → ℕ
last_rate [] = 0
last_rate (b ∷ []) = b.rate
last_rate (b ∷ c ∷ cs) = last_rate (c ∷ cs)

-- The loop: the rate at which twice the cumulative power reaches the total, else `median`.
unfoldable pub median_loop : ℕ → ℕ → ℕ → List RateWeight → ℕ
median_loop total median cumulative [] = median
median_loop total median cumulative (b ∷ bs) =
    if leb total ((cumulative + b.power) * 2)
    then b.rate
    else median_loop total median (cumulative + b.power) bs

unfoldable pub weighted_median : List RateWeight → ℕ → ℕ
unfolding median_loop last_rate
weighted_median ballots total = median_loop total (last_rate ballots) 0 ballots
