-- ===== src/Data/Tally.antt =====
-- x/oracle/data/keeper/abci.go: the exchange rate tally, once for each vote period.
pub mod Votes
pub mod Laws
pub mod Reward
use steem_virtual_machine_ev.Prelude.{
  ℕ, ◌+◌, ◌-◌, ◌*◌, ◌/◌, ◌%◌, ◌≡◌, leb, ltb, ◌==◌, if◌then◌else◌, Bool, true, false, ◌&&◌, ◌||◌,
  Bytes, List, [], ◌∷◌, Option, none, some, Map, get, put, bytes_eq, map, sum_by, not,
}
use steem_virtual_machine_ev.Decimal.{Decimal, of_int}
use steem_virtual_machine_ev.Data.Median.{RateWeight, sort_ballots, weighted_median}

pub record ExchangeRate : Type 0 where
  pub pair : Bytes
  pub rate : ℕ
  pub update_epoch : ℕ
  pub update_time : ℕ

pub record Prevote : Type 0 where
  pub hash : Bytes
  pub voter : Bytes
  pub submit_block : ℕ

-- `ParseExchangeRateTuples` builds a list without duplicate pairs.
pub record Vote : Type 0 where
  pub exchange_rates : List (Bytes × ℕ)
  pub voter : Bytes

-- MissBand is not read by the tally.
pub record Params : Type 0 where
  pub vote_period : ℕ
  pub vote_threshold : ℕ
  pub reward_band : ℕ
  pub whitelist : List Bytes

-- The collections of the data keeper. Prevotes and votes are keyed by operator address bytes.
pub record DataStore : Type 0 where
  pub params : Params
  pub exchange_rate : Map Bytes ExchangeRate
  pub prevote : Map Bytes Prevote
  pub vote : Map Bytes Vote

pub record Validator : Type 0 where
  pub tokens : ℕ
  pub is_bonded : Bool

-- The staking keeper's answers and the block's header.
pub record Context : Type 0 where
  pub get_validator : Bytes → Option Validator
  pub total_validator_power : ℕ
  pub block_height : ℕ
  pub block_time : ℕ

pub record VoterBallot : Type 0 where
  pub valoper : Bytes
  pub power : ℕ
  pub rates : Map Bytes ℕ

-- The map that the loop over the tuples of a vote fills: a later tuple of a pair takes the place of
-- an earlier one.
unfoldable pub rates_of : Map Bytes ℕ → List (Bytes × ℕ) → Map Bytes ℕ
unfolding put
rates_of rates [] = rates
rates_of rates ((pair, r) ∷ tuples) = rates_of (put pair r rates) tuples

-- The walk over the votes: those of validators that are bonded now.
unfoldable pub gather : Context → Map Bytes Vote → List VoterBallot
unfolding rates_of
gather ctx [] = []
gather ctx ((valoper, v) ∷ votes) =
    let rest = gather ctx votes in
    elim (ctx.get_validator valoper) [
      | none ↦ rest
      | some val ↦
          if val.is_bonded
          then record {
            valoper = valoper;
            power = val.tokens;
            rates = rates_of [] v.exchange_rates;
          }
            ∷ rest
          else rest
    ]

-- The positive rates for one pair, with their power.
unfoldable pub pair_ballots : Bytes → List VoterBallot → List RateWeight
pair_ballots pair [] = []
pair_ballots pair (b ∷ bs) =
    let rest = pair_ballots pair bs in
    elim (get pair b.rates) [
      | none ↦ rest
      | some r ↦ if r == 0 then rest else record { rate = r; power = b.power } ∷ rest
    ]

abbrev pub voted_power : List RateWeight → ℕ
voted_power = sum_by (λ b. b.power)

-- `params.VoteThreshold.MulInt(totalBonded)`, 0 if nothing is bonded.
unfoldable pub required_power : Params → Context → ℕ
required_power p ctx =
    if ctx.total_validator_power == 0 then 0 else p.vote_threshold * ctx.total_validator_power

-- Whether a pair has votes, and with enough power behind them.
unfoldable pub is_finalized : ℕ → List RateWeight → Bool
is_finalized required [] = false
is_finalized required (b ∷ bs) = leb required (of_int (voted_power (b ∷ bs)))

unfoldable pub median_of : List RateWeight → ℕ
median_of ballots = weighted_median (sort_ballots ballots) (voted_power ballots)

-- The test on a ballot for a finalized pair. `median.Sub(spread)` may be negative, and no rate is
-- below it then; the subtraction on ℕ gives 0, and no rate is below that either.
unfoldable pub is_in_band : Decimal → ℕ → Bytes → ℕ → VoterBallot → Bool
is_in_band dec band pair median b = elim (get pair b.rates) [
  | none ↦ false
  | some r ↦
      not (ltb r (median - dec.mul median band)) && not (ltb (median + dec.mul median band) r)
]

-- The ballots that stay eligible for the reward. The source keeps a flag for each voter.
unfoldable pub keep_in_band :
    Decimal → ℕ → Bytes → ℕ → List (VoterBallot × Bool) → List (VoterBallot × Bool)
keep_in_band dec band pair median [] = []
keep_in_band dec band pair median ((b, flag) ∷ bs) =
    (b, flag && is_in_band dec band pair median b) ∷ keep_in_band dec band pair median bs

unfoldable pub epoch_of : Params → ℕ → ℕ
epoch_of p height = if p.vote_period == 0 then height else height / p.vote_period

abbrev pub Tallied : Type 0
Tallied = Map Bytes ExchangeRate × List (VoterBallot × Bool)

-- One round of the loop over the whitelist, on the stored rates and the flags: a pair without
-- enough votes changes nothing.
unfoldable pub tally_pair :
    Decimal → Params → Context → List VoterBallot → Bytes → Tallied → Tallied
tally_pair dec p ctx ballots pair (rates, flags) =
    let median = median_of (pair_ballots pair ballots) in
    if is_finalized (required_power p ctx) (pair_ballots pair ballots)
    then (
      put pair
          (record {
            pair = pair;
            rate = median;
            update_epoch = epoch_of p ctx.block_height;
            update_time = ctx.block_time;
          })
          rates,
      keep_in_band dec p.reward_band pair median flags,
    )
    else (rates, flags)

unfoldable pub tally_pairs :
    Decimal → Params → Context → List VoterBallot → List Bytes → Tallied → Tallied
unfolding tally_pair
tally_pairs dec p ctx ballots [] acc = acc
tally_pairs dec p ctx ballots (pair ∷ pairs) acc =
    tally_pairs dec p ctx ballots pairs (tally_pair dec p ctx ballots pair acc)

unfoldable pub drop_stale : ℕ → Map Bytes Prevote → Map Bytes Prevote
drop_stale cutoff [] = []
drop_stale cutoff ((v, p) ∷ m) =
    if ltb p.submit_block cutoff then drop_stale cutoff m else (v, p) ∷ drop_stale cutoff m

unfoldable pub expire_stale_prevotes : ℕ → ℕ → Map Bytes Prevote → Map Bytes Prevote
unfolding drop_stale
expire_stale_prevotes height period m =
    if period == 0 || ltb height period then m else drop_stale (height - period) m

unfoldable pub flagged : List (VoterBallot × Bool) → List Bytes
flagged [] = []
flagged ((b, flag) ∷ bs) = if flag then b.valoper ∷ flagged bs else flagged bs

-- The result is the new store and the in-band voters.
unfoldable pub tally_exchange_rates : Decimal → Context → DataStore → DataStore × List Bytes
unfolding gather tally_pairs expire_stale_prevotes flagged
tally_exchange_rates dec ctx k =
    let ballots = gather ctx k.vote in
    let (rates, flags) =
      tally_pairs dec k.params ctx ballots k.params.whitelist
        (k.exchange_rate, map (λ b. (b, true)) ballots) in
    (
      record k {
        exchange_rate = rates;
        vote = [];
        prevote = expire_stale_prevotes ctx.block_height k.params.vote_period k.prevote;
      },
      flagged flags,
    )

-- The report is `none` between the vote periods.
unfoldable pub end_blocker : Decimal → Context → DataStore → DataStore × Option (List Bytes)
unfolding tally_exchange_rates
end_blocker dec ctx k =
    if k.params.vote_period == 0
    then (k, none)
    else if ltb 0 (ctx.block_height % k.params.vote_period)
    then (k, none)
    else let (k', voters) = tally_exchange_rates dec ctx k in (k', some voters)
