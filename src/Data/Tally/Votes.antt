-- ===== src/Data/Tally/Votes.antt =====
-- The votes of one tally read from the store alone: who voted what on a pair, with which power,
-- whether that is enough, and who was in band.
use steem_virtual_machine_ev.Prelude.{
  ℕ, ◌+◌, ◌*◌, ◌≡◌, refl, arith, leb, ◌==◌, if◌then◌else◌, Bool, true, false, not, ◌&&◌, Bytes,
  bytes_eq, List, [], ◌∷◌, length, Option, none, some, Map, get, put, get-put, ◌=?◌, Option-cases,
  Bool-cases, inl, inr,
}
use steem_virtual_machine_ev.Decimal.{Decimal, one}
use steem_virtual_machine_ev.Data.Median.{RateWeight}
use steem_virtual_machine_ev.Data.Tally.{
  Vote, rates_of, Params, Context, VoterBallot, gather, pair_ballots, voted_power, required_power,
  is_finalized, median_of, is_in_band,
}

-- The power of a validator that is bonded now.
abbrev pub bonded_tokens : Context → Bytes → Option ℕ
bonded_tokens ctx v = elim (ctx.get_validator v) [
  | none ↦ none
  | some val ↦ if val.is_bonded then some val.tokens else none
]

-- The last rate for a pair in a list of tuples.
abbrev pub last_given : Bytes → List (Bytes × ℕ) → Option ℕ
last_given q [] = none
last_given q ((pair, r) ∷ tuples) = elim (last_given q tuples) [
  | some later ↦ some later
  | none ↦ if q =? pair then some r else none
]

-- The rate that a vote gives for a pair; 0 abstains.
abbrev pub given_rate : Bytes → Vote → ℕ
given_rate q vote = elim (last_given q vote.exchange_rates) [ none ↦ 0 | some r ↦ r ]

get-rates_of :
    (q : Bytes) (rates : Map Bytes ℕ) (tuples : List (Bytes × ℕ))
    → get q (rates_of rates tuples)
      ≡ elim (last_given q tuples) [ none ↦ get q rates | some r ↦ some r ]
unfolding rates_of
get-rates_of q rates [] = refl
get-rates_of q rates ((pair, r) ∷ tuples) = elim (Option-cases (last_given q tuples)) [
  | inl none_later ↦
      ground (arith, get-rates_of q (put pair r rates) tuples, get-put q pair r rates)
  | inr (later, given) ↦ ground (arith, get-rates_of q (put pair r rates) tuples)
]

pub get-rates_of_all :
    (q : Bytes) (tuples : List (Bytes × ℕ)) → get q (rates_of [] tuples) ≡ last_given q tuples
unfolding get
get-rates_of_all q tuples = elim (Option-cases (last_given q tuples)) [
  | inl none_given ↦ ground (arith, get-rates_of q [] tuples)
  | inr (r, given) ↦ ground (arith, get-rates_of q [] tuples)
]

abbrev pub cast_for : Context → Bytes → Map Bytes Vote → List RateWeight
cast_for ctx q [] = []
cast_for ctx q ((v, vote) ∷ votes) = elim (bonded_tokens ctx v) [
  | none ↦ cast_for ctx q votes
  | some tokens ↦
      if given_rate q vote == 0
      then cast_for ctx q votes
      else record { rate = given_rate q vote; power = tokens } ∷ cast_for ctx q votes
]

-- There is a vote, and the share of all bonded power is at least the threshold.
abbrev pub has_quorum : Params → Context → List RateWeight → Bool
has_quorum p ctx cast =
    not (length cast == 0)
    && leb (p.vote_threshold * ctx.total_validator_power) (voted_power cast * one)

pub pair_ballots-gather :
    (ctx : Context) (q : Bytes) (votes : Map Bytes Vote)
    → pair_ballots q (gather ctx votes) ≡ cast_for ctx q votes
unfolding pair_ballots gather
pair_ballots-gather ctx q [] = refl
pair_ballots-gather ctx q ((v, vote) ∷ votes) = elim (Option-cases (ctx.get_validator v)) [
  | inl unknown ↦ ground (arith, pair_ballots-gather ctx q votes)
  | inr (val, known) ↦ elim (Bool-cases val.is_bonded) [
    | inr unbonded ↦ ground (arith, pair_ballots-gather ctx q votes)
    | inl bonded ↦ elim (Option-cases (last_given q vote.exchange_rates)) [
      | inl silent ↦
          ground (arith, get-rates_of_all q vote.exchange_rates, pair_ballots-gather ctx q votes)
      | inr (r, said) ↦
          ground (arith, get-rates_of_all q vote.exchange_rates, pair_ballots-gather ctx q votes)
    ]
  ]
]

pub is_finalized-has_quorum :
    (p : Params) (ctx : Context) (cast : List RateWeight)
    → is_finalized (required_power p ctx) cast ≡ has_quorum p ctx cast
unfolding is_finalized required_power
is_finalized-has_quorum p ctx [] = refl
is_finalized-has_quorum p ctx (b ∷ bs) = ground arith

-- A rate that is off the median by the given part of it at most.
abbrev pub is_near : Decimal → ℕ → ℕ → ℕ → Bool
is_near dec band median r =
    leb median (r + dec.mul median band) && leb r (median + dec.mul median band)

module _ (dec : Decimal) (p : Params) (ctx : Context) (votes : Map Bytes Vote) where
  -- In band on one pair; a pair without a quorum asks nothing.
  abbrev pub is_good_on : Vote → Bytes → Bool
  is_good_on vote q =
      if has_quorum p ctx (cast_for ctx q votes)
      then elim (last_given q vote.exchange_rates) [
        | none ↦ false
        | some r ↦ is_near dec p.reward_band (median_of (cast_for ctx q votes)) r
      ]
      else true

  abbrev pub is_good_on_all : Vote → List Bytes → Bool
  is_good_on_all vote [] = true
  is_good_on_all vote (q ∷ qs) = is_good_on vote q && is_good_on_all vote qs

  -- The bonded voters among the given ones that are in band on every pair.
  abbrev pub earners : List Bytes → Map Bytes Vote → List Bytes
  earners pairs [] = []
  earners pairs ((v, vote) ∷ rest) = elim (bonded_tokens ctx v) [
    | none ↦ earners pairs rest
    | some tokens ↦ if is_good_on_all vote pairs then v ∷ earners pairs rest else earners pairs rest
  ]

pub is_in_band-near :
    (dec : Decimal) (band : ℕ) (q : Bytes) (median : ℕ) (b : VoterBallot)
    → is_in_band dec band q median b
      ≡ elim (get q b.rates) [ none ↦ false | some r ↦ is_near dec band median r ]
unfolding is_in_band
is_in_band-near dec band q median b = elim (Option-cases (get q b.rates)) [
  | inl silent ↦ ground arith
  | inr (r, said) ↦ ground arith
]
