-- ===== src/Data/Tally/Reward.antt =====
-- Whom a tally rewards: the loop over the pairs that clears flags, against a test of each voter.
use steem_virtual_machine_ev.Prelude.{
  ℕ, ◌≡◌, ◌∙◌, ap, refl, Map, Option-cases, Bool-cases, inl, inr, arith, if◌then◌else◌, Bool, true,
  ◌&&◌, Bytes, List, [], ◌∷◌, map,
}
use steem_virtual_machine_ev.Decimal.{Decimal}
use steem_virtual_machine_ev.Data.Tally.{
  Vote, rates_of, Params, DataStore, Context, VoterBallot, gather, pair_ballots, required_power,
  is_finalized, median_of, is_in_band, keep_in_band, Tallied, tally_pair, tally_pairs, flagged,
  tally_exchange_rates,
}
use steem_virtual_machine_ev.Data.Tally.Votes.{
  cast_for, pair_ballots-gather, is_finalized-has_quorum, is_in_band-near, get-rates_of_all,
  is_good_on, is_good_on_all, earners,
}

module _ (dec : Decimal) (p : Params) (ctx : Context) (ballots : List VoterBallot) where
  -- In band for one pair; a pair that was not finalized asks nothing.
  abbrev passes : VoterBallot → Bytes → Bool
  passes b pair =
      if is_finalized (required_power p ctx) (pair_ballots pair ballots)
      then is_in_band dec p.reward_band pair (median_of (pair_ballots pair ballots)) b
      else true

  abbrev pub passes_all : VoterBallot → List Bytes → Bool
  passes_all b [] = true
  passes_all b (pair ∷ pairs) = passes b pair && passes_all b pairs

  -- The voters that pass, in the order of the walk.
  abbrev pub rewarded : List Bytes → List VoterBallot → List Bytes
  rewarded pairs [] = []
  rewarded pairs (b ∷ bs) =
      if passes_all b pairs then b.valoper ∷ rewarded pairs bs else rewarded pairs bs

  abbrev mark : List Bytes → List (VoterBallot × Bool) → List (VoterBallot × Bool)
  mark pairs [] = []
  mark pairs ((b, flag) ∷ bs) = (b, flag && passes_all b pairs) ∷ mark pairs bs

  mark-nil : (flags : List (VoterBallot × Bool)) → flags ≡ mark [] flags
  mark-nil [] = refl
  mark-nil ((b, flag) ∷ bs) = ground (arith, mark-nil bs)

  mark-pair :
      (pair : Bytes) (pairs : List Bytes) (acc : Tallied)
      → mark pairs (tally_pair dec p ctx ballots pair acc).1 ≡ mark (pair ∷ pairs) acc.1
  unfolding tally_pair keep_in_band
  mark-pair pair pairs (rates, []) = ground arith
  mark-pair pair pairs (rates, (b, flag) ∷ bs) = ground (arith, mark-pair pair pairs (rates, bs))

  tally_pairs-mark :
      (pairs : List Bytes) (acc : Tallied)
      → (tally_pairs dec p ctx ballots pairs acc).1 ≡ mark pairs acc.1
  unfolding tally_pairs
  tally_pairs-mark [] acc = mark-nil acc.1
  tally_pairs-mark (pair ∷ pairs) acc =
      tally_pairs-mark pairs (tally_pair dec p ctx ballots pair acc) ∙ mark-pair pair pairs acc

  flagged-mark :
      (pairs : List Bytes) (bs : List VoterBallot)
      → flagged (mark pairs (map (λ b. (b, true)) bs)) ≡ rewarded pairs bs
  unfolding flagged
  flagged-mark pairs [] = refl
  flagged-mark pairs (b ∷ bs) = ground (arith, flagged-mark pairs bs)

module _ (dec : Decimal) (p : Params) (ctx : Context) (votes : Map Bytes Vote) where
  passes-good :
      (v : Bytes) (vote : Vote) (tokens : ℕ) (q : Bytes)
      → passes dec p ctx
          (gather ctx votes)
          (record { valoper = v; power = tokens; rates = rates_of [] vote.exchange_rates })
          q
        ≡ is_good_on dec p ctx votes vote q
  passes-good v vote tokens q =
      let b : VoterBallot = record {
        valoper = v;
        power = tokens;
        rates = rates_of [] vote.exchange_rates;
      } in
      rw
        (
          pair_ballots-gather ctx q votes,
          is_finalized-has_quorum p ctx (cast_for ctx q votes),
          is_in_band-near dec p.reward_band q (median_of (cast_for ctx q votes)) b,
          get-rates_of_all q vote.exchange_rates,
        )
        refl

  passes_all-good :
      (v : Bytes) (vote : Vote) (tokens : ℕ) (qs : List Bytes)
      → passes_all dec p ctx
          (gather ctx votes)
          (record { valoper = v; power = tokens; rates = rates_of [] vote.exchange_rates })
          qs
        ≡ is_good_on_all dec p ctx votes vote qs
  passes_all-good v vote tokens [] = refl
  passes_all-good v vote tokens (q ∷ qs) =
      ground (arith, passes-good v vote tokens q, passes_all-good v vote tokens qs)

  rewarded-earners :
      (qs : List Bytes) (some_votes : Map Bytes Vote)
      → rewarded dec p ctx (gather ctx votes) qs (gather ctx some_votes)
        ≡ earners dec p ctx votes qs some_votes
  unfolding gather
  rewarded-earners qs [] = refl
  rewarded-earners qs ((v, vote) ∷ rest) = elim (Option-cases (ctx.get_validator v)) [
    | inl unknown ↦ ground (arith, rewarded-earners qs rest)
    | inr (val, known) ↦ elim (Bool-cases val.is_bonded) [
      | inr unbonded ↦ ground (arith, rewarded-earners qs rest)
      | inl bonded ↦ ground (arith, rewarded-earners qs rest, passes_all-good v vote val.tokens qs)
    ]
  ]

-- The reported hits are exactly the voters that are bonded now and gave, for every whitelisted pair
-- with a quorum, a rate within the reward band of the median of the rates that were cast for it; a
-- pair without a quorum counts against nobody.
pub tally-rewarded :
    (dec : Decimal) (ctx : Context) (k : DataStore)
    → (tally_exchange_rates dec ctx k).1 ≡ earners dec k.params ctx k.vote k.params.whitelist k.vote
unfolding tally_exchange_rates
tally-rewarded dec ctx k =
    let ballots = gather ctx k.vote in
    ap flagged (
      tally_pairs-mark dec k.params ctx ballots k.params.whitelist
        (k.exchange_rate, map (λ b. (b, true)) ballots))
    ∙ (flagged-mark dec k.params ctx ballots k.params.whitelist ballots
        ∙ rewarded-earners dec k.params ctx k.vote k.params.whitelist k.vote)
