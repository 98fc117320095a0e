-- ===== src/Data/Tally/Laws.antt =====
-- What one tally does to the stored rates, the votes and the prevotes.
use steem_virtual_machine_ev.Prelude.{
  ℕ, ◌+◌, ◌-◌, ◌*◌, ◌≤◌, ◌<◌, ◌≡◌, inl, inr, refl, arith, leb, ltb, if◌then◌else◌, Bool, true, ◌&&◌,
  Bytes, List, [], ◌∷◌, none, some, Map, get, has, bytes_eq, bytes_beq, bytes_beq_iff, get-put, map,
  sum_by, Bool-cases, ltb→lt, ltb→le, ap, ◌∙◌, ◌/◌,
}
use steem_virtual_machine_ev.Decimal.{Decimal}
use steem_virtual_machine_ev.Data.Median.{RateWeight, sort_ballots, weighted_median}
use steem_virtual_machine_ev.Data.Median.Laws.{
  power_below, power_up_to, total_power, weighted_median_halves,
}
use steem_virtual_machine_ev.Data.Tally.{
  ExchangeRate, Prevote, Params, DataStore, Context, VoterBallot, gather, pair_ballots, voted_power,
  required_power, is_finalized, median_of, epoch_of, Tallied, tally_pair, tally_pairs, drop_stale,
  expire_stale_prevotes, tally_exchange_rates,
}
use steem_virtual_machine_ev.Data.Tally.Votes.{
  cast_for, has_quorum, pair_ballots-gather, is_finalized-has_quorum,
}

-- The power behind the rates from `lo` to `hi`.
abbrev pub power_within : ℕ → ℕ → List RateWeight → ℕ
power_within lo hi = sum_by (λ b. if leb lo b.rate && leb b.rate hi then b.power else 0)

within-below :
    (lo hi m : ℕ) (bs : List RateWeight) → hi < m → power_within lo hi bs ≤ power_below m bs
within-below lo hi m [] h = omega arith
within-below lo hi m (b ∷ bs) h = ground (arith, within-below lo hi m bs h)

within-above :
    (lo hi m : ℕ) (bs : List RateWeight)
    → m < lo
    → power_within lo hi bs + power_up_to m bs ≤ total_power bs
within-above lo hi m [] h = omega arith
within-above lo hi m (b ∷ bs) h = ground (arith, within-above lo hi m bs h)

within-le : (lo hi : ℕ) (bs : List RateWeight) → power_within lo hi bs ≤ total_power bs
within-le lo hi [] = omega arith
within-le lo hi (b ∷ bs) = ground (arith, within-le lo hi bs)

-- A value with at most half below and at least half up to it lies where more than half is.
halves_within :
    (lo hi m : ℕ) (bs : List RateWeight)
    → total_power bs < power_within lo hi bs * 2
    → power_below m bs * 2 ≤ total_power bs
    → total_power bs ≤ power_up_to m bs * 2
    → (lo ≤ m) × (m ≤ hi)
halves_within lo hi m bs h below up = elim (Bool-cases (ltb m lo)) [
  | inl under ↦ absurd (omega (arith, within-above lo hi m bs (ltb→lt m lo under)))
  | inr low ↦ elim (Bool-cases (ltb hi m)) [
    | inl over ↦ absurd (omega (arith, within-below lo hi m bs (ltb→lt hi m over)))
    | inr high ↦ (ltb→le m lo low, ltb→le hi m high)
  ]
]

-- The price cannot be moved by a minority: where more than half of the voting power of a pair gave
-- rates from `lo` to `hi`, the median that the tally finalizes is from `lo` to `hi`.
pub median_of-honest :
    (lo hi : ℕ) (ballots : List RateWeight)
    → voted_power ballots < power_within lo hi ballots * 2
    → (lo ≤ median_of ballots) × (median_of ballots ≤ hi)
unfolding median_of
median_of-honest lo hi ballots h =
    let halves = weighted_median_halves ballots (omega (arith, within-le lo hi ballots)) in
    halves_within lo hi (weighted_median (sort_ballots ballots) (total_power ballots)) ballots h
      halves.0 halves.1

module _ (dec : Decimal) (p : Params) (ctx : Context) (ballots : List VoterBallot) where
  -- The entry that a finalized pair gets.
  abbrev pub finalized_rate : Bytes → ExchangeRate
  finalized_rate pair = record {
    pair = pair;
    rate = median_of (pair_ballots pair ballots);
    update_epoch = epoch_of p ctx.block_height;
    update_time = ctx.block_time;
  }

  abbrev quorate : Bytes → Bool
  quorate q = is_finalized (required_power p ctx) (pair_ballots q ballots)

  get-tally_pair :
      (pair q : Bytes) (acc : Tallied)
      → get q (tally_pair dec p ctx ballots pair acc).0
        ≡ (if bytes_beq q pair && quorate pair then some (finalized_rate pair) else get q acc.0)
  unfolding tally_pair
  get-tally_pair pair q (rates, flags) = ground (arith, get-put q pair (finalized_rate pair) rates)

  get-tally_pairs :
      (pairs : List Bytes) (acc : Tallied) (q : Bytes)
      → get q (tally_pairs dec p ctx ballots pairs acc).0
        ≡ (if has q pairs && quorate q then some (finalized_rate q) else get q acc.0)
  unfolding tally_pairs has
  get-tally_pairs [] acc q = refl
  get-tally_pairs (pair ∷ pairs) acc q = elim (Bool-cases (bytes_beq q pair)) [
    | inl same ↦
        let e : q ≡ pair = (bytes_beq_iff q pair).0 same in
        ground (
          arith,
          get-tally_pairs pairs (tally_pair dec p ctx ballots pair acc) q,
          get-tally_pair pair q acc,
          ap quorate e,
          ap finalized_rate e,
        )
    | inr other ↦ ground (
      arith,
      get-tally_pairs pairs (tally_pair dec p ctx ballots pair acc) q,
      get-tally_pair pair q acc,
    )
  ]

get-drop_stale_absent :
    (cutoff : ℕ) (v : Bytes) (m : Map Bytes Prevote)
    → get v m ≡ none
    → get v (drop_stale cutoff m) ≡ none
unfolding drop_stale get
get-drop_stale_absent cutoff v [] h = refl
get-drop_stale_absent cutoff v ((w, p) ∷ m) h = ground (arith, get-drop_stale_absent cutoff v m)

-- Each key of the store stands once.
abbrev pub Keyed : Map Bytes Prevote → Type 0
Keyed [] = Unit
Keyed ((v, p) ∷ m) = (get v m ≡ none) × Keyed m

get-drop_stale :
    (cutoff : ℕ) (v : Bytes) (m : Map Bytes Prevote)
    → Keyed m
    → get v (drop_stale cutoff m)
      ≡ elim (get v m) [ none ↦ none | some p ↦ if ltb p.submit_block cutoff then none else some p ]
unfolding drop_stale get
get-drop_stale cutoff v [] u = refl
get-drop_stale cutoff v ((w, p) ∷ m) u =
    ground (
      arith,
      get-drop_stale cutoff v m u.1,
      get-drop_stale_absent cutoff w m u.0,
      bytes_beq_iff v w,
    )

module _ (dec : Decimal) (ctx : Context) (k : DataStore) where
  -- One tally writes the rate of exactly those whitelisted pairs on which bonded validators gave
  -- positive rates with at least the threshold's share of all bonded power behind them: the median
  -- of these rates, with the epoch and the time of the block; every other rate stays as it was. The
  -- vote period is positive.
  pub get-tally_exchange_rates :
      (q : Bytes)
      → 0 < k.params.vote_period
      → get q (tally_exchange_rates dec ctx k).0.exchange_rate ≡ (
          if has q k.params.whitelist && has_quorum k.params ctx (cast_for ctx q k.vote)
          then some (record {
            pair = q;
            rate = median_of (cast_for ctx q k.vote);
            update_epoch = ctx.block_height / k.params.vote_period;
            update_time = ctx.block_time;
          })
          else get q k.exchange_rate)
  unfolding tally_exchange_rates epoch_of
  get-tally_exchange_rates q pos =
      let ballots = gather ctx k.vote in
      let cast = cast_for ctx q k.vote in
      let written : ℕ → ℕ → ExchangeRate = λ rate epoch. record {
        pair = q;
        rate = rate;
        update_epoch = epoch;
        update_time = ctx.block_time;
      } in
      let same : pair_ballots q ballots ≡ cast = pair_ballots-gather ctx q k.vote in
      let median : median_of (pair_ballots q ballots) ≡ median_of cast = ap median_of same in
      let epoch : epoch_of k.params ctx.block_height ≡ ctx.block_height / k.params.vote_period =
        ground arith in
      let enough : is_finalized (required_power k.params ctx) (pair_ballots q ballots)
          ≡ has_quorum k.params ctx cast =
        rw same (is_finalized-has_quorum k.params ctx cast) in
      let rate : finalized_rate dec k.params ctx ballots q
          ≡ written (median_of cast) (ctx.block_height / k.params.vote_period) =
        ap (λ m. written m (epoch_of k.params ctx.block_height)) median
        ∙ ap (λ n. written (median_of cast) n) epoch in
      let pairs =
        get-tally_pairs dec k.params ctx ballots k.params.whitelist
          (k.exchange_rate, map (λ b. (b, true)) ballots) q in
      ground (arith, pairs, enough, rate)

  -- A tally clears the votes, and drops exactly the prevotes that are older than one vote period.
  -- The period is positive, and the height at least one period.
  pub tally-clears :
      Keyed k.prevote
      → (v : Bytes) → k.params.vote_period ≤ ctx.block_height
      → 0 < k.params.vote_period
      → let after = (tally_exchange_rates dec ctx k).0 in
        (after.vote ≡ [])
        × (get v after.prevote ≡ elim (get v k.prevote) [
          | none ↦ none
          | some p ↦
              if ltb p.submit_block (ctx.block_height - k.params.vote_period) then none else some p
        ])
  unfolding tally_exchange_rates expire_stale_prevotes
  tally-clears u v old pos =
      (refl, ground (arith, get-drop_stale (ctx.block_height - k.params.vote_period) v k.prevote u))
