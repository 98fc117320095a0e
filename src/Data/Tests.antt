-- ===== src/Data/Tests.antt =====
-- Concrete votes for the theorems of the Data modules: three validators, of which one gives a rate
-- far off.
use steem_virtual_machine_ev.Prelude.{
  ℕ, ◌-◌, ◌*◌, ◌/◌, ◌≤◌, ◌<◌, ◌≡◌, refl, arith, if◌then◌else◌, true, ◌&&◌, Bytes, bytes_beq, List,
  [], ◌∷◌, none, some, Option, get, put, remove, has, bytes_eq, codes, ok, err,
}
use steem_virtual_machine_ev.Text.{trim_space, split, cut_last}
use steem_virtual_machine_ev.Decimal.{one, half_up}
use steem_virtual_machine_ev.Data.Median.{RateWeight, sort_ballots, weighted_median}
use steem_virtual_machine_ev.Data.Median.Laws.{
  power_below, power_up_to, total_power, weighted_median_halves,
}
use steem_virtual_machine_ev.Data.Tally.{
  Prevote, Vote, DataStore, Context, median_of, tally_exchange_rates,
}
use steem_virtual_machine_ev.Data.Tally.Laws.{
  median_of-honest, get-tally_exchange_rates, tally-clears,
}
use steem_virtual_machine_ev.Data.Tally.Reward.{tally-rewarded}
use steem_virtual_machine_ev.Data.Tally.Votes.{cast_for, has_quorum, earners}
use steem_virtual_machine_ev.Data.Commit.{
  External, MsgPrevote, MsgVote, non_negative, get_aggregate_vote_hash, parse_exchange_rate_tuples,
  is_bonded, current_period_start, aggregate_exchange_rate_prevote, aggregate_exchange_rate_vote,
  prevote_not_expired,
}
use steem_virtual_machine_ev.Data.Commit.Laws.{vote-opens-prevote, vote-same_period}

abbrev three_ballots : List RateWeight
three_ballots =
    record { rate = 100; power = 4 }
    ∷ record { rate = 9000; power = 3 }
    ∷ record { rate = 102; power = 4 }
    ∷ []

weighted_median_halves_example :
    let m = weighted_median (sort_ballots three_ballots) (total_power three_ballots) in
    (power_below m three_ballots * 2 ≤ total_power three_ballots)
    × (total_power three_ballots ≤ power_up_to m three_ballots * 2)
weighted_median_halves_example = weighted_median_halves three_ballots (omega arith)

median_of-honest_example : (100 ≤ median_of three_ballots) × (median_of three_ballots ≤ 102)
median_of-honest_example = median_of-honest 100 102 three_ballots (omega arith)

abbrev pair : Bytes
pair = codes "P"

abbrev vote_of : ℕ → Vote
vote_of r = record { exchange_rates = (pair, r) ∷ []; voter = [] }

abbrev old_prevote : Prevote
old_prevote = record { hash = codes "h"; voter = []; submit_block = 3 }

abbrev store : DataStore
store = record {
  params = record {
    vote_period = 5;
    vote_threshold = one / 2;
    reward_band = one / 50;
    whitelist = pair ∷ [];
  };
  exchange_rate = [];
  prevote = (codes "a", old_prevote) ∷ [];
  vote = (codes "a", vote_of one) ∷ (codes "b", vote_of one) ∷ (codes "c", vote_of (9 * one)) ∷ [];
}

abbrev ctx : Context
ctx = record {
  get_validator = λ v. some record { tokens = 10; is_bonded = true };
  total_validator_power = 30;
  block_height = 20;
  block_time = 7;
}

get-tally_exchange_rates_example :
    get pair (tally_exchange_rates half_up ctx store).0.exchange_rate ≡ (
      if has pair store.params.whitelist
        && has_quorum store.params ctx (cast_for ctx pair store.vote)
      then some (record {
        pair = pair;
        rate = median_of (cast_for ctx pair store.vote);
        update_epoch = 20 / 5;
        update_time = 7;
      })
      else get pair store.exchange_rate)
get-tally_exchange_rates_example = get-tally_exchange_rates half_up ctx store pair (omega arith)

tally-clears_example :
    let after = (tally_exchange_rates half_up ctx store).0 in
    (after.vote ≡ []) × (get (codes "a") after.prevote ≡ none)
unfolding get bytes_beq
tally-clears_example =
    tally-clears half_up ctx store (refl, tt) (codes "a") (omega arith) (omega arith)

tally-rewarded_example :
    (tally_exchange_rates half_up ctx store).1
    ≡ earners half_up store.params ctx store.vote store.params.whitelist store.vote
tally-rewarded_example = tally-rewarded half_up ctx store

-- Addresses are the strings themselves, the digest is the text, and a rate is its first digit.
abbrev plain : External
plain = record {
  sha256_hex = λ b. b;
  string_to_bytes = some;
  val_address_string = λ b. b;
  dec_from_str = λ b. elim b [ [] ↦ none | c ∷ rest ↦ some (non_negative, c - 48) ];
}

abbrev reveal : MsgVote
reveal = record { salt = codes "s"; exchange_rates = codes "P:4"; validator = codes "v" }

abbrev commit : MsgPrevote
commit = record { hash = codes "s:P:4:v"; validator = codes "v" }

abbrev at_height : ℕ → Context
at_height h = record ctx { block_height = h }

abbrev empty : DataStore
empty = record store { exchange_rate = []; prevote = []; vote = [] }

abbrev committed : DataStore
committed = record empty {
  prevote =
      (codes "v", record { hash = codes "s:P:4:v"; voter = codes "v"; submit_block = 11 }) ∷ [];
}

abbrev revealed : DataStore
revealed = record empty {
  vote = (codes "v", record { exchange_rates = (pair, 4) ∷ []; voter = codes "v" }) ∷ [];
}

commit-committed : aggregate_exchange_rate_prevote plain (at_height 11) commit empty ≡ ok committed
unfolding aggregate_exchange_rate_prevote put bytes_beq
commit-committed = refl

reveal-revealed : aggregate_exchange_rate_vote plain (at_height 16) reveal committed ≡ ok revealed
unfolding aggregate_exchange_rate_vote get_aggregate_vote_hash parse_exchange_rate_tuples get put
    remove has bytes_beq trim_space split cut_last
reveal-revealed = refl

vote-opens-prevote_example :
    (reveal.salt ≡ codes "s")
    × (reveal.exchange_rates ≡ codes "P:4")
    × (11 < current_period_start committed (at_height 16))
    × (is_bonded (at_height 16) (codes "v") ≡ true)
    × (v : Vote) × (get (codes "v") revealed.vote ≡ some v)
    × (parse_exchange_rate_tuples plain (codes "P:4") ≡ ok v.exchange_rates)
    × (get (codes "v") revealed.prevote ≡ none)
unfolding get has bytes_beq get_aggregate_vote_hash
vote-opens-prevote_example =
    vote-opens-prevote plain (at_height 16) reveal committed revealed (codes "v") (codes "s")
      (codes "P:4") (record { hash = codes "s:P:4:v"; voter = codes "v"; submit_block = 11 }) refl
      refl refl refl refl (λ e. refl) reveal-revealed

vote-same_period_example :
    aggregate_exchange_rate_vote plain (at_height 14) reveal committed ≡ err prevote_not_expired
unfolding is_bonded
vote-same_period_example =
    vote-same_period plain (at_height 11) (at_height 14) commit reveal empty committed (codes "v")
      refl refl refl (omega arith) refl commit-committed

-- One commit that can be revealed as two rates for one pair: a colon in the salt moves the border
-- between salt and rates.
abbrev ambiguous : DataStore
ambiguous = record empty {
  prevote =
      (codes "v", record { hash = codes "s:A:5,B:J:A:6:v"; voter = codes "v"; submit_block = 11 })
      ∷ [];
}

abbrev revealed_as : Bytes → Bytes → Option ℕ
revealed_as salt rates =
    elim (aggregate_exchange_rate_vote plain (at_height 16)
      (record { salt = salt; exchange_rates = rates; validator = codes "v" }) ambiguous) [
        | err why ↦ none
        | ok k ↦ elim (get (codes "v") k.vote) [
          | none ↦ none
          | some v ↦ get (codes "A") v.exchange_rates
        ]
      ]

opened_two_ways :
    (revealed_as (codes "s") (codes "A:5,B:J:A:6") ≡ some 5)
    × (revealed_as (codes "s:A:5,B:J") (codes "A:6") ≡ some 6)
unfolding aggregate_exchange_rate_vote get_aggregate_vote_hash parse_exchange_rate_tuples get put
    remove has bytes_beq trim_space split cut_last
opened_two_ways = (refl, refl)
