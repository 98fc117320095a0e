-- ===== src/Oracle/Tests.antt =====
-- Concrete windows for the theorems of the Oracle modules: two validators, of which one misses a
-- duty.
use steem_virtual_machine_ev.Prelude.{
  ℕ, ◌-◌, ◌^◌, ◌≤◌, ◌≡◌, refl, arith, if◌then◌else◌, true, false, Bytes, [], ◌∷◌, some, ok, has,
  bytes_beq, codes, inr, bytes_eq, get, put, Bool, List, none, ◌=?◌, sum_by, add_key,
}
use steem_virtual_machine_ev.Decimal.{plus, at_most, less_than, one, half_up, half_up-Rounds}
use steem_virtual_machine_ev.Oracle.Eval.{
  DutyTally, rate, active, combined_score, weight_sum, weighted, evaluate_validator_window,
}
use steem_virtual_machine_ev.Oracle.Eval.Laws.{score-le-one, idle_duty-slashed}
use steem_virtual_machine_ev.Oracle.Duty.{
  ValidatorTally, duty_price, duty_bridge, Tallies, get_tally, bump, record_duty,
}
use steem_virtual_machine_ev.Oracle.Duty.Laws.{
  Advanced, get_tally-record_duty, record_duty-IsCounted, IsCounted,
}
use steem_virtual_machine_ev.Oracle.Window.{
  Params, StakingKeeper, judge, to_slash, slash_all, end_block,
}
use steem_virtual_machine_ev.Oracle.Window.Laws.{perfect-not-slashed}

abbrev half_duty : DutyTally
half_duty = record { opportunities = 4; hits = 2 }

abbrev full_duty : DutyTally
full_duty = record { opportunities = 3; hits = 3 }

abbrev idle_duty : DutyTally
idle_duty = record { opportunities = 3; hits = 0 }

score-le-one_example :
    (n : ℕ) × ((evaluate_validator_window half_up half_duty full_duty one one 1000 0).score
      ≡ plus n)
    × (n ≤ one)
score-le-one_example =
    score-le-one half_up half_up-Rounds half_duty full_duty one one 1000 0 (omega arith)
      (omega arith) (omega arith) (omega arith)

-- From 2^63 on a counter is negative as int64: half of the opportunities taken is a rate below 0.
abbrev wrapped_duty : DutyTally
wrapped_duty = record { opportunities = 2 ^ 64 - 2; hits = 2 ^ 63 - 1 }

rate-wrapped : at_most (rate half_up wrapped_duty) 0 ≡ true
unfolding rate at_most
rate-wrapped = refl

idle_duty-slashed_example :
    (evaluate_validator_window half_up full_duty idle_duty one 0 0 0).should_slash ≡ true
idle_duty-slashed_example =
    idle_duty-slashed half_up half_up-Rounds full_duty idle_duty one 0 0 0 (inr (omega arith, refl))

abbrev alice : Bytes
alice = codes "alice"

abbrev bob : Bytes
bob = codes "bob"

get_tally-record_duty_example :
    (after : Tallies) × (record_duty some (alice ∷ bob ∷ []) (bob ∷ []) duty_price [] ≡ ok after)
    × ((v : Bytes)
        → Advanced duty_price
            (has v (alice ∷ bob ∷ []))
            (has v (bob ∷ []))
            (get_tally v [])
            (get_tally v after))
unfolding has bytes_beq
get_tally-record_duty_example =
    get_tally-record_duty some (alice ∷ bob ∷ []) (alice ∷ bob ∷ []) (bob ∷ []) duty_price []
      (refl, (refl, tt)) (refl, (refl, tt))

empty-IsCounted : (v : Bytes) → IsCounted (get_tally v [])
unfolding get_tally get
empty-IsCounted v = ground arith

abbrev after_bridge : Tallies
after_bridge =
    (
      alice,
      record { price_opportunities = 0; price_hits = 0; bridge_opportunities = 1; bridge_hits = 1 },
    )
    ∷ []

record_duty-IsCounted_example : IsCounted (get_tally alice after_bridge)
unfolding record_duty get_tally get has bump put bytes_beq
record_duty-IsCounted_example =
    record_duty-IsCounted some (alice ∷ []) (alice ∷ []) duty_bridge [] after_bridge empty-IsCounted
      refl alice

abbrev perfect : ValidatorTally
perfect = record {
  price_opportunities = 2;
  price_hits = 2;
  bridge_opportunities = 1;
  bridge_hits = 1;
}

abbrev lazy : ValidatorTally
lazy = record { price_opportunities = 2; price_hits = 0; bridge_opportunities = 1; bridge_hits = 1 }

abbrev two_tallies : Tallies
two_tallies = (alice, perfect) ∷ (bob, lazy) ∷ []

abbrev params : Params
params = record {
  slash_window = 10;
  slash_fraction = 5;
  min_valid_per_window = one;
  w_price = one;
  w_bridge = one;
  duty_floor = 0;
}

perfect-not-slashed_example : has alice (to_slash half_up params two_tallies) ≡ false
unfolding get bytes_beq
perfect-not-slashed_example =
    perfect-not-slashed half_up params two_tallies alice perfect half_up-Rounds (omega arith)
      (omega arith) (refl, (refl, tt)) refl (refl, refl)

-- A staking module that writes down its slashes and who is jailed.
abbrev Staked : Type 0
Staked = List (Bytes × ℕ) × List Bytes

abbrev taken : Bytes → Staked → ℕ
taken v (slashes, jailed) = sum_by (λ e. if v =? e.0 then e.1 else 0) slashes

abbrev is_jailed : Bytes → Staked → Bool
is_jailed v (slashes, jailed) = has v jailed

abbrev recording : StakingKeeper Staked
recording = record {
  get_validator = λ v s. some (some v, 100);
  slash = λ cons height power fraction s. some ((cons, fraction) ∷ s.0, s.1);
  jail = λ cons s. if has cons s.1 then none else some (s.0, add_key cons s.1);
}

-- bob, who took part in no price vote, loses the fraction and is jailed; alice does not.
end_block-bob :
    let after = (end_block recording half_up params 20 (two_tallies, ([], []))).1 in
    (taken bob after ≡ 5)
    × (is_jailed bob after ≡ true)
    × (taken alice after ≡ 0)
    × (is_jailed alice after ≡ false)
unfolding end_block to_slash slash_all add_key has bytes_beq judge evaluate_validator_window active
    rate combined_score weight_sum weighted at_most less_than
end_block-bob = (refl, refl, refl, refl)
