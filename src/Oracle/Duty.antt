-- ===== src/Oracle/Duty.antt =====
-- x/oracle/keeper/tally.go: both duty modules report who took part, and every bonded validator
-- gains an opportunity.
pub mod Laws
use steem_virtual_machine_ev.Prelude.{
  ℕ, suc, ◌+◌, ◌≡◌, arith, if◌then◌else◌, Bool, true, false, Bytes, List, [], ◌∷◌, Option, none,
  some, Result, ok, err, Map, KeySet, get, put, has, bytes_eq,
}

pub record ValidatorTally : Type 0 where
  pub price_opportunities : ℕ
  pub price_hits : ℕ
  pub bridge_opportunities : ℕ
  pub bridge_hits : ℕ

abbrev pub zero_tally : ValidatorTally
zero_tally = record {
  price_opportunities = 0;
  price_hits = 0;
  bridge_opportunities = 0;
  bridge_hits = 0;
}

pub data Duty : Type 0 where
  duty_price duty_bridge : Duty

pub data Error : Type 0 where
  invalid_operator_address : Error

-- By operator address bytes.
abbrev pub Tallies : Type 0
Tallies = Map Bytes ValidatorTally

unfoldable pub get_tally : Bytes → Tallies → ValidatorTally
get_tally valoper tallies = elim (get valoper tallies) [ none ↦ zero_tally | some t ↦ t ]

-- One opportunity, and a hit for who took part. The uint64 counters go up by one for an event and
-- are cleared in each window, so that their wrap at 2^64 is left out.
unfoldable pub bump : Duty → Bool → ValidatorTally → ValidatorTally
bump duty_price did t = record t {
  price_opportunities = t.price_opportunities + 1;
  price_hits = if did then t.price_hits + 1 else t.price_hits;
}
bump duty_bridge did t = record t {
  bridge_opportunities = t.bridge_opportunities + 1;
  bridge_hits = if did then t.bridge_hits + 1 else t.bridge_hits;
}

-- The loop over the bonded validators, given by their operator strings; `decode` is the staking
-- keeper's `ValidatorAddressCodec().StringToBytes`.
unfoldable pub accrue :
    (Bytes → Option Bytes) → Duty → KeySet Bytes → List Bytes → Tallies → Result Error Tallies
accrue decode d did [] tallies = ok tallies
accrue decode d did (v ∷ bonded) tallies = elim (decode v) [
  | none ↦ err invalid_operator_address
  | some valoper ↦
      accrue decode d did bonded
        (put valoper (bump d (has valoper did) (get_tally valoper tallies)) tallies)
]

unfoldable pub record_duty :
    (Bytes → Option Bytes) → List Bytes → List Bytes → Duty → Tallies → Result Error Tallies
unfolding accrue
record_duty decode bonded participants d tallies = accrue decode d participants bonded tallies

unfoldable pub record_price_participation :
    (Bytes → Option Bytes) → List Bytes → List Bytes → Tallies → Result Error Tallies
unfolding record_duty
record_price_participation decode bonded voters = record_duty decode bonded voters duty_price

unfoldable pub record_bridge_event :
    (Bytes → Option Bytes) → List Bytes → List Bytes → Tallies → Result Error Tallies
unfolding record_duty
record_bridge_event decode bonded attesters = record_duty decode bonded attesters duty_bridge
