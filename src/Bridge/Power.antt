-- ===== src/Bridge/Power.antt =====
-- x/oracle/bridge/keeper/power.go: the bonded power behind one candidate.
pub mod Unique
use steem_virtual_machine_ev.Prelude.{
  ℕ, ◌+◌, ◌==◌, if◌then◌else◌, ◌&&◌, Bool, true, false, Bytes, List, [], ◌∷◌, Option, none, some,
  KeySet, ◌=?◌, Eq, bytes_eq, nat_eq, bytes_beq, not,
}
use steem_virtual_machine_ev.Decimal.{Decimal, of_int}
use steem_virtual_machine_ev.Bridge.State.{Context}

-- What a confirmer adds: nothing if it is gone or not bonded any more.
unfoldable pub power_of : Context → Bytes → ℕ
power_of ctx addr = elim (ctx.get_validator addr) [
  | none ↦ 0
  | some v ↦ if v.is_bonded then v.tokens else 0
]

module _ {K : Type 0} ⦃e : Eq K⦄ where
  -- The walk over the votes for one candidate of one key. The vote sets of deposits and names are
  -- keyed by strings, that of payouts by the withdrawal's number.
  unfoldable pub confirmed_power : Context → K → Bytes → KeySet (K × Bytes × Bytes) → ℕ
  unfolding power_of
  confirmed_power ctx key candidate [] = 0
  confirmed_power ctx key candidate ((k, c, v) ∷ votes) =
      if (k =? key) && bytes_beq c candidate
      then power_of ctx v + confirmed_power ctx key candidate votes
      else confirmed_power ctx key candidate votes

  -- The share of the bonded power, 0 if nothing is bonded.
  unfoldable pub candidate_ratio : Decimal → Context → K → Bytes → KeySet (K × Bytes × Bytes) → ℕ
  unfolding confirmed_power
  candidate_ratio dec ctx key candidate votes =
      if ctx.total_validator_power == 0
      then 0
      else dec.quo (of_int (confirmed_power ctx key candidate votes))
          (of_int ctx.total_validator_power)

  -- Removes every vote of one key.
  unfoldable pub clear_votes : K → KeySet (K × Bytes × Bytes) → KeySet (K × Bytes × Bytes)
  clear_votes key [] = []
  clear_votes key ((k, c, v) ∷ votes) =
      if k =? key then clear_votes key votes else (k, c, v) ∷ clear_votes key votes
