-- ===== src/Bridge/Quota.antt =====
-- x/oracle/bridge/keeper/ante.go: the free messages of one address in one block.
pub mod Laws
pub mod Tests
use steem_virtual_machine_ev.Prelude.{
  ℕ, ◌+◌, ◌≡◌, leb, ◌==◌, if◌then◌else◌, Bool, true, false, Bytes, List, [], ◌∷◌, Option, none,
  some, Map, bytes_eq, get, put,
}

pub record FreeDepositCounter : Type 0 where
  pub height : ℕ
  pub count : ℕ

abbrev pub max_free_deposits_per_validator_per_block : ℕ
max_free_deposits_per_validator_per_block = 100

abbrev pub max_free_name_confirmations_per_address_per_block : ℕ
max_free_name_confirmations_per_address_per_block = 10

-- The stored counter of this block, or a new one: a counter of another height is out of date.
unfoldable pub current_counter : ℕ → Bytes → Map Bytes FreeDepositCounter → FreeDepositCounter
current_counter height addr counters = elim (get addr counters) [
  | none ↦ record { height = height; count = 0 }
  | some c ↦ if c.height == height then c else record { height = height; count = 0 }
]

-- Whether the message is free, and the counters after it.
unfoldable pub consume_free_quota :
    ℕ → ℕ → Bytes → Map Bytes FreeDepositCounter → Bool × Map Bytes FreeDepositCounter
unfolding current_counter
consume_free_quota height quota addr counters =
    let c = current_counter height addr counters in
    if leb quota c.count
    then (false, counters)
    else (true, put addr (record c { count = c.count + 1 }) counters)

unfoldable pub consume_free_deposit_quota :
    ℕ → Bytes → Map Bytes FreeDepositCounter → Bool × Map Bytes FreeDepositCounter
unfolding consume_free_quota
consume_free_deposit_quota height =
    consume_free_quota height max_free_deposits_per_validator_per_block

unfoldable pub consume_free_name_confirm_quota :
    ℕ → Bytes → Map Bytes FreeDepositCounter → Bool × Map Bytes FreeDepositCounter
unfolding consume_free_quota
consume_free_name_confirm_quota height =
    consume_free_quota height max_free_name_confirmations_per_address_per_block
