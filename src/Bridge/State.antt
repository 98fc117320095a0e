-- ===== src/Bridge/State.antt =====
-- The records of x/oracle/bridge/types and the collections of keeper/keeper.go, with the SDK modules
-- that the keeper calls: staking through `Context`, bank through `BankKeeper`, and the address
-- codecs and hashes through `External`.
--
-- The collections are grouped by the part of the keeper that writes them. Params and Totals are
-- set from genesis on.
use steem_virtual_machine_ev.Prelude.{
  ℕ, ◌+◌, ◌≡◌, ltb, if◌then◌else◌, Bool, true, false, ◌&&◌, Bytes, List, Option, none, some, Map,
  KeySet, Eq, ◌↔◌, codes, bytes_eq, nat_eq, arith,
}
use steem_virtual_machine_ev.Bridge.Amounts.{BridgeAsset}
use steem_virtual_machine_ev.Bridge.Memo.{DestinationType}

pub data Error : Type 0 where
  bridge_disabled bridge_out_disabled invalid_gateway_account steem_block_before_anchor : Error
  invalid_address not_bonded_validator not_found invalid_signer : Error
  duplicate_confirmation deposit_already_minted : Error
  invalid_steem_account invalid_request invalid_amount exceeds_bridged_amount : Error
  withdrawal_not_found withdrawal_already_processed withdrawal_already_refunded : Error
  duplicate_withdrawal_confirmation withdrawal_payout_mismatch : Error
  name_service_disabled registration_below_minimum registration_already_resolved : Error
  registration_mismatch registration_not_found registration_not_awaiting : Error
  confirmer_not_destination : Error
  bank_refused distribution_refused : Error

-- types.GatewayAccount
abbrev pub gateway_account_name : Bytes
gateway_account_name = codes "svm.bank"

pub data DepositStatus : Type 0 where
  pending minted unclaimable expired : DepositStatus

abbrev pub deposit_status_beq : DepositStatus → DepositStatus → Bool
deposit_status_beq pending pending = true
deposit_status_beq minted minted = true
deposit_status_beq unclaimable unclaimable = true
deposit_status_beq expired expired = true
deposit_status_beq _ _ = false

pub deposit_status_beq_iff : (a b : DepositStatus) → (deposit_status_beq a b ≡ true) ↔ (a ≡ b)
deposit_status_beq_iff pending b = ground arith
deposit_status_beq_iff minted b = ground arith
deposit_status_beq_iff unclaimable b = ground arith
deposit_status_beq_iff expired b = ground arith

instance abbrev pub deposit_status_eq : Eq DepositStatus
deposit_status_eq = record { beq = deposit_status_beq; beq_iff = deposit_status_beq_iff }

pub data WithdrawalStatus : Type 0 where
  requested processed refunded : WithdrawalStatus

abbrev pub withdrawal_status_beq : WithdrawalStatus → WithdrawalStatus → Bool
withdrawal_status_beq requested requested = true
withdrawal_status_beq processed processed = true
withdrawal_status_beq refunded refunded = true
withdrawal_status_beq _ _ = false

pub withdrawal_status_beq_iff :
    (a b : WithdrawalStatus) → (withdrawal_status_beq a b ≡ true) ↔ (a ≡ b)
withdrawal_status_beq_iff requested b = ground arith
withdrawal_status_beq_iff processed b = ground arith
withdrawal_status_beq_iff refunded b = ground arith

instance abbrev pub withdrawal_status_eq : Eq WithdrawalStatus
withdrawal_status_eq = record { beq = withdrawal_status_beq; beq_iff = withdrawal_status_beq_iff }

pub record Confirmation : Type 0 where
  pub validator_address : Bytes
  pub timestamp : ℕ

pub record Deposit : Type 0 where
  pub id : ℕ
  pub txid : Bytes
  pub op_index : ℕ
  pub steem_block : ℕ
  pub steem_timestamp : Bytes
  pub steem_sender : Bytes
  pub gateway_account : Bytes
  pub amount_millisteem : ℕ
  pub memo : Bytes
  pub derived_destination : Bytes
  pub destination_type : DestinationType
  pub status : DepositStatus
  pub minted_flag : Bool
  pub minted_at : ℕ
  pub mint_tx_hash : Bytes
  pub created_at : ℕ
  pub validator_confirmations : List Confirmation
  pub asset : BridgeAsset

pub record Withdrawal : Type 0 where
  pub id : ℕ
  pub sender : Bytes
  pub destination_steem_account : Bytes
  pub amount_asteem : ℕ
  pub amount_millisteem : ℕ
  pub memo : Bytes
  pub burn_tx_hash : Bytes
  pub status : WithdrawalStatus
  pub created_at : ℕ
  pub asset : BridgeAsset
  pub fee_millisteem : ℕ
  pub steem_payout_txid : Bytes
  pub payout_op_index : ℕ
  pub processed_at : ℕ
  pub validator_confirmations : List Confirmation
  pub refunded_at : ℕ

-- What the keeper's logic reads of the parameters.
pub record Params : Type 0 where
  pub bridge_enabled : Bool
  pub bridge_out_enabled : Bool
  pub bridge_confirmation_threshold : ℕ
  pub minimum_bridge_amount : ℕ
  pub maximum_bridge_amount : ℕ
  pub deposit_timeout_blocks : ℕ
  pub name_service_enabled : Bool
  pub name_registration_min_millisteem : ℕ
  pub name_pending_timeout_blocks : ℕ
  pub relayer_start_block : ℕ
  pub bridge_fee_bps : ℕ
  pub withdrawal_timeout_blocks : ℕ

-- `Params.CheckSteemBlock`: whether the block is accepted.
unfoldable pub check_steem_block : Params → ℕ → Bool
check_steem_block p block =
    if ltb 0 p.relayer_start_block && ltb block p.relayer_start_block then false else true

pub record BridgeTotals : Type 0 where
  pub total_minted_asteem : ℕ
  pub total_burned_asteem : ℕ
  pub total_minted_asbd : ℕ
  pub total_burned_asbd : ℕ

pub data BridgeDutyKind : Type 0 where
  duty_deposit duty_withdrawal : BridgeDutyKind

abbrev pub duty_kind_beq : BridgeDutyKind → BridgeDutyKind → Bool
duty_kind_beq duty_deposit duty_deposit = true
duty_kind_beq duty_withdrawal duty_withdrawal = true
duty_kind_beq _ _ = false

pub duty_kind_beq_iff : (a b : BridgeDutyKind) → (duty_kind_beq a b ≡ true) ↔ (a ≡ b)
duty_kind_beq_iff duty_deposit b = ground arith
duty_kind_beq_iff duty_withdrawal b = ground arith

instance abbrev pub duty_kind_eq : Eq BridgeDutyKind
duty_kind_eq = record { beq = duty_kind_beq; beq_iff = duty_kind_beq_iff }

-- Deposits: the sequence, the records, the (txid, opIndex) index, who confirmed it, the votes by
-- (dedup key, facts hash, validator), and the status index.
pub record DepositStore : Type 0 where
  pub deposit_seq : ℕ
  pub deposit : Map ℕ Deposit
  pub deposit_by_txid : Map (Bytes × ℕ) ℕ
  pub deposit_confirmed_by : KeySet (Bytes × ℕ × Bytes)
  pub deposit_facts_vote : KeySet (Bytes × Bytes × Bytes)
  pub deposit_by_status : KeySet (DepositStatus × ℕ)

pub record WithdrawalStore : Type 0 where
  pub withdrawal_seq : ℕ
  pub withdrawal : Map ℕ Withdrawal
  pub withdrawal_by_status : KeySet (WithdrawalStatus × ℕ)
  pub withdrawal_confirmed_by : KeySet (ℕ × Bytes)
  pub withdrawal_payout_vote : KeySet (ℕ × Bytes × Bytes)

-- The keeper's state, with that of the bank module.
pub record Store (Bank : Type 0) : Type 0 where
  pub bank : Bank
  pub params : Params
  pub totals : BridgeTotals
  pub deposits : DepositStore
  pub withdrawals : WithdrawalStore
  pub bridge_duty_queue : KeySet (BridgeDutyKind × ℕ)

pub record Validator : Type 0 where
  pub tokens : ℕ
  pub is_bonded : Bool

-- The staking keeper's answers and the header of the block, with the hash of the transaction.
pub record Context : Type 0 where
  pub get_validator : Bytes → Option Validator
  pub total_validator_power : ℕ
  pub block_height : ℕ
  pub block_time : ℕ
  pub tx_hash : Bytes

-- The SDK's codecs and the hashes, and the addresses of the module accounts.
pub record External : Type 0 where
  pub string_to_bytes : Bytes → Option Bytes
  pub bytes_to_string : Bytes → Option Bytes
  pub val_to_bech32 : Bytes → Bytes
  pub val_from_bech32 : Bytes → Option Bytes
  pub acc_from_bech32 : Bytes → Option Bytes
  pub hex_to_address : Bytes → Bytes
  pub sha256_hex : Bytes → Bytes
  pub black_hole : Bytes
  pub bridge_reward : Bytes
  pub fee_collector : Bytes

-- The bank module over its own state: coins of one denomination, and addresses. `none` is a
-- refusal, such as a lack of funds or a blocked recipient.
pub record BankKeeper (Bank : Type 0) : Type 0 where
  pub mint_coins : Bytes → Bytes → ℕ → Bank → Option Bank
  pub send_coins : Bytes → Bytes → Bytes → ℕ → Bank → Option Bank
  pub burn_coins : Bytes → Bytes → ℕ → Bank → Option Bank
  pub balance : Bank → Bytes → Bytes → ℕ

-- What the bank module documents of a call that succeeds: minting raises one balance, sending moves
-- an amount that is there.
pub record BankLaws {Bank : Type 0} (b : BankKeeper Bank) : Type 0 where
  pub mint_balance :
      (acct denom : Bytes) (amount : ℕ) (s s' : Bank)
      → b.mint_coins acct denom amount s ≡ some s'
      → b.balance s' acct denom ≡ b.balance s acct denom + amount
  pub mint_other :
      (acct denom : Bytes) (amount : ℕ) (s s' : Bank) (other : Bytes)
      → b.mint_coins acct denom amount s ≡ some s'
      → ¬ (other ≡ acct)
      → b.balance s' other denom ≡ b.balance s other denom
  pub send_from :
      (source dest denom : Bytes) (amount : ℕ) (s s' : Bank)
      → b.send_coins source dest denom amount s ≡ some s'
      → ¬ (source ≡ dest)
      → b.balance s' source denom + amount ≡ b.balance s source denom
  pub send_to :
      (source dest denom : Bytes) (amount : ℕ) (s s' : Bank)
      → b.send_coins source dest denom amount s ≡ some s'
      → ¬ (source ≡ dest)
      → b.balance s' dest denom ≡ b.balance s dest denom + amount
  pub send_other :
      (source dest denom : Bytes) (amount : ℕ) (s s' : Bank) (other : Bytes)
      → b.send_coins source dest denom amount s ≡ some s'
      → ¬ (other ≡ source)
      → ¬ (other ≡ dest)
      → b.balance s' other denom ≡ b.balance s other denom

-- `!validator.IsBonded()` or no such validator.
unfoldable pub is_bonded : Context → Bytes → Bool
is_bonded ctx addr = elim (ctx.get_validator addr) [ none ↦ false | some v ↦ v.is_bonded ]
