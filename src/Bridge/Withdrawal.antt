-- ===== src/Bridge/Withdrawal.antt =====
-- x/oracle/bridge/keeper: msg_server_bridge_out.go (`BridgeOut`),
-- msg_server_attest_withdrawal_payout.go (`AttestWithdrawalPayout`) and the sweep of abci.go
-- (`RefundExpiredWithdrawals`). Events are left out.
pub mod Creation
pub mod Payout
use steem_virtual_machine_ev.Prelude.{
  ℕ, suc, ◌+◌, ◌*◌, ◌/◌, ◌%◌, ◌≡◌, leb, ltb, ◌==◌, if◌then◌else◌, Bool, true, false, not, ◌&&◌,
  ◌||◌, Bytes, bytes_beq, List, [], ◌∷◌, ◌++◌, Option, none, some, Map, KeySet, Eq, bytes_eq,
  nat_eq, pair_eq, triple_eq, ◌=?◌, get, put, remove, has, add_key, drop_key, take, Result, ok, err,
  ◌>>=◌, ◌>>◌, guard, or_err,
}
use steem_virtual_machine_ev.Decimal.{Decimal}
use steem_virtual_machine_ev.Bridge.Amounts.{
  BridgeAsset, asset_beq, steem, sbd, u64, millisteem_to_asteem, millisteem_to_asteem_factor,
  denom_for_asset, apply_bridge_fee,
}
use steem_virtual_machine_ev.Bridge.Facts.{payout_candidate_key}
use steem_virtual_machine_ev.Bridge.State.{
  Error, bridge_out_disabled, steem_block_before_anchor, invalid_address, not_bonded_validator,
  invalid_amount, exceeds_bridged_amount, withdrawal_not_found, not_found,
  withdrawal_already_processed, withdrawal_already_refunded, duplicate_withdrawal_confirmation,
  withdrawal_payout_mismatch, bank_refused, WithdrawalStatus, requested, processed, refunded,
  withdrawal_status_eq, Confirmation, Withdrawal, Params, check_steem_block, BridgeTotals,
  BridgeDutyKind, duty_withdrawal, duty_kind_eq, WithdrawalStore, Store, Context, External,
  BankKeeper, is_bonded,
}
use steem_virtual_machine_ev.Bridge.Power.{candidate_ratio}
use steem_virtual_machine_ev.Bridge.Credit.{send_positive, add_minted}
use steem_virtual_machine_ev.Bridge.Fields.{
  validate_withdrawal_destination, validate_withdrawal_memo,
}
use steem_virtual_machine_ev.Bridge.Deposit.{enqueue_bridge_duty}

-- A `math.Int` of a message: nil, a negative number, or another.
pub data MathInt : Type 0 where
  nil_int negative_int : MathInt
  non_negative_int : ℕ → MathInt

pub record MsgBridgeOut : Type 0 where
  pub sender : Bytes
  pub destination_steem_account : Bytes
  pub amount_asteem : MathInt
  pub memo : Bytes
  pub asset : BridgeAsset

pub record MsgAttestWithdrawalPayout : Type 0 where
  pub validator : Bytes
  pub withdrawal_id : ℕ
  pub steem_txid : Bytes
  pub op_index : ℕ
  pub steem_block : ℕ
  pub amount_millisteem : ℕ
  pub asset : BridgeAsset
  pub destination_steem_account : Bytes
  pub memo : Bytes

unfoldable pub positive_amount : MathInt → Option ℕ
positive_amount nil_int = none
positive_amount negative_int = none
positive_amount (non_negative_int n) = if n == 0 then none else some n

unfoldable pub minted_of : BridgeAsset → BridgeTotals → ℕ
minted_of sbd t = t.total_minted_asbd
minted_of steem t = t.total_minted_asteem

unfoldable pub burned_of : BridgeAsset → BridgeTotals → ℕ
burned_of sbd t = t.total_burned_asbd
burned_of steem t = t.total_burned_asteem

unfoldable pub add_burned : BridgeAsset → ℕ → BridgeTotals → BridgeTotals
add_burned sbd amount t = record t { total_burned_asbd = t.total_burned_asbd + amount }
add_burned steem amount t = record t { total_burned_asteem = t.total_burned_asteem + amount }

unfoldable pub new_withdrawal : Context → ℕ → MsgBridgeOut → ℕ → ℕ → ℕ → Withdrawal
new_withdrawal ctx i msg amount net fee = record {
  id = i;
  sender = msg.sender;
  destination_steem_account = msg.destination_steem_account;
  amount_asteem = amount;
  amount_millisteem = net;
  memo = msg.memo;
  burn_tx_hash = ctx.tx_hash;
  status = requested;
  created_at = ctx.block_height;
  asset = msg.asset;
  fee_millisteem = fee;
  steem_payout_txid = [];
  payout_op_index = 0;
  processed_at = 0;
  validator_confirmations = [];
  refunded_at = 0;
}

-- The record of a withdrawal, under the next number.
unfoldable pub record_withdrawal :
    Context → MsgBridgeOut → ℕ → ℕ → ℕ → WithdrawalStore → WithdrawalStore
unfolding new_withdrawal
record_withdrawal ctx msg amount net fee k = record k {
  withdrawal_seq = suc k.withdrawal_seq;
  withdrawal =
      put k.withdrawal_seq (new_withdrawal ctx k.withdrawal_seq msg amount net fee) k.withdrawal;
  withdrawal_by_status = add_key (requested, k.withdrawal_seq) k.withdrawal_by_status;
}

-- The checks of a bridge-out before any money moves: the sender and the amount in asteem.
unfoldable pub check_bridge_out : External → MsgBridgeOut → Params → Result Error (Bytes × ℕ)
unfolding validate_withdrawal_destination validate_withdrawal_memo positive_amount
check_bridge_out x msg p = do
  sender ← or_err (x.string_to_bytes msg.sender) invalid_address
  guard p.bridge_out_enabled bridge_out_disabled
  validate_withdrawal_destination msg.destination_steem_account
  validate_withdrawal_memo msg.memo
  amount ← or_err (positive_amount msg.amount_asteem) invalid_amount
  guard (amount % millisteem_to_asteem_factor == 0) invalid_amount
  let gross = amount / millisteem_to_asteem_factor
  guard (ltb gross u64) invalid_amount
  guard (not (not (p.minimum_bridge_amount == 0) && ltb gross p.minimum_bridge_amount))
      invalid_amount
  ok (sender, amount)

unfoldable pub payout_matches : Withdrawal → MsgAttestWithdrawalPayout → Bool
payout_matches w msg =
    w.amount_millisteem == msg.amount_millisteem
    && (asset_beq w.asset msg.asset
        && (bytes_beq w.destination_steem_account msg.destination_steem_account
            && bytes_beq w.memo msg.memo))

module _ {Bank : Type 0} (x : External) (bk : BankKeeper Bank) (ctx : Context) where
  unfoldable pub bridge_out : MsgBridgeOut → Store Bank → Result Error (Store Bank)
  unfolding check_bridge_out send_positive add_burned minted_of burned_of record_withdrawal
      apply_bridge_fee
  bridge_out msg s = do
    checked ← check_bridge_out x msg s.params
    let sender = checked.0
    let amount = checked.1
    let denom = denom_for_asset msg.asset
    let split = apply_bridge_fee (amount / millisteem_to_asteem_factor) s.params.bridge_fee_bps
    let net = millisteem_to_asteem split.0
    let fee = millisteem_to_asteem split.1
    guard (leb (burned_of msg.asset s.totals + net) (minted_of msg.asset s.totals))
        exceeds_bridged_amount
    b1 ← send_positive bk sender x.black_hole denom net s.bank
    b2 ← send_positive bk sender x.bridge_reward denom fee b1
    ok (record s {
      bank = b2;
      totals = add_burned msg.asset net s.totals;
      withdrawals = record_withdrawal ctx msg amount split.0 split.1 s.withdrawals;
    })

module _ {Bank : Type 0} (dec : Decimal) (x : External) (ctx : Context) where
  -- The bookkeeping of the first candidate to reach the threshold, on the record, the index and the
  -- duty queue.
  unfoldable pub mark_processed :
      MsgAttestWithdrawalPayout → Withdrawal → Store Bank → Withdrawal × Store Bank
  unfolding enqueue_bridge_duty
  mark_processed msg w s = (
    record w {
      steem_payout_txid = msg.steem_txid;
      payout_op_index = msg.op_index;
      status = processed;
      processed_at = ctx.block_height;
    },
    record s {
      withdrawals = record s.withdrawals {
        withdrawal_by_status =
            add_key (processed, msg.withdrawal_id)
              (drop_key (requested, msg.withdrawal_id) s.withdrawals.withdrawal_by_status);
      };
      bridge_duty_queue = enqueue_bridge_duty duty_withdrawal w.id s.bridge_duty_queue;
    },
  )

  -- The vote of the validator at an address, which has no vote on this withdrawal yet.
  unfoldable pub confirm_payout :
      Bytes → MsgAttestWithdrawalPayout → Withdrawal → Store Bank → Store Bank
  unfolding mark_processed candidate_ratio payout_candidate_key
  confirm_payout addr msg w s =
      let k = s.withdrawals in
      let candidate = payout_candidate_key msg.steem_txid msg.op_index in
      let votes = add_key (msg.withdrawal_id, candidate, addr) k.withdrawal_payout_vote in
      let confirmation : Confirmation = record {
        validator_address = x.val_to_bech32 addr;
        timestamp = ctx.block_time;
      } in
      let w1 = record w {
        validator_confirmations = w.validator_confirmations ++ confirmation ∷ [];
      } in
      let s1 = record s {
        withdrawals = record k {
          withdrawal_confirmed_by = add_key (msg.withdrawal_id, addr) k.withdrawal_confirmed_by;
          withdrawal_payout_vote = votes;
        };
      } in
      let ratio = candidate_ratio dec ctx msg.withdrawal_id candidate votes in
      let passed = (w1.status =? requested) && leb s.params.bridge_confirmation_threshold ratio in
      let next = if passed then mark_processed msg w1 s1 else (w1, s1) in
      record next.1 {
        withdrawals = record next.1.withdrawals {
          withdrawal = put msg.withdrawal_id next.0 next.1.withdrawals.withdrawal;
        };
      }

  unfoldable pub attest_withdrawal_payout :
      MsgAttestWithdrawalPayout → Store Bank → Result Error (Store Bank)
  unfolding confirm_payout check_steem_block is_bonded payout_matches
  attest_withdrawal_payout msg s = do
    guard s.params.bridge_out_enabled bridge_out_disabled
    guard (check_steem_block s.params msg.steem_block) steem_block_before_anchor
    addr ← or_err (x.string_to_bytes msg.validator) invalid_address
    guard (is_bonded ctx addr) not_bonded_validator
    w ← or_err (get msg.withdrawal_id s.withdrawals.withdrawal) withdrawal_not_found
    let no_vote =
        (w.status =? processed)
        || ((w.status =? refunded)
            || (not (payout_matches w msg)
                || has (msg.withdrawal_id, addr) s.withdrawals.withdrawal_confirmed_by))
    elim no_vote [ true ↦ ok s | false ↦ ok (confirm_payout addr msg w s) ]

unfoldable pub validate_withdrawal_processed_acceptance :
    {Bank : Type 0} → External → MsgAttestWithdrawalPayout → Store Bank → Result Error (Unit {0})
unfolding check_steem_block payout_matches
validate_withdrawal_processed_acceptance x msg s = do
  guard s.params.bridge_out_enabled bridge_out_disabled
  guard (check_steem_block s.params msg.steem_block) steem_block_before_anchor
  addr ← or_err (x.string_to_bytes msg.validator) invalid_address
  w ← or_err (get msg.withdrawal_id s.withdrawals.withdrawal) withdrawal_not_found
  guard (not (w.status =? processed)) withdrawal_already_processed
  guard (not (w.status =? refunded)) withdrawal_already_refunded
  guard (not (has (msg.withdrawal_id, addr) s.withdrawals.withdrawal_confirmed_by))
      duplicate_withdrawal_confirmation
  guard (payout_matches w msg) withdrawal_payout_mismatch
