-- ===== src/Bridge/Ledger.antt =====
-- The bridge as a transition system over one store: the handlers and the sweeps of
-- x/oracle/bridge/keeper as steps, and what its records say of the money. Registrations of names
-- have a store of their own and are not steps here.
pub mod Index
pub mod Sums
pub mod Deposits
pub mod Attest
pub mod Sweep
pub mod Withdrawals
pub mod Refunds
pub mod Solvency
use steem_virtual_machine_ev.Prelude.{
  ℕ, ◌+◌, ◌≡◌, ◌≤◌, leb, if◌then◌else◌, Bool, true, false, ◌&&◌, Bytes, List, [], ◌∷◌, Option, none,
  some, Map, ◌=?◌, get, Result, ok,
}
use steem_virtual_machine_ev.Decimal.{Decimal}
use steem_virtual_machine_ev.Bridge.Amounts.{BridgeAsset, asset_beq, millisteem_to_asteem}
use steem_virtual_machine_ev.Bridge.State.{
  DepositStatus, pending, minted, deposit_status_eq, Deposit, WithdrawalStatus, requested, refunded,
  withdrawal_status_eq, Withdrawal, Params, BridgeTotals, DepositStore, WithdrawalStore, Store,
  Context, External, BankKeeper,
}
use steem_virtual_machine_ev.Bridge.Deposit.{MsgAttestDeposit, attest_deposit}
use steem_virtual_machine_ev.Bridge.Withdrawal.{
  MsgBridgeOut, MsgAttestWithdrawalPayout, bridge_out, attest_withdrawal_payout,
}
use steem_virtual_machine_ev.Bridge.Expiry.{expire_deposits, refund_expired_withdrawals}

-- What a deposit has brought in: its gross amount, once it is minted.
unfoldable pub brought_in : BridgeAsset → Deposit → ℕ
brought_in a d =
    if (d.status =? minted) && asset_beq a d.asset
    then millisteem_to_asteem d.amount_millisteem
    else 0

-- What a withdrawal took out of circulation.
unfoldable pub taken_out : BridgeAsset → Withdrawal → ℕ
taken_out a w = if asset_beq a w.asset then millisteem_to_asteem w.amount_millisteem else 0

-- What a refund gave back.
unfoldable pub given_back : BridgeAsset → Withdrawal → ℕ
given_back a w =
    if (w.status =? refunded) && asset_beq a w.asset
    then millisteem_to_asteem w.amount_millisteem
    else 0

-- What the gateway still owes on Steem, or has paid there.
unfoldable pub paid_or_owed : BridgeAsset → Withdrawal → ℕ
unfolding taken_out
paid_or_owed a w = if w.status =? refunded then 0 else taken_out a w

unfoldable pub sum_values : {V : Type 0} → (V → ℕ) → Map ℕ V → ℕ
sum_values f [] = 0
sum_values f ((i, v) ∷ m) = f v + sum_values f m

-- A chain without records, under some parameters and bank state.
unfoldable pub genesis : {Bank : Type 0} → Params → Bank → Store Bank
genesis p bank = record {
  bank = bank;
  params = p;
  totals = record {
    total_minted_asteem = 0;
    total_burned_asteem = 0;
    total_minted_asbd = 0;
    total_burned_asbd = 0;
  };
  deposits = record {
    deposit_seq = 0;
    deposit = [];
    deposit_by_txid = [];
    deposit_confirmed_by = [];
    deposit_facts_vote = [];
    deposit_by_status = [];
  };
  withdrawals = record {
    withdrawal_seq = 0;
    withdrawal = [];
    withdrawal_by_status = [];
    withdrawal_confirmed_by = [];
    withdrawal_payout_vote = [];
  };
  bridge_duty_queue = [];
}

module _ {Bank : Type 0} (dec : Decimal) (x : External) (bk : BankKeeper Bank) where
  -- One transaction or one sweep that succeeds, in a block with any header and any validators;
  -- governance may set the parameters, and other modules may move coins. A call that fails leaves
  -- the store as it is.
  pub data Step (s : Store Bank) : Store Bank → Type 0 where
    deposit_attested :
        (ctx : Context) (msg : MsgAttestDeposit) (s' : Store Bank)
        → attest_deposit dec x bk ctx msg s ≡ ok s'
        → Step s s'
    bridged_out :
        (ctx : Context) (msg : MsgBridgeOut) (s' : Store Bank)
        → bridge_out x bk ctx msg s ≡ ok s'
        → Step s s'
    payout_attested :
        (ctx : Context) (msg : MsgAttestWithdrawalPayout) (s' : Store Bank)
        → attest_withdrawal_payout dec x ctx msg s ≡ ok s'
        → Step s s'
    deposits_swept : (ctx : Context) (s' : Store Bank) → expire_deposits x ctx s ≡ ok s' → Step s s'
    withdrawals_swept :
        (ctx : Context) (s' : Store Bank)
        → refund_expired_withdrawals x bk ctx s ≡ ok s'
        → Step s s'
    params_updated : (p : Params) → Step s (record s { params = p })
    coins_moved : (bank : Bank) → Step s (record s { bank = bank })

  pub data Reach (s : Store Bank) : Store Bank → Type 0 where
    reach_start : Reach s s
    reach_step : (t u : Store Bank) → Reach s t → Step t u → Reach s u
