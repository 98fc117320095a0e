-- ===== src/Bridge/Ledger/Solvency.antt =====
-- The invariant of the ledger, its preservation by every step, and what follows for the gateway.
use steem_virtual_machine_ev.Prelude.{◌+◌, ◌≡◌, ◌≤◌, refl, arith, nat_eq, get, has}
use steem_virtual_machine_ev.Decimal.{Decimal}
use steem_virtual_machine_ev.Bridge.Amounts.{BridgeAsset, steem, sbd}
use steem_virtual_machine_ev.Bridge.State.{
  withdrawal_status_eq, Withdrawal, Params, Store, External, BankKeeper,
}
use steem_virtual_machine_ev.Bridge.Withdrawal.{minted_of, burned_of}
use steem_virtual_machine_ev.Bridge.Ledger.{
  brought_in, taken_out, given_back, paid_or_owed, sum_values, genesis, Step, deposit_attested,
  bridged_out, payout_attested, deposits_swept, withdrawals_swept, params_updated, coins_moved,
  Reach, reach_start, reach_step,
}
use steem_virtual_machine_ev.Bridge.Ledger.Sums.{sum_values-add}
use steem_virtual_machine_ev.Bridge.Ledger.Index.{Unique}
use steem_virtual_machine_ev.Bridge.Ledger.Deposits.{DepositsSound}
use steem_virtual_machine_ev.Bridge.Ledger.Attest.{attest_deposit-Attested}
use steem_virtual_machine_ev.Bridge.Ledger.Sweep.{expire_deposits-Expired}
use steem_virtual_machine_ev.Bridge.Ledger.Withdrawals.{
  WithdrawalsSound, bridge_out-Opened, attest_withdrawal_payout-Voted,
}
use steem_virtual_machine_ev.Bridge.Ledger.Refunds.{refund_expired_withdrawals-Refunded}

pub record Sound {Bank : Type 0} (s : Store Bank) : Type 0 where
  pub deposits : DepositsSound s.deposits
  pub withdrawals : WithdrawalsSound s.withdrawals
  pub minted :
      (a : BridgeAsset)
      → minted_of a s.totals
        ≡ sum_values (brought_in a) s.deposits.deposit
          + sum_values (given_back a) s.withdrawals.withdrawal
  pub burned :
      (a : BridgeAsset) → burned_of a s.totals ≡ sum_values (taken_out a) s.withdrawals.withdrawal
  pub covered : (a : BridgeAsset) → burned_of a s.totals ≤ minted_of a s.totals

genesis-minted :
    {Bank : Type 0} (p : Params) (bank : Bank) (a : BridgeAsset)
    → (minted_of a (genesis p bank).totals ≡ 0) × (burned_of a (genesis p bank).totals ≡ 0)
unfolding genesis minted_of burned_of
genesis-minted p bank steem = (refl, refl)
genesis-minted p bank sbd = (refl, refl)

genesis-Sound : {Bank : Type 0} (p : Params) (bank : Bank) → Sound (genesis p bank)
unfolding genesis sum_values get has Unique
genesis-Sound p bank = record {
  deposits = record {
    indexed = record { fresh = λ i h. refl; unique = tt; listed = λ i h. ground arith };
    named = λ i d h. ground arith;
  };
  withdrawals = record { fresh = λ i h. refl; unique = tt; listed = λ i h. ground arith };
  minted = λ a. (genesis-minted p bank a).0;
  burned = λ a. (genesis-minted p bank a).1;
  covered = λ a. omega (arith, genesis-minted p bank a);
}

module _ {Bank : Type 0} (dec : Decimal) (x : External) (bk : BankKeeper Bank) where
  Step-Sound : (s s' : Store Bank) → Sound s → Step dec x bk s s' → Sound s'
  Step-Sound s s' v (deposit_attested ctx msg t e) =
      let r = attest_deposit-Attested dec x bk ctx msg s t v.deposits e in
      record {
        deposits = r.sound;
        withdrawals = rw r.withdrawals v.withdrawals;
        minted = λ a. rw r.withdrawals (omega (arith, r.minted_by a, v.minted a));
        burned = λ a. rw (r.withdrawals, r.burned a) (v.burned a);
        covered = λ a. omega (arith, r.burned a, r.grows a, v.covered a);
      }
  Step-Sound s s' v (bridged_out ctx msg t e) =
      let r = bridge_out-Opened x bk ctx msg s t v.withdrawals e in
      record {
        deposits = rw r.deposits v.deposits;
        withdrawals = r.sound;
        minted = λ a. rw r.deposits (omega (arith, r.minted_kept a, r.given a, v.minted a));
        burned = λ a. omega (arith, r.taken a, v.burned a);
        covered = λ a. r.covered a (v.covered a);
      }
  Step-Sound s s' v (payout_attested ctx msg t e) =
      let r = attest_withdrawal_payout-Voted dec x ctx msg s t v.withdrawals e in
      record {
        deposits = rw r.deposits v.deposits;
        withdrawals = r.sound;
        minted = λ a. rw (r.deposits, r.totals) (omega (arith, r.given a, v.minted a));
        burned = λ a. rw r.totals (omega (arith, r.taken a, v.burned a));
        covered = λ a. rw r.totals (v.covered a);
      }
  Step-Sound s s' v (deposits_swept ctx t e) =
      let (k, is, r, same) = expire_deposits-Expired x ctx s t v.deposits e in
      rw same record {
        deposits = r.sound;
        withdrawals = v.withdrawals;
        minted = λ a. omega (arith, r.sums a, v.minted a);
        burned = v.burned;
        covered = v.covered;
      }
  Step-Sound s s' v (withdrawals_swept ctx t e) =
      let r = refund_expired_withdrawals-Refunded x bk ctx s t v.withdrawals e in
      record {
        deposits = rw r.deposits v.deposits;
        withdrawals = r.sound;
        minted = λ a. rw r.deposits (omega (arith, r.given a, v.minted a));
        burned = λ a. omega (arith, r.burned a, r.taken a, v.burned a);
        covered = λ a. omega (arith, r.burned a, r.grows a, v.covered a);
      }
  Step-Sound s s' v (params_updated p) = record {
    deposits = v.deposits;
    withdrawals = v.withdrawals;
    minted = v.minted;
    burned = v.burned;
    covered = v.covered;
  }
  Step-Sound s s' v (coins_moved b) = record {
    deposits = v.deposits;
    withdrawals = v.withdrawals;
    minted = v.minted;
    burned = v.burned;
    covered = v.covered;
  }

  Reach-Sound :
      (p : Params) (bank : Bank) (s : Store Bank) → Reach dec x bk (genesis p bank) s → Sound s
  Reach-Sound p bank s reach_start = genesis-Sound p bank
  Reach-Sound p bank s (reach_step t u before step) =
      Step-Sound t u (Reach-Sound p bank t before) step

  -- On every state that the handlers and sweeps reach from a genesis without records, the totals are
  -- the sums of the records: of each asset, what was minted is what the minted deposits brought in
  -- and the refunds gave back, and what was burned is the net amount of all withdrawals. Name
  -- registrations are not among the steps.
  pub reachable_totals :
      (p : Params) (bank : Bank) (s : Store Bank) (a : BridgeAsset)
      → Reach dec x bk (genesis p bank) s
      → (minted_of a s.totals
          ≡ sum_values (brought_in a) s.deposits.deposit
            + sum_values (given_back a) s.withdrawals.withdrawal)
        × (burned_of a s.totals ≡ sum_values (taken_out a) s.withdrawals.withdrawal)
  reachable_totals p bank s a r = let v = Reach-Sound p bank s r in (v.minted a, v.burned a)

  split_taken :
      (a : BridgeAsset) (w : Withdrawal) → taken_out a w ≡ paid_or_owed a w + given_back a w
  unfolding taken_out paid_or_owed given_back
  split_taken a w = ground arith

  -- On every state that the handlers and sweeps reach from a genesis without records, the gateway
  -- never owes or has paid out more of an asset on Steem than the minted deposits of it brought
  -- in: the net amounts of the withdrawals that are not refunded are at most the gross amounts of
  -- the minted deposits. Name registrations are not among the steps.
  pub reachable_solvent :
      (p : Params) (bank : Bank) (s : Store Bank) (a : BridgeAsset)
      → Reach dec x bk (genesis p bank) s
      → sum_values (paid_or_owed a) s.withdrawals.withdrawal
        ≤ sum_values (brought_in a) s.deposits.deposit
  reachable_solvent p bank s a r =
      let v = Reach-Sound p bank s r in
      omega (
        arith,
        v.minted a,
        v.burned a,
        v.covered a,
        sum_values-add (taken_out a) (paid_or_owed a) (given_back a) (split_taken a)
            s.withdrawals.withdrawal,
      )
