-- ===== src/Bridge/Ledger/Withdrawals.antt =====
-- What a bridge-out and a payout attestation keep: the withdrawals' index, and the burned total as
-- the sum of all withdrawals.
use steem_virtual_machine_ev.Prelude.{
  ℕ, ◌+◌, ◌/◌, ◌≡◌, ◌≤◌, refl, arith, if◌then◌else◌, true, ◌&&◌, Bytes, [], ◌∷◌, ◌++◌, some, ◌=?◌,
  nat_eq, bytes_eq, pair_eq, triple_eq, get, add_key, Bool-cases, Option-cases, inl, inr, ok, leb,
}
use steem_virtual_machine_ev.Decimal.{Decimal}
use steem_virtual_machine_ev.Bridge.Amounts.{
  BridgeAsset, steem, sbd, asset_beq, millisteem_to_asteem, millisteem_to_asteem_factor,
  apply_bridge_fee,
}
use steem_virtual_machine_ev.Bridge.Facts.{payout_candidate_key}
use steem_virtual_machine_ev.Bridge.State.{
  WithdrawalStatus, requested, processed, withdrawal_status_eq, withdrawal_status_beq_iff,
  Withdrawal, Confirmation, BridgeTotals, WithdrawalStore, Store, Context, External, BankKeeper,
}
use steem_virtual_machine_ev.Bridge.Power.{candidate_ratio}
use steem_virtual_machine_ev.Bridge.Withdrawal.{
  MsgBridgeOut, MsgAttestWithdrawalPayout, bridge_out, minted_of, burned_of, add_burned,
  record_withdrawal, new_withdrawal, attest_withdrawal_payout, confirm_payout, mark_processed,
}
use steem_virtual_machine_ev.Bridge.Withdrawal.Creation.{bridge_out-Done, minted_of-add_burned}
use steem_virtual_machine_ev.Bridge.Withdrawal.Payout.{votes_or_not, and-left}
use steem_virtual_machine_ev.Bridge.Ledger.{taken_out, given_back, sum_values}
use steem_virtual_machine_ev.Bridge.Ledger.Sums.{sum_values-put, value_at}
use steem_virtual_machine_ev.Bridge.Ledger.Index.{
  Indexed, Indexed-new, Indexed-update, Indexed-leave,
}

abbrev pub withdrawal_status : Withdrawal → WithdrawalStatus
withdrawal_status w = w.status

abbrev pub WithdrawalsSound : WithdrawalStore → Type 0
WithdrawalsSound k =
    Indexed withdrawal_status requested k.withdrawal_seq k.withdrawal k.withdrawal_by_status

burned_of-add_burned :
    (a b : BridgeAsset) (n : ℕ) (t : BridgeTotals)
    → burned_of a (add_burned b n t) ≡ burned_of a t + (if asset_beq a b then n else 0)
unfolding burned_of add_burned
burned_of-add_burned sbd sbd n t = refl
burned_of-add_burned sbd steem n t = omega arith
burned_of-add_burned steem sbd n t = omega arith
burned_of-add_burned steem steem n t = refl

asset_beq-eq : (a b : BridgeAsset) → asset_beq a b ≡ true → a ≡ b
asset_beq-eq steem steem h = refl
asset_beq-eq sbd sbd h = refl
asset_beq-eq steem sbd h = ground arith
asset_beq-eq sbd steem h = ground arith

-- What a new withdrawal changes.
pub record Opened {Bank : Type 0} (s s' : Store Bank) : Type 0 where
  pub sound : WithdrawalsSound s'.withdrawals
  pub deposits : s'.deposits ≡ s.deposits
  pub minted_kept : (a : BridgeAsset) → minted_of a s'.totals ≡ minted_of a s.totals
  pub taken :
      (a : BridgeAsset)
      → burned_of a s'.totals + sum_values (taken_out a) s.withdrawals.withdrawal
        ≡ burned_of a s.totals + sum_values (taken_out a) s'.withdrawals.withdrawal
  pub given :
      (a : BridgeAsset)
      → sum_values (given_back a) s'.withdrawals.withdrawal
        ≡ sum_values (given_back a) s.withdrawals.withdrawal
  pub covered :
      (a : BridgeAsset)
      → burned_of a s.totals ≤ minted_of a s.totals
      → burned_of a s'.totals ≤ minted_of a s'.totals

pub bridge_out-Opened :
    {Bank : Type 0} (x : External) (bk : BankKeeper Bank) (ctx : Context) (msg : MsgBridgeOut)
    (s s' : Store Bank)
    → WithdrawalsSound s.withdrawals
    → bridge_out x bk ctx msg s ≡ ok s'
    → Opened s s'
unfolding record_withdrawal new_withdrawal taken_out given_back value_at
bridge_out-Opened x bk ctx msg s s' sound e =
    let done = bridge_out-Done x bk ctx msg s s' e in
    let split =
      apply_bridge_fee (done.amount / millisteem_to_asteem_factor) s.params.bridge_fee_bps in
    let k = s.withdrawals in
    let i = k.withdrawal_seq in
    let w = new_withdrawal ctx i msg done.amount split.0 split.1 in
    let net = millisteem_to_asteem split.0 in
    let fresh = sound.fresh i (omega arith) in
    record {
      sound = rw done.withdrawals (
          Indexed-new withdrawal_status requested i k.withdrawal k.withdrawal_by_status w sound
            refl);
      deposits = done.deposits;
      minted_kept = λ a. rw done.totals (minted_of-add_burned a msg.asset net s.totals);
      taken = λ a.
          rw (done.totals, done.withdrawals)
            (ground (
              arith,
              burned_of-add_burned a msg.asset net s.totals,
              sum_values-put (taken_out a) i w k.withdrawal,
              fresh,
            ));
      given = λ a.
          rw done.withdrawals
            (ground (arith, sum_values-put (given_back a) i w k.withdrawal, fresh));
      covered = λ a h. rw done.totals (
          ground (
            arith,
            burned_of-add_burned a msg.asset net s.totals,
            minted_of-add_burned a msg.asset net s.totals,
            done.covered,
            asset_beq-eq a msg.asset,
            h,
          ));
    }

-- What a payout attestation keeps.
pub record Voted {Bank : Type 0} (s s' : Store Bank) : Type 0 where
  pub sound : WithdrawalsSound s'.withdrawals
  pub deposits : s'.deposits ≡ s.deposits
  pub totals : s'.totals ≡ s.totals
  pub taken :
      (a : BridgeAsset)
      → sum_values (taken_out a) s'.withdrawals.withdrawal
        ≡ sum_values (taken_out a) s.withdrawals.withdrawal
  pub given :
      (a : BridgeAsset)
      → sum_values (given_back a) s'.withdrawals.withdrawal
        ≡ sum_values (given_back a) s.withdrawals.withdrawal

confirm_payout-Voted :
    {Bank : Type 0} (dec : Decimal) (x : External) (ctx : Context) (addr : Bytes)
    (msg : MsgAttestWithdrawalPayout) (w : Withdrawal) (s : Store Bank)
    → WithdrawalsSound s.withdrawals
    → get msg.withdrawal_id s.withdrawals.withdrawal ≡ some w
    → Voted s (confirm_payout dec x ctx addr msg w s)
unfolding confirm_payout mark_processed taken_out given_back value_at
confirm_payout-Voted dec x ctx addr msg w s sound g =
    let k = s.withdrawals in
    let i = msg.withdrawal_id in
    let candidate = payout_candidate_key msg.steem_txid msg.op_index in
    let votes = add_key (msg.withdrawal_id, candidate, addr) k.withdrawal_payout_vote in
    let ratio = candidate_ratio dec ctx msg.withdrawal_id candidate votes in
    let passed = (w.status =? requested) && leb s.params.bridge_confirmation_threshold ratio in
    let confirmation : Confirmation = record {
      validator_address = x.val_to_bech32 addr;
      timestamp = ctx.block_time;
    } in
    let w1 = record w {
      validator_confirmations = w.validator_confirmations ++ confirmation ∷ [];
    } in
    let w2 = record w1 {
      steem_payout_txid = msg.steem_txid;
      payout_op_index = msg.op_index;
      status = processed;
      processed_at = ctx.block_height;
    } in
    elim (Bool-cases passed) [
      | inl won ↦
          let waits = (withdrawal_status_beq_iff w.status requested).0 (and-left _ _ won) in
          record {
            sound =
                rw (won, confirm_payout)
                  (Indexed-leave withdrawal_status requested k.withdrawal_seq k.withdrawal
                    k.withdrawal_by_status i w w2 processed sound g (λ h. ground arith));
            deposits = rw (won, confirm_payout) refl;
            totals = rw (won, confirm_payout) refl;
            taken = λ a.
                rw (won, confirm_payout)
                  (ground (arith, sum_values-put (taken_out a) i w2 k.withdrawal));
            given = λ a.
                rw (won, confirm_payout)
                  (ground (arith, sum_values-put (given_back a) i w2 k.withdrawal));
          }
      | inr lost ↦ record {
        sound =
            rw (lost, confirm_payout)
              (Indexed-update withdrawal_status requested k.withdrawal_seq k.withdrawal
                k.withdrawal_by_status i w w1 sound g refl);
        deposits = rw (lost, confirm_payout) refl;
        totals = rw (lost, confirm_payout) refl;
        taken = λ a.
            rw (lost, confirm_payout)
              (ground (arith, sum_values-put (taken_out a) i w1 k.withdrawal));
        given = λ a.
            rw (lost, confirm_payout)
              (ground (arith, sum_values-put (given_back a) i w1 k.withdrawal));
      }
    ]

Voted-refl : {Bank : Type 0} (s : Store Bank) → WithdrawalsSound s.withdrawals → Voted s s
Voted-refl s sound = record {
  sound = sound;
  deposits = refl;
  totals = refl;
  taken = λ a. refl;
  given = λ a. refl;
}

pub attest_withdrawal_payout-Voted :
    {Bank : Type 0} (dec : Decimal) (x : External) (ctx : Context) (msg : MsgAttestWithdrawalPayout)
    (s s' : Store Bank)
    → WithdrawalsSound s.withdrawals
    → attest_withdrawal_payout dec x ctx msg s ≡ ok s'
    → Voted s s'
unfolding attest_withdrawal_payout
attest_withdrawal_payout-Voted dec x ctx msg s s' sound e =
    elim (Option-cases (get msg.withdrawal_id s.withdrawals.withdrawal)) [
      | inl missing ↦ elim (Option-cases (x.string_to_bytes msg.validator)) [
        | inl bad ↦ ground arith
        | inr (addr, sent) ↦ ground arith
      ]
      | inr (w, g) ↦ elim (votes_or_not dec x ctx msg s s' w e g) [
        | inl same ↦ rw same (Voted-refl s sound)
        | inr (addr, matched, done) ↦ rw done (confirm_payout-Voted dec x ctx addr msg w s sound g)
      ]
    ]
