-- ===== src/Bridge/Expiry.antt =====
-- x/oracle/bridge/keeper/abci.go: the sweeps of the end of a block, `ExpireDeposits` and
-- `RefundExpiredWithdrawals`. Events are left out.
pub mod Freed
use steem_virtual_machine_ev.Prelude.{
  ℕ, ◌+◌, ◌%◌, leb, ltb, ◌==◌, if◌then◌else◌, Bool, Bytes, List, [], ◌∷◌, Map, KeySet, Eq, bytes_eq,
  nat_eq, pair_eq, triple_eq, ◌=?◌, get, put, remove, add_key, drop_key, take, Result, ok, ◌>>=◌,
  or_err,
}
use steem_virtual_machine_ev.Bridge.Amounts.{u64, millisteem_to_asteem, denom_for_asset}
use steem_virtual_machine_ev.Bridge.Facts.{dedup_key_string}
use steem_virtual_machine_ev.Bridge.State.{
  Error, not_found, invalid_address, bank_refused, pending, expired, deposit_status_eq,
  Confirmation, Deposit, requested, refunded, withdrawal_status_eq, Withdrawal, DepositStore, Store,
  Context, External, BankKeeper,
}
use steem_virtual_machine_ev.Bridge.Power.{clear_votes}
use steem_virtual_machine_ev.Bridge.Credit.{add_minted}
use steem_virtual_machine_ev.Bridge.Deposit.{set_deposit_status}

abbrev pub max_expiry_sweep_per_block : ℕ
max_expiry_sweep_per_block = 1000

unfoldable pub insert_id : ℕ → List ℕ → List ℕ
insert_id i [] = i ∷ []
insert_id i (j ∷ js) = if leb i j then i ∷ j ∷ js else j ∷ insert_id i js

module _ {S : Type 0} ⦃e : Eq S⦄ where
  -- A walk over the index entries of one status, in ascending order.
  unfoldable pub ids_of_status : S → KeySet (S × ℕ) → List ℕ
  unfolding insert_id
  ids_of_status status [] = []
  ids_of_status status ((t, i) ∷ index) =
      if t =? status then insert_id i (ids_of_status status index) else ids_of_status status index

-- `created + timeout < height`, in uint64.
unfoldable pub is_overdue : ℕ → ℕ → ℕ → Bool
is_overdue created timeout height = ltb ((created + timeout) % u64) height

-- The ids of the walk whose record is overdue. A record that is missing ends the sweep.
unfoldable pub overdue_deposits : ℕ → ℕ → Map ℕ Deposit → List ℕ → Result Error (List ℕ)
unfolding is_overdue
overdue_deposits timeout height m [] = ok []
overdue_deposits timeout height m (i ∷ is) = do
  d ← or_err (get i m) not_found
  rest ← overdue_deposits timeout height m is
  ok (if is_overdue d.created_at timeout height then i ∷ rest else rest)

unfoldable pub overdue_withdrawals : ℕ → ℕ → Map ℕ Withdrawal → List ℕ → Result Error (List ℕ)
unfolding is_overdue
overdue_withdrawals timeout height m [] = ok []
overdue_withdrawals timeout height m (i ∷ is) = do
  w ← or_err (get i m) not_found
  rest ← overdue_withdrawals timeout height m is
  ok (if is_overdue w.created_at timeout height then i ∷ rest else rest)

module _ (x : External) where
  -- Forgets every confirmation of one key.
  unfoldable pub forget_confirmations :
      Bytes
      → ℕ
      → List Confirmation
      → KeySet (Bytes × ℕ × Bytes)
      → Result Error (KeySet (Bytes × ℕ × Bytes))
  forget_confirmations txid op [] confirmed = ok confirmed
  forget_confirmations txid op (c ∷ cs) confirmed = do
    addr ← or_err (x.val_from_bech32 c.validator_address) invalid_address
    forget_confirmations txid op cs (drop_key (txid, op, addr) confirmed)

  unfoldable pub expire_deposit : ℕ → DepositStore → Result Error DepositStore
  unfolding forget_confirmations set_deposit_status clear_votes dedup_key_string
  expire_deposit i k = do
    d ← or_err (get i k.deposit) not_found
    confirmed ←
        forget_confirmations d.txid d.op_index d.validator_confirmations k.deposit_confirmed_by
    let moved = set_deposit_status d expired k.deposit_by_status
    ok (record k {
      deposit_by_txid = remove (d.txid, d.op_index) k.deposit_by_txid;
      deposit_confirmed_by = confirmed;
      deposit_facts_vote = clear_votes (dedup_key_string d.txid d.op_index) k.deposit_facts_vote;
      deposit_by_status = moved.1;
      deposit = put i moved.0 k.deposit;
    })

  unfoldable pub expire_each : List ℕ → DepositStore → Result Error DepositStore
  unfolding expire_deposit
  expire_each [] k = ok k
  expire_each (i ∷ is) k = expire_deposit i k >>= λ k1. expire_each is k1

unfoldable pub expire_deposits :
    {Bank : Type 0} → External → Context → Store Bank → Result Error (Store Bank)
unfolding overdue_deposits ids_of_status expire_each
expire_deposits x ctx s = do
  overdue ←
      overdue_deposits s.params.deposit_timeout_blocks ctx.block_height s.deposits.deposit
        (take max_expiry_sweep_per_block (ids_of_status pending s.deposits.deposit_by_status))
  k ← expire_each x overdue s.deposits
  ok (record s { deposits = k })

module _ {Bank : Type 0} (x : External) (bk : BankKeeper Bank) (ctx : Context) where
  -- The money of a refund: minted into the black hole and sent on, if there is any.
  unfoldable pub refund_net : Bytes → Bytes → ℕ → Bank → Result Error Bank
  refund_net sender denom net bank =
      if net == 0
      then ok bank
      else (or_err (bk.mint_coins x.black_hole denom net bank) bank_refused >>= λ b.
          or_err (bk.send_coins x.black_hole sender denom net b) bank_refused)

  unfoldable pub refund_withdrawal : ℕ → Store Bank → Result Error (Store Bank)
  unfolding refund_net add_minted millisteem_to_asteem
  refund_withdrawal i s = do
    w ← or_err (get i s.withdrawals.withdrawal) not_found
    sender ← or_err (x.string_to_bytes w.sender) invalid_address
    let net = millisteem_to_asteem w.amount_millisteem
    b ← refund_net sender (denom_for_asset w.asset) net s.bank
    ok (record s {
      bank = b;
      totals = add_minted w.asset net s.totals;
      withdrawals = record s.withdrawals {
        withdrawal_by_status =
            add_key (refunded, i) (drop_key (requested, i) s.withdrawals.withdrawal_by_status);
        withdrawal =
            put i (record w { status = refunded; refunded_at = ctx.block_height })
              s.withdrawals.withdrawal;
      };
    })

  unfoldable pub refund_each : List ℕ → Store Bank → Result Error (Store Bank)
  unfolding refund_withdrawal
  refund_each [] s = ok s
  refund_each (i ∷ is) s = refund_withdrawal i s >>= λ s1. refund_each is s1

  -- A timeout of 0 turns refunds off.
  unfoldable pub refund_expired_withdrawals : Store Bank → Result Error (Store Bank)
  unfolding overdue_withdrawals ids_of_status refund_each
  refund_expired_withdrawals s =
      if s.params.withdrawal_timeout_blocks == 0
      then ok s
      else (overdue_withdrawals s.params.withdrawal_timeout_blocks ctx.block_height
            s.withdrawals.withdrawal
            (take max_expiry_sweep_per_block
              (ids_of_status requested s.withdrawals.withdrawal_by_status))
          >>= λ overdue. refund_each overdue s)
