-- ===== src/Bridge/Withdrawal/Payout.antt =====
-- What a payout attestation does to a withdrawal.
use steem_virtual_machine_ev.Prelude.{
  ℕ, ◌≡◌, arith, refl, leb, Bool, true, not, ◌&&◌, ◌||◌, Bytes, [], ◌∷◌, ◌++◌, some, bytes_eq,
  nat_eq, pair_eq, pair_beq_iff, KeySet, triple_eq, ◌=?◌, get, has, add_key, get-put_self,
  has-add_key, ok, err, false, Bool-cases, Option-cases, inl, inr, ◌⊎◌,
}
use steem_virtual_machine_ev.Decimal.{Decimal}
use steem_virtual_machine_ev.Bridge.Facts.{payout_candidate_key}
use steem_virtual_machine_ev.Bridge.State.{
  Error, withdrawal_already_processed, duplicate_withdrawal_confirmation, requested, processed,
  refunded, withdrawal_status_eq, withdrawal_status_beq_iff, Confirmation, Withdrawal, Store,
  Context, External,
}
use steem_virtual_machine_ev.Bridge.Power.{candidate_ratio}
use steem_virtual_machine_ev.Bridge.Names.Registration.{is_benign_attestation_error}
use steem_virtual_machine_ev.Bridge.Withdrawal.{
  MsgAttestWithdrawalPayout, payout_matches, attest_withdrawal_payout, confirm_payout,
  mark_processed, validate_withdrawal_processed_acceptance,
}

and-right : (a b : Bool) → (a && b) ≡ true → b ≡ true
and-right a b h = ground arith

pub and-left : (a b : Bool) → (a && b) ≡ true → a ≡ true
and-left a b h = ground arith

-- One counted vote: what it leaves behind.
record Counted {Bank : Type 0} (dec : Decimal) (ctx : Context) (addr : Bytes)
    (msg : MsgAttestWithdrawalPayout) (w : Withdrawal) (s s' : Store Bank) : Type 0 where
  bank : s'.bank ≡ s.bank
  totals : s'.totals ≡ s.totals
  params : s'.params ≡ s.params
  confirmed : has (msg.withdrawal_id, addr) s'.withdrawals.withdrawal_confirmed_by ≡ true
  after : Withdrawal
  recorded : get msg.withdrawal_id s'.withdrawals.withdrawal ≡ some after
  amount : after.amount_millisteem ≡ w.amount_millisteem
  asset : after.asset ≡ w.asset
  destination : after.destination_steem_account ≡ w.destination_steem_account
  status :
      (after.status ≡ w.status)
      ⊎ ((w.status ≡ requested)
          × (after.status ≡ processed)
          × (leb s.params.bridge_confirmation_threshold (
                candidate_ratio dec ctx msg.withdrawal_id
                  (payout_candidate_key msg.steem_txid msg.op_index)
                  s'.withdrawals.withdrawal_payout_vote)
              ≡ true))

has-add_key_self : (k : ℕ × Bytes) (ks : KeySet (ℕ × Bytes)) → has k (add_key k ks) ≡ true
has-add_key_self k ks = ground (arith, has-add_key k k ks, pair_beq_iff k k)

confirm_payout-Counted :
    {Bank : Type 0} (dec : Decimal) (x : External) (ctx : Context) (addr : Bytes)
    (msg : MsgAttestWithdrawalPayout) (w : Withdrawal) (s : Store Bank)
    → Counted dec ctx addr msg w s (confirm_payout dec x ctx addr msg w s)
unfolding confirm_payout mark_processed
confirm_payout-Counted dec x ctx addr msg w s =
    let k = s.withdrawals in
    let candidate = payout_candidate_key msg.steem_txid msg.op_index in
    let votes = add_key (msg.withdrawal_id, candidate, addr) k.withdrawal_payout_vote in
    let ratio = candidate_ratio dec ctx msg.withdrawal_id candidate votes in
    let passed = (w.status =? requested) && leb s.params.bridge_confirmation_threshold ratio in
    let voted = has-add_key_self (msg.withdrawal_id, addr) k.withdrawal_confirmed_by in
    let confirmation : Confirmation = record {
      validator_address = x.val_to_bech32 addr;
      timestamp = ctx.block_time;
    } in
    let w1 = record w {
      validator_confirmations = w.validator_confirmations ++ confirmation ∷ [];
    } in
    let w2 = record w1 {
      steem_payout_txid = msg.steem_txid;
      payout_op_index = msg.op_index;
      status = processed;
      processed_at = ctx.block_height;
    } in
    elim (Bool-cases passed) [
      | inl won ↦ record {
        bank = rw (won, confirm_payout) refl;
        totals = rw (won, confirm_payout) refl;
        params = rw (won, confirm_payout) refl;
        confirmed = rw (won, confirm_payout) voted;
        after = w2;
        recorded = rw (won, confirm_payout) (get-put_self msg.withdrawal_id w2 k.withdrawal);
        amount = refl;
        asset = refl;
        destination = refl;
        status = inr (
          (withdrawal_status_beq_iff w.status requested).0 (and-left _ _ won),
          refl,
          rw (won, confirm_payout) (and-right _ _ won),
        );
      }
      | inr lost ↦ record {
        bank = rw (lost, confirm_payout) refl;
        totals = rw (lost, confirm_payout) refl;
        params = rw (lost, confirm_payout) refl;
        confirmed = rw (lost, confirm_payout) voted;
        after = w1;
        recorded = rw (lost, confirm_payout) (get-put_self msg.withdrawal_id w1 k.withdrawal);
        amount = refl;
        asset = refl;
        destination = refl;
        status = inl refl;
      }
    ]

-- An attestation that was acceptable and is executed is counted.
accepted :
    {Bank : Type 0} (dec : Decimal) (x : External) (ctx : Context) (msg : MsgAttestWithdrawalPayout)
    (s s' : Store Bank)
    → validate_withdrawal_processed_acceptance x msg s ≡ ok tt
    → attest_withdrawal_payout dec x ctx msg s ≡ ok s'
    → (addr : Bytes) × (w : Withdrawal) × (x.string_to_bytes msg.validator ≡ some addr)
      × (s' ≡ confirm_payout dec x ctx addr msg w s)
      × ((w.status =? processed) ≡ false)
      × ((w.status =? refunded) ≡ false)
unfolding validate_withdrawal_processed_acceptance attest_withdrawal_payout
accepted dec x ctx msg s s' v e = elim (Option-cases (x.string_to_bytes msg.validator)) [
  | inl bad ↦ ground arith
  | inr (addr, sent) ↦ elim (Option-cases (get msg.withdrawal_id s.withdrawals.withdrawal)) [
    | inl missing ↦ ground arith
    | inr (w, found) ↦ (addr, w, sent, ground arith, ground arith, ground arith)
  ]
]

-- A payout attestation that the acceptance check accepts and that is then executed is answered with
-- a benign error when it comes again, as already processed or as a duplicate confirmation, and the
-- same message executed again changes nothing.
pub attest_withdrawal_payout-repeated :
    {Bank : Type 0} (dec : Decimal) (x : External) (ctx : Context) (msg : MsgAttestWithdrawalPayout)
    (s s' : Store Bank)
    → validate_withdrawal_processed_acceptance x msg s ≡ ok tt
    → attest_withdrawal_payout dec x ctx msg s ≡ ok s'
    → (why : Error) × (validate_withdrawal_processed_acceptance x msg s' ≡ err why)
      × ((why ≡ withdrawal_already_processed) ⊎ (why ≡ duplicate_withdrawal_confirmation))
      × (is_benign_attestation_error why ≡ true)
      × (attest_withdrawal_payout dec x ctx msg s' ≡ ok s')
unfolding validate_withdrawal_processed_acceptance attest_withdrawal_payout
    is_benign_attestation_error
attest_withdrawal_payout-repeated dec x ctx msg s s' v e =
    let (addr, w, sent, done, unpaid, kept) = accepted dec x ctx msg s s' v e in
    let c = confirm_payout-Counted dec x ctx addr msg w s in
    elim c.status [
      | inl same ↦ (
        duplicate_withdrawal_confirmation,
        ground (arith, done, c.params, c.recorded, c.confirmed),
        inr refl,
        refl,
        ground (arith, done, c.params, c.recorded, c.confirmed),
      )
      | inr (waits, paid, passed) ↦ (
        withdrawal_already_processed,
        ground
            (arith, done, c.params, c.recorded, withdrawal_status_beq_iff c.after.status processed),
        inl refl,
        refl,
        ground (arith, done, c.params, c.recorded, c.confirmed),
      )
    ]

pub votes_or_not :
    {Bank : Type 0} (dec : Decimal) (x : External) (ctx : Context) (msg : MsgAttestWithdrawalPayout)
    (s s' : Store Bank) (w : Withdrawal)
    → attest_withdrawal_payout dec x ctx msg s ≡ ok s'
    → get msg.withdrawal_id s.withdrawals.withdrawal ≡ some w
    → (s' ≡ s)
      ⊎ ((addr : Bytes) × (payout_matches w msg ≡ true)
          × (s' ≡ confirm_payout dec x ctx addr msg w s))
unfolding attest_withdrawal_payout
votes_or_not dec x ctx msg s s' w e g = elim (Option-cases (x.string_to_bytes msg.validator)) [
  | inl bad ↦ ground arith
  | inr (addr, sent) ↦
      elim (Bool-cases (
        (w.status =? processed)
        || ((w.status =? refunded)
            || (not (payout_matches w msg)
                || has (msg.withdrawal_id, addr) s.withdrawals.withdrawal_confirmed_by)))) [
                  | inl silent ↦ inl (ground arith)
                  | inr counts ↦ inr (addr, ground arith, ground arith)
                ]
]

settled : {A B C D E : Type 0} → D → A ⊎ (B × C × E) → A ⊎ (B × C × D × E)
settled d (inl a) = inl a
settled d (inr (b, c, a)) = inr (b, c, d, a)

-- An attestation of a recorded withdrawal moves no money and leaves its amount, asset and
-- destination alone. Its status stays, or turns from requested to processed, and then the payout
-- has the amount, asset, destination and memo of the record and the share of the bonded power that
-- voted for this payout is at least the threshold.
pub attest_withdrawal_payout_settles :
    {Bank : Type 0} (dec : Decimal) (x : External) (ctx : Context) (msg : MsgAttestWithdrawalPayout)
    (s s' : Store Bank) (w : Withdrawal)
    → attest_withdrawal_payout dec x ctx msg s ≡ ok s'
    → get msg.withdrawal_id s.withdrawals.withdrawal ≡ some w
    → (s'.bank ≡ s.bank)
      × (s'.totals ≡ s.totals)
      × (w' : Withdrawal) × (get msg.withdrawal_id s'.withdrawals.withdrawal ≡ some w')
      × (w'.amount_millisteem ≡ w.amount_millisteem)
      × (w'.asset ≡ w.asset)
      × (w'.destination_steem_account ≡ w.destination_steem_account)
      × ((w'.status ≡ w.status)
          ⊎ ((w.status ≡ requested)
              × (w'.status ≡ processed)
              × (payout_matches w msg ≡ true)
              × (leb s.params.bridge_confirmation_threshold (
                    candidate_ratio dec ctx msg.withdrawal_id
                      (payout_candidate_key msg.steem_txid msg.op_index)
                      s'.withdrawals.withdrawal_payout_vote)
                  ≡ true)))
attest_withdrawal_payout_settles dec x ctx msg s s' w e g =
    elim (votes_or_not dec x ctx msg s s' w e g) [
      | inl same ↦ rw same (refl, refl, w, g, refl, refl, refl, inl refl)
      | inr (addr, matched, done) ↦
          let c = confirm_payout-Counted dec x ctx addr msg w s in
          rw done (
            c.bank,
            c.totals,
            c.after,
            c.recorded,
            c.amount,
            c.asset,
            c.destination,
            settled matched c.status,
          )
    ]
