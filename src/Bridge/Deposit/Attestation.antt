-- ===== src/Bridge/Deposit/Attestation.antt =====
-- What an attestation does to a deposit: money moves for a pending deposit at the threshold only.
use steem_virtual_machine_ev.Prelude.{
  ℕ, ◌≡◌, ◌≢◌, refl, arith, true, Bytes, [], ◌∷◌, ◌++◌, some, nat_eq, bytes_eq, pair_eq, triple_eq,
  triple_beq_iff, get, put, has, add_key, get-put_self, has-add_key, leb, ok, err, Bool-cases,
  Option-cases, Result-cases, inl, inr, ◌⊎◌, subst,
}
use steem_virtual_machine_ev.Decimal.{Decimal}
use steem_virtual_machine_ev.Bridge.Facts.{deposit_facts_hash, dedup_key_string}
use steem_virtual_machine_ev.Bridge.State.{
  duplicate_confirmation, pending, deposit_status_eq, Confirmation, Deposit, DepositStore, Store,
  Context, External, BankKeeper,
}
use steem_virtual_machine_ev.Bridge.Power.{candidate_ratio}
use steem_virtual_machine_ev.Bridge.Deposit.{
  MsgAttestDeposit, open_deposit, resolve_at_threshold, confirm_deposit, attest_deposit,
  validate_deposit_acceptance,
}
use steem_virtual_machine_ev.Bridge.Names.Registration.{is_benign_attestation_error}
use steem_virtual_machine_ev.Bridge.Deposit.Resolution.{resolve_at_threshold-Outcome}

module _ {Bank : Type 0} (dec : Decimal) (x : External) (bk : BankKeeper Bank) (ctx : Context)
    (msg : MsgAttestDeposit) where
  -- What a counted attestation did: it opened a deposit, added its vote, and wrote the deposit back.
  record Confirmed (addr : Bytes) (s s' : Store Bank) : Type 0 where
    number : ℕ
    before : Deposit
    after : Deposit
    store : DepositStore
    opened : open_deposit ctx msg s.deposits ≡ ok (number, before, store)
    recorded : get number s'.deposits.deposit ≡ some after
    params : s'.params ≡ s.params
    voter : has (msg.txid, msg.op_index, addr) s'.deposits.deposit_confirmed_by ≡ true
    outcome :
        ((after.status ≡ before.status)
          × (after.amount_millisteem ≡ before.amount_millisteem)
          × (after.derived_destination ≡ before.derived_destination)
          × (s'.bank ≡ s.bank)
          × (s'.totals ≡ s.totals))
        ⊎ ((before.status ≡ pending)
            × (leb s.params.bridge_confirmation_threshold (
                  candidate_ratio dec ctx
                    (dedup_key_string msg.txid msg.op_index)
                    (deposit_facts_hash x.sha256_hex msg.facts)
                    s'.deposits.deposit_facts_vote)
                ≡ true))

  confirm_deposit-Confirmed :
      (addr : Bytes) (s s' : Store Bank)
      → confirm_deposit dec x bk ctx addr msg s ≡ ok s'
      → Confirmed addr s s'
  unfolding confirm_deposit
  confirm_deposit-Confirmed addr s s' h = elim (Result-cases (open_deposit ctx msg s.deposits)) [
    | inl (why, bad) ↦ ground arith
    | inr ((i, d, k), opened) ↦
        let facts_hash = deposit_facts_hash x.sha256_hex msg.facts in
        let dedup = dedup_key_string msg.txid msg.op_index in
        let votes = add_key (dedup, facts_hash, addr) k.deposit_facts_vote in
        let key : Bytes × ℕ × Bytes = (msg.txid, msg.op_index, addr) in
        let confirmation : Confirmation = record {
          validator_address = x.val_to_bech32 addr;
          timestamp = ctx.block_time;
        } in
        let d1 = record d {
          validator_confirmations = d.validator_confirmations ++ confirmation ∷ [];
        } in
        let s1 = record s {
          deposits = record k {
            deposit_confirmed_by = add_key key k.deposit_confirmed_by;
            deposit_facts_vote = votes;
          };
        } in
        let ratio = candidate_ratio dec ctx dedup facts_hash votes in
        elim (Result-cases (resolve_at_threshold x bk ctx msg.facts ratio d1 s1)) [
          | inl (why, bad) ↦ ground arith
          | inr ((d2, s2), resolved) ↦
              let o = resolve_at_threshold-Outcome x bk ctx msg ratio d1 d2 s1 s2 resolved in
              let same : record s2 {
                deposits = record s2.deposits { deposit = put i d2 s2.deposits.deposit };
              }
                  ≡ s' =
                ground arith in
              subst (λ t. Confirmed addr s t) same
                record {
                  number = i;
                  before = d;
                  after = d2;
                  store = k;
                  opened = opened;
                  recorded = get-put_self i d2 s2.deposits.deposit;
                  params = ground (arith, o.votes);
                  voter = ground (
                    arith,
                    o.votes,
                    has-add_key key key k.deposit_confirmed_by,
                    triple_beq_iff key key,
                  );
                  outcome = elim o.moved [
                    | inl (same_d, same_s) ↦
                        inl (ground arith, ground arith, ground arith, ground arith, ground arith)
                    | inr (waits, passed) ↦ inr (waits, rw o.votes.0 passed)
                  ];
                }
        ]
  ]

  counted_or_not :
      (s s' : Store Bank)
      → attest_deposit dec x bk ctx msg s ≡ ok s'
      → ((addr : Bytes) × (x.string_to_bytes msg.validator ≡ some addr)
          × (has (msg.txid, msg.op_index, addr) s.deposits.deposit_confirmed_by ≡ true)
          × (s' ≡ s))
        ⊎ ((addr : Bytes) × (x.string_to_bytes msg.validator ≡ some addr) × Confirmed addr s s')
  unfolding attest_deposit
  counted_or_not s s' h = elim (Option-cases (x.string_to_bytes msg.validator)) [
    | inl bad ↦ ground arith
    | inr (addr, sent) ↦
        elim (Bool-cases (has (msg.txid, msg.op_index, addr) s.deposits.deposit_confirmed_by)) [
          | inl again ↦ inl (addr, sent, again, ground arith)
          | inr first ↦ inr (addr, sent, confirm_deposit-Confirmed addr s s' (ground arith))
        ]
  ]

  -- An attestation that changes the balances or the totals is one of a pending deposit, and the
  -- share of the bonded power that voted for exactly its facts is then at least the threshold.
  pub attest_deposit_threshold :
      (s s' : Store Bank)
      → attest_deposit dec x bk ctx msg s ≡ ok s'
      → ((s'.bank ≡ s.bank) × (s'.totals ≡ s.totals))
        ⊎ ((i : ℕ) × (d : Deposit) × (k : DepositStore) × (open_deposit ctx msg s.deposits
              ≡ ok (i, d, k))
            × (d.status ≡ pending)
            × (leb s.params.bridge_confirmation_threshold (
                  candidate_ratio dec ctx
                    (dedup_key_string msg.txid msg.op_index)
                    (deposit_facts_hash x.sha256_hex msg.facts)
                    s'.deposits.deposit_facts_vote)
                ≡ true))
  attest_deposit_threshold s s' h = elim (counted_or_not s s' h) [
    | inl (addr, sent, again, same) ↦ inl (ground arith)
    | inr (addr, sent, c) ↦ elim c.outcome [
      | inl (a, b, e, bank, totals) ↦ inl (bank, totals)
      | inr (waits, passed) ↦ inr (c.number, c.before, c.store, c.opened, waits, passed)
    ]
  ]

  -- A deposit that is not pending any more is never resolved again: an attestation of it moves no
  -- money and leaves its status, its amount and its destination as they are.
  pub deposit_resolved_once :
      (s s' : Store Bank) (i : ℕ) (d : Deposit)
      → attest_deposit dec x bk ctx msg s ≡ ok s'
      → get (msg.txid, msg.op_index) s.deposits.deposit_by_txid ≡ some i
      → get i s.deposits.deposit ≡ some d
      → d.status ≢ pending
      → (s'.bank ≡ s.bank)
        × (s'.totals ≡ s.totals)
        × (d' : Deposit) × (get i s'.deposits.deposit ≡ some d')
        × (d'.status ≡ d.status)
        × (d'.amount_millisteem ≡ d.amount_millisteem)
        × (d'.derived_destination ≡ d.derived_destination)
  unfolding open_deposit
  deposit_resolved_once s s' i d h known found done = elim (counted_or_not s s' h) [
    | inl (addr, sent, again, same) ↦ rw same (refl, refl, d, found, refl, refl, refl)
    | inr (addr, sent, c) ↦
        let number : c.number ≡ i = ground (arith, c.opened) in
        let before : c.before ≡ d = ground (arith, c.opened) in
        elim c.outcome [
          | inl (a, b, e, bank, totals) ↦ (
            bank,
            totals,
            c.after,
            ground (arith, c.recorded),
            ground arith,
            ground arith,
            ground arith,
          )
          | inr (waits, passed) ↦ ground arith
        ]
  ]

  -- After an attestation that was executed, the acceptance check answers the same message with a
  -- duplicate confirmation, which counts as benign, and the same message executed again changes
  -- nothing.
  pub attest_deposit-repeated :
      (s s' : Store Bank)
      → attest_deposit dec x bk ctx msg s ≡ ok s'
      → (validate_deposit_acceptance x msg s' ≡ err duplicate_confirmation)
        × (is_benign_attestation_error duplicate_confirmation ≡ true)
        × (attest_deposit dec x bk ctx msg s' ≡ ok s')
  unfolding validate_deposit_acceptance attest_deposit is_benign_attestation_error
  attest_deposit-repeated s s' h = elim (counted_or_not s s' h) [
    | inl (addr, sent, again, same) ↦ (ground arith, refl, ground arith)
    | inr (addr, sent, c) ↦
        (ground (arith, c.params, c.voter), refl, ground (arith, c.params, c.voter))
  ]
