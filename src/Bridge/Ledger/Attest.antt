-- ===== src/Bridge/Ledger/Attest.antt =====
-- One attestation of a deposit, and the sweep of the overdue deposits: the deposits stay sound, and
-- the minted total grows by what the deposit brings in.
use steem_virtual_machine_ev.Prelude.{
  ℕ, suc, ◌+◌, ◌≡◌, ◌≢◌, ◌≤◌, refl, arith, Bytes, List, [], ◌∷◌, ◌++◌, ◌⊎◌, some, Map, KeySet,
  nat_eq, bytes_eq, pair_eq, triple_eq, get, put, has, add_key, drop_key, get-put, get-put_self,
  ==_iff, Bool-cases, Option-cases, Result-cases, inl, inr, ok, subst,
}
use steem_virtual_machine_ev.Decimal.{Decimal}
use steem_virtual_machine_ev.Bridge.Amounts.{BridgeAsset}
use steem_virtual_machine_ev.Bridge.Facts.{deposit_facts_hash, dedup_key_string}
use steem_virtual_machine_ev.Bridge.State.{
  DepositStatus, pending, deposit_status_eq, Deposit, Confirmation, DepositStore, Store, Context,
  External, BankKeeper,
}
use steem_virtual_machine_ev.Bridge.Power.{candidate_ratio}
use steem_virtual_machine_ev.Bridge.Deposit.{
  MsgAttestDeposit, open_deposit, new_deposit, resolve_at_threshold, confirm_deposit,
  attest_deposit,
}
use steem_virtual_machine_ev.Bridge.Withdrawal.{minted_of, burned_of}
use steem_virtual_machine_ev.Bridge.Ledger.{brought_in, sum_values}
use steem_virtual_machine_ev.Bridge.Ledger.Sums.{sum_values-put, value_at, put-put}
use steem_virtual_machine_ev.Bridge.Ledger.Index.{
  Indexed, Indexed-new, Indexed-update, Indexed-leave,
}
use steem_virtual_machine_ev.Bridge.Ledger.Deposits.{
  deposit_status, DepositsSound, Resolved, resolve_at_threshold-Resolved,
}

-- The opened deposit, as if it were recorded already.
record Opened (i : ℕ) (d : Deposit) (k k1 : DepositStore) : Type 0 where
  id : d.id ≡ i
  indexed : Indexed deposit_status pending k1.deposit_seq (put i d k1.deposit) k1.deposit_by_status
  named : (j : ℕ) (e : Deposit) → get j (put i d k1.deposit) ≡ some e → e.id ≡ j
  sums :
      (a : BridgeAsset)
      → sum_values (brought_in a) (put i d k1.deposit) ≡ sum_values (brought_in a) k.deposit

pub put-named :
    (i : ℕ) (d : Deposit) (m : Map ℕ Deposit)
    → ((j : ℕ) (e : Deposit) → get j m ≡ some e → e.id ≡ j)
    → d.id ≡ i
    → (j : ℕ) (e : Deposit) → get j (put i d m) ≡ some e
    → e.id ≡ j
put-named i d m named h j e g = ground (arith, get-put j i d m, named j e, ==_iff j i)

open_deposit-Opened :
    (ctx : Context) (msg : MsgAttestDeposit) (k k1 : DepositStore) (i : ℕ) (d : Deposit)
    → DepositsSound k
    → open_deposit ctx msg k ≡ ok (i, d, k1)
    → Opened i d k k1
unfolding open_deposit new_deposit brought_in value_at
open_deposit-Opened ctx msg k k1 i d sound h =
    elim (Option-cases (get (msg.txid, msg.op_index) k.deposit_by_txid)) [
      | inl absent ↦
          let n = k.deposit_seq in
          let d0 = new_deposit ctx n msg in
          let same_i : n ≡ i = ground arith in
          let same_d : d0 ≡ d = ground arith in
          let m : k1.deposit ≡ k.deposit = ground arith in
          let q : k1.deposit_seq ≡ suc n = ground arith in
          let x : k1.deposit_by_status ≡ add_key (pending, n) k.deposit_by_status = ground arith in
          subst (λ j. Opened j d k k1) same_i
            (subst (λ e. Opened n e k k1) same_d
              record {
                id = refl;
                indexed =
                    rw (m, q, x)
                      (Indexed-new deposit_status pending n k.deposit k.deposit_by_status d0
                        sound.indexed refl);
                named = rw m (put-named n d0 k.deposit sound.named refl);
                sums = λ a. rw m (
                    ground (
                      arith,
                      sum_values-put (brought_in a) n d0 k.deposit,
                      sound.indexed.fresh n (omega arith),
                    ));
              })
      | inr (n, present) ↦ elim (Option-cases (get n k.deposit)) [
        | inl missing ↦ ground arith
        | inr (d0, found) ↦
            let same_i : n ≡ i = ground arith in
            let same_d : d0 ≡ d = ground arith in
            let same_k : k ≡ k1 = ground arith in
            subst (λ j. Opened j d k k1) same_i
              (subst (λ e. Opened n e k k1) same_d
                (subst (λ t. Opened n d0 k t) same_k
                  record {
                    id = sound.named n d0 found;
                    indexed =
                        Indexed-update deposit_status pending k.deposit_seq k.deposit
                          k.deposit_by_status n d0 d0 sound.indexed found refl;
                    named = put-named n d0 k.deposit sound.named (sound.named n d0 found);
                    sums = λ a. ground (arith, sum_values-put (brought_in a) n d0 k.deposit);
                  }))
      ]
    ]

-- The opened deposit with one more confirmation.
confirmed :
    (i : ℕ) (d : Deposit) (more : List Confirmation) (k k1 : DepositStore)
    → Opened i d k k1
    → Opened i (record d { validator_confirmations = d.validator_confirmations ++ more }) k k1
unfolding brought_in value_at
confirmed i d more k k1 o =
    let d1 = record d { validator_confirmations = d.validator_confirmations ++ more } in
    let m = k1.deposit in
    let held = get-put_self i d m in
    let again = put-put i d1 d m in
    record {
      id = o.id;
      indexed = rw (← again) (
          Indexed-update deposit_status pending k1.deposit_seq (put i d m) k1.deposit_by_status i d
            d1 o.indexed held refl);
      named = rw (← again) (put-named i d1 (put i d m) o.named o.id);
      sums = λ a.
          rw (← again)
            (ground (arith, o.sums a, held, sum_values-put (brought_in a) i d1 (put i d m)));
    }

index_after :
    (i : ℕ) (d d' : Deposit) (q : ℕ) (m : Map ℕ Deposit) (x x' : KeySet (DepositStatus × ℕ))
    → Indexed deposit_status pending q (put i d m) x
    → d.id ≡ i
    → ((d'.status ≡ d.status) × (x' ≡ x))
      ⊎ ((to : DepositStatus) × (to ≢ pending)
          × (x' ≡ add_key (to, d.id) (drop_key (pending, d.id) x)))
    → Indexed deposit_status pending q (put i d' m) x'
index_after i d d' q m x x' before e (inl (same, kept)) =
    rw (kept, ← put-put i d' d m)
      (Indexed-update deposit_status pending q (put i d m) x i d d' before (get-put_self i d m)
        same)
index_after i d d' q m x x' before e (inr (to, ne, moved)) =
    rw (moved, e, ← put-put i d' d m)
      (Indexed-leave deposit_status pending q (put i d m) x i d d' to before (get-put_self i d m)
        ne)

pub record Attested {Bank : Type 0} (s s' : Store Bank) : Type 0 where
  pub sound : DepositsSound s'.deposits
  pub withdrawals : s'.withdrawals ≡ s.withdrawals
  pub burned : (a : BridgeAsset) → burned_of a s'.totals ≡ burned_of a s.totals
  pub minted_by :
      (a : BridgeAsset)
      → minted_of a s'.totals + sum_values (brought_in a) s.deposits.deposit
        ≡ minted_of a s.totals + sum_values (brought_in a) s'.deposits.deposit
  pub grows : (a : BridgeAsset) → minted_of a s.totals ≤ minted_of a s'.totals

Attested-refl : {Bank : Type 0} (s : Store Bank) → DepositsSound s.deposits → Attested s s
Attested-refl s sound = record {
  sound = sound;
  withdrawals = refl;
  burned = λ a. refl;
  minted_by = λ a. refl;
  grows = λ a. omega arith;
}

module _ {Bank : Type 0} (dec : Decimal) (x : External) (bk : BankKeeper Bank) (ctx : Context) where
  -- The record is written back, whatever the resolution did.
  recorded :
      (i : ℕ) (d d' : Deposit) (s s1 s2 : Store Bank)
      → DepositsSound s.deposits
      → Opened i d s.deposits s1.deposits
      → s1.withdrawals ≡ s.withdrawals
      → s1.totals ≡ s.totals
      → Resolved d d' s1 s2
      → Attested s
          (record s2 { deposits = record s2.deposits { deposit = put i d' s2.deposits.deposit } })
  unfolding value_at
  recorded i d d' s s1 s2 sound o w t r =
      let m1 = s1.deposits.deposit in
      let q1 = s1.deposits.deposit_seq in
      let x1 = s1.deposits.deposit_by_status in
      let held = get-put_self i d m1 in
      let again = put-put i d' d m1 in
      let own : d'.id ≡ i = ground (arith, r.id, o.id) in
      record {
        sound = record {
          indexed =
              rw (r.records, r.sequence)
                (index_after i d d' q1 m1 x1 s2.deposits.deposit_by_status o.indexed o.id r.index);
          named = rw (r.records, ← again) (put-named i d' (put i d m1) o.named own);
        };
        withdrawals = ground (arith, r.withdrawals, w);
        burned = λ a. ground (arith, r.burned a, t);
        minted_by = λ a.
            rw (r.records, ← again)
              (ground (
                arith,
                r.minted_by a,
                t,
                o.sums a,
                held,
                sum_values-put (brought_in a) i d' (put i d m1),
              ));
        grows = λ a. ground (arith, r.grows a, t);
      }

  confirm_deposit-Attested :
      (addr : Bytes) (msg : MsgAttestDeposit) (s s' : Store Bank)
      → DepositsSound s.deposits
      → confirm_deposit dec x bk ctx addr msg s ≡ ok s'
      → Attested s s'
  unfolding confirm_deposit
  confirm_deposit-Attested addr msg s s' sound h =
      elim (Result-cases (open_deposit ctx msg s.deposits)) [
        | inl (why, bad) ↦ ground arith
        | inr ((i, d, k), opened) ↦
            let o = open_deposit-Opened ctx msg s.deposits k i d sound opened in
            let facts_hash = deposit_facts_hash x.sha256_hex msg.facts in
            let dedup = dedup_key_string msg.txid msg.op_index in
            let votes = add_key (dedup, facts_hash, addr) k.deposit_facts_vote in
            let confirmation : Confirmation = record {
              validator_address = x.val_to_bech32 addr;
              timestamp = ctx.block_time;
            } in
            let d1 = record d {
              validator_confirmations = d.validator_confirmations ++ confirmation ∷ [];
            } in
            let s1 = record s {
              deposits = record k {
                deposit_confirmed_by =
                    add_key (msg.txid, msg.op_index, addr) k.deposit_confirmed_by;
                deposit_facts_vote = votes;
              };
            } in
            let o1 = confirmed i d (confirmation ∷ []) s.deposits k o in
            let held : Opened i d1 s.deposits s1.deposits = record {
              id = o1.id;
              indexed = o1.indexed;
              named = o1.named;
              sums = o1.sums;
            } in
            let ratio = candidate_ratio dec ctx dedup facts_hash votes in
            elim (Result-cases (resolve_at_threshold x bk ctx msg.facts ratio d1 s1)) [
              | inl (why, bad) ↦ ground arith
              | inr ((d2, s2), resolved) ↦
                  let r =
                    resolve_at_threshold-Resolved x bk ctx msg.facts ratio d1 d2 s1 s2 resolved in
                  let same : record s2 {
                    deposits = record s2.deposits { deposit = put i d2 s2.deposits.deposit };
                  }
                      ≡ s' =
                    ground arith in
                  subst (λ t. Attested s t) same (recorded i d1 d2 s s1 s2 sound held refl refl r)
            ]
      ]

  pub attest_deposit-Attested :
      (msg : MsgAttestDeposit) (s s' : Store Bank)
      → DepositsSound s.deposits
      → attest_deposit dec x bk ctx msg s ≡ ok s'
      → Attested s s'
  unfolding attest_deposit
  attest_deposit-Attested msg s s' sound h = elim (Option-cases (x.string_to_bytes msg.validator)) [
    | inl bad ↦ ground arith
    | inr (addr, sent) ↦
        elim (Bool-cases (has (msg.txid, msg.op_index, addr) s.deposits.deposit_confirmed_by)) [
          | inl again ↦
              let same : s ≡ s' = ground arith in
              subst (λ t. Attested s t) same (Attested-refl s sound)
          | inr first ↦ confirm_deposit-Attested addr msg s s' sound (ground arith)
        ]
  ]
