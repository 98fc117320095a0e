-- ===== src/Bridge/Names/Freed.antt =====
-- What the expiry of a registration leaves of its key: nothing, also where the registration was
-- credited before it expired.
use steem_virtual_machine_ev.Prelude.{
  ℕ, ◌≡◌, refl, arith, true, false, Bytes, none, some, nat_eq, bytes_eq, pair_eq, suc, put, add_key,
  has-add_key, [], pair_beq_iff, triple_eq, get, has, get-remove, get-put_self, Result-cases, inl,
  inr, ok,
}
use steem_virtual_machine_ev.Bridge.Facts.{dedup_key_string}
use steem_virtual_machine_ev.Bridge.State.{Context, External}
use steem_virtual_machine_ev.Bridge.Power.{confirmed_power, clear_votes}
use steem_virtual_machine_ev.Bridge.Duty.{attesters}
use steem_virtual_machine_ev.Bridge.Expiry.{forget_confirmations}
use steem_virtual_machine_ev.Bridge.Expiry.Freed.{forget-drops, cleared-power}
use steem_virtual_machine_ev.Bridge.Names.{
  NameStatus, pending, expired, name_status_eq, NameRegistration, NameStore,
  set_registration_status,
}
use steem_virtual_machine_ev.Bridge.Names.Registration.{
  MsgSubmitNameRegistration, new_registration, open_registration,
}
use steem_virtual_machine_ev.Bridge.Names.Expiry.{drop_awaiting, expire_registration}

-- A registration that a submission opens under a free key.
pub record Opened (msg : MsgSubmitNameRegistration) (k : NameStore) (r : NameRegistration)
    (opened : NameStore) : Type 0 where
  pub waits : r.status ≡ pending
  pub txid : r.txid ≡ msg.txid
  pub op_index : r.op_index ≡ msg.op_index
  pub account : r.steem_account ≡ msg.facts.steem_account
  pub amount : r.amount_millisteem ≡ msg.facts.amount_millisteem
  pub unconfirmed : r.validator_confirmations ≡ []
  pub indexed : get (msg.txid, msg.op_index) opened.registration_by_txid ≡ some k.registration_seq
  pub counted : opened.registration_seq ≡ suc k.registration_seq
  pub listed : has (pending, k.registration_seq) opened.registration_by_status ≡ true

open_registration-fresh :
    (ctx : Context) (msg : MsgSubmitNameRegistration) (k : NameStore)
    → get (msg.txid, msg.op_index) k.registration_by_txid ≡ none
    → (r : NameRegistration) × (opened : NameStore) × (open_registration ctx msg k
        ≡ ok (k.registration_seq, r, opened))
      × Opened msg k r opened
unfolding open_registration new_registration
open_registration-fresh ctx msg k free =
    let i = k.registration_seq in
    let opened = record k {
      registration_seq = suc i;
      registration_by_txid = put (msg.txid, msg.op_index) i k.registration_by_txid;
      registration_by_status = add_key (pending, i) k.registration_by_status;
      registration_by_account = add_key (msg.facts.steem_account, i) k.registration_by_account;
    } in
    let key : NameStatus × ℕ = (pending, i) in
    (
      new_registration ctx i msg,
      opened,
      rw (open_registration, free) refl,
      record {
        waits = refl;
        txid = refl;
        op_index = refl;
        account = refl;
        amount = refl;
        unconfirmed = refl;
        indexed = get-put_self (msg.txid, msg.op_index) i k.registration_by_txid;
        counted = refl;
        listed = ground (arith, has-add_key key key k.registration_by_status, pair_beq_iff key key);
      },
    )

-- The expiry of a recorded registration, whether it was pending or already credited, frees its key:
-- no operator that its record lists as a confirmer is kept as one, and no candidate has any power
-- left for the key; the old record stays, marked as expired. To open a registration for the same
-- transfer then starts a pending one, under the next number, with the message's account and amount
-- and without confirmations.
pub expire_registration-frees_key :
    (x : External) (ctx : Context) (i : ℕ) (r : NameRegistration) (k k' : NameStore)
    (addr candidate : Bytes) (msg : MsgSubmitNameRegistration)
    → get i k.registration ≡ some r
    → has addr (attesters x r.validator_confirmations) ≡ true
    → msg.txid ≡ r.txid
    → msg.op_index ≡ r.op_index
    → expire_registration x i k ≡ ok k'
    → (has (r.txid, r.op_index, addr) k'.registration_confirmed_by ≡ false)
      × (confirmed_power ctx
            (dedup_key_string r.txid r.op_index)
            candidate
            k'.registration_facts_vote
          ≡ 0)
      × (get i k'.registration ≡ some record r { status = expired })
      × (r' : NameRegistration) × (opened : NameStore) × (open_registration ctx msg k'
          ≡ ok (k'.registration_seq, r', opened))
      × Opened msg k' r' opened
unfolding expire_registration set_registration_status
expire_registration-frees_key x ctx i r k k' addr candidate msg found confirmed same_tx same_op e =
    let key : Bytes × ℕ = (r.txid, r.op_index) in
    elim (Result-cases (
      forget_confirmations x r.txid r.op_index r.validator_confirmations
        k.registration_confirmed_by)) [
          | inl (why, bad) ↦ ground arith
          | inr (left, forgot) ↦ elim (Result-cases (drop_awaiting x i r k.awaiting_by_dest)) [
            | inl (why, bad) ↦ ground arith
            | inr (awaiting, dropped) ↦
                let votes : k'.registration_facts_vote
                    ≡ clear_votes (dedup_key_string r.txid r.op_index) k.registration_facts_vote =
                  ground arith in
                let free : get (msg.txid, msg.op_index) k'.registration_by_txid ≡ none =
                  rw (same_tx, same_op)
                    (ground
                      (arith, get-remove key key k.registration_by_txid, pair_beq_iff key key)) in
                let (r', opened, starts, new) = open_registration-fresh ctx msg k' free in
                (
                  ground (
                    arith,
                    forget-drops x r.txid r.op_index r.validator_confirmations
                        k.registration_confirmed_by left addr forgot confirmed,
                  ),
                  rw votes (
                      cleared-power ctx (dedup_key_string r.txid r.op_index) candidate
                        k.registration_facts_vote),
                  ground (arith, get-put_self i (record r { status = expired }) k.registration),
                  r',
                  opened,
                  starts,
                  new,
                )
          ]
        ]
