-- ===== src/Bridge/Expiry/Freed.antt =====
-- What the expiry of a deposit leaves of its key: nothing, so that the transfer can be attested
-- afresh.
use steem_virtual_machine_ev.Prelude.{
  ℕ, ◌≡◌, refl, arith, true, false, Bytes, bytes_beq, bytes_beq_iff, List, [], ◌∷◌, none, some,
  KeySet, nat_eq, bytes_eq, pair_eq, pair_beq_iff, triple_eq, triple_beq_iff, get, has, drop_key,
  Bool-cases, get-remove, get-put_self, has-drop_key, Option-cases, Result-cases, inl, inr, ok,
}
use steem_virtual_machine_ev.Bridge.Facts.{dedup_key_string}
use steem_virtual_machine_ev.Bridge.State.{
  expired, deposit_status_eq, Confirmation, Deposit, DepositStore, Context, External,
}
use steem_virtual_machine_ev.Bridge.Power.{confirmed_power, clear_votes}
use steem_virtual_machine_ev.Bridge.Deposit.{set_deposit_status}
use steem_virtual_machine_ev.Bridge.Duty.{attesters}
use steem_virtual_machine_ev.Bridge.Expiry.{forget_confirmations, expire_deposit}

module _ (x : External) (txid : Bytes) (op : ℕ) where
  forget-keeps :
      (cs : List Confirmation) (before after : KeySet (Bytes × ℕ × Bytes)) (addr : Bytes)
      → forget_confirmations x txid op cs before ≡ ok after
      → has (txid, op, addr) before ≡ false
      → has (txid, op, addr) after ≡ false
  unfolding forget_confirmations
  forget-keeps [] before after addr e h = ground arith
  forget-keeps (c ∷ cs) before after addr e h =
      elim (Option-cases (x.val_from_bech32 c.validator_address)) [
        | inl bad ↦ ground arith
        | inr (a, decoded) ↦
            forget-keeps cs (drop_key (txid, op, a) before) after addr (ground arith)
              (ground (arith, has-drop_key (txid, op, addr) (txid, op, a) before))
      ]

  pub forget-drops :
      (cs : List Confirmation) (before after : KeySet (Bytes × ℕ × Bytes)) (addr : Bytes)
      → forget_confirmations x txid op cs before ≡ ok after
      → has addr (attesters x cs) ≡ true
      → has (txid, op, addr) after ≡ false
  unfolding forget_confirmations attesters has
  forget-drops [] before after addr e h = ground arith
  forget-drops (c ∷ cs) before after addr e h =
      elim (Option-cases (x.val_from_bech32 c.validator_address)) [
        | inl bad ↦ ground arith
        | inr (a, decoded) ↦ elim (Bool-cases (bytes_beq addr a)) [
          | inl same ↦ forget-keeps cs (drop_key (txid, op, a) before) after addr (ground arith) (
              ground (
                arith,
                has-drop_key (txid, op, addr) (txid, op, a) before,
                triple_beq_iff (txid, op, addr) (txid, op, a),
                bytes_beq_iff addr a,
              ))
          | inr other ↦
              forget-drops cs (drop_key (txid, op, a) before) after addr (ground arith)
                (ground arith)
        ]
      ]

pub cleared-power :
    (ctx : Context) (key candidate : Bytes) (votes : KeySet (Bytes × Bytes × Bytes))
    → confirmed_power ctx key candidate (clear_votes key votes) ≡ 0
unfolding confirmed_power clear_votes
cleared-power ctx key candidate [] = refl
cleared-power ctx key candidate ((k, c, v) ∷ votes) =
    ground (arith, cleared-power ctx key candidate votes)

-- The expiry of a recorded deposit frees its key: it is not in the index any more, no operator that
-- confirmed it is kept as a confirmer, and no candidate for it has any power left. The record stays,
-- marked as expired.
pub expire_deposit-frees_key :
    (x : External) (ctx : Context) (i : ℕ) (d : Deposit) (k k' : DepositStore)
    (addr candidate : Bytes)
    → get i k.deposit ≡ some d
    → has addr (attesters x d.validator_confirmations) ≡ true
    → expire_deposit x i k ≡ ok k'
    → (get (d.txid, d.op_index) k'.deposit_by_txid ≡ none)
      × (has (d.txid, d.op_index, addr) k'.deposit_confirmed_by ≡ false)
      × (confirmed_power ctx (dedup_key_string d.txid d.op_index) candidate k'.deposit_facts_vote
          ≡ 0)
      × (get i k'.deposit ≡ some record d { status = expired })
unfolding expire_deposit set_deposit_status
expire_deposit-frees_key x ctx i d k k' addr candidate found confirmed e =
    let key : Bytes × ℕ = (d.txid, d.op_index) in
    elim (Result-cases
      (forget_confirmations x d.txid d.op_index d.validator_confirmations k.deposit_confirmed_by)) [
        | inl (why, bad) ↦ ground arith
        | inr (left, forgot) ↦
            let votes : k'.deposit_facts_vote
                ≡ clear_votes (dedup_key_string d.txid d.op_index) k.deposit_facts_vote =
              ground arith in
            (
              ground (arith, get-remove key key k.deposit_by_txid, pair_beq_iff key key),
              ground (
                arith,
                forget-drops x d.txid d.op_index d.validator_confirmations k.deposit_confirmed_by
                    left addr forgot confirmed,
              ),
              rw votes (
                  cleared-power ctx (dedup_key_string d.txid d.op_index) candidate
                    k.deposit_facts_vote),
              ground (arith, get-put_self i (record d { status = expired }) k.deposit),
            )
      ]
