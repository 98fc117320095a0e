-- ===== src/Bridge/Ledger/Deposits.antt =====
-- What the deposit handlers keep: the deposits' index, and the minted total as the sum of the
-- minted deposits.
use steem_virtual_machine_ev.Prelude.{
  ℕ, ◌+◌, ◌≡◌, ◌≢◌, ◌≤◌, refl, arith, if◌then◌else◌, ◌&&◌, Bytes, ◌⊎◌, some, ◌=?◌, nat_eq, bytes_eq,
  pair_eq, triple_eq, get, add_key, drop_key, Bool-cases, Option-cases, Result-cases, inl, inr, ok,
  leb, subst,
}
use steem_virtual_machine_ev.Bridge.Amounts.{
  BridgeAsset, asset_beq, steem, sbd, millisteem_to_asteem,
}
use steem_virtual_machine_ev.Bridge.Facts.{DepositFacts}
use steem_virtual_machine_ev.Bridge.Memo.{DestinationType, destination_none, derive_destination}
use steem_virtual_machine_ev.Bridge.State.{
  DepositStatus, pending, minted, unclaimable, deposit_status_eq, deposit_status_beq_iff, Deposit,
  BridgeTotals, DepositStore, Store, Context, External, BankKeeper,
}
use steem_virtual_machine_ev.Bridge.Credit.{add_minted, credit_bridged}
use steem_virtual_machine_ev.Bridge.Credit.Laws.{credit_bridged-Steps}
use steem_virtual_machine_ev.Bridge.Deposit.{
  adopt_facts, within_range, mark_unclaimable, mint_deposit, resolve_deposit, resolve_at_threshold,
  set_deposit_status, enqueue_bridge_duty,
}
use steem_virtual_machine_ev.Bridge.Withdrawal.{minted_of, burned_of}
use steem_virtual_machine_ev.Bridge.Ledger.{brought_in}
use steem_virtual_machine_ev.Bridge.Ledger.Index.{Indexed}

abbrev pub deposit_status : Deposit → DepositStatus
deposit_status d = d.status

pub record DepositsSound (k : DepositStore) : Type 0 where
  pub indexed : Indexed deposit_status pending k.deposit_seq k.deposit k.deposit_by_status
  pub named : (i : ℕ) (d : Deposit) → get i k.deposit ≡ some d → d.id ≡ i

pub minted_of-add_minted :
    (a b : BridgeAsset) (n : ℕ) (t : BridgeTotals)
    → minted_of a (add_minted b n t) ≡ minted_of a t + (if asset_beq a b then n else 0)
unfolding minted_of add_minted
minted_of-add_minted sbd sbd n t = refl
minted_of-add_minted sbd steem n t = omega arith
minted_of-add_minted steem sbd n t = omega arith
minted_of-add_minted steem steem n t = refl

pub burned_of-add_minted :
    (a b : BridgeAsset) (n : ℕ) (t : BridgeTotals) → burned_of a (add_minted b n t) ≡ burned_of a t
unfolding burned_of add_minted
burned_of-add_minted sbd sbd n t = refl
burned_of-add_minted sbd steem n t = refl
burned_of-add_minted steem sbd n t = refl
burned_of-add_minted steem steem n t = refl

-- What the resolution of a deposit did to it and to the store.
pub record Resolved {Bank : Type 0} (d d' : Deposit) (s s' : Store Bank) : Type 0 where
  pub id : d'.id ≡ d.id
  pub records : s'.deposits.deposit ≡ s.deposits.deposit
  pub sequence : s'.deposits.deposit_seq ≡ s.deposits.deposit_seq
  pub withdrawals : s'.withdrawals ≡ s.withdrawals
  pub burned : (a : BridgeAsset) → burned_of a s'.totals ≡ burned_of a s.totals
  pub minted_by :
      (a : BridgeAsset)
      → minted_of a s'.totals + brought_in a d ≡ minted_of a s.totals + brought_in a d'
  pub grows : (a : BridgeAsset) → minted_of a s.totals ≤ minted_of a s'.totals
  pub index :
      ((d'.status ≡ d.status) × (s'.deposits.deposit_by_status ≡ s.deposits.deposit_by_status))
      ⊎ ((to : DepositStatus) × (to ≢ pending)
          × (s'.deposits.deposit_by_status
              ≡ add_key (to, d.id) (drop_key (pending, d.id) s.deposits.deposit_by_status)))

module _ {Bank : Type 0} (x : External) (bk : BankKeeper Bank) (ctx : Context) where
  mark_unclaimable-Resolved :
      (d : Deposit) (kind : DestinationType) (s : Store Bank)
      → d.status ≡ pending
      → Resolved d (mark_unclaimable d kind s).0 s (mark_unclaimable d kind s).1
  unfolding mark_unclaimable set_deposit_status brought_in
  mark_unclaimable-Resolved d kind s e = record {
    id = refl;
    records = refl;
    sequence = refl;
    withdrawals = refl;
    burned = λ a. refl;
    minted_by = λ a. ground arith;
    grows = λ a. omega arith;
    index = inr (unclaimable, (λ h. ground arith), rw e refl);
  }

  mint_deposit-Resolved :
      (dest : Bytes) (kind : DestinationType) (d d' : Deposit) (s s' : Store Bank)
      → d.status ≡ pending
      → mint_deposit x bk ctx dest kind d s ≡ ok (d', s')
      → Resolved d d' s s'
  unfolding mint_deposit set_deposit_status brought_in
  mint_deposit-Resolved dest kind d d' s s' e h =
      elim (Result-cases
        (credit_bridged x bk dest d.asset d.amount_millisteem s.params.bridge_fee_bps s)) [
          | inl (why, bad) ↦ ground arith
          | inr ((n, s1), credited) ↦ elim (Option-cases (x.bytes_to_string dest)) [
            | inl bad ↦ ground arith
            | inr (text, named) ↦
                let st =
                  credit_bridged-Steps x bk dest d.asset d.amount_millisteem s.params.bridge_fee_bps
                    n s s1 credited in
                let gross = millisteem_to_asteem d.amount_millisteem in
                let t1 : s'.totals ≡ s1.totals = ground arith in
                let d1 : d'.status ≡ minted = ground arith in
                let d2 : d'.asset ≡ d.asset = ground arith in
                let d3 : d'.amount_millisteem ≡ d.amount_millisteem = ground arith in
                record {
                  id = ground arith;
                  records = ground (arith, st.deposits);
                  sequence = ground (arith, st.deposits);
                  withdrawals = ground (arith, st.withdrawals);
                  burned =
                      λ a. ground (arith, st.totals, burned_of-add_minted a d.asset gross s.totals);
                  minted_by =
                      λ a. ground (arith, st.totals, minted_of-add_minted a d.asset gross s.totals);
                  grows =
                      λ a. ground (arith, st.totals, minted_of-add_minted a d.asset gross s.totals);
                  index = inr (minted, (λ q. ground arith), ground (arith, st.deposits));
                }
          ]
        ]

  resolve_deposit-Resolved :
      (d d' : Deposit) (s s' : Store Bank)
      → d.status ≡ pending
      → resolve_deposit x bk ctx d s ≡ ok (d', s')
      → Resolved d d' s s'
  unfolding resolve_deposit
  resolve_deposit-Resolved d d' s s' e h =
      elim (Option-cases (derive_destination x.acc_from_bech32 x.hex_to_address d.memo)) [
        | inl unparsed ↦
            let same : mark_unclaimable d destination_none s ≡ (d', s') = ground arith in
            subst (λ p. Resolved d p.0 s p.1) same
              (mark_unclaimable-Resolved d destination_none s e)
        | inr ((dest, kind), parsed) ↦
            elim (Bool-cases (within_range s.params d.amount_millisteem)) [
              | inl within ↦ mint_deposit-Resolved dest kind d d' s s' e (ground arith)
              | inr outside ↦
                  let same : mark_unclaimable d kind s ≡ (d', s') = ground arith in
                  subst (λ p. Resolved d p.0 s p.1) same (mark_unclaimable-Resolved d kind s e)
            ]
      ]

  unresolved : (d : Deposit) (s : Store Bank) → Resolved d d s s
  unresolved d s = record {
    id = refl;
    records = refl;
    sequence = refl;
    withdrawals = refl;
    burned = λ a. refl;
    minted_by = λ a. refl;
    grows = λ a. omega arith;
    index = inl (refl, refl);
  }

  pub resolve_at_threshold-Resolved :
      (facts : DepositFacts) (ratio : ℕ) (d d' : Deposit) (s s' : Store Bank)
      → resolve_at_threshold x bk ctx facts ratio d s ≡ ok (d', s')
      → Resolved d d' s s'
  unfolding resolve_at_threshold enqueue_bridge_duty adopt_facts brought_in
  resolve_at_threshold-Resolved facts ratio d d' s s' h =
      elim (Bool-cases
        ((d.status =? pending) && leb s.params.bridge_confirmation_threshold ratio)) [
          | inr stays ↦
              let same_d : d ≡ d' = ground arith in
              let same_s : s ≡ s' = ground arith in
              subst (λ q. Resolved d q s s') same_d
                (subst (λ t. Resolved d d s t) same_s (unresolved d s))
          | inl won ↦ elim (Result-cases (resolve_deposit x bk ctx (adopt_facts facts d) s)) [
            | inl (why, bad) ↦ ground arith
            | inr ((d1, s1), done) ↦
                let e : d.status ≡ pending =
                  ground (arith, deposit_status_beq_iff d.status pending) in
                let r = resolve_deposit-Resolved (adopt_facts facts d) d1 s s1 e done in
                let same_d : d1 ≡ d' = ground arith in
                let k : s'.deposits ≡ s1.deposits = ground arith in
                let w : s'.withdrawals ≡ s1.withdrawals = ground arith in
                let t : s'.totals ≡ s1.totals = ground arith in
                subst (λ q. Resolved d q s s') same_d
                  record {
                    id = r.id;
                    records = ground (arith, r.records);
                    sequence = ground (arith, r.sequence);
                    withdrawals = ground (arith, r.withdrawals);
                    burned = λ a. ground (arith, r.burned a);
                    minted_by = λ a. ground (arith, r.minted_by a);
                    grows = λ a. ground (arith, r.grows a);
                    index = rw k r.index;
                  }
          ]
        ]
