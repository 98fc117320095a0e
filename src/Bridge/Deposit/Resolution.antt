-- ===== src/Bridge/Deposit/Resolution.antt =====
-- When a deposit is resolved, and what the resolution leaves alone.
use steem_virtual_machine_ev.Prelude.{
  ℕ, ◌≡◌, arith, true, ◌&&◌, Bytes, ◌=?◌, nat_eq, bytes_eq, pair_eq, triple_eq, leb, ok, Bool-cases,
  Option-cases, Result-cases, inl, inr, ◌⊎◌,
}
use steem_virtual_machine_ev.Bridge.Memo.{DestinationType, derive_destination}
use steem_virtual_machine_ev.Bridge.State.{
  pending, deposit_status_eq, deposit_status_beq_iff, Deposit, Store, Context, External, BankKeeper,
}
use steem_virtual_machine_ev.Bridge.Credit.{credit_bridged}
use steem_virtual_machine_ev.Bridge.Credit.Laws.{credit_bridged-Steps}
use steem_virtual_machine_ev.Bridge.Deposit.{
  MsgAttestDeposit, adopt_facts, within_range, mark_unclaimable, mint_deposit, resolve_deposit,
  resolve_at_threshold,
}

module _ {Bank : Type 0} (x : External) (bk : BankKeeper Bank) (ctx : Context) where
  mint_deposit-votes :
      (dest : Bytes) (kind : DestinationType) (d d' : Deposit) (s s' : Store Bank)
      → mint_deposit x bk ctx dest kind d s ≡ ok (d', s')
      → (s'.deposits.deposit_facts_vote ≡ s.deposits.deposit_facts_vote)
        × (s'.deposits.deposit_confirmed_by ≡ s.deposits.deposit_confirmed_by)
        × (s'.params ≡ s.params)
  unfolding mint_deposit
  mint_deposit-votes dest kind d d' s s' h =
      elim (Result-cases
        (credit_bridged x bk dest d.asset d.amount_millisteem s.params.bridge_fee_bps s)) [
          | inl (why, bad) ↦ ground arith
          | inr ((n, s1), credited) ↦ elim (Option-cases (x.bytes_to_string dest)) [
            | inl bad ↦ ground arith
            | inr (text, named) ↦
                let st =
                  credit_bridged-Steps x bk dest d.asset d.amount_millisteem s.params.bridge_fee_bps
                    n s s1 credited in
                ground (arith, st.deposits, st.params)
          ]
        ]

  resolve_deposit-votes :
      (d d' : Deposit) (s s' : Store Bank)
      → resolve_deposit x bk ctx d s ≡ ok (d', s')
      → (s'.deposits.deposit_facts_vote ≡ s.deposits.deposit_facts_vote)
        × (s'.deposits.deposit_confirmed_by ≡ s.deposits.deposit_confirmed_by)
        × (s'.params ≡ s.params)
  unfolding resolve_deposit mark_unclaimable
  resolve_deposit-votes d d' s s' h =
      elim (Option-cases (derive_destination x.acc_from_bech32 x.hex_to_address d.memo)) [
        | inl unparsed ↦ ground arith
        | inr ((dest, kind), parsed) ↦
            elim (Bool-cases (within_range s.params d.amount_millisteem)) [
              | inl within ↦ mint_deposit-votes dest kind d d' s s' (ground arith)
              | inr outside ↦ ground arith
            ]
      ]

  -- Either nothing is resolved, or a pending deposit at the threshold is.
  pub record Outcome (ratio : ℕ) (d d' : Deposit) (s s' : Store Bank) : Type 0 where
    pub votes :
        (s'.deposits.deposit_facts_vote ≡ s.deposits.deposit_facts_vote)
        × (s'.deposits.deposit_confirmed_by ≡ s.deposits.deposit_confirmed_by)
        × (s'.params ≡ s.params)
    pub moved :
        ((d' ≡ d) × (s' ≡ s))
        ⊎ ((d.status ≡ pending) × (leb s.params.bridge_confirmation_threshold ratio ≡ true))

  pub resolve_at_threshold-Outcome :
      (msg : MsgAttestDeposit) (ratio : ℕ) (d d' : Deposit) (s s' : Store Bank)
      → resolve_at_threshold x bk ctx msg.facts ratio d s ≡ ok (d', s')
      → Outcome ratio d d' s s'
  unfolding resolve_at_threshold
  resolve_at_threshold-Outcome msg ratio d d' s s' h =
      elim (Bool-cases
        ((d.status =? pending) && leb s.params.bridge_confirmation_threshold ratio)) [
          | inr stays ↦ record { votes = ground arith; moved = inl (ground arith) }
          | inl won ↦ elim (Result-cases (resolve_deposit x bk ctx (adopt_facts msg.facts d) s)) [
            | inl (why, bad) ↦ ground arith
            | inr ((d1, s1), done) ↦
                let kept = resolve_deposit-votes (adopt_facts msg.facts d) d1 s s1 done in
                record {
                  votes = ground (arith, kept);
                  moved = inr (ground (arith, deposit_status_beq_iff d.status pending));
                }
          ]
        ]
