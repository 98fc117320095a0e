-- ===== src/Bridge/Credit/Laws.antt =====
-- The accounting of one credit.
use steem_virtual_machine_ev.Prelude.{
  ℕ, ◌+◌, ◌≡◌, ◌≢◌, arith, Bytes, some, ok, Option-cases, Result-cases, inl, inr, sym,
}
use steem_virtual_machine_ev.Bridge.Amounts.{
  BridgeAsset, millisteem_to_asteem, denom_for_asset, apply_bridge_fee, apply_bridge_fee_conserves,
}
use steem_virtual_machine_ev.Bridge.State.{Store, External, BankKeeper, BankLaws}
use steem_virtual_machine_ev.Bridge.Credit.{send_positive, add_minted, credit_bridged}

module _ {Bank : Type 0} (bk : BankKeeper Bank) (laws : BankLaws bk) where
  open bk use {balance}

  record Moved (source dest denom : Bytes) (amount : ℕ) (s s' : Bank) : Type 0 where
    from_source : balance s' source denom + amount ≡ balance s source denom
    to_dest : balance s' dest denom ≡ balance s dest denom + amount

  send_positive-Moved :
      (source dest denom : Bytes) (amount : ℕ) (s s' : Bank)
      → send_positive bk source dest denom amount s ≡ ok s'
      → source ≢ dest
      → Moved source dest denom amount s s'
  unfolding send_positive
  send_positive-Moved source dest denom amount s s' e ne =
      elim (Option-cases (bk.send_coins source dest denom amount s)) [
        | inl refused ↦ ground arith
        | inr (t, sent) ↦ ground (
          arith,
          laws.send_from source dest denom amount s t sent,
          laws.send_to source dest denom amount s t sent,
        )
      ]

  send_positive-other :
      (source dest denom : Bytes) (amount : ℕ) (s s' : Bank) (other : Bytes)
      → send_positive bk source dest denom amount s ≡ ok s'
      → other ≢ source
      → other ≢ dest
      → balance s' other denom ≡ balance s other denom
  unfolding send_positive
  send_positive-other source dest denom amount s s' other e ns nd =
      elim (Option-cases (bk.send_coins source dest denom amount s)) [
        | inl refused ↦ ground arith
        | inr (t, sent) ↦ ground (arith, laws.send_other source dest denom amount s t other sent)
      ]

fee_split :
    (gross bps : ℕ)
    → millisteem_to_asteem (apply_bridge_fee gross bps).0
        + millisteem_to_asteem (apply_bridge_fee gross bps).1
      ≡ millisteem_to_asteem gross
unfolding millisteem_to_asteem
fee_split gross bps = omega (arith, apply_bridge_fee_conserves gross bps)

-- What the call did, once it succeeded: the states of the bank between its three steps.
pub record Steps {Bank : Type 0} (x : External) (bk : BankKeeper Bank) (dest : Bytes)
    (asset : BridgeAsset) (gross bps n : ℕ) (s s' : Store Bank) : Type 0 where
  minted : Bank
  paid : Bank
  mint :
      bk.mint_coins x.black_hole (denom_for_asset asset) (millisteem_to_asteem gross) s.bank
      ≡ some minted
  pay :
      send_positive bk x.black_hole dest
        (denom_for_asset asset)
        (millisteem_to_asteem (apply_bridge_fee gross bps).0)
        minted
      ≡ ok paid
  route :
      send_positive bk x.black_hole x.bridge_reward
        (denom_for_asset asset)
        (millisteem_to_asteem (apply_bridge_fee gross bps).1)
        paid
      ≡ ok s'.bank
  net : n ≡ millisteem_to_asteem (apply_bridge_fee gross bps).0
  pub totals : s'.totals ≡ add_minted asset (millisteem_to_asteem gross) s.totals
  pub params : s'.params ≡ s.params
  pub deposits : s'.deposits ≡ s.deposits
  pub withdrawals : s'.withdrawals ≡ s.withdrawals

pub credit_bridged-Steps :
    {Bank : Type 0} (x : External) (bk : BankKeeper Bank) (dest : Bytes) (asset : BridgeAsset)
    (gross bps n : ℕ) (s s' : Store Bank)
    → credit_bridged x bk dest asset gross bps s ≡ ok (n, s')
    → Steps x bk dest asset gross bps n s s'
unfolding credit_bridged
credit_bridged-Steps x bk dest asset gross bps n s s' e =
    let d = denom_for_asset asset in
    let split = apply_bridge_fee gross bps in
    elim (Option-cases (bk.mint_coins x.black_hole d (millisteem_to_asteem gross) s.bank)) [
      | inl refused ↦ ground arith
      | inr (m, e1) ↦
          elim (Result-cases
            (send_positive bk x.black_hole dest d (millisteem_to_asteem split.0) m)) [
              | inl (why, refused) ↦ ground arith
              | inr (p, e2) ↦
                  elim (Result-cases (
                    send_positive bk x.black_hole x.bridge_reward d (millisteem_to_asteem split.1)
                      p)) [
                        | inl (why, refused) ↦ ground arith
                        | inr (q, e3) ↦ record {
                          minted = m;
                          paid = p;
                          mint = e1;
                          pay = e2;
                          route = ground arith;
                          net = ground arith;
                          totals = ground arith;
                          params = ground arith;
                          deposits = ground arith;
                          withdrawals = ground arith;
                        }
                      ]
            ]
    ]

module _ {Bank : Type 0} (x : External) (bk : BankKeeper Bank) (laws : BankLaws bk) where
  open bk use {balance}

  -- A credit that succeeds mints the gross amount and hands all of it on: the black hole is left as
  -- it was, the destination has the net amount more and the reward account the fee, net and fee
  -- add up to the gross amount, and the total minted grows by the gross amount, of the
  -- credited asset. The destination is neither of the two module accounts.
  pub credit_bridged_accounts :
      (dest : Bytes) (asset : BridgeAsset) (gross bps n : ℕ) (s s' : Store Bank)
      → x.black_hole ≢ dest
      → x.black_hole ≢ x.bridge_reward
      → dest ≢ x.bridge_reward
      → credit_bridged x bk dest asset gross bps s ≡ ok (n, s')
      → let d = denom_for_asset asset in
        let fee = millisteem_to_asteem (apply_bridge_fee gross bps).1 in
        (balance s'.bank x.black_hole d ≡ balance s.bank x.black_hole d)
        × (balance s'.bank dest d ≡ balance s.bank dest d + n)
        × (balance s'.bank x.bridge_reward d ≡ balance s.bank x.bridge_reward d + fee)
        × (n + fee ≡ millisteem_to_asteem gross)
        × (s'.totals ≡ add_minted asset (millisteem_to_asteem gross) s.totals)
  credit_bridged_accounts dest asset gross bps n s s' hd hr dr e =
      let d = denom_for_asset asset in
      let net = millisteem_to_asteem (apply_bridge_fee gross bps).0 in
      let fee = millisteem_to_asteem (apply_bridge_fee gross bps).1 in
      let st = credit_bridged-Steps x bk dest asset gross bps n s s' e in
      let all = millisteem_to_asteem gross in
      let m1 = laws.mint_balance x.black_hole d all s.bank st.minted st.mint in
      let m2 = laws.mint_other x.black_hole d all s.bank st.minted dest st.mint (λ q. hd (sym q)) in
      let m3 =
        laws.mint_other x.black_hole d all s.bank st.minted x.bridge_reward st.mint
          (λ q. hr (sym q)) in
      let p1 = send_positive-Moved bk laws x.black_hole dest d net st.minted st.paid st.pay hd in
      let p2 =
        send_positive-other bk laws x.black_hole dest d net st.minted st.paid x.bridge_reward st.pay
          (λ q. hr (sym q)) (λ q. dr (sym q)) in
      let r1 =
        send_positive-Moved bk laws x.black_hole x.bridge_reward d fee st.paid s'.bank st.route
          hr in
      let r2 =
        send_positive-other bk laws x.black_hole x.bridge_reward d fee st.paid s'.bank dest st.route
          (λ q. hd (sym q)) dr in
      let whole = fee_split gross bps in
      (
        omega (arith, m1, p1, r1, whole),
        omega (arith, m2, p1, r2, st.net),
        omega (arith, m3, p2, r1),
        omega (arith, whole, st.net),
        st.totals,
      )
