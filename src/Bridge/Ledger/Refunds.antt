-- ===== src/Bridge/Ledger/Refunds.antt =====
-- The sweep that refunds overdue withdrawals: what is minted is what the refunded withdrawals had
-- taken out, each of them once.
use steem_virtual_machine_ev.Prelude.{
  ℕ, ◌+◌, ◌≡◌, ◌≤◌, refl, arith, if◌then◌else◌, true, false, List, [], ◌∷◌, Map, KeySet, ◌=?◌, ◌==◌,
  nat_eq, pair_eq, get, put, has, add_key, drop_key, has-add_key, has-drop_key, ==_iff, Bool-cases,
  Option-cases, Result-cases, inl, inr, ok, subst, take,
}
use steem_virtual_machine_ev.Bridge.Amounts.{BridgeAsset, millisteem_to_asteem, denom_for_asset}
use steem_virtual_machine_ev.Bridge.State.{
  WithdrawalStatus, requested, refunded, withdrawal_status_eq, Withdrawal, Store, Context, External,
  BankKeeper,
}
use steem_virtual_machine_ev.Bridge.Credit.{add_minted}
use steem_virtual_machine_ev.Bridge.Withdrawal.{minted_of, burned_of}
use steem_virtual_machine_ev.Bridge.Expiry.{
  refund_net, refund_withdrawal, refund_each, refund_expired_withdrawals, overdue_withdrawals,
  ids_of_status, max_expiry_sweep_per_block, is_overdue,
}
use steem_virtual_machine_ev.Bridge.Ledger.{taken_out, given_back, sum_values}
use steem_virtual_machine_ev.Bridge.Ledger.Sums.{sum_values-put, value_at}
use steem_virtual_machine_ev.Bridge.Ledger.Index.{
  Indexed-leave, Unique, has-ids_of_status, ids_of_status-Unique, has-take, take-Unique, has-other,
  select-Unique,
}
use steem_virtual_machine_ev.Bridge.Ledger.Deposits.{minted_of-add_minted, burned_of-add_minted}
use steem_virtual_machine_ev.Bridge.Ledger.Withdrawals.{withdrawal_status, WithdrawalsSound}

pub record Refunded {Bank : Type 0} (s s' : Store Bank) : Type 0 where
  pub sound : WithdrawalsSound s'.withdrawals
  pub deposits : s'.deposits ≡ s.deposits
  pub burned : (a : BridgeAsset) → burned_of a s'.totals ≡ burned_of a s.totals
  pub taken :
      (a : BridgeAsset)
      → sum_values (taken_out a) s'.withdrawals.withdrawal
        ≡ sum_values (taken_out a) s.withdrawals.withdrawal
  pub given :
      (a : BridgeAsset)
      → minted_of a s'.totals + sum_values (given_back a) s.withdrawals.withdrawal
        ≡ minted_of a s.totals + sum_values (given_back a) s'.withdrawals.withdrawal
  pub grows : (a : BridgeAsset) → minted_of a s.totals ≤ minted_of a s'.totals

Refunded-refl : {Bank : Type 0} (s : Store Bank) → WithdrawalsSound s.withdrawals → Refunded s s
Refunded-refl s sound = record {
  sound = sound;
  deposits = refl;
  burned = λ a. refl;
  taken = λ a. refl;
  given = λ a. refl;
  grows = λ a. omega arith;
}

module _ {Bank : Type 0} (x : External) (bk : BankKeeper Bank) (ctx : Context) where
  refund_withdrawal-Refunded :
      (i : ℕ) (s s' : Store Bank)
      → WithdrawalsSound s.withdrawals
      → has (requested, i) s.withdrawals.withdrawal_by_status ≡ true
      → refund_withdrawal x bk ctx i s ≡ ok s'
      → Refunded s s'
        × (s'.withdrawals.withdrawal_by_status
            ≡ add_key (refunded, i) (drop_key (requested, i) s.withdrawals.withdrawal_by_status))
  unfolding refund_withdrawal taken_out given_back value_at
  refund_withdrawal-Refunded i s s' sound h e =
      let k = s.withdrawals in
      let (w, found, waits) = sound.listed i h in
      let net = millisteem_to_asteem w.amount_millisteem in
      elim (Option-cases (x.string_to_bytes w.sender)) [
        | inl bad ↦ ground arith
        | inr (sender, sent) ↦
            elim (Result-cases (refund_net x bk ctx sender (denom_for_asset w.asset) net s.bank)) [
              | inl (why, bad) ↦ ground arith
              | inr (b, paid) ↦
                  let w1 = record w { status = refunded; refunded_at = ctx.block_height } in
                  let t : s'.totals ≡ add_minted w.asset net s.totals = ground arith in
                  let m : s'.withdrawals.withdrawal ≡ put i w1 k.withdrawal = ground arith in
                  let q : s'.withdrawals.withdrawal_seq ≡ k.withdrawal_seq = ground arith in
                  let v : s'.withdrawals.withdrawal_by_status
                      ≡ add_key (refunded, i) (drop_key (requested, i) k.withdrawal_by_status) =
                    ground arith in
                  (
                    record {
                      sound =
                          rw (m, q, v)
                            (Indexed-leave withdrawal_status requested k.withdrawal_seq k.withdrawal
                              k.withdrawal_by_status i w w1 refunded sound found
                              (λ z. ground arith));
                      deposits = ground arith;
                      burned = λ a. rw t (burned_of-add_minted a w.asset net s.totals);
                      taken = λ a.
                          rw m (ground (arith, sum_values-put (taken_out a) i w1 k.withdrawal));
                      given = λ a.
                          rw (m, t)
                            (ground (
                              arith,
                              sum_values-put (given_back a) i w1 k.withdrawal,
                              minted_of-add_minted a w.asset net s.totals,
                            ));
                      grows =
                          λ a. rw t (ground (arith, minted_of-add_minted a w.asset net s.totals));
                    },
                    v,
                  )
            ]
      ]

  still_listed :
      (i j : ℕ) (index : KeySet (WithdrawalStatus × ℕ))
      → (j =? i) ≡ false
      → has (requested, j) index ≡ true
      → has (requested, j) (add_key (refunded, i) (drop_key (requested, i) index)) ≡ true
  still_listed i j index ne h = ground (
    arith,
    has-add_key (requested, j) (refunded, i) (drop_key (requested, i) index),
    has-drop_key (requested, j) (requested, i) index,
  )

  refund_each-Refunded :
      (is : List ℕ) (s s' : Store Bank)
      → WithdrawalsSound s.withdrawals
      → Unique is
      → ((j : ℕ) → has j is ≡ true → has (requested, j) s.withdrawals.withdrawal_by_status ≡ true)
      → refund_each x bk ctx is s ≡ ok s'
      → Refunded s s'
  unfolding refund_each Unique has
  refund_each-Refunded [] s s' sound u l e =
      let same : s ≡ s' = ground arith in subst (λ t. Refunded s t) same (Refunded-refl s sound)
  refund_each-Refunded (i ∷ is) s s' sound u l e =
      elim (Result-cases (refund_withdrawal x bk ctx i s)) [
        | inl (why, bad) ↦ ground arith
        | inr (s1, first) ↦
            let (one, index) =
              refund_withdrawal-Refunded i s s1 sound (l i (ground (arith, ==_iff i i))) first in
            let rest =
              refund_each-Refunded is s1 s' one.sound u.1
                (λ j h. rw index (
                  still_listed i j s.withdrawals.withdrawal_by_status (has-other i j is u.0 h)
                    (l j (ground arith))))
                (ground arith) in
            record {
              sound = rest.sound;
              deposits = ground (arith, one.deposits, rest.deposits);
              burned = λ a. ground (arith, one.burned a, rest.burned a);
              taken = λ a. ground (arith, one.taken a, rest.taken a);
              given = λ a. ground (arith, one.given a, rest.given a);
              grows = λ a. ground (arith, one.grows a, rest.grows a);
            }
      ]

overdue_withdrawals-listed :
    (timeout height : ℕ) (m : Map ℕ Withdrawal) (is js : List ℕ)
    → overdue_withdrawals timeout height m is ≡ ok js
    → Unique is
    → Unique js × ((j : ℕ) → has j js ≡ true → has j is ≡ true)
unfolding overdue_withdrawals Unique has
overdue_withdrawals-listed timeout height m [] js e u =
    let same : [] ≡ js = ground arith in
    subst (λ ks. Unique ks × ((j : ℕ) → has j ks ≡ true → has j [] ≡ true)) same (tt, λ j h. h)
overdue_withdrawals-listed timeout height m (i ∷ is) js e u = elim (Option-cases (get i m)) [
  | inl missing ↦ ground arith
  | inr (w, found) ↦ elim (Result-cases (overdue_withdrawals timeout height m is)) [
    | inl (why, bad) ↦ ground arith
    | inr (rest, listed) ↦
        let keep = is_overdue w.created_at timeout height in
        let (v, within) = overdue_withdrawals-listed timeout height m is rest listed u.1 in
        let same : (if keep then i ∷ rest else rest) ≡ js = ground arith in
        subst (λ ks. Unique ks × ((j : ℕ) → has j ks ≡ true → has j (i ∷ is) ≡ true)) same
          (select-Unique i is rest keep u v within)
  ]
]

pub refund_expired_withdrawals-Refunded :
    {Bank : Type 0} (x : External) (bk : BankKeeper Bank) (ctx : Context) (s s' : Store Bank)
    → WithdrawalsSound s.withdrawals
    → refund_expired_withdrawals x bk ctx s ≡ ok s'
    → Refunded s s'
unfolding refund_expired_withdrawals
refund_expired_withdrawals-Refunded x bk ctx s s' sound e =
    let index = s.withdrawals.withdrawal_by_status in
    let walk = take max_expiry_sweep_per_block (ids_of_status requested index) in
    let timeout = s.params.withdrawal_timeout_blocks in
    elim (Bool-cases (timeout == 0)) [
      | inl off ↦
          let same : s ≡ s' = ground arith in subst (λ t. Refunded s t) same (Refunded-refl s sound)
      | inr on ↦
          elim (Result-cases
            (overdue_withdrawals timeout ctx.block_height s.withdrawals.withdrawal walk)) [
              | inl (why, bad) ↦ ground arith
              | inr (is, selected) ↦
                  let (u, within) =
                    overdue_withdrawals-listed timeout ctx.block_height s.withdrawals.withdrawal
                      walk is selected
                      (take-Unique max_expiry_sweep_per_block (ids_of_status requested index)
                        (ids_of_status-Unique requested index sound.unique)) in
                  refund_each-Refunded x bk ctx is s s' sound u
                    (λ j h. ground (
                      arith,
                      has-ids_of_status requested j index,
                      has-take max_expiry_sweep_per_block j (ids_of_status requested index)
                          (within j h),
                    ))
                    (ground arith)
            ]
    ]
