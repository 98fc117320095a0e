-- ===== src/Bridge/Ledger/Sweep.antt =====
-- The sweep of the overdue deposits changes no sum: only pending deposits are in its list.
use steem_virtual_machine_ev.Prelude.{
  ℕ, ◌≡◌, refl, arith, if◌then◌else◌, true, false, List, [], ◌∷◌, Map, KeySet, ◌=?◌, nat_eq,
  bytes_eq, pair_eq, triple_eq, get, put, has, add_key, drop_key, has-add_key, has-drop_key, ==_iff,
  Option-cases, Result-cases, inl, inr, ok, subst, take,
}
use steem_virtual_machine_ev.Bridge.Amounts.{BridgeAsset}
use steem_virtual_machine_ev.Bridge.State.{
  DepositStatus, pending, expired, deposit_status_eq, Deposit, DepositStore, Store, Context,
  External,
}
use steem_virtual_machine_ev.Bridge.Deposit.{set_deposit_status}
use steem_virtual_machine_ev.Bridge.Expiry.{
  expire_deposit, expire_each, expire_deposits, forget_confirmations, overdue_deposits,
  ids_of_status, max_expiry_sweep_per_block, is_overdue,
}
use steem_virtual_machine_ev.Bridge.Ledger.{brought_in, sum_values}
use steem_virtual_machine_ev.Bridge.Ledger.Sums.{sum_values-put, value_at}
use steem_virtual_machine_ev.Bridge.Ledger.Index.{
  Indexed-leave, Unique, has-ids_of_status, ids_of_status-Unique, has-take, take-Unique, has-other,
  select-Unique,
}
use steem_virtual_machine_ev.Bridge.Ledger.Deposits.{deposit_status, DepositsSound}
use steem_virtual_machine_ev.Bridge.Ledger.Attest.{put-named}

-- Between two deposit stores: the sums, and which numbers are still listed as pending.
pub record Expired (is : List ℕ) (k k' : DepositStore) : Type 0 where
  pub sound : DepositsSound k'
  pub sums :
      (a : BridgeAsset) → sum_values (brought_in a) k'.deposit ≡ sum_values (brought_in a) k.deposit

module _ (x : External) where
  expire_deposit-Expired :
      (i : ℕ) (k k' : DepositStore)
      → DepositsSound k
      → has (pending, i) k.deposit_by_status ≡ true
      → expire_deposit x i k ≡ ok k'
      → Expired (i ∷ []) k k'
        × (k'.deposit_by_status ≡ add_key (expired, i) (drop_key (pending, i) k.deposit_by_status))
  unfolding expire_deposit set_deposit_status brought_in value_at
  expire_deposit-Expired i k k' sound h e =
      let (d, found, waits) = sound.indexed.listed i h in
      elim (Result-cases (
        forget_confirmations x d.txid d.op_index d.validator_confirmations
          k.deposit_confirmed_by)) [
            | inl (why, bad) ↦ ground arith
            | inr (confirmed, forgot) ↦
                let own = sound.named i d found in
                let d1 = record d { status = expired } in
                let m : k'.deposit ≡ put i d1 k.deposit = ground arith in
                let q : k'.deposit_seq ≡ k.deposit_seq = ground arith in
                let t : k'.deposit_by_status
                    ≡ add_key (expired, i) (drop_key (pending, i) k.deposit_by_status) =
                  ground arith in
                (
                  record {
                    sound = record {
                      indexed =
                          rw (m, q, t)
                            (Indexed-leave deposit_status pending k.deposit_seq k.deposit
                              k.deposit_by_status i d d1 expired sound.indexed found
                              (λ z. ground arith));
                      named = rw m (put-named i d1 k.deposit sound.named own);
                    };
                    sums = λ a. rw m (ground (arith, sum_values-put (brought_in a) i d1 k.deposit));
                  },
                  t,
                )
          ]

  still_listed :
      (i j : ℕ) (index : KeySet (DepositStatus × ℕ))
      → (j =? i) ≡ false
      → has (pending, j) index ≡ true
      → has (pending, j) (add_key (expired, i) (drop_key (pending, i) index)) ≡ true
  still_listed i j index ne h = ground (
    arith,
    has-add_key (pending, j) (expired, i) (drop_key (pending, i) index),
    has-drop_key (pending, j) (pending, i) index,
  )

  expire_each-Expired :
      (is : List ℕ) (k k' : DepositStore)
      → DepositsSound k
      → Unique is
      → ((j : ℕ) → has j is ≡ true → has (pending, j) k.deposit_by_status ≡ true)
      → expire_each x is k ≡ ok k'
      → Expired is k k'
  unfolding expire_each Unique has
  expire_each-Expired [] k k' sound u l e =
      let same : k ≡ k' = ground arith in
      subst (λ t. Expired [] k t) same record { sound = sound; sums = λ a. refl }
  expire_each-Expired (i ∷ is) k k' sound u l e = elim (Result-cases (expire_deposit x i k)) [
    | inl (why, bad) ↦ ground arith
    | inr (k1, first) ↦
        let (one, index) =
          expire_deposit-Expired i k k1 sound (l i (ground (arith, ==_iff i i))) first in
        let rest =
          expire_each-Expired is k1 k' one.sound u.1
            (λ j h.
              rw index (
                still_listed i j k.deposit_by_status (has-other i j is u.0 h) (l j (ground arith))))
            (ground arith) in
        record { sound = rest.sound; sums = λ a. ground (arith, one.sums a, rest.sums a) }
  ]

  overdue_deposits-listed :
      (timeout height : ℕ) (m : Map ℕ Deposit) (is js : List ℕ)
      → overdue_deposits timeout height m is ≡ ok js
      → Unique is
      → Unique js × ((j : ℕ) → has j js ≡ true → has j is ≡ true)
  unfolding overdue_deposits Unique has
  overdue_deposits-listed timeout height m [] js e u =
      let same : [] ≡ js = ground arith in
      subst (λ ks. Unique ks × ((j : ℕ) → has j ks ≡ true → has j [] ≡ true)) same (tt, λ j h. h)
  overdue_deposits-listed timeout height m (i ∷ is) js e u = elim (Option-cases (get i m)) [
    | inl missing ↦ ground arith
    | inr (d, found) ↦ elim (Result-cases (overdue_deposits timeout height m is)) [
      | inl (why, bad) ↦ ground arith
      | inr (rest, listed) ↦
          let keep = is_overdue d.created_at timeout height in
          let (v, within) = overdue_deposits-listed timeout height m is rest listed u.1 in
          let same : (if keep then i ∷ rest else rest) ≡ js = ground arith in
          subst (λ ks. Unique ks × ((j : ℕ) → has j ks ≡ true → has j (i ∷ is) ≡ true)) same
            (select-Unique i is rest keep u v within)
    ]
  ]

pub expire_deposits-Expired :
    {Bank : Type 0} (x : External) (ctx : Context) (s s' : Store Bank)
    → DepositsSound s.deposits
    → expire_deposits x ctx s ≡ ok s'
    → (k : DepositStore) × (is : List ℕ) × Expired is s.deposits k
      × (s' ≡ record s { deposits = k })
unfolding expire_deposits
expire_deposits-Expired x ctx s s' sound e =
    let index = s.deposits.deposit_by_status in
    let walk = take max_expiry_sweep_per_block (ids_of_status pending index) in
    let timeout = s.params.deposit_timeout_blocks in
    elim (Result-cases (overdue_deposits timeout ctx.block_height s.deposits.deposit walk)) [
      | inl (why, bad) ↦ ground arith
      | inr (is, selected) ↦ elim (Result-cases (expire_each x is s.deposits)) [
        | inl (why, bad) ↦ ground arith
        | inr (k, done) ↦
            let (u, within) =
              overdue_deposits-listed x timeout ctx.block_height s.deposits.deposit walk is selected
                (take-Unique max_expiry_sweep_per_block (ids_of_status pending index)
                  (ids_of_status-Unique pending index sound.indexed.unique)) in
            (
              k,
              is,
              expire_each-Expired x is s.deposits k sound u
                  (λ j h. ground (
                    arith,
                    has-ids_of_status pending j index,
                    has-take max_expiry_sweep_per_block j (ids_of_status pending index)
                        (within j h),
                  ))
                  done,
              ground arith,
            )
      ]
    ]
