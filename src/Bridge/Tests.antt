-- ===== src/Bridge/Tests.antt =====
-- The theorems of the Bridge modules at a short history: a deposit of 1 STEEM is attested and
-- minted to carol, who bridges half of it out again, and the payout is attested.
use steem_virtual_machine_ev.Prelude.{
  ◌*◌, triple_eq, ℕ, ◌+◌, ◌≡◌, ◌≢◌, ◌≤◌, ◌<◌, refl, arith, leb, true, false, Bytes, bytes_beq,
  bytes_beq_iff, List, [], ◌∷◌, Option, none, some, ok, err, get, put, has, add_key, bytes_eq,
  nat_eq, pair_eq, codes, ◌⊎◌, map,
}
use steem_virtual_machine_ev.Text.{trim_space, cut_prefix}
use steem_virtual_machine_ev.Decimal.{one, half_up, half_up-Rounds}
use steem_virtual_machine_ev.Bridge.Amounts.{
  steem, millisteem_to_asteem, denom_for_asset, apply_bridge_fee,
}
use steem_virtual_machine_ev.Bridge.Facts.{
  deposit_facts_hash, dedup_key_string, payout_candidate_key,
}
use steem_virtual_machine_ev.Bridge.Facts.Laws.{
  InRange, deposit_facts_bytes-inj, deposit_facts_hash-inj,
}
use steem_virtual_machine_ev.Bridge.State.{
  expired, Store, Deposit, DepositStore, DepositStatus, WithdrawalStatus, pending, minted,
  Withdrawal, requested, processed, Error, duplicate_confirmation, withdrawal_already_processed,
  duplicate_withdrawal_confirmation,
}
use steem_virtual_machine_ev.Bridge.Names.Registration.{is_benign_attestation_error}
use steem_virtual_machine_ev.Bridge.Memo.{derive_destination}
use steem_virtual_machine_ev.Bridge.Power.{candidate_ratio, confirmed_power}
use steem_virtual_machine_ev.Bridge.Expiry.{expire_deposit}
use steem_virtual_machine_ev.Oracle.Duty.{Tallies}
use steem_virtual_machine_ev.Bridge.Duty.{attesters, flush_bridge_duty}
use steem_virtual_machine_ev.Bridge.Expiry.Freed.{expire_deposit-frees_key}
use steem_virtual_machine_ev.Bridge.Power.Unique.{threshold_unique}
use steem_virtual_machine_ev.Bridge.Credit.{credit_bridged, add_minted}
use steem_virtual_machine_ev.Bridge.Credit.Laws.{credit_bridged_accounts}
use steem_virtual_machine_ev.Bridge.Deposit.{
  new_deposit, attest_deposit, open_deposit, validate_deposit_acceptance,
}
use steem_virtual_machine_ev.Bridge.Deposit.Attestation.{
  attest_deposit_threshold, deposit_resolved_once, attest_deposit-repeated,
}
use steem_virtual_machine_ev.Bridge.Withdrawal.{
  non_negative_int, bridge_out, attest_withdrawal_payout, validate_withdrawal_processed_acceptance,
  minted_of, burned_of, payout_matches, new_withdrawal,
}
use steem_virtual_machine_ev.Bridge.Withdrawal.Creation.{bridge_out_covered}
use steem_virtual_machine_ev.Bridge.Withdrawal.Payout.{
  attest_withdrawal_payout-repeated, attest_withdrawal_payout_settles,
}
use steem_virtual_machine_ev.Bridge.Ledger.{
  genesis, Reach, reach_start, reach_step, deposit_attested, bridged_out, brought_in, taken_out,
  given_back, paid_or_owed, sum_values,
}
use steem_virtual_machine_ev.Bridge.Ledger.Solvency.{reachable_totals, reachable_solvent}
use steem_virtual_machine_ev.Bridge.Fixtures.{
  Balances, bank, bank-BankLaws, alice, external, context, context-TotalCovers, params, facts,
  deposit_msg, bridge_out_msg, payout_msg, after,
}

facts-InRange : InRange facts
facts-InRange = record {
  block = omega arith;
  timestamp = omega arith;
  sender = omega arith;
  gateway = omega arith;
  amount = omega arith;
  memo = omega arith;
}

deposit_facts_bytes-inj_example : facts ≡ facts
deposit_facts_bytes-inj_example =
    deposit_facts_bytes-inj facts facts facts-InRange facts-InRange refl

deposit_facts_hash-inj_example : facts ≡ facts
unfolding deposit_facts_hash
deposit_facts_hash-inj_example =
    deposit_facts_hash-inj (λ b. b) facts facts (λ e. e) facts-InRange facts-InRange refl

threshold_unique_example : bytes_beq (codes "x") (codes "x") ≡ true
unfolding candidate_ratio bytes_beq has
threshold_unique_example =
    threshold_unique {K = ℕ} half_up context 7 (codes "x") (codes "x") ((7, codes "x", alice) ∷ [])
      666666666666666667 half_up-Rounds context-TotalCovers (refl, tt) (omega arith) (omega arith)
      (omega arith)

abbrev start : Store Balances
start = genesis params []

abbrev credited : Store Balances
credited = after start (attest_deposit half_up external bank context deposit_msg start)

attested : attest_deposit half_up external bank context deposit_msg start ≡ ok credited
unfolding attest_deposit genesis bytes_beq has get add_key derive_destination apply_bridge_fee put
    cut_prefix trim_space
attested = refl

abbrev withdrawn : Store Balances
withdrawn = after credited (bridge_out external bank context bridge_out_msg credited)

bridged : bridge_out external bank context bridge_out_msg credited ≡ ok withdrawn
unfolding bridge_out attest_deposit genesis bytes_beq has get add_key derive_destination
    apply_bridge_fee put cut_prefix trim_space
bridged = refl

abbrev paid_out : Store Balances
paid_out = after withdrawn (attest_withdrawal_payout half_up external context payout_msg withdrawn)

payout : attest_withdrawal_payout half_up external context payout_msg withdrawn ≡ ok paid_out
unfolding attest_withdrawal_payout bridge_out attest_deposit genesis bytes_beq has get add_key
    derive_destination apply_bridge_fee put cut_prefix trim_space
payout = refl

acceptable : validate_withdrawal_processed_acceptance external payout_msg withdrawn ≡ ok tt
unfolding validate_withdrawal_processed_acceptance bridge_out attest_deposit genesis bytes_beq has
    get add_key derive_destination apply_bridge_fee put cut_prefix trim_space
acceptable = refl

abbrev deposit_statuses : Store Balances → List DepositStatus
deposit_statuses s = map (λ e. e.1.status) s.deposits.deposit

abbrev withdrawal_statuses : Store Balances → List WithdrawalStatus
withdrawal_statuses s = map (λ e. e.1.status) s.withdrawals.withdrawal

-- The history runs through: the deposit is minted, and the withdrawal is paid.
paid_out-statuses :
    (deposit_statuses paid_out ≡ minted ∷ []) × (withdrawal_statuses paid_out ≡ processed ∷ [])
unfolding attest_withdrawal_payout bridge_out attest_deposit genesis bytes_beq has get add_key
    derive_destination apply_bridge_fee put cut_prefix trim_space
paid_out-statuses = (refl, refl)

reached : Reach half_up external bank start withdrawn
reached =
    reach_step credited withdrawn
      (reach_step start credited reach_start
        (deposit_attested context deposit_msg credited attested))
      (bridged_out context bridge_out_msg withdrawn bridged)

reachable_solvent_example :
    sum_values (paid_or_owed steem) withdrawn.withdrawals.withdrawal
    ≤ sum_values (brought_in steem) withdrawn.deposits.deposit
reachable_solvent_example =
    reachable_solvent half_up external bank params [] withdrawn steem reached

reachable_totals_example :
    (minted_of steem withdrawn.totals
      ≡ sum_values (brought_in steem) withdrawn.deposits.deposit
        + sum_values (given_back steem) withdrawn.withdrawals.withdrawal)
    × (burned_of steem withdrawn.totals
        ≡ sum_values (taken_out steem) withdrawn.withdrawals.withdrawal)
reachable_totals_example = reachable_totals half_up external bank params [] withdrawn steem reached

attest_deposit_threshold_example :
    ((credited.bank ≡ start.bank) × (credited.totals ≡ start.totals))
    ⊎ ((i : ℕ) × (d : Deposit) × (k : DepositStore) × (open_deposit context deposit_msg
            start.deposits
          ≡ ok (i, d, k))
        × (d.status ≡ pending)
        × (leb start.params.bridge_confirmation_threshold (
              candidate_ratio half_up context
                (dedup_key_string deposit_msg.txid deposit_msg.op_index)
                (deposit_facts_hash external.sha256_hex deposit_msg.facts)
                credited.deposits.deposit_facts_vote)
            ≡ true))
attest_deposit_threshold_example =
    attest_deposit_threshold half_up external bank context deposit_msg start credited attested

attest_deposit-repeated_example :
    (validate_deposit_acceptance external deposit_msg credited ≡ err duplicate_confirmation)
    × (is_benign_attestation_error duplicate_confirmation ≡ true)
    × (attest_deposit half_up external bank context deposit_msg credited ≡ ok credited)
attest_deposit-repeated_example =
    attest_deposit-repeated half_up external bank context deposit_msg start credited attested

attest_withdrawal_payout-repeated_example :
    (why : Error) × (validate_withdrawal_processed_acceptance external payout_msg paid_out
      ≡ err why)
    × ((why ≡ withdrawal_already_processed) ⊎ (why ≡ duplicate_withdrawal_confirmation))
    × (is_benign_attestation_error why ≡ true)
    × (attest_withdrawal_payout half_up external context payout_msg paid_out ≡ ok paid_out)
attest_withdrawal_payout-repeated_example =
    attest_withdrawal_payout-repeated half_up external context payout_msg withdrawn paid_out
      acceptable payout

abbrev or_default : {A : Type 0} → A → Option A → A
or_default a none = a
or_default a (some b) = b

abbrev the_deposit : Deposit
the_deposit = or_default (new_deposit context 0 deposit_msg) (get 0 credited.deposits.deposit)

again : attest_deposit half_up external bank context deposit_msg credited ≡ ok credited
unfolding attest_deposit genesis bytes_beq has get add_key derive_destination apply_bridge_fee put
    cut_prefix trim_space
again = refl

the_deposit-found : get 0 credited.deposits.deposit ≡ some the_deposit
unfolding attest_deposit genesis bytes_beq has get add_key derive_destination apply_bridge_fee put
    cut_prefix trim_space
the_deposit-found = refl

the_deposit-known :
    get (deposit_msg.txid, deposit_msg.op_index) credited.deposits.deposit_by_txid ≡ some 0
unfolding attest_deposit genesis bytes_beq has get add_key derive_destination apply_bridge_fee put
    cut_prefix trim_space
the_deposit-known = refl

the_deposit-minted : the_deposit.status ≡ minted
unfolding attest_deposit genesis bytes_beq has get add_key derive_destination apply_bridge_fee put
    cut_prefix trim_space
the_deposit-minted = refl

the_deposit-resolved : the_deposit.status ≢ pending
the_deposit-resolved h = ground (arith, the_deposit-minted)

deposit_resolved_once_example :
    (credited.bank ≡ credited.bank)
    × (credited.totals ≡ credited.totals)
    × (d' : Deposit) × (get 0 credited.deposits.deposit ≡ some d')
    × (d'.status ≡ the_deposit.status)
    × (d'.amount_millisteem ≡ the_deposit.amount_millisteem)
    × (d'.derived_destination ≡ the_deposit.derived_destination)
deposit_resolved_once_example =
    deposit_resolved_once half_up external bank context deposit_msg credited credited 0 the_deposit
      again the_deposit-known the_deposit-found the_deposit-resolved

abbrev the_withdrawal : Withdrawal
the_withdrawal =
    or_default (new_withdrawal context 0 bridge_out_msg 0 0 0)
      (get 0 withdrawn.withdrawals.withdrawal)

the_withdrawal-found : get 0 withdrawn.withdrawals.withdrawal ≡ some the_withdrawal
unfolding bridge_out attest_deposit genesis bytes_beq has get add_key derive_destination
    apply_bridge_fee put cut_prefix trim_space
the_withdrawal-found = refl

attest_withdrawal_payout_settles_example :
    (paid_out.bank ≡ withdrawn.bank)
    × (paid_out.totals ≡ withdrawn.totals)
    × (w' : Withdrawal) × (get 0 paid_out.withdrawals.withdrawal ≡ some w')
    × (w'.amount_millisteem ≡ the_withdrawal.amount_millisteem)
    × (w'.asset ≡ the_withdrawal.asset)
    × (w'.destination_steem_account ≡ the_withdrawal.destination_steem_account)
    × ((w'.status ≡ the_withdrawal.status)
        ⊎ ((the_withdrawal.status ≡ requested)
            × (w'.status ≡ processed)
            × (payout_matches the_withdrawal payout_msg ≡ true)
            × (leb withdrawn.params.bridge_confirmation_threshold (
                  candidate_ratio half_up context payout_msg.withdrawal_id
                    (payout_candidate_key payout_msg.steem_txid payout_msg.op_index)
                    paid_out.withdrawals.withdrawal_payout_vote)
                ≡ true)))
attest_withdrawal_payout_settles_example =
    attest_withdrawal_payout_settles half_up external context payout_msg withdrawn paid_out
      the_withdrawal payout the_withdrawal-found

bridge_out_covered_example :
    (w : Withdrawal) × (get credited.withdrawals.withdrawal_seq withdrawn.withdrawals.withdrawal
      ≡ some w)
    × (w.status ≡ requested)
    × (w.asset ≡ bridge_out_msg.asset)
    × (bridge_out_msg.amount_asteem ≡ non_negative_int w.amount_asteem)
    × (0 < w.amount_asteem)
    × (millisteem_to_asteem w.amount_millisteem + millisteem_to_asteem w.fee_millisteem
        ≡ w.amount_asteem)
    × (burned_of bridge_out_msg.asset withdrawn.totals
        ≡ burned_of bridge_out_msg.asset credited.totals + millisteem_to_asteem w.amount_millisteem)
    × (burned_of bridge_out_msg.asset withdrawn.totals
        ≤ minted_of bridge_out_msg.asset withdrawn.totals)
bridge_out_covered_example =
    bridge_out_covered external bank context bridge_out_msg credited withdrawn bridged

abbrev carol : Bytes
carol = codes "carol"

abbrev credited_directly : Store Balances
credited_directly = elim (credit_bridged external bank carol steem 1000 100 start) [
  | ok (n, s) ↦ s
  | err e ↦ start
]

credit-credited :
    credit_bridged external bank carol steem 1000 100 start
    ≡ ok (990000000000000000, credited_directly)
unfolding credit_bridged genesis get put bytes_beq apply_bridge_fee
credit-credited = refl

distinct : (a b : Bytes) → bytes_beq a b ≡ false → a ≢ b
distinct a b h e = ground (arith, bytes_beq_iff a b)

credit_bridged_accounts_example :
    let d = denom_for_asset steem in
    let fee = millisteem_to_asteem (apply_bridge_fee 1000 100).1 in
    let balance = bank.balance in
    (balance credited_directly.bank external.black_hole d
      ≡ balance start.bank external.black_hole d)
    × (balance credited_directly.bank carol d ≡ balance start.bank carol d + 990000000000000000)
    × (balance credited_directly.bank external.bridge_reward d
        ≡ balance start.bank external.bridge_reward d + fee)
    × (990000000000000000 + fee ≡ millisteem_to_asteem 1000)
    × (credited_directly.totals ≡ add_minted steem (millisteem_to_asteem 1000) start.totals)
unfolding bytes_beq
credit_bridged_accounts_example =
    credit_bridged_accounts external bank bank-BankLaws carol steem 1000 100 990000000000000000
      start credited_directly (distinct external.black_hole carol refl)
      (distinct external.black_hole external.bridge_reward refl)
      (distinct carol external.bridge_reward refl) credit-credited

-- A deposit that stays pending, under a threshold that is out of reach.
abbrev waiting_start : Store Balances
waiting_start = genesis (record params { bridge_confirmation_threshold = 2 * one }) []

abbrev waiting : Store Balances
waiting =
    after waiting_start (attest_deposit half_up external bank context deposit_msg waiting_start)

abbrev waiting_deposit : Deposit
waiting_deposit = or_default (new_deposit context 0 deposit_msg) (get 0 waiting.deposits.deposit)

abbrev swept : DepositStore
swept = elim (expire_deposit external 0 waiting.deposits) [ ok k ↦ k | err e ↦ waiting.deposits ]

waiting_deposit-found : get 0 waiting.deposits.deposit ≡ some waiting_deposit
unfolding attest_deposit genesis bytes_beq has get add_key put
waiting_deposit-found = refl

alice-confirmed : has alice (attesters external waiting_deposit.validator_confirmations) ≡ true
unfolding attesters attest_deposit genesis bytes_beq has get add_key put
alice-confirmed = refl

waiting-swept : expire_deposit external 0 waiting.deposits ≡ ok swept
unfolding expire_deposit attest_deposit genesis bytes_beq has get add_key put
waiting-swept = refl

expire_deposit-frees_key_example :
    (get (waiting_deposit.txid, waiting_deposit.op_index) swept.deposit_by_txid ≡ none)
    × (has (waiting_deposit.txid, waiting_deposit.op_index, alice) swept.deposit_confirmed_by
        ≡ false)
    × (confirmed_power context
          (dedup_key_string waiting_deposit.txid waiting_deposit.op_index)
          (codes "x")
          swept.deposit_facts_vote
        ≡ 0)
    × (get 0 swept.deposit ≡ some record waiting_deposit { status = expired })
expire_deposit-frees_key_example =
    expire_deposit-frees_key external context 0 waiting_deposit waiting.deposits swept alice
      (codes "x") waiting_deposit-found alice-confirmed waiting-swept

-- The minted deposit is reported at the end of its block.
abbrev reported : Tallies
reported = elim (flush_bridge_duty external true some (alice ∷ []) credited []) [
  | ok (s, t) ↦ t
  | err e ↦ []
]
