-- ===== src/Bridge/Withdrawal/Creation.antt =====
-- What a bridge-out that succeeds has checked and done.
use steem_virtual_machine_ev.Prelude.{
  ℕ, ◌+◌, ◌/◌, ◌%◌, ◌≡◌, ◌≤◌, ◌<◌, arith, refl, leb, leb→le, Bytes, some, bytes_eq, nat_eq, pair_eq,
  triple_eq, get, get-put_self, ok, Bool-cases, Option-cases, Result-cases, inl, inr,
}
use steem_virtual_machine_ev.Bridge.Amounts.{
  BridgeAsset, steem, sbd, millisteem_to_asteem, millisteem_to_asteem_factor, denom_for_asset,
  apply_bridge_fee, apply_bridge_fee_conserves,
}
use steem_virtual_machine_ev.Bridge.State.{
  requested, withdrawal_status_eq, Withdrawal, Params, Store, Context, External, BankKeeper,
  BridgeTotals,
}
use steem_virtual_machine_ev.Bridge.Credit.{send_positive}
use steem_virtual_machine_ev.Bridge.Fields.{
  validate_withdrawal_destination, validate_withdrawal_memo,
}
use steem_virtual_machine_ev.Bridge.Withdrawal.{
  MathInt, nil_int, negative_int, non_negative_int, MsgBridgeOut, positive_amount, check_bridge_out,
  bridge_out, record_withdrawal, new_withdrawal, minted_of, burned_of, add_burned,
}

positive_amount-asked :
    (a : MathInt) (n : ℕ) → positive_amount a ≡ some n → (a ≡ non_negative_int n) × (0 < n)
unfolding positive_amount
positive_amount-asked nil_int n h = ground arith
positive_amount-asked negative_int n h = ground arith
positive_amount-asked (non_negative_int m) n h = (ground arith, ground arith)

check_bridge_out-Whole :
    (x : External) (msg : MsgBridgeOut) (p : Params) (sender : Bytes) (amount : ℕ)
    → check_bridge_out x msg p ≡ ok (sender, amount)
    → (amount % millisteem_to_asteem_factor ≡ 0)
      × (msg.amount_asteem ≡ non_negative_int amount)
      × (0 < amount)
unfolding check_bridge_out
check_bridge_out-Whole x msg p sender amount e =
    elim (Option-cases (x.string_to_bytes msg.sender)) [
      | inl none_sender ↦ ground arith
      | inr (a, sent) ↦ elim (Bool-cases p.bridge_out_enabled) [
        | inr off ↦ ground arith
        | inl on ↦
            elim (Result-cases (validate_withdrawal_destination msg.destination_steem_account)) [
              | inl (why, bad) ↦ ground arith
              | inr (u, good) ↦ elim (Result-cases (validate_withdrawal_memo msg.memo)) [
                | inl (why, bad) ↦ ground arith
                | inr (v, fine) ↦ elim (Option-cases (positive_amount msg.amount_asteem)) [
                  | inl none_amount ↦ ground arith
                  | inr (n, positive) ↦
                      let asked = positive_amount-asked msg.amount_asteem n positive in
                      ground (arith, asked)
                ]
              ]
            ]
      ]
    ]

-- What a bridge-out that succeeded has checked and done.
pub record Done {Bank : Type 0} (x : External) (bk : BankKeeper Bank) (ctx : Context)
    (msg : MsgBridgeOut) (s s' : Store Bank) : Type 0 where
  pub sender : Bytes
  pub amount : ℕ
  pub paid : Bank
  pub asked : (msg.amount_asteem ≡ non_negative_int amount) × (0 < amount)
  pub whole : amount % millisteem_to_asteem_factor ≡ 0
  pub covered :
      burned_of msg.asset s.totals
        + millisteem_to_asteem
            (apply_bridge_fee (amount / millisteem_to_asteem_factor) s.params.bridge_fee_bps).0
      ≤ minted_of msg.asset s.totals
  pub pay :
      send_positive bk sender x.black_hole
        (denom_for_asset msg.asset)
        (millisteem_to_asteem
          (apply_bridge_fee (amount / millisteem_to_asteem_factor) s.params.bridge_fee_bps).0)
        s.bank
      ≡ ok paid
  pub route :
      send_positive bk sender x.bridge_reward
        (denom_for_asset msg.asset)
        (millisteem_to_asteem
          (apply_bridge_fee (amount / millisteem_to_asteem_factor) s.params.bridge_fee_bps).1)
        paid
      ≡ ok s'.bank
  pub totals :
      s'.totals
      ≡ add_burned msg.asset
          (millisteem_to_asteem
            (apply_bridge_fee (amount / millisteem_to_asteem_factor) s.params.bridge_fee_bps).0)
          s.totals
  pub withdrawals :
      s'.withdrawals
      ≡ record_withdrawal ctx msg amount
          (apply_bridge_fee (amount / millisteem_to_asteem_factor) s.params.bridge_fee_bps).0
          (apply_bridge_fee (amount / millisteem_to_asteem_factor) s.params.bridge_fee_bps).1
          s.withdrawals
  pub deposits : s'.deposits ≡ s.deposits

pub bridge_out-Done :
    {Bank : Type 0} (x : External) (bk : BankKeeper Bank) (ctx : Context) (msg : MsgBridgeOut)
    (s s' : Store Bank)
    → bridge_out x bk ctx msg s ≡ ok s'
    → Done x bk ctx msg s s'
unfolding bridge_out
bridge_out-Done x bk ctx msg s s' e = elim (Result-cases (check_bridge_out x msg s.params)) [
  | inl (why, bad) ↦ ground arith
  | inr ((sender, amount), checked) ↦
      let split = apply_bridge_fee (amount / millisteem_to_asteem_factor) s.params.bridge_fee_bps in
      let net = millisteem_to_asteem split.0 in
      let fee = millisteem_to_asteem split.1 in
      let denom = denom_for_asset msg.asset in
      elim (Bool-cases (leb (burned_of msg.asset s.totals + net) (minted_of msg.asset s.totals))) [
        | inr over ↦ ground arith
        | inl within ↦ elim (Result-cases (send_positive bk sender x.black_hole denom net s.bank)) [
          | inl (why, bad) ↦ ground arith
          | inr (b1, e1) ↦
              elim (Result-cases (send_positive bk sender x.bridge_reward denom fee b1)) [
                | inl (why, bad) ↦ ground arith
                | inr (b2, e2) ↦ record {
                  sender = sender;
                  amount = amount;
                  paid = b1;
                  asked = (
                    (check_bridge_out-Whole x msg s.params sender amount checked).1,
                    (check_bridge_out-Whole x msg s.params sender amount checked).2,
                  );
                  whole = (check_bridge_out-Whole x msg s.params sender amount checked).0;
                  covered = leb→le _ _ within;
                  pay = e1;
                  route = ground arith;
                  totals = ground arith;
                  withdrawals = ground arith;
                  deposits = ground arith;
                }
              ]
        ]
      ]
]

pub minted_of-add_burned :
    (a b : BridgeAsset) (n : ℕ) (t : BridgeTotals) → minted_of a (add_burned b n t) ≡ minted_of a t
unfolding minted_of add_burned
minted_of-add_burned sbd sbd n t = refl
minted_of-add_burned sbd steem n t = refl
minted_of-add_burned steem sbd n t = refl
minted_of-add_burned steem steem n t = refl

burned_of-add_burned_self :
    (a : BridgeAsset) (n : ℕ) (t : BridgeTotals)
    → burned_of a (add_burned a n t) ≡ burned_of a t + n
unfolding burned_of add_burned
burned_of-add_burned_self sbd n t = refl
burned_of-add_burned_self steem n t = refl

-- A bridge-out that succeeds asked for a positive amount, and records a requested withdrawal under
-- the next number, for the asset of the message, of exactly that amount, which its net amount and
-- fee add up to; it never lets the total burned of the asset exceed the total minted.
pub bridge_out_covered :
    {Bank : Type 0} (x : External) (bk : BankKeeper Bank) (ctx : Context) (msg : MsgBridgeOut)
    (s s' : Store Bank)
    → bridge_out x bk ctx msg s ≡ ok s'
    → (w : Withdrawal) × (get s.withdrawals.withdrawal_seq s'.withdrawals.withdrawal ≡ some w)
      × (w.status ≡ requested)
      × (w.asset ≡ msg.asset)
      × (msg.amount_asteem ≡ non_negative_int w.amount_asteem)
      × (0 < w.amount_asteem)
      × (millisteem_to_asteem w.amount_millisteem + millisteem_to_asteem w.fee_millisteem
          ≡ w.amount_asteem)
      × (burned_of msg.asset s'.totals
          ≡ burned_of msg.asset s.totals + millisteem_to_asteem w.amount_millisteem)
      × (burned_of msg.asset s'.totals ≤ minted_of msg.asset s'.totals)
unfolding record_withdrawal new_withdrawal millisteem_to_asteem
bridge_out_covered x bk ctx msg s s' e =
    let done = bridge_out-Done x bk ctx msg s s' e in
    let gross = done.amount / millisteem_to_asteem_factor in
    let split = apply_bridge_fee gross s.params.bridge_fee_bps in
    let i = s.withdrawals.withdrawal_seq in
    let w = new_withdrawal ctx i msg done.amount split.0 split.1 in
    let kept = apply_bridge_fee_conserves gross s.params.bridge_fee_bps in
    let grown = burned_of-add_burned_self msg.asset (millisteem_to_asteem split.0) s.totals in
    let same = minted_of-add_burned msg.asset msg.asset (millisteem_to_asteem split.0) s.totals in
    (
      w,
      ground (arith, done.withdrawals, get-put_self i w s.withdrawals.withdrawal),
      refl,
      refl,
      done.asked.0,
      done.asked.1,
      omega (arith, kept, done.whole),
      ground (arith, done.totals, grown),
      ground (arith, done.totals, done.covered, grown, same),
    )
