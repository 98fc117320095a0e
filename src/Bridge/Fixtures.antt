-- ===== src/Bridge/Fixtures.antt =====
-- A concrete bank, external functions, validators and a short history of the bridge, for the tests.
use steem_virtual_machine_ev.Prelude.{
  ℕ, ◌+◌, ◌-◌, ◌≡◌, ◌≤◌, refl, arith, ltb, ltb→le, if◌then◌else◌, true, false, Bytes, bytes_beq,
  bytes_beq_iff, List, [], ◌∷◌, Option, none, some, Map, bytes_eq, pair_eq, get, put, get-put,
  codes, Result, ok, err, sum_by, has,
}
use steem_virtual_machine_ev.Bridge.Amounts.{steem}
use steem_virtual_machine_ev.Bridge.Facts.{DepositFacts}
use steem_virtual_machine_ev.Bridge.State.{
  Error, Params, Store, Context, External, BankKeeper, BankLaws, gateway_account_name,
}
use steem_virtual_machine_ev.Bridge.Power.{power_of}
use steem_virtual_machine_ev.Bridge.Power.Unique.{Distinct, TotalCovers}
use steem_virtual_machine_ev.Bridge.Deposit.{MsgAttestDeposit}
use steem_virtual_machine_ev.Bridge.Withdrawal.{
  MsgBridgeOut, MsgAttestWithdrawalPayout, non_negative_int,
}

-- Balances by account and denomination; a transfer that is not covered is refused.
abbrev pub Balances : Type 0
Balances = Map (Bytes × Bytes) ℕ

abbrev pub balance_of : Balances → Bytes → Bytes → ℕ
balance_of s acct denom = elim (get (acct, denom) s) [ none ↦ 0 | some n ↦ n ]

abbrev pub credit : Bytes → Bytes → ℕ → Balances → Balances
credit acct denom amount s = put (acct, denom) (balance_of s acct denom + amount) s

abbrev pub transfer : Bytes → Bytes → Bytes → ℕ → Balances → Option Balances
transfer source dest denom amount s =
    if ltb (balance_of s source denom) amount
    then none
    else some
        (credit dest denom amount (put (source, denom) (balance_of s source denom - amount) s))

abbrev pub bank : BankKeeper Balances
bank = record {
  mint_coins = λ acct denom amount s. some (credit acct denom amount s);
  send_coins = transfer;
  burn_coins = λ acct denom amount s. some (put (acct, denom) (balance_of s acct denom - amount) s);
  balance = balance_of;
}

balance_of-put :
    (a b denom : Bytes) (n : ℕ) (s : Balances)
    → balance_of (put (a, denom) n s) b denom ≡ (if bytes_beq b a then n else balance_of s b denom)
balance_of-put a b denom n s =
    ground (arith, get-put (b, denom) (a, denom) n s, bytes_beq_iff denom denom)

transfer-eq :
    (source dest denom : Bytes) (amount : ℕ) (s s' : Balances)
    → transfer source dest denom amount s ≡ some s'
    → (amount ≤ balance_of s source denom)
      × (s' ≡ credit dest denom amount (put (source, denom) (balance_of s source denom - amount) s))
transfer-eq source dest denom amount s s' e =
    (ground (arith, ltb→le amount (balance_of s source denom)), ground arith)

-- Every balance of the denomination after a transfer.
balance_of-transfer :
    (source dest denom : Bytes) (amount : ℕ) (s s' : Balances) (other : Bytes)
    → transfer source dest denom amount s ≡ some s'
    → balance_of s' other denom ≡ (
        if bytes_beq other dest
        then (if bytes_beq dest source
            then balance_of s source denom - amount
            else balance_of s dest denom)
          + amount
        else if bytes_beq other source
        then balance_of s source denom - amount
        else balance_of s other denom)
balance_of-transfer source dest denom amount s s' other e =
    let left = put (source, denom) (balance_of s source denom - amount) s in
    rw
      (
        (transfer-eq source dest denom amount s s' e).1,
        balance_of-put dest other denom (balance_of left dest denom + amount) left,
        balance_of-put source dest denom (balance_of s source denom - amount) s,
        balance_of-put source other denom (balance_of s source denom - amount) s,
      )
      refl

balance_of-mint :
    (acct denom : Bytes) (amount : ℕ) (s s' : Balances) (other : Bytes)
    → bank.mint_coins acct denom amount s ≡ some s'
    → balance_of s' other denom ≡ (
        if bytes_beq other acct then balance_of s acct denom + amount else balance_of s other denom)
balance_of-mint acct denom amount s s' other e =
    let same : credit acct denom amount s ≡ s' = ground arith in
    rw (← same, balance_of-put acct other denom (balance_of s acct denom + amount) s) refl

pub bank-BankLaws : BankLaws bank
bank-BankLaws = record {
  mint_balance = λ acct denom amount s s' e.
      ground (arith, balance_of-mint acct denom amount s s' acct e, bytes_beq_iff acct acct);
  mint_other = λ acct denom amount s s' other e ne.
      ground (arith, balance_of-mint acct denom amount s s' other e, bytes_beq_iff other acct);
  send_from = λ source dest denom amount s s' e ne. ground (
    arith,
    balance_of-transfer source dest denom amount s s' source e,
    bytes_beq_iff source dest,
    bytes_beq_iff source source,
    transfer-eq source dest denom amount s s' e,
  );
  send_to = λ source dest denom amount s s' e ne. ground (
    arith,
    balance_of-transfer source dest denom amount s s' dest e,
    bytes_beq_iff dest source,
    bytes_beq_iff dest dest,
  );
  send_other = λ source dest denom amount s s' other e ns nd. ground (
    arith,
    balance_of-transfer source dest denom amount s s' other e,
    bytes_beq_iff other dest,
    bytes_beq_iff other source,
  );
}

abbrev pub alice : Bytes
alice = codes "alice"

abbrev pub external : External
external = record {
  string_to_bytes = some;
  bytes_to_string = some;
  val_to_bech32 = λ b. b;
  val_from_bech32 = some;
  acc_from_bech32 = some;
  hex_to_address = λ b. b;
  sha256_hex = λ b. b;
  black_hole = codes "black_hole";
  bridge_reward = codes "bridge_reward";
  fee_collector = codes "fee_collector";
}

-- One bonded validator, alice.
abbrev pub context : Context
context = record {
  get_validator =
      λ v. if bytes_beq v alice then some record { tokens = 10; is_bonded = true } else none;
  total_validator_power = 10;
  block_height = 5;
  block_time = 100;
  tx_hash = codes "hash";
}

covers :
    (vs : List Bytes)
    → Distinct vs
    → (sum_by (power_of context) vs ≤ 10)
      × (has alice vs ≡ false → sum_by (power_of context) vs ≡ 0)
unfolding power_of has
covers [] u = (omega arith, λ h. refl)
covers (v ∷ vs) u = ground (arith, covers vs u.1, bytes_beq_iff v alice, bytes_beq_iff alice v)

pub context-TotalCovers : TotalCovers context
context-TotalCovers vs u = (covers vs u).0

abbrev pub params : Params
params = record {
  bridge_enabled = true;
  bridge_out_enabled = true;
  bridge_confirmation_threshold = 666666666666666667;
  minimum_bridge_amount = 1;
  maximum_bridge_amount = 0;
  deposit_timeout_blocks = 10;
  name_service_enabled = true;
  name_registration_min_millisteem = 1;
  name_pending_timeout_blocks = 10;
  relayer_start_block = 0;
  bridge_fee_bps = 100;
  withdrawal_timeout_blocks = 10;
}

abbrev pub facts : DepositFacts
facts = record {
  steem_block = 77;
  steem_timestamp = codes "t";
  steem_sender = codes "bob";
  gateway_account = gateway_account_name;
  amount_millisteem = 1000;
  memo = codes "carol";
  asset = steem;
}

abbrev pub deposit_msg : MsgAttestDeposit
deposit_msg = record { validator = alice; txid = codes "ab"; op_index = 0; facts = facts }

abbrev pub bridge_out_msg : MsgBridgeOut
bridge_out_msg = record {
  sender = codes "carol";
  destination_steem_account = codes "bob";
  amount_asteem = non_negative_int 500000000000000000;
  memo = [];
  asset = steem;
}

abbrev pub payout_msg : MsgAttestWithdrawalPayout
payout_msg = record {
  validator = alice;
  withdrawal_id = 0;
  steem_txid = codes "cd";
  op_index = 1;
  steem_block = 90;
  amount_millisteem = 495;
  asset = steem;
  destination_steem_account = codes "bob";
  memo = [];
}

-- The store of a success, or the one before a failure.
abbrev pub after : Store Balances → Result Error (Store Balances) → Store Balances
after s (ok s') = s'
after s (err e) = s
