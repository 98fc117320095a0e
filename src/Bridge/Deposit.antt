-- ===== src/Bridge/Deposit.antt =====
-- x/oracle/bridge/keeper: msg_server_submit_steem_deposit.go (`AttestDeposit`), deposit.go and the
-- sweep of abci.go (`ExpireDeposits`). A handler returns the new state or an error, on which the
-- transaction's writes are discarded. Events are left out.
pub mod Resolution
pub mod Attestation
use steem_virtual_machine_ev.Prelude.{
  ℕ, suc, ◌+◌, ◌%◌, ◌≡◌, leb, ltb, ◌==◌, if◌then◌else◌, Bool, true, false, not, ◌&&◌, ◌||◌, Bytes,
  bytes_beq, List, [], ◌∷◌, ◌++◌, Option, none, some, Map, KeySet, Eq, bytes_eq, nat_eq, pair_eq,
  triple_eq, ◌=?◌, get, put, remove, has, add_key, drop_key, take, Result, ok, err, ◌>>=◌, ◌>>◌,
  guard, or_err,
}
use steem_virtual_machine_ev.Decimal.{Decimal}
use steem_virtual_machine_ev.Bridge.Amounts.{BridgeAsset, steem, sbd, u64}
use steem_virtual_machine_ev.Bridge.Facts.{DepositFacts, deposit_facts_hash, dedup_key_string}
use steem_virtual_machine_ev.Bridge.Memo.{DestinationType, destination_none, derive_destination}
use steem_virtual_machine_ev.Bridge.State.{
  Error, bridge_disabled, invalid_gateway_account, steem_block_before_anchor, invalid_address,
  not_bonded_validator, not_found, duplicate_confirmation, deposit_already_minted,
  gateway_account_name, DepositStatus, pending, minted, unclaimable, expired, deposit_status_eq,
  Confirmation, Deposit, Params, check_steem_block, BridgeDutyKind, duty_deposit, duty_kind_eq,
  DepositStore, Store, Context, External, BankKeeper, is_bonded,
}
use steem_virtual_machine_ev.Bridge.Power.{candidate_ratio, clear_votes}
use steem_virtual_machine_ev.Bridge.Credit.{credit_bridged}

pub record MsgAttestDeposit : Type 0 where
  pub validator : Bytes
  pub txid : Bytes
  pub op_index : ℕ
  pub facts : DepositFacts

-- A deposit as the first attestation records it.
unfoldable pub new_deposit : Context → ℕ → MsgAttestDeposit → Deposit
new_deposit ctx i msg = record {
  id = i;
  txid = msg.txid;
  op_index = msg.op_index;
  steem_block = msg.facts.steem_block;
  steem_timestamp = msg.facts.steem_timestamp;
  steem_sender = msg.facts.steem_sender;
  gateway_account = msg.facts.gateway_account;
  amount_millisteem = msg.facts.amount_millisteem;
  memo = msg.facts.memo;
  derived_destination = [];
  destination_type = destination_none;
  status = pending;
  minted_flag = false;
  minted_at = 0;
  mint_tx_hash = [];
  created_at = ctx.block_height;
  validator_confirmations = [];
  asset = msg.facts.asset;
}

-- The deposit of the message's key: a new pending one, or the recorded one.
unfoldable pub open_deposit :
    Context → MsgAttestDeposit → DepositStore → Result Error (ℕ × Deposit × DepositStore)
unfolding new_deposit
open_deposit ctx msg k = elim (get (msg.txid, msg.op_index) k.deposit_by_txid) [
  | none ↦ ok (
    k.deposit_seq,
    new_deposit ctx k.deposit_seq msg,
    record k {
      deposit_seq = suc k.deposit_seq;
      deposit_by_txid = put (msg.txid, msg.op_index) k.deposit_seq k.deposit_by_txid;
      deposit_by_status = add_key (pending, k.deposit_seq) k.deposit_by_status;
    },
  )
  | some i ↦ elim (get i k.deposit) [ none ↦ err not_found | some d ↦ ok (i, d, k) ]
]

-- The deposit with its new status, and the status index.
unfoldable pub set_deposit_status :
    Deposit → DepositStatus → KeySet (DepositStatus × ℕ) → Deposit × KeySet (DepositStatus × ℕ)
set_deposit_status d status index =
    (record d { status = status }, add_key (status, d.id) (drop_key (d.status, d.id) index))

-- The winning facts become the record's.
unfoldable pub adopt_facts : DepositFacts → Deposit → Deposit
adopt_facts f d = record d {
  steem_block = f.steem_block;
  steem_timestamp = f.steem_timestamp;
  steem_sender = f.steem_sender;
  gateway_account = f.gateway_account;
  amount_millisteem = f.amount_millisteem;
  memo = f.memo;
  asset = f.asset;
}

-- A bound of 0 is no bound.
unfoldable pub within_range : Params → ℕ → Bool
within_range p amount =
    not (not (p.minimum_bridge_amount == 0) && ltb amount p.minimum_bridge_amount)
    && not (not (p.maximum_bridge_amount == 0) && ltb p.maximum_bridge_amount amount)

unfoldable pub enqueue_bridge_duty :
    BridgeDutyKind → ℕ → KeySet (BridgeDutyKind × ℕ) → KeySet (BridgeDutyKind × ℕ)
enqueue_bridge_duty kind i queue = add_key (kind, i) queue

unfoldable pub mark_unclaimable :
    {Bank : Type 0} → Deposit → DestinationType → Store Bank → Deposit × Store Bank
unfolding set_deposit_status
mark_unclaimable d kind s =
    let moved =
      set_deposit_status (record d { destination_type = kind }) unclaimable
        s.deposits.deposit_by_status in
    (moved.0, record s { deposits = record s.deposits { deposit_by_status = moved.1 } })

module _ {Bank : Type 0} (x : External) (bk : BankKeeper Bank) (ctx : Context) where
  unfoldable pub mint_deposit :
      Bytes → DestinationType → Deposit → Store Bank → Result Error (Deposit × Store Bank)
  unfolding set_deposit_status credit_bridged
  mint_deposit dest kind d s = do
    credited ← credit_bridged x bk dest d.asset d.amount_millisteem s.params.bridge_fee_bps s
    dest_str ← or_err (x.bytes_to_string dest) invalid_address
    let s1 = credited.1
    let d1 = record d {
      derived_destination = dest_str;
      destination_type = kind;
      minted_flag = true;
      minted_at = ctx.block_height;
      mint_tx_hash = ctx.tx_hash;
    }
    let moved = set_deposit_status d1 minted s1.deposits.deposit_by_status
    ok (moved.0, record s1 { deposits = record s1.deposits { deposit_by_status = moved.1 } })

  -- The deposit mutated in place is the first component of the result.
  unfoldable pub resolve_deposit : Deposit → Store Bank → Result Error (Deposit × Store Bank)
  unfolding within_range mark_unclaimable mint_deposit
  resolve_deposit d s = elim (derive_destination x.acc_from_bech32 x.hex_to_address d.memo) [
    | none ↦ ok (mark_unclaimable d destination_none s)
    | some (dest, kind) ↦
        if not (within_range s.params d.amount_millisteem)
        then ok (mark_unclaimable d kind s)
        else mint_deposit dest kind d s
  ]

  -- The first time that one set of facts reaches the threshold.
  unfoldable pub resolve_at_threshold :
      DepositFacts → ℕ → Deposit → Store Bank → Result Error (Deposit × Store Bank)
  unfolding resolve_deposit adopt_facts enqueue_bridge_duty
  resolve_at_threshold facts ratio d s =
      if (d.status =? pending) && leb s.params.bridge_confirmation_threshold ratio
      then (resolve_deposit (adopt_facts facts d) s >>= λ (d1, s1). ok (
        d1,
        record s1 {
          bridge_duty_queue = enqueue_bridge_duty duty_deposit d1.id s1.bridge_duty_queue;
        },
      ))
      else ok (d, s)

module _ {Bank : Type 0} (dec : Decimal) (x : External) (bk : BankKeeper Bank) (ctx : Context) where
  -- The attestation of the validator at an address, which has not confirmed this key yet.
  unfoldable pub confirm_deposit : Bytes → MsgAttestDeposit → Store Bank → Result Error (Store Bank)
  unfolding open_deposit resolve_at_threshold candidate_ratio deposit_facts_hash dedup_key_string
  confirm_deposit addr msg s = do
    opened ← open_deposit ctx msg s.deposits
    let i = opened.0
    let d = opened.1
    let k = opened.2
    let facts_hash = deposit_facts_hash x.sha256_hex msg.facts
    let dedup = dedup_key_string msg.txid msg.op_index
    let votes = add_key (dedup, facts_hash, addr) k.deposit_facts_vote
    let confirmation : Confirmation = record {
      validator_address = x.val_to_bech32 addr;
      timestamp = ctx.block_time;
    }
    let d1 = record d { validator_confirmations = d.validator_confirmations ++ confirmation ∷ [] }
    let s1 = record s {
      deposits = record k {
        deposit_confirmed_by = add_key (msg.txid, msg.op_index, addr) k.deposit_confirmed_by;
        deposit_facts_vote = votes;
      };
    }
    let ratio = candidate_ratio dec ctx dedup facts_hash votes
    resolved ← resolve_at_threshold x bk ctx msg.facts ratio d1 s1
    let s2 = resolved.1
    ok (record s2 {
      deposits = record s2.deposits { deposit = put i resolved.0 s2.deposits.deposit };
    })

  unfoldable pub attest_deposit : MsgAttestDeposit → Store Bank → Result Error (Store Bank)
  unfolding confirm_deposit check_steem_block is_bonded
  attest_deposit msg s = do
    guard s.params.bridge_enabled bridge_disabled
    guard (bytes_beq msg.facts.gateway_account gateway_account_name) invalid_gateway_account
    guard (check_steem_block s.params msg.facts.steem_block) steem_block_before_anchor
    addr ← or_err (x.string_to_bytes msg.validator) invalid_address
    guard (is_bonded ctx addr) not_bonded_validator
    let already_confirmed = has (msg.txid, msg.op_index, addr) s.deposits.deposit_confirmed_by
    elim already_confirmed [ true ↦ ok s | false ↦ confirm_deposit addr msg s ]

-- The look-up of `ValidateDepositAcceptance`.
unfoldable pub lookup_deposit_by_txid : Bytes → ℕ → DepositStore → Result Error (Option Deposit)
lookup_deposit_by_txid txid op_index k = elim (get (txid, op_index) k.deposit_by_txid) [
  | none ↦ ok none
  | some i ↦ elim (get i k.deposit) [ none ↦ err not_found | some d ↦ ok (some d) ]
]

unfoldable pub is_resolved : DepositStatus → Bool
is_resolved minted = true
is_resolved unclaimable = true
is_resolved _ = false

-- The acceptance check of the ante handler. It does not look at the validator's bond.
unfoldable pub validate_deposit_acceptance :
    {Bank : Type 0} → External → MsgAttestDeposit → Store Bank → Result Error (Unit {0})
unfolding check_steem_block lookup_deposit_by_txid is_resolved
validate_deposit_acceptance x msg s = do
  guard s.params.bridge_enabled bridge_disabled
  guard (bytes_beq msg.facts.gateway_account gateway_account_name) invalid_gateway_account
  guard (check_steem_block s.params msg.facts.steem_block) steem_block_before_anchor
  addr ← or_err (x.string_to_bytes msg.validator) invalid_address
  guard (not (has (msg.txid, msg.op_index, addr) s.deposits.deposit_confirmed_by))
      duplicate_confirmation
  existing ← lookup_deposit_by_txid msg.txid msg.op_index s.deposits
  elim existing [
    | none ↦ ok tt
    | some d ↦ guard (not (is_resolved d.status)) deposit_already_minted
  ]
