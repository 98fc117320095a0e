-- ===== src/Bridge/Names/Registration.antt =====
-- x/oracle/bridge/keeper: msg_server_submit_name_registration.go and name_registration.go, with
-- `IsBenignAttestationError` of types/errors.go. A handler returns both new states, that of the
-- bridge (a registration is credited like a deposit) and that of the name service, or an error, on
-- which the transaction's writes are discarded. Events are left out.
use steem_virtual_machine_ev.Prelude.{
  ℕ, suc, leb, ltb, if◌then◌else◌, Bool, true, false, not, ◌&&◌, Bytes, bytes_beq, [], ◌∷◌, ◌++◌,
  Option, none, some, KeySet, bytes_eq, nat_eq, pair_eq, triple_eq, ◌=?◌, get, put, has, add_key,
  drop_key, Result, ok, err, ◌>>=◌, ◌>>◌, guard, or_err,
}
use steem_virtual_machine_ev.Decimal.{Decimal}
use steem_virtual_machine_ev.Bridge.Amounts.{steem}
use steem_virtual_machine_ev.Bridge.Facts.{NameFacts, name_facts_hash, dedup_key_string}
use steem_virtual_machine_ev.Bridge.Memo.{DestinationType, destination_none, derive_destination}
use steem_virtual_machine_ev.Bridge.State.{
  Error, invalid_gateway_account, steem_block_before_anchor, invalid_address, not_bonded_validator,
  not_found, duplicate_confirmation, deposit_already_minted, withdrawal_already_processed,
  withdrawal_already_refunded, duplicate_withdrawal_confirmation, name_service_disabled,
  registration_below_minimum, registration_already_resolved, gateway_account_name, Confirmation,
  check_steem_block, Store, Context, External, BankKeeper, is_bonded,
}
use steem_virtual_machine_ev.Bridge.Power.{candidate_ratio}
use steem_virtual_machine_ev.Bridge.Credit.{credit_bridged}
use steem_virtual_machine_ev.Bridge.Names.{
  pending, awaiting_confirmation, unclaimable, name_status_eq, NameRegistration, NameStore,
  set_registration_status,
}

pub record MsgSubmitNameRegistration : Type 0 where
  pub validator : Bytes
  pub txid : Bytes
  pub op_index : ℕ
  pub facts : NameFacts

-- A registration as the first attestation records it.
unfoldable pub new_registration : Context → ℕ → MsgSubmitNameRegistration → NameRegistration
new_registration ctx i msg = record {
  id = i;
  txid = msg.txid;
  op_index = msg.op_index;
  steem_block = msg.facts.steem_block;
  steem_timestamp = msg.facts.steem_timestamp;
  steem_account = msg.facts.steem_account;
  gateway_account = msg.facts.gateway_account;
  amount_millisteem = msg.facts.amount_millisteem;
  memo = msg.facts.memo;
  derived_destination = [];
  destination_type = destination_none;
  status = pending;
  created_at = ctx.block_height;
  awaiting_since = 0;
  confirmed_at = 0;
  confirm_tx_hash = [];
  validator_confirmations = [];
}

unfoldable pub lookup_registration_by_txid :
    Bytes → ℕ → NameStore → Result Error (Option NameRegistration)
lookup_registration_by_txid txid op_index k = elim (get (txid, op_index) k.registration_by_txid) [
  | none ↦ ok none
  | some i ↦ elim (get i k.registration) [ none ↦ err not_found | some r ↦ ok (some r) ]
]

-- The registration is not resolved yet, if there is one.
unfoldable pub is_open : Option NameRegistration → Bool
is_open none = true
is_open (some r) = r.status =? pending

unfoldable pub validate_registration_acceptance :
    {Bank : Type 0}
    → External
    → MsgSubmitNameRegistration
    → Store Bank
    → NameStore
    → Result Error (Unit {0})
unfolding lookup_registration_by_txid check_steem_block is_open
validate_registration_acceptance x msg s k = do
  guard s.params.name_service_enabled name_service_disabled
  guard (bytes_beq msg.facts.gateway_account gateway_account_name) invalid_gateway_account
  guard (not (ltb msg.facts.amount_millisteem s.params.name_registration_min_millisteem))
      registration_below_minimum
  guard (check_steem_block s.params msg.facts.steem_block) steem_block_before_anchor
  addr ← or_err (x.string_to_bytes msg.validator) invalid_address
  guard (not (has (msg.txid, msg.op_index, addr) k.registration_confirmed_by))
      duplicate_confirmation
  existing ← lookup_registration_by_txid msg.txid msg.op_index k
  guard (is_open existing) registration_already_resolved

-- Whether an acceptance error is a harmless repetition.
unfoldable pub is_benign_attestation_error : Error → Bool
is_benign_attestation_error deposit_already_minted = true
is_benign_attestation_error registration_already_resolved = true
is_benign_attestation_error duplicate_confirmation = true
is_benign_attestation_error withdrawal_already_processed = true
is_benign_attestation_error withdrawal_already_refunded = true
is_benign_attestation_error duplicate_withdrawal_confirmation = true
is_benign_attestation_error _ = false

-- The registration of the message's key: a new pending one, or the recorded one.
unfoldable pub open_registration :
    Context
    → MsgSubmitNameRegistration
    → NameStore
    → Result Error (ℕ × NameRegistration × NameStore)
unfolding new_registration
open_registration ctx msg k = elim (get (msg.txid, msg.op_index) k.registration_by_txid) [
  | none ↦
      let i = k.registration_seq in
      ok (
        i,
        new_registration ctx i msg,
        record k {
          registration_seq = suc i;
          registration_by_txid = put (msg.txid, msg.op_index) i k.registration_by_txid;
          registration_by_status = add_key (pending, i) k.registration_by_status;
          registration_by_account = add_key (msg.facts.steem_account, i) k.registration_by_account;
        },
      )
  | some i ↦ elim (get i k.registration) [ none ↦ err not_found | some r ↦ ok (i, r, k) ]
]

-- The winning facts become the record's, and the permanent index follows the account.
unfoldable pub adopt_name_facts : NameFacts → NameRegistration → NameRegistration
adopt_name_facts f r = record r {
  steem_block = f.steem_block;
  steem_timestamp = f.steem_timestamp;
  steem_account = f.steem_account;
  gateway_account = f.gateway_account;
  amount_millisteem = f.amount_millisteem;
  memo = f.memo;
}

unfoldable pub move_account : Bytes → Bytes → ℕ → KeySet (Bytes × ℕ) → KeySet (Bytes × ℕ)
move_account from_account to_account i index =
    if bytes_beq from_account to_account
    then index
    else add_key (to_account, i) (drop_key (from_account, i) index)

unfoldable pub mark_registration_unclaimable :
    NameRegistration → DestinationType → NameStore → NameRegistration × NameStore
unfolding set_registration_status
mark_registration_unclaimable r kind k =
    let moved =
      set_registration_status (record r { destination_type = kind }) unclaimable
        k.registration_by_status in
    (moved.0, record k { registration_by_status = moved.1 })

module _ {Bank : Type 0} (x : External) (bk : BankKeeper Bank) (ctx : Context) where
  -- The gross amount is credited, without a fee, and the destination is asked to confirm.
  unfoldable pub park_registration :
      Bytes
      → DestinationType
      → NameRegistration
      → Store Bank
      → NameStore
      → Result Error (NameRegistration × Store Bank × NameStore)
  unfolding credit_bridged set_registration_status
  park_registration dest kind r s k = do
    dest_str ← or_err (x.bytes_to_string dest) invalid_address
    credited ← credit_bridged x bk dest steem r.amount_millisteem 0 s
    let r1 = record r {
      derived_destination = dest_str;
      destination_type = kind;
      awaiting_since = ctx.block_height;
    }
    let moved = set_registration_status r1 awaiting_confirmation k.registration_by_status
    let k1 = record k {
      registration_by_status = moved.1;
      awaiting_by_dest = add_key (dest, r.id) k.awaiting_by_dest;
    }
    ok (moved.0, credited.1, k1)

  unfoldable pub resolve_registration :
      NameRegistration
      → Store Bank
      → NameStore
      → Result Error (NameRegistration × Store Bank × NameStore)
  unfolding mark_registration_unclaimable park_registration
  resolve_registration r s k = elim (derive_destination x.acc_from_bech32 x.hex_to_address r.memo) [
    | none ↦
        let marked = mark_registration_unclaimable r destination_none k in
        ok (marked.0, s, marked.1)
    | some (dest, kind) ↦
        let marked = mark_registration_unclaimable r kind k in
        if ltb r.amount_millisteem s.params.name_registration_min_millisteem
        then ok (marked.0, s, marked.1)
        else park_registration dest kind r s k
  ]

  -- The first time that one set of facts reaches the threshold.
  unfoldable pub resolve_name_at_threshold :
      NameFacts
      → ℕ
      → ℕ
      → NameRegistration
      → Store Bank
      → NameStore
      → Result Error (NameRegistration × Store Bank × NameStore)
  unfolding resolve_registration adopt_name_facts move_account
  resolve_name_at_threshold facts ratio i r s k =
      if (r.status =? pending) && leb s.params.bridge_confirmation_threshold ratio
      then resolve_registration (adopt_name_facts facts r) s (record k {
        registration_by_account =
            move_account r.steem_account facts.steem_account i k.registration_by_account;
      })
      else ok (r, s, k)

module _ {Bank : Type 0} (dec : Decimal) (x : External) (bk : BankKeeper Bank) (ctx : Context) where
  -- The attestation of the validator at an address, once it is accepted.
  unfoldable pub confirm_registration :
      Bytes
      → MsgSubmitNameRegistration
      → Store Bank
      → NameStore
      → Result Error (Store Bank × NameStore)
  unfolding open_registration resolve_name_at_threshold candidate_ratio name_facts_hash
      dedup_key_string
  confirm_registration addr msg s k0 = do
    opened ← open_registration ctx msg k0
    let i = opened.0
    let r = opened.1
    let k = opened.2
    let facts_hash = name_facts_hash x.sha256_hex msg.facts
    let dedup = dedup_key_string msg.txid msg.op_index
    let votes = add_key (dedup, facts_hash, addr) k.registration_facts_vote
    let confirmation : Confirmation = record {
      validator_address = x.val_to_bech32 addr;
      timestamp = ctx.block_time;
    }
    let r1 = record r { validator_confirmations = r.validator_confirmations ++ confirmation ∷ [] }
    let k1 = record k {
      registration_confirmed_by =
          add_key (msg.txid, msg.op_index, addr) k.registration_confirmed_by;
      registration_facts_vote = votes;
    }
    let ratio = candidate_ratio dec ctx dedup facts_hash votes
    resolved ← resolve_name_at_threshold x bk ctx msg.facts ratio i r1 s k1
    let k2 = resolved.2
    ok (resolved.1, record k2 { registration = put i resolved.0 k2.registration })

  -- The bond is looked at first; a harmless repetition succeeds and changes nothing.
  unfoldable pub submit_name_registration :
      MsgSubmitNameRegistration → Store Bank → NameStore → Result Error (Store Bank × NameStore)
  unfolding confirm_registration validate_registration_acceptance is_bonded
      is_benign_attestation_error
  submit_name_registration msg s k = do
    addr ← or_err (x.string_to_bytes msg.validator) invalid_address
    guard (is_bonded ctx addr) not_bonded_validator
    elim (validate_registration_acceptance x msg s k) [
      | err why ↦ if is_benign_attestation_error why then ok (s, k) else err why
      | ok done ↦ confirm_registration addr msg s k
    ]
