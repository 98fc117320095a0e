-- ===== src/Bridge/Names.antt =====
-- The name service of x/oracle/bridge: types/name_registration.pb.go and the collections of
-- keeper/keeper.go that its handlers write. A Steem account is linked to the address that the memo
-- of its registration transfer names, once the validators attested the transfer and the owner of
-- the address confirmed.
pub mod Registration
pub mod Linking
pub mod Expiry
pub mod Links
pub mod Attestation
pub mod System
pub mod Freed
pub mod Tests
pub mod Fixtures
use steem_virtual_machine_ev.Prelude.{
  ℕ, ◌≡◌, ◌↔◌, Bool, true, false, Bytes, List, [], Map, KeySet, Eq, arith, nat_eq, pair_eq, add_key,
  drop_key,
}
use steem_virtual_machine_ev.Bridge.Memo.{DestinationType}
use steem_virtual_machine_ev.Bridge.State.{Confirmation}

pub data NameStatus : Type 0 where
  pending awaiting_confirmation active unclaimable expired superseded : NameStatus

abbrev pub name_status_beq : NameStatus → NameStatus → Bool
name_status_beq pending pending = true
name_status_beq awaiting_confirmation awaiting_confirmation = true
name_status_beq active active = true
name_status_beq unclaimable unclaimable = true
name_status_beq expired expired = true
name_status_beq superseded superseded = true
name_status_beq _ _ = false

pub name_status_beq_iff : (a b : NameStatus) → (name_status_beq a b ≡ true) ↔ (a ≡ b)
name_status_beq_iff pending b = ground arith
name_status_beq_iff awaiting_confirmation b = ground arith
name_status_beq_iff active b = ground arith
name_status_beq_iff unclaimable b = ground arith
name_status_beq_iff expired b = ground arith
name_status_beq_iff superseded b = ground arith

instance abbrev pub name_status_eq : Eq NameStatus
name_status_eq = record { beq = name_status_beq; beq_iff = name_status_beq_iff }

pub record NameRegistration : Type 0 where
  pub id : ℕ
  pub txid : Bytes
  pub op_index : ℕ
  pub steem_block : ℕ
  pub steem_timestamp : Bytes
  pub steem_account : Bytes
  pub gateway_account : Bytes
  pub amount_millisteem : ℕ
  pub memo : Bytes
  pub derived_destination : Bytes
  pub destination_type : DestinationType
  pub status : NameStatus
  pub created_at : ℕ
  pub awaiting_since : ℕ
  pub confirmed_at : ℕ
  pub confirm_tx_hash : Bytes
  pub validator_confirmations : List Confirmation

-- The live link of a Steem account.
pub record NameRecord : Type 0 where
  pub steem_account : Bytes
  pub address : Bytes
  pub registration_id : ℕ
  pub linked_at : ℕ

-- The sequence, the records and their indices: by (txid, opIndex), who confirmed, the votes by
-- (dedup key, facts hash, validator), by status, by account for ever, by the destination that is
-- waited for; and the live links with their reverse index.
pub record NameStore : Type 0 where
  pub registration_seq : ℕ
  pub registration : Map ℕ NameRegistration
  pub registration_by_txid : Map (Bytes × ℕ) ℕ
  pub registration_confirmed_by : KeySet (Bytes × ℕ × Bytes)
  pub registration_facts_vote : KeySet (Bytes × Bytes × Bytes)
  pub registration_by_status : KeySet (NameStatus × ℕ)
  pub registration_by_account : KeySet (Bytes × ℕ)
  pub awaiting_by_dest : KeySet (Bytes × ℕ)
  pub active_name : Map Bytes NameRecord
  pub active_name_by_address : KeySet (Bytes × Bytes)

-- The registration with its new status, and the status index. The first is mutated in place in the
-- source.
unfoldable pub set_registration_status :
    NameRegistration
    → NameStatus
    → KeySet (NameStatus × ℕ)
    → NameRegistration × KeySet (NameStatus × ℕ)
set_registration_status r status index =
    (record r { status = status }, add_key (status, r.id) (drop_key (r.status, r.id) index))
