-- ===== src/Bridge/Names/Linking.antt =====
-- x/oracle/bridge/keeper: msg_server_confirm_name.go and `ValidateNameConfirmationAcceptance` of
-- name_registration.go.
use steem_virtual_machine_ev.Prelude.{
  ℕ, if◌then◌else◌, Bytes, bytes_beq, Option, none, some, bytes_eq, nat_eq, pair_eq, ◌=?◌, get, put,
  add_key, drop_key, Result, ok, ◌>>=◌, ◌>>◌, guard, or_err,
}
use steem_virtual_machine_ev.Bridge.State.{
  Error, name_service_disabled, registration_not_found, registration_not_awaiting, invalid_address,
  confirmer_not_destination, not_found, Params, Context, External,
}
use steem_virtual_machine_ev.Bridge.Names.{
  awaiting_confirmation, active, superseded, name_status_eq, NameRegistration, NameRecord,
  NameStore, set_registration_status,
}

pub record MsgConfirmName : Type 0 where
  pub confirmer : Bytes
  pub registration_id : ℕ

unfoldable pub validate_name_confirmation :
    External → Params → MsgConfirmName → NameStore → Result Error (Unit {0})
validate_name_confirmation x p msg k = do
  guard p.name_service_enabled name_service_disabled
  r ← or_err (get msg.registration_id k.registration) registration_not_found
  guard (r.status =? awaiting_confirmation) registration_not_awaiting
  confirmer ← or_err (x.string_to_bytes msg.confirmer) invalid_address
  dest ← or_err (x.string_to_bytes r.derived_destination) invalid_address
  guard (bytes_beq confirmer dest) confirmer_not_destination

-- The registration behind the link that is replaced is marked, if it is there and active.
unfoldable pub supersede_registration : ℕ → NameStore → NameStore
unfolding set_registration_status
supersede_registration i k = elim (get i k.registration) [
  | none ↦ k
  | some old ↦
      let moved = set_registration_status old superseded k.registration_by_status in
      if old.status =? active
      then record k {
        registration_by_status = moved.1;
        registration = put old.id moved.0 k.registration;
      }
      else k
]

-- Takes back the live link of a Steem account, if it has one. The link itself is overwritten
-- afterwards.
unfoldable pub supersede_link : External → Bytes → NameStore → Result Error NameStore
unfolding supersede_registration
supersede_link x account k = elim (get account k.active_name) [
  | none ↦ ok k
  | some link ↦
      (or_err (x.string_to_bytes link.address) invalid_address >>= λ old_addr. ok (
        supersede_registration link.registration_id (record k {
          active_name_by_address = drop_key (old_addr, link.steem_account) k.active_name_by_address;
        })))
]

-- Installs the new link and moves the registration to active.
unfoldable pub install_link : Context → Bytes → NameRegistration → NameStore → NameStore
unfolding set_registration_status
install_link ctx confirmer r k =
    let link : NameRecord = record {
      steem_account = r.steem_account;
      address = r.derived_destination;
      registration_id = r.id;
      linked_at = ctx.block_height;
    } in
    let moved =
      set_registration_status
        (record r { confirmed_at = ctx.block_height; confirm_tx_hash = ctx.tx_hash }) active
        k.registration_by_status in
    record k {
      active_name = put r.steem_account link k.active_name;
      active_name_by_address = add_key (confirmer, r.steem_account) k.active_name_by_address;
      registration_by_status = moved.1;
      awaiting_by_dest = drop_key (confirmer, r.id) k.awaiting_by_dest;
      registration = put r.id moved.0 k.registration;
    }

unfoldable pub confirm_name :
    External → Context → Params → MsgConfirmName → NameStore → Result Error NameStore
unfolding validate_name_confirmation supersede_link install_link
confirm_name x ctx p msg k = do
  validate_name_confirmation x p msg k
  r ← or_err (get msg.registration_id k.registration) not_found
  confirmer ← or_err (x.string_to_bytes msg.confirmer) invalid_address
  unlinked ← supersede_link x r.steem_account k
  ok (install_link ctx confirmer r unlinked)

-- `ResolveName` of query_resolve_name.go: the live link of a Steem account.
unfoldable pub resolve_name : Bytes → NameStore → Option NameRecord
resolve_name account k = get account k.active_name
