-- ===== src/Bridge/Names/Expiry.antt =====
-- x/oracle/bridge/keeper/abci.go, `ExpireNameRegistrations`: the sweep of the registrations whose
-- current phase is overdue.
use steem_virtual_machine_ev.Prelude.{
  ℕ, if◌then◌else◌, Bytes, List, [], ◌∷◌, ◌++◌, Map, KeySet, bytes_eq, nat_eq, pair_eq, triple_eq,
  ◌=?◌, get, put, remove, drop_key, take, Result, ok, ◌>>=◌, or_err,
}
use steem_virtual_machine_ev.Bridge.Facts.{dedup_key_string}
use steem_virtual_machine_ev.Bridge.State.{
  Error, not_found, invalid_address, Params, Context, External,
}
use steem_virtual_machine_ev.Bridge.Power.{clear_votes}
use steem_virtual_machine_ev.Bridge.Expiry.{
  max_expiry_sweep_per_block, ids_of_status, is_overdue, forget_confirmations,
}
use steem_virtual_machine_ev.Bridge.Names.{
  pending, awaiting_confirmation, expired, name_status_eq, NameRegistration, NameStore,
  set_registration_status,
}

-- The height from which the current phase of a registration is timed.
unfoldable pub phase_start : NameRegistration → ℕ
phase_start r = if r.status =? awaiting_confirmation then r.awaiting_since else r.created_at

-- The ids of the walk whose phase is overdue. A record that is missing ends the sweep.
unfoldable pub overdue_registrations :
    ℕ → ℕ → Map ℕ NameRegistration → List ℕ → Result Error (List ℕ)
unfolding is_overdue phase_start
overdue_registrations timeout height m [] = ok []
overdue_registrations timeout height m (i ∷ is) = do
  r ← or_err (get i m) not_found
  rest ← overdue_registrations timeout height m is
  ok (if is_overdue (phase_start r) timeout height then i ∷ rest else rest)

-- The destination is not waited for any more.
unfoldable pub drop_awaiting :
    External → ℕ → NameRegistration → KeySet (Bytes × ℕ) → Result Error (KeySet (Bytes × ℕ))
drop_awaiting x i r index =
    if r.status =? awaiting_confirmation
    then (or_err (x.string_to_bytes r.derived_destination) invalid_address >>= λ dest.
        ok (drop_key (dest, i) index))
    else ok index

unfoldable pub expire_registration : External → ℕ → NameStore → Result Error NameStore
unfolding forget_confirmations drop_awaiting set_registration_status clear_votes dedup_key_string
expire_registration x i k = do
  r ← or_err (get i k.registration) not_found
  confirmed ←
      forget_confirmations x r.txid r.op_index r.validator_confirmations k.registration_confirmed_by
  awaiting ← drop_awaiting x i r k.awaiting_by_dest
  let moved = set_registration_status r expired k.registration_by_status
  ok (record k {
    registration_by_txid = remove (r.txid, r.op_index) k.registration_by_txid;
    registration_confirmed_by = confirmed;
    registration_facts_vote =
        clear_votes (dedup_key_string r.txid r.op_index) k.registration_facts_vote;
    awaiting_by_dest = awaiting;
    registration_by_status = moved.1;
    registration = put i moved.0 k.registration;
  })

unfoldable pub expire_each_registration : External → List ℕ → NameStore → Result Error NameStore
unfolding expire_registration
expire_each_registration x [] k = ok k
expire_each_registration x (i ∷ is) k =
    expire_registration x i k >>= λ k1. expire_each_registration x is k1

-- The walks over both phases share one bound on the records that are looked at.
unfoldable pub expire_name_registrations :
    External → Context → Params → NameStore → Result Error NameStore
unfolding ids_of_status overdue_registrations expire_each_registration
expire_name_registrations x ctx p k =
    let walk = take max_expiry_sweep_per_block (
      ids_of_status pending k.registration_by_status
      ++ ids_of_status awaiting_confirmation k.registration_by_status) in
    (overdue_registrations p.name_pending_timeout_blocks ctx.block_height k.registration walk
      >>= λ overdue. expire_each_registration x overdue k)
