-- ===== src/Bridge/Names/Tests.antt =====
-- The theorems of the Names modules at the history of Names/Fixtures.antt.
use steem_virtual_machine_ev.Prelude.{
  ℕ, ◌≡◌, ◌≢◌, ◌≤◌, ◌↔◌, ◌⊎◌, ◌*◌, refl, arith, leb, if◌then◌else◌, true, false, Bytes, bytes_beq,
  [], ◌∷◌, some, ok, get, has, put, add_key, codes, drop_key, remove, bytes_eq, triple_eq, nat_eq,
  pair_eq,
}
use steem_virtual_machine_ev.Text.{trim_space, cut_prefix}
use steem_virtual_machine_ev.Decimal.{half_up}
use steem_virtual_machine_ev.Bridge.Amounts.{apply_bridge_fee, steem, millisteem_to_asteem}
use steem_virtual_machine_ev.Bridge.Credit.{add_minted}
use steem_virtual_machine_ev.Bridge.Facts.{dedup_key_string}
use steem_virtual_machine_ev.Bridge.Memo.{derive_destination}
use steem_virtual_machine_ev.Bridge.Power.{confirmed_power}
use steem_virtual_machine_ev.Bridge.Duty.{attesters}
use steem_virtual_machine_ev.Bridge.Ledger.{genesis}
use steem_virtual_machine_ev.Bridge.Fixtures.{bank, alice, external, context}
use steem_virtual_machine_ev.Bridge.Names.{
  pending, awaiting_confirmation, active, expired, NameRegistration, NameStore,
}
use steem_virtual_machine_ev.Bridge.Names.Registration.{submit_name_registration, open_registration}
use steem_virtual_machine_ev.Bridge.Names.Linking.{confirm_name}
use steem_virtual_machine_ev.Bridge.Names.Expiry.{expire_registration, expire_name_registrations}
use steem_virtual_machine_ev.Bridge.Names.Links.{linked_address, confirm_name_links}
use steem_virtual_machine_ev.Bridge.Names.Attestation.{
  support, submit_name_registration_credits, registration_resolved_once,
}
use steem_virtual_machine_ev.Bridge.Names.System.{
  no_names, Reach, reach_start, reach_step, submitted, confirmed, Reach-LinksAgree, reachable_links,
}
use steem_virtual_machine_ev.Bridge.Names.Freed.{expire_registration-frees_key, Opened}
use steem_virtual_machine_ev.Bridge.Names.Fixtures.{
  name_msg, confirm_msg, start, parked, linked, late, lapsed, parked_again, the_registration,
  statuses,
}

name_submitted :
    submit_name_registration half_up external bank context name_msg start no_names
    ≡ ok (parked.0, parked.1)
unfolding submit_name_registration genesis no_names bytes_beq has get add_key derive_destination
    apply_bridge_fee put cut_prefix trim_space
name_submitted = refl

name_confirmed : confirm_name external context parked.0.params confirm_msg parked.1 ≡ ok linked
unfolding confirm_name submit_name_registration genesis no_names bytes_beq has get add_key
    derive_destination apply_bridge_fee put cut_prefix trim_space
name_confirmed = refl

-- The link is installed, and a lapsed registration can be submitted and credited a second time.
history-statuses :
    (statuses parked.1 ≡ awaiting_confirmation ∷ [])
    × (statuses linked ≡ active ∷ [])
    × (statuses lapsed ≡ expired ∷ [])
    × (statuses parked_again.1 ≡ expired ∷ awaiting_confirmation ∷ [])
unfolding expire_name_registrations confirm_name submit_name_registration genesis no_names bytes_beq
    has get add_key derive_destination apply_bridge_fee put cut_prefix trim_space drop_key remove
history-statuses = (refl, refl, refl, refl)

credited_twice :
    (parked.0.totals.total_minted_asteem ≡ millisteem_to_asteem 1000)
    × (parked_again.0.totals.total_minted_asteem ≡ 2 * millisteem_to_asteem 1000)
unfolding expire_name_registrations submit_name_registration genesis no_names bytes_beq has get
    add_key derive_destination apply_bridge_fee put cut_prefix trim_space millisteem_to_asteem
    drop_key remove
credited_twice = (refl, refl)

reached : Reach half_up external bank start parked.0 linked
reached =
    reach_step parked.0 parked.0 parked.1 linked
      (reach_step start parked.0 no_names parked.1 reach_start
        (submitted context name_msg parked.0 parked.1 name_submitted))
      (confirmed context confirm_msg linked name_confirmed)

reachable_links_example :
    (has (codes "carol", codes "bob") linked.active_name_by_address ≡ true)
    ↔ (linked_address external (codes "bob") linked ≡ some (codes "carol"))
reachable_links_example =
    reachable_links half_up external bank start parked.0 linked (codes "carol") (codes "bob")
      reached

parked_reached : Reach half_up external bank start parked.0 parked.1
parked_reached =
    reach_step start parked.0 no_names parked.1 reach_start
      (submitted context name_msg parked.0 parked.1 name_submitted)

confirm_name_links_example :
    (r : NameRegistration) × (addr : Bytes) × (get confirm_msg.registration_id parked.1.registration
      ≡ some r)
    × (r.status ≡ awaiting_confirmation)
    × (external.string_to_bytes confirm_msg.confirmer ≡ some addr)
    × (external.string_to_bytes r.derived_destination ≡ some addr)
    × ((account : Bytes)
        → linked_address external account linked ≡ (
            if bytes_beq account r.steem_account
            then some addr
            else linked_address external account parked.1))
confirm_name_links_example =
    confirm_name_links external parked.0.params context confirm_msg parked.1 linked
      (Reach-LinksAgree half_up external bank start parked.0 parked.1 parked_reached) name_confirmed

submit_name_registration_credits_example :
    (parked.0 ≡ start)
    ⊎ ((i : ℕ) × (r : NameRegistration) × (opened : NameStore) × (open_registration context name_msg
            no_names
          ≡ ok (i, r, opened))
        × (r.status ≡ pending)
        × (leb start.params.bridge_confirmation_threshold
              (support half_up external bank context name_msg parked.1)
            ≡ true)
        × (start.params.name_registration_min_millisteem ≤ name_msg.facts.amount_millisteem)
        × (parked.0.totals
            ≡ add_minted steem
                (millisteem_to_asteem name_msg.facts.amount_millisteem)
                start.totals))
submit_name_registration_credits_example =
    submit_name_registration_credits half_up external bank context name_msg start parked.0 no_names
      parked.1 name_submitted

the_registration-found : get 0 parked.1.registration ≡ some the_registration
unfolding submit_name_registration genesis no_names bytes_beq has get add_key derive_destination
    apply_bridge_fee put cut_prefix trim_space
the_registration-found = refl

the_registration-known :
    get (name_msg.txid, name_msg.op_index) parked.1.registration_by_txid ≡ some 0
unfolding submit_name_registration genesis no_names bytes_beq has get add_key derive_destination
    apply_bridge_fee put cut_prefix trim_space
the_registration-known = refl

the_registration-awaits : the_registration.status ≡ awaiting_confirmation
unfolding submit_name_registration genesis no_names bytes_beq has get add_key derive_destination
    apply_bridge_fee put cut_prefix trim_space
the_registration-awaits = refl

the_registration-resolved : the_registration.status ≢ pending
the_registration-resolved h = ground (arith, the_registration-awaits)

submitted_again :
    submit_name_registration half_up external bank context name_msg parked.0 parked.1
    ≡ ok (parked.0, parked.1)
unfolding submit_name_registration genesis no_names bytes_beq has get add_key derive_destination
    apply_bridge_fee put cut_prefix trim_space
submitted_again = refl

registration_resolved_once_example : (parked.0 ≡ parked.0) × (parked.1 ≡ parked.1)
registration_resolved_once_example =
    registration_resolved_once half_up external bank context name_msg parked.0 parked.0 parked.1
      parked.1 0 the_registration the_registration-known the_registration-found
      the_registration-resolved submitted_again

alice-confirmed : has alice (attesters external the_registration.validator_confirmations) ≡ true
unfolding attesters submit_name_registration genesis no_names bytes_beq has get add_key
    derive_destination apply_bridge_fee put cut_prefix trim_space
alice-confirmed = refl

same_txid : name_msg.txid ≡ the_registration.txid
unfolding submit_name_registration genesis no_names bytes_beq has get add_key derive_destination
    apply_bridge_fee put cut_prefix trim_space
same_txid = refl

same_op : name_msg.op_index ≡ the_registration.op_index
unfolding submit_name_registration genesis no_names bytes_beq has get add_key derive_destination
    apply_bridge_fee put cut_prefix trim_space
same_op = refl

parked-lapsed : expire_registration external 0 parked.1 ≡ ok lapsed
unfolding expire_name_registrations expire_registration submit_name_registration genesis no_names
    bytes_beq has get add_key derive_destination apply_bridge_fee put cut_prefix trim_space drop_key
    remove
parked-lapsed = refl

expire_registration-frees_key_example :
    (has (the_registration.txid, the_registration.op_index, alice) lapsed.registration_confirmed_by
      ≡ false)
    × (confirmed_power late
          (dedup_key_string the_registration.txid the_registration.op_index)
          (codes "x")
          lapsed.registration_facts_vote
        ≡ 0)
    × (get 0 lapsed.registration ≡ some record the_registration { status = expired })
    × (r' : NameRegistration) × (opened : NameStore) × (open_registration late name_msg lapsed
        ≡ ok (lapsed.registration_seq, r', opened))
    × Opened name_msg lapsed r' opened
expire_registration-frees_key_example =
    expire_registration-frees_key external late 0 the_registration parked.1 lapsed alice (codes "x")
      name_msg the_registration-found alice-confirmed same_txid same_op parked-lapsed
