-- ===== src/Bridge/Names/Attestation.antt =====
-- What an attestation of a registration does: to the money, to the record and to the links.
use steem_virtual_machine_ev.Prelude.{
  ℕ, ◌≡◌, ◌≢◌, ◌≤◌, refl, arith, true, ◌&&◌, Bytes, [], ◌∷◌, ◌++◌, ◌=?◌, nat_eq, bytes_eq, pair_eq,
  triple_eq, leb, ltb, some, get, add_key, put, ok, Bool-cases, Option-cases, Result-cases, inl,
  inr, ◌⊎◌, subst,
}
use steem_virtual_machine_ev.Decimal.{Decimal}
use steem_virtual_machine_ev.Bridge.Amounts.{steem, millisteem_to_asteem}
use steem_virtual_machine_ev.Bridge.Facts.{NameFacts, name_facts_hash, dedup_key_string}
use steem_virtual_machine_ev.Bridge.Memo.{DestinationType, derive_destination}
use steem_virtual_machine_ev.Bridge.State.{Confirmation, Store, Context, External, BankKeeper}
use steem_virtual_machine_ev.Bridge.Power.{candidate_ratio}
use steem_virtual_machine_ev.Bridge.Credit.{credit_bridged, add_minted}
use steem_virtual_machine_ev.Bridge.Credit.Laws.{credit_bridged-Steps}
use steem_virtual_machine_ev.Bridge.Names.{
  pending, name_status_eq, name_status_beq_iff, NameRegistration, NameStore,
}
use steem_virtual_machine_ev.Bridge.Names.Links.{SameLinks}
use steem_virtual_machine_ev.Bridge.Names.Registration.{
  MsgSubmitNameRegistration, adopt_name_facts, move_account, mark_registration_unclaimable,
  park_registration, resolve_registration, resolve_name_at_threshold, open_registration,
  confirm_registration, validate_registration_acceptance, submit_name_registration,
  lookup_registration_by_txid, is_open,
}

module _ {Bank : Type 0} (x : External) (bk : BankKeeper Bank) (ctx : Context) where
  -- A registration that is resolved: nothing but the registration's own indices changes, and what
  -- is credited is its amount, if that is not below the minimum.
  record Resolved (amount : ℕ) (s s' : Store Bank) (k k' : NameStore) : Type 0 where
    links : SameLinks k k'
    votes : k'.registration_facts_vote ≡ k.registration_facts_vote
    money :
        (s' ≡ s)
        ⊎ ((s.params.name_registration_min_millisteem ≤ amount)
            × (s'.totals ≡ add_minted steem (millisteem_to_asteem amount) s.totals))

  park_registration-Resolved :
      (dest : Bytes) (kind : DestinationType) (r r' : NameRegistration) (s s' : Store Bank)
      (k k' : NameStore)
      → s.params.name_registration_min_millisteem ≤ r.amount_millisteem
      → park_registration x bk ctx dest kind r s k ≡ ok (r', s', k')
      → Resolved r.amount_millisteem s s' k k'
  unfolding park_registration
  park_registration-Resolved dest kind r r' s s' k k' large e =
      elim (Option-cases (x.bytes_to_string dest)) [
        | inl bad ↦ ground arith
        | inr (text, named) ↦
            elim (Result-cases (credit_bridged x bk dest steem r.amount_millisteem 0 s)) [
              | inl (why, bad) ↦ ground arith
              | inr ((n, s1), credited) ↦
                  let st =
                    credit_bridged-Steps x bk dest steem r.amount_millisteem 0 n s s1 credited in
                  record {
                    links = record { forward = ground arith; reverse = ground arith };
                    votes = ground arith;
                    money = inr (large, ground (arith, st.totals));
                  }
            ]
      ]

  resolve_registration-Resolved :
      (r r' : NameRegistration) (s s' : Store Bank) (k k' : NameStore)
      → resolve_registration x bk ctx r s k ≡ ok (r', s', k')
      → Resolved r.amount_millisteem s s' k k'
  unfolding resolve_registration mark_registration_unclaimable
  resolve_registration-Resolved r r' s s' k k' e =
      elim (Option-cases (derive_destination x.acc_from_bech32 x.hex_to_address r.memo)) [
        | inl unparsed ↦ record {
          links = record { forward = ground arith; reverse = ground arith };
          votes = ground arith;
          money = inl (ground arith);
        }
        | inr ((dest, kind), parsed) ↦
            elim (Bool-cases (ltb r.amount_millisteem s.params.name_registration_min_millisteem)) [
              | inl below ↦ record {
                links = record { forward = ground arith; reverse = ground arith };
                votes = ground arith;
                money = inl (ground arith);
              }
              | inr large ↦
                  park_registration-Resolved dest kind r r' s s' k k' (ground arith) (ground arith)
            ]
      ]

  -- Either nothing is resolved, or a pending registration at the threshold is.
  record Outcome (facts : NameFacts) (ratio : ℕ) (r r' : NameRegistration) (s s' : Store Bank)
      (k k' : NameStore) : Type 0 where
    links : SameLinks k k'
    votes : k'.registration_facts_vote ≡ k.registration_facts_vote
    moved :
        (s' ≡ s)
        ⊎ ((r.status ≡ pending)
            × (leb s.params.bridge_confirmation_threshold ratio ≡ true)
            × (s.params.name_registration_min_millisteem ≤ facts.amount_millisteem)
            × (s'.totals
                ≡ add_minted steem (millisteem_to_asteem facts.amount_millisteem) s.totals))

  resolve_name_at_threshold-Outcome :
      (facts : NameFacts) (ratio i : ℕ) (r r' : NameRegistration) (s s' : Store Bank)
      (k k' : NameStore)
      → resolve_name_at_threshold x bk ctx facts ratio i r s k ≡ ok (r', s', k')
      → Outcome facts ratio r r' s s' k k'
  unfolding resolve_name_at_threshold adopt_name_facts
  resolve_name_at_threshold-Outcome facts ratio i r r' s s' k k' e =
      elim (Bool-cases
        ((r.status =? pending) && leb s.params.bridge_confirmation_threshold ratio)) [
          | inr stays ↦ record {
            links = record { forward = ground arith; reverse = ground arith };
            votes = ground arith;
            moved = inl (ground arith);
          }
          | inl won ↦
              let k1 = record k {
                registration_by_account =
                    move_account r.steem_account facts.steem_account i k.registration_by_account;
              } in
              let z =
                resolve_registration-Resolved (adopt_name_facts facts r) r' s s' k1 k'
                  (ground arith) in
              record {
                links = record {
                  forward = ground (arith, z.links.forward);
                  reverse = ground (arith, z.links.reverse);
                };
                votes = ground (arith, z.votes);
                moved = elim z.money [
                  | inl same ↦ inl same
                  | inr (large, totals) ↦ inr (
                    ground (arith, name_status_beq_iff r.status pending),
                    ground arith,
                    large,
                    totals,
                  )
                ];
              }
        ]

module _ {Bank : Type 0} (dec : Decimal) (x : External) (bk : BankKeeper Bank) (ctx : Context)
    (msg : MsgSubmitNameRegistration) where
  -- The tally of the message's candidate on the votes of a store.
  abbrev pub support : NameStore → ℕ
  support k =
      candidate_ratio dec ctx (dedup_key_string msg.txid msg.op_index)
        (name_facts_hash x.sha256_hex msg.facts) k.registration_facts_vote

  -- What a submission that succeeds did to the money, with the record that it found.
  pub record Counted (s s' : Store Bank) (k k' : NameStore) : Type 0 where
    pub links : SameLinks k k'
    pub money :
        (s' ≡ s)
        ⊎ ((i : ℕ) × (r : NameRegistration) × (opened : NameStore) × (open_registration ctx msg k
              ≡ ok (i, r, opened))
            × (r.status ≡ pending)
            × (leb s.params.bridge_confirmation_threshold (support k') ≡ true)
            × (s.params.name_registration_min_millisteem ≤ msg.facts.amount_millisteem)
            × (s'.totals
                ≡ add_minted steem (millisteem_to_asteem msg.facts.amount_millisteem) s.totals))

  open_registration-SameLinks :
      (i : ℕ) (r : NameRegistration) (k k' : NameStore)
      → open_registration ctx msg k ≡ ok (i, r, k')
      → SameLinks k k'
  unfolding open_registration
  open_registration-SameLinks i r k k' e =
      elim (Option-cases (get (msg.txid, msg.op_index) k.registration_by_txid)) [
        | inl fresh ↦ record { forward = ground arith; reverse = ground arith }
        | inr (j, known) ↦ elim (Option-cases (get j k.registration)) [
          | inl missing ↦ ground arith
          | inr (found_r, found) ↦ record { forward = ground arith; reverse = ground arith }
        ]
      ]

  confirm_registration-Counted :
      (addr : Bytes) (s s' : Store Bank) (k k' : NameStore)
      → confirm_registration dec x bk ctx addr msg s k ≡ ok (s', k')
      → Counted s s' k k'
  unfolding confirm_registration
  confirm_registration-Counted addr s s' k k' e =
      elim (Result-cases (open_registration ctx msg k)) [
        | inl (why, bad) ↦ ground arith
        | inr ((i, r, k0), opened) ↦
            let facts_hash = name_facts_hash x.sha256_hex msg.facts in
            let dedup = dedup_key_string msg.txid msg.op_index in
            let votes = add_key (dedup, facts_hash, addr) k0.registration_facts_vote in
            let confirmation : Confirmation = record {
              validator_address = x.val_to_bech32 addr;
              timestamp = ctx.block_time;
            } in
            let r1 = record r {
              validator_confirmations = r.validator_confirmations ++ confirmation ∷ [];
            } in
            let k1 = record k0 {
              registration_confirmed_by =
                  add_key (msg.txid, msg.op_index, addr) k0.registration_confirmed_by;
              registration_facts_vote = votes;
            } in
            let ratio = candidate_ratio dec ctx dedup facts_hash votes in
            elim (Result-cases (resolve_name_at_threshold x bk ctx msg.facts ratio i r1 s k1)) [
              | inl (why, bad) ↦ ground arith
              | inr ((r2, s2, k2), resolved) ↦
                  let o =
                    resolve_name_at_threshold-Outcome x bk ctx msg.facts ratio i r1 r2 s s2 k1 k2
                      resolved in
                  let first = open_registration-SameLinks i r k k0 opened in
                  let same_s : s2 ≡ s' = ground arith in
                  let same_k : record k2 { registration = put i r2 k2.registration } ≡ k' =
                    ground arith in
                  subst (λ t. Counted s t k k') same_s
                    (subst (λ t. Counted s s2 k t) same_k
                      record {
                        links = record {
                          forward = ground (arith, first.forward, o.links.forward);
                          reverse = ground (arith, first.reverse, o.links.reverse);
                        };
                        money = elim o.moved [
                          | inl same ↦ inl same
                          | inr (waits, passed, large, totals) ↦
                              inr (i, r, k0, opened, waits, rw o.votes passed, large, totals)
                        ];
                      })
            ]
      ]

  pub submit_name_registration-Counted :
      (s s' : Store Bank) (k k' : NameStore)
      → submit_name_registration dec x bk ctx msg s k ≡ ok (s', k')
      → Counted s s' k k'
  unfolding submit_name_registration
  submit_name_registration-Counted s s' k k' e =
      elim (Option-cases (x.string_to_bytes msg.validator)) [
        | inl bad ↦ ground arith
        | inr (addr, sent) ↦ elim (Result-cases (validate_registration_acceptance x msg s k)) [
          | inl (why, refused) ↦
              let same_s : s ≡ s' = ground arith in
              let same_k : k ≡ k' = ground arith in
              subst (λ t. Counted s t k k') same_s
                (subst (λ t. Counted s s k t) same_k
                  record { links = record { forward = refl; reverse = refl }; money = inl refl })
          | inr (done, accepted) ↦ confirm_registration-Counted addr s s' k k' (ground arith)
        ]
      ]

  -- A submission that changes the bridge's state is one for a pending registration: the share of
  -- the bonded power that voted for exactly its facts is at least the threshold, its amount is at
  -- least the minimum, and the total minted grows by that amount.
  pub submit_name_registration_credits :
      (s s' : Store Bank) (k k' : NameStore)
      → submit_name_registration dec x bk ctx msg s k ≡ ok (s', k')
      → (s' ≡ s)
        ⊎ ((i : ℕ) × (r : NameRegistration) × (opened : NameStore) × (open_registration ctx msg k
              ≡ ok (i, r, opened))
            × (r.status ≡ pending)
            × (leb s.params.bridge_confirmation_threshold (support k') ≡ true)
            × (s.params.name_registration_min_millisteem ≤ msg.facts.amount_millisteem)
            × (s'.totals
                ≡ add_minted steem (millisteem_to_asteem msg.facts.amount_millisteem) s.totals))
  submit_name_registration_credits s s' k k' e =
      (submit_name_registration-Counted s s' k k' e).money

  -- A submission that succeeds for a key whose registration is not pending any more changes nothing,
  -- neither the bridge's state nor that of the name service.
  pub registration_resolved_once :
      (s s' : Store Bank) (k k' : NameStore) (i : ℕ) (r : NameRegistration)
      → get (msg.txid, msg.op_index) k.registration_by_txid ≡ some i
      → get i k.registration ≡ some r
      → r.status ≢ pending
      → submit_name_registration dec x bk ctx msg s k ≡ ok (s', k')
      → (s' ≡ s) × (k' ≡ k)
  unfolding submit_name_registration validate_registration_acceptance lookup_registration_by_txid
      is_open
  registration_resolved_once s s' k k' i r known found done e =
      elim (Option-cases (x.string_to_bytes msg.validator)) [
        | inl bad ↦ ground arith
        | inr (addr, sent) ↦ ground (arith, name_status_beq_iff r.status pending)
      ]
