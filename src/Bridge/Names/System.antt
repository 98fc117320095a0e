-- ===== src/Bridge/Names/System.antt =====
-- The name service as a transition system: its two handlers and its sweep as steps over the states
-- of the bridge and of the name service.
use steem_virtual_machine_ev.Prelude.{
  ℕ, ◌≡◌, ◌↔◌, arith, true, Bytes, List, [], ◌∷◌, ◌++◌, nat_eq, bytes_eq, pair_eq, triple_eq, some,
  get, has, take, ok, Option-cases, Result-cases, inl, inr,
}
use steem_virtual_machine_ev.Decimal.{Decimal}
use steem_virtual_machine_ev.Bridge.State.{Store, Params, Context, External, BankKeeper}
use steem_virtual_machine_ev.Bridge.Expiry.{
  max_expiry_sweep_per_block, ids_of_status, forget_confirmations,
}
use steem_virtual_machine_ev.Bridge.Names.{
  pending, awaiting_confirmation, name_status_eq, NameStore,
}
use steem_virtual_machine_ev.Bridge.Names.Registration.{
  MsgSubmitNameRegistration, submit_name_registration,
}
use steem_virtual_machine_ev.Bridge.Names.Linking.{MsgConfirmName, confirm_name, resolve_name}
use steem_virtual_machine_ev.Bridge.Names.Expiry.{
  overdue_registrations, drop_awaiting, expire_registration, expire_each_registration,
  expire_name_registrations,
}
use steem_virtual_machine_ev.Bridge.Names.Links.{
  linked_address, LinksAgree, SameLinks, confirm_name-LinksAgree,
}
use steem_virtual_machine_ev.Bridge.Names.Attestation.{submit_name_registration-Counted}

-- A name service without records.
unfoldable pub no_names : NameStore
no_names = record {
  registration_seq = 0;
  registration = [];
  registration_by_txid = [];
  registration_confirmed_by = [];
  registration_facts_vote = [];
  registration_by_status = [];
  registration_by_account = [];
  awaiting_by_dest = [];
  active_name = [];
  active_name_by_address = [];
}

module _ (x : External) where
  SameLinks-LinksAgree : (k k' : NameStore) → SameLinks k k' → LinksAgree x k → LinksAgree x k'
  unfolding linked_address resolve_name
  SameLinks-LinksAgree k k' same agree = record {
    listed = λ addr account. ground (arith, same.forward, same.reverse, agree.listed addr account);
    filed = λ account link found. agree.filed account link (ground (arith, same.forward));
  }

  expire_registration-SameLinks :
      (i : ℕ) (k k' : NameStore) → expire_registration x i k ≡ ok k' → SameLinks k k'
  unfolding expire_registration
  expire_registration-SameLinks i k k' e = elim (Option-cases (get i k.registration)) [
    | inl missing ↦ ground arith
    | inr (r, found) ↦
        elim (Result-cases (
          forget_confirmations x r.txid r.op_index r.validator_confirmations
            k.registration_confirmed_by)) [
              | inl (why, bad) ↦ ground arith
              | inr (confirmed, forgot) ↦
                  elim (Result-cases (drop_awaiting x i r k.awaiting_by_dest)) [
                    | inl (why, bad) ↦ ground arith
                    | inr (awaiting, dropped) ↦ record {
                      forward = ground arith;
                      reverse = ground arith;
                    }
                  ]
            ]
  ]

  expire_each_registration-SameLinks :
      (is : List ℕ) (k k' : NameStore) → expire_each_registration x is k ≡ ok k' → SameLinks k k'
  unfolding expire_each_registration
  expire_each_registration-SameLinks [] k k' e = record {
    forward = ground arith;
    reverse = ground arith;
  }
  expire_each_registration-SameLinks (i ∷ is) k k' e =
      elim (Result-cases (expire_registration x i k)) [
        | inl (why, bad) ↦ ground arith
        | inr (k1, first) ↦
            let a = expire_registration-SameLinks i k k1 first in
            let b = expire_each_registration-SameLinks is k1 k' (ground arith) in
            record {
              forward = ground (arith, a.forward, b.forward);
              reverse = ground (arith, a.reverse, b.reverse);
            }
      ]

  expire_name_registrations-SameLinks :
      (ctx : Context) (p : Params) (k k' : NameStore)
      → expire_name_registrations x ctx p k ≡ ok k'
      → SameLinks k k'
  unfolding expire_name_registrations
  expire_name_registrations-SameLinks ctx p k k' e =
      let walk = take max_expiry_sweep_per_block (
        ids_of_status pending k.registration_by_status
        ++ ids_of_status awaiting_confirmation k.registration_by_status) in
      elim (Result-cases (
        overdue_registrations p.name_pending_timeout_blocks ctx.block_height k.registration walk)) [
          | inl (why, bad) ↦ ground arith
          | inr (overdue, selected) ↦ expire_each_registration-SameLinks overdue k k' (ground arith)
        ]

module _ {Bank : Type 0} (dec : Decimal) (x : External) (bk : BankKeeper Bank) where
  -- One call that succeeds, in a block with any header and any validators. Between two calls the
  -- rest of the chain may do anything to the bridge's state.
  pub data Step (s : Store Bank) (k : NameStore) : Store Bank → NameStore → Type 0 where
    submitted :
        (ctx : Context) (msg : MsgSubmitNameRegistration) (s' : Store Bank) (k' : NameStore)
        → submit_name_registration dec x bk ctx msg s k ≡ ok (s', k')
        → Step s k s' k'
    confirmed :
        (ctx : Context) (msg : MsgConfirmName) (k' : NameStore)
        → confirm_name x ctx s.params msg k ≡ ok k'
        → Step s k s k'
    swept :
        (ctx : Context) (k' : NameStore)
        → expire_name_registrations x ctx s.params k ≡ ok k'
        → Step s k s k'
    elsewhere : (s' : Store Bank) → Step s k s' k

  pub data Reach (s : Store Bank) : Store Bank → NameStore → Type 0 where
    reach_start : Reach s s no_names
    reach_step : (t u : Store Bank) (k k' : NameStore) → Reach s t k → Step t k u k' → Reach s u k'

  Step-LinksAgree :
      (s s' : Store Bank) (k k' : NameStore) → Step s k s' k' → LinksAgree x k → LinksAgree x k'
  Step-LinksAgree s s' k k' (submitted ctx msg t l e) agree =
      let c = submit_name_registration-Counted dec x bk ctx msg s s' k k' e in
      SameLinks-LinksAgree x k k' c.links agree
  Step-LinksAgree s s' k k' (confirmed ctx msg l e) agree =
      confirm_name-LinksAgree x s.params ctx msg k k' agree e
  Step-LinksAgree s s' k k' (swept ctx l e) agree =
      SameLinks-LinksAgree x k k' (expire_name_registrations-SameLinks x ctx s.params k k' e) agree
  Step-LinksAgree s s' k k' (elsewhere t) agree = agree

  no_names-LinksAgree : LinksAgree x no_names
  unfolding linked_address resolve_name no_names get has
  no_names-LinksAgree = record {
    listed = λ addr account. ground arith;
    filed = λ account link found. ground arith;
  }

  pub Reach-LinksAgree : (s t : Store Bank) (k : NameStore) → Reach s t k → LinksAgree x k
  Reach-LinksAgree s t k reach_start = no_names-LinksAgree
  Reach-LinksAgree s t k (reach_step u v l m before last) =
      Step-LinksAgree u t l k last (Reach-LinksAgree s u l before)

  -- In every reachable state the reverse index lists a Steem account under an address exactly when
  -- the account's live link resolves to that address.
  pub reachable_links :
      (s t : Store Bank) (k : NameStore) (addr account : Bytes)
      → Reach s t k
      → (has (addr, account) k.active_name_by_address ≡ true)
        ↔ (linked_address x account k ≡ some addr)
  reachable_links s t k addr account reach =
      let agree = Reach-LinksAgree s t k reach in agree.listed addr account
