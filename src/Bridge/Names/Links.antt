-- ===== src/Bridge/Names/Links.antt =====
-- The live links and their reverse index: what the confirmation of a registration does to both.
use steem_virtual_machine_ev.Prelude.{
  ℕ, ◌≡◌, ◌↔◌, refl, arith, if◌then◌else◌, true, not, ◌&&◌, Bytes, bytes_beq, bytes_beq_iff, Option,
  none, some, bytes_eq, nat_eq, pair_eq, pair_beq_iff, get, has, drop_key, get-put, has-add_key,
  has-drop_key, ok, Option-cases, Result-cases, inl, inr,
}
use steem_virtual_machine_ev.Bridge.State.{Context, External, Params}
use steem_virtual_machine_ev.Bridge.Names.{
  awaiting_confirmation, name_status_eq, name_status_beq_iff, NameRegistration, NameRecord,
  NameStore,
}
use steem_virtual_machine_ev.Bridge.Names.Linking.{
  MsgConfirmName, validate_name_confirmation, supersede_registration, supersede_link, install_link,
  confirm_name, resolve_name,
}

-- The address that a Steem account is linked to.
unfoldable pub linked_address : External → Bytes → NameStore → Option Bytes
unfolding resolve_name
linked_address x account k = elim (resolve_name account k) [
  | none ↦ none
  | some link ↦ x.string_to_bytes link.address
]

-- The reverse index lists exactly the live links; a link is filed under its own account and its
-- address can be decoded.
pub record LinksAgree (x : External) (k : NameStore) : Type 0 where
  pub listed :
      (addr account : Bytes)
      → (has (addr, account) k.active_name_by_address ≡ true)
        ↔ (linked_address x account k ≡ some addr)
  pub filed :
      (account : Bytes) (link : NameRecord)
      → resolve_name account k ≡ some link
      → (link.steem_account ≡ account)
        × (addr : Bytes) × (x.string_to_bytes link.address ≡ some addr)

-- The links of two stores are the same.
pub record SameLinks (k k' : NameStore) : Type 0 where
  pub forward : k'.active_name ≡ k.active_name
  pub reverse : k'.active_name_by_address ≡ k.active_name_by_address

supersede_registration-SameLinks :
    (i : ℕ) (k : NameStore) → SameLinks k (supersede_registration i k)
unfolding supersede_registration
supersede_registration-SameLinks i k = elim (Option-cases (get i k.registration)) [
  | inl missing ↦ record { forward = ground arith; reverse = ground arith }
  | inr (old, found) ↦ record { forward = ground arith; reverse = ground arith }
]

module _ (x : External) where
  -- What taking back the live link of an account leaves: the forward map, and the reverse index
  -- without that link.
  record Unlinked (account : Bytes) (k k' : NameStore) : Type 0 where
    forward : k'.active_name ≡ k.active_name
    reverse :
        (addr other : Bytes)
        → has (addr, other) k'.active_name_by_address
          ≡ (not (bytes_beq other account) && has (addr, other) k.active_name_by_address)

  supersede_link-Unlinked :
      (account : Bytes) (k k' : NameStore)
      → LinksAgree x k
      → supersede_link x account k ≡ ok k'
      → Unlinked account k k'
  unfolding supersede_link linked_address resolve_name
  supersede_link-Unlinked account k k' agree e = elim (Option-cases (get account k.active_name)) [
    | inl free ↦
        let same : k' ≡ k = ground arith in
        rw same (
          let u : Unlinked account k k = record {
            forward = refl;
            reverse =
                λ addr other. ground (arith, agree.listed addr other, bytes_beq_iff other account);
          } in
          u)
    | inr (link, linked) ↦
        let (own, old, decoded) = agree.filed account link linked in
        let k1 = record k {
          active_name_by_address = drop_key (old, link.steem_account) k.active_name_by_address;
        } in
        let same : k' ≡ supersede_registration link.registration_id k1 = ground arith in
        let rest = supersede_registration-SameLinks link.registration_id k1 in
        rw same (
          let u : Unlinked account k (supersede_registration link.registration_id k1) = record {
            forward = ground (arith, rest.forward);
            reverse = λ addr other. ground (
              arith,
              rest.reverse,
              has-drop_key (addr, other) (old, link.steem_account) k.active_name_by_address,
              agree.listed addr other,
              pair_beq_iff (addr, other) (old, link.steem_account),
              bytes_beq_iff other account,
            );
          } in
          u)
  ]

  -- What a confirmation that succeeds found, and the store between its two halves.
  record Confirmed (p : Params) (ctx : Context) (msg : MsgConfirmName) (k k' : NameStore)
      : Type 0 where
    registration : NameRegistration
    addr : Bytes
    middle : NameStore
    enabled : p.name_service_enabled ≡ true
    found : get msg.registration_id k.registration ≡ some registration
    waits : registration.status ≡ awaiting_confirmation
    signer : x.string_to_bytes msg.confirmer ≡ some addr
    dest : x.string_to_bytes registration.derived_destination ≡ some addr
    unlinked : supersede_link x registration.steem_account k ≡ ok middle
    installed : k' ≡ install_link ctx addr registration middle

  confirm_name-Confirmed :
      (p : Params) (ctx : Context) (msg : MsgConfirmName) (k k' : NameStore)
      → confirm_name x ctx p msg k ≡ ok k'
      → Confirmed p ctx msg k k'
  unfolding confirm_name validate_name_confirmation
  confirm_name-Confirmed p ctx msg k k' e =
      elim (Option-cases (get msg.registration_id k.registration)) [
        | inl missing ↦ ground arith
        | inr (r, found) ↦ elim (Option-cases (x.string_to_bytes msg.confirmer)) [
          | inl bad ↦ ground arith
          | inr (addr, signer) ↦ elim (Option-cases (x.string_to_bytes r.derived_destination)) [
            | inl bad ↦ ground arith
            | inr (dest, decoded) ↦ elim (Result-cases (supersede_link x r.steem_account k)) [
              | inl (why, bad) ↦ ground arith
              | inr (middle, unlinked) ↦
                  let same : addr ≡ dest = ground (arith, bytes_beq_iff addr dest) in
                  record {
                    registration = r;
                    addr = addr;
                    middle = middle;
                    enabled = ground arith;
                    found = found;
                    waits = ground (arith, name_status_beq_iff r.status awaiting_confirmation);
                    signer = signer;
                    dest = ground arith;
                    unlinked = unlinked;
                    installed = ground arith;
                  }
            ]
          ]
        ]
      ]

  confirm_name-linked :
      (p : Params) (ctx : Context) (msg : MsgConfirmName) (k k' : NameStore)
      (agree : LinksAgree x k) (c : Confirmed p ctx msg k k') (account : Bytes)
      → linked_address x account k' ≡ (
          if bytes_beq account c.registration.steem_account
          then some c.addr
          else linked_address x account k)
  unfolding install_link linked_address resolve_name
  confirm_name-linked p ctx msg k k' agree c account =
      let r = c.registration in
      let u = supersede_link-Unlinked r.steem_account k c.middle agree c.unlinked in
      let link : NameRecord = record {
        steem_account = r.steem_account;
        address = r.derived_destination;
        registration_id = r.id;
        linked_at = ctx.block_height;
      } in
      ground
        (arith, c.dest, c.installed, u.forward, get-put account r.steem_account link k.active_name)

  -- A confirmation that succeeds is signed by the destination of a registration that waits for it,
  -- and links the registration's Steem account to that address; the link of every other account
  -- stays as it was. The links and their reverse index agree before.
  pub confirm_name_links :
      (p : Params) (ctx : Context) (msg : MsgConfirmName) (k k' : NameStore)
      → LinksAgree x k
      → confirm_name x ctx p msg k ≡ ok k'
      → (r : NameRegistration) × (addr : Bytes) × (get msg.registration_id k.registration ≡ some r)
        × (r.status ≡ awaiting_confirmation)
        × (x.string_to_bytes msg.confirmer ≡ some addr)
        × (x.string_to_bytes r.derived_destination ≡ some addr)
        × ((account : Bytes)
            → linked_address x account k' ≡ (
                if bytes_beq account r.steem_account
                then some addr
                else linked_address x account k))
  confirm_name_links p ctx msg k k' agree e =
      let c = confirm_name-Confirmed p ctx msg k k' e in
      (
        c.registration,
        c.addr,
        c.found,
        c.waits,
        c.signer,
        c.dest,
        confirm_name-linked p ctx msg k k' agree c,
      )

  -- A confirmation keeps the links and their reverse index in agreement, also where it replaces a
  -- link.
  pub confirm_name-LinksAgree :
      (p : Params) (ctx : Context) (msg : MsgConfirmName) (k k' : NameStore)
      → LinksAgree x k
      → confirm_name x ctx p msg k ≡ ok k'
      → LinksAgree x k'
  unfolding install_link resolve_name
  confirm_name-LinksAgree p ctx msg k k' agree e =
      let c = confirm_name-Confirmed p ctx msg k k' e in
      let r = c.registration in
      let u = supersede_link-Unlinked r.steem_account k c.middle agree c.unlinked in
      let link : NameRecord = record {
        steem_account = r.steem_account;
        address = r.derived_destination;
        registration_id = r.id;
        linked_at = ctx.block_height;
      } in
      let linked : (account : Bytes)
          → linked_address x account k' ≡ (
              if bytes_beq account r.steem_account
              then some c.addr
              else linked_address x account k) =
        confirm_name-linked p ctx msg k k' agree c in
      record {
        listed = λ addr account. ground (
          arith,
          c.installed,
          has-add_key (addr, account) (c.addr, r.steem_account) c.middle.active_name_by_address,
          u.reverse addr account,
          agree.listed addr account,
          linked account,
          pair_beq_iff (addr, account) (c.addr, r.steem_account),
          bytes_beq_iff account r.steem_account,
          bytes_beq_iff addr c.addr,
        );
        filed = λ account found_link found. ground (
          arith,
          c.dest,
          c.installed,
          u.forward,
          get-put account r.steem_account link k.active_name,
          bytes_beq_iff account r.steem_account,
          agree.filed account found_link,
        );
      }
