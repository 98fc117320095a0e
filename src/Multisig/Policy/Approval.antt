-- ===== src/Multisig/Policy/Approval.antt =====
-- What a signer has checked of a payout that it approves.
use steem_virtual_machine_ev.Prelude.{
  ℕ, ◌+◌, ◌%◌, ◌^◌, ◌≤◌, ◌≡◌, ◌⊎◌, inl, inr, arith, refl, true, false, Bytes, bytes_eq,
  bytes_beq_iff, nat_eq, codes, Option, some, Map, get, ok, err, Result-cases, Option-cases,
  Bool-cases,
}
use steem_virtual_machine_ev.SteemTx.Asset.{format_milli}
use steem_virtual_machine_ev.Multisig.Payout.{Transfer}
use steem_virtual_machine_ev.Multisig.Journal.{ApprovalJournal, subject_of, conflicts}
use steem_virtual_machine_ev.Multisig.Policy.{
  Decision, abstain, approve, deny, Config, Withdrawal, SvmState, Proposal, View, Query, unreadable,
  not_found, found, is_approve, is_paid, requested_withdrawal, compare_payout, payout_facts,
  review_transfer,
}

Query-cases :
    (q : Query) → ((q ≡ unreadable) ⊎ (q ≡ not_found)) ⊎ ((w : Withdrawal) × (q ≡ found w))
Query-cases unreadable = inl (inl refl)
Query-cases not_found = inl (inr refl)
Query-cases (found w) = inr (w, refl)

is_approve-approve : (d : Decision) → is_approve d ≡ true → d ≡ approve
unfolding is_approve
is_approve-approve abstain h = ground arith
is_approve-approve approve h = refl
is_approve-approve deny h = ground arith

is_approve-refuted : (d : Decision) → d ≡ approve → is_approve d ≡ false → ⊥
unfolding is_approve
is_approve-refuted abstain e h = ground arith
is_approve-refuted approve e h = ground arith
is_approve-refuted deny e h = ground arith

module _ (parse_time : Bytes → Option ℕ) (query : ℕ → Query) (cfg : Config) where
  -- The withdrawal is one that the chain reports as requested.
  unfoldable pub IsRequested : SvmState → ℕ → Withdrawal → Type 0
  IsRequested st id w =
      (get id st.requested ≡ some w) ⊎ ((query id ≡ found w) × (w.status ≡ codes "REQUESTED"))

  requested_withdrawal-IsRequested :
      (st : SvmState) (id : ℕ) (w : Withdrawal)
      → requested_withdrawal parse_time query cfg st id ≡ ok w
      → IsRequested st id w
  unfolding requested_withdrawal IsRequested
  requested_withdrawal-IsRequested st id w h = elim (Option-cases (get id st.requested)) [
    | inr (w', there) ↦ ground arith
    | inl missing ↦ elim (Query-cases (query id)) [
      | inl (inl bad) ↦ ground arith
      | inl (inr bad) ↦ ground arith
      | inr (w', there) ↦ ground (arith, bytes_beq_iff w'.status (codes "REQUESTED"))
    ]
  ]

  requested_withdrawal-refused :
      (st : SvmState) (id : ℕ) (d : Decision)
      → requested_withdrawal parse_time query cfg st id ≡ err d
      → is_approve d ≡ false
  unfolding requested_withdrawal is_approve
  requested_withdrawal-refused st id d h = elim (Option-cases (get id st.requested)) [
    | inr (w', there) ↦ ground arith
    | inl missing ↦ elim (Query-cases (query id)) [
      | inl (inl bad) ↦ ground arith
      | inl (inr bad) ↦ ground arith
      | inr (w', there) ↦ ground arith
    ]
  ]

  -- The transfer pays the withdrawal exactly, well before its refund.
  unfoldable pub PaysExactly : Transfer → Withdrawal → SvmState → Type 0
  PaysExactly t w st =
      (t.dest ≡ w.destination)
      × (t.amount ≡ format_milli w.amount_milli w.symbol)
      × (t.memo ≡ w.memo)
      × ((st.height + cfg.payout_margin_blocks) % 2 ^ 64 ≤ (w.created_at + st.timeout) % 2 ^ 64)

  compare_payout-PaysExactly :
      (t : Transfer) (w : Withdrawal) (st : SvmState)
      → compare_payout parse_time query cfg t w st ≡ approve
      → PaysExactly t w st
  unfolding compare_payout PaysExactly
  compare_payout-PaysExactly t w st h = ground (
    arith,
    bytes_beq_iff t.dest w.destination,
    bytes_beq_iff t.memo w.memo,
    bytes_beq_iff t.amount (format_milli w.amount_milli w.symbol),
  )

  payout_facts-PaysExactly :
      (t : Transfer) (id : ℕ) (v : View) (st : SvmState)
      → payout_facts parse_time query cfg t id v st ≡ approve
      → (t.source ≡ cfg.bank_account)
        × (is_paid v.paid id ≡ false)
        × (w : Withdrawal) × IsRequested st id w
        × PaysExactly t w st
  unfolding payout_facts is_approve
  payout_facts-PaysExactly t id v st h =
      elim (Result-cases (requested_withdrawal parse_time query cfg st id)) [
        | inl (d, refused) ↦
            let no = requested_withdrawal-refused st id d refused in
            ground (arith, bytes_beq_iff t.source cfg.bank_account)
        | inr (w, here) ↦
            let agrees : compare_payout parse_time query cfg t w st ≡ approve = ground arith in
            (
              ground (arith, bytes_beq_iff t.source cfg.bank_account),
              ground arith,
              w,
              requested_withdrawal-IsRequested st id w here,
              compare_payout-PaysExactly t w st agrees,
            )
      ]

  -- A payout that the review approves is from the gateway's account, of a withdrawal that the
  -- history does not show as paid and that the chain reports as requested, to its destination,
  -- with its net amount and memo, with the margin left before its refund in 64-bit arithmetic,
  -- and without a conflict in the journal.
  pub review_transfer-PaysExactly :
      (journal : Option ApprovalJournal) (prop : Proposal) (t : Transfer) (id : ℕ) (v : View)
      (st : SvmState) (my_votes : Map Bytes ℕ)
      → review_transfer parse_time query cfg journal prop t id v st my_votes ≡ approve
      → (conflicts parse_time journal (subject_of prop.tx.operations) prop.id v.now ≡ false)
        × (t.source ≡ cfg.bank_account)
        × (is_paid v.paid id ≡ false)
        × (w : Withdrawal) × IsRequested st id w
        × PaysExactly t w st
  unfolding review_transfer
  review_transfer-PaysExactly journal prop t id v st my_votes h =
      elim (Bool-cases (is_approve (payout_facts parse_time query cfg t id v st))) [
        | inl approved ↦
            let same = is_approve-approve (payout_facts parse_time query cfg t id v st) approved in
            let (from_bank, unpaid, w, requested, pays) = payout_facts-PaysExactly t id v st same in
            (ground arith, from_bank, unpaid, w, requested, pays)
        | inr refused ↦
            let same : payout_facts parse_time query cfg t id v st ≡ approve = ground arith in
            elim (is_approve-refuted (payout_facts parse_time query cfg t id v st) same refused) [ ]
      ]
