-- ===== src/Multisig/Journal/Passes.antt =====
-- The approvals that a signer signs over its passes, beside its journal. `signed` is the journal as
-- it would be without any pruning. The source checks what it proposes in a pass before it records
-- any of it; those are of different subjects, so that each check is the same right before its record.
use steem_virtual_machine_ev.Prelude.{
  ℕ, ◌+◌, ◌^◌, ◌≤◌, ◌<◌, ◌≡◌, ◌≢◌, arith, refl, false, true, Bytes, bytes_eq, bytes_beq_iff, [],
  ◌∷◌, ◌++◌, codes, Option, none, some, get, get-put,
}
use steem_virtual_machine_ev.Multisig.Payout.{Transaction, payout_ops}
use steem_virtual_machine_ev.Multisig.Payout.RoundTrip.{payout_of-payout_ops}
use steem_virtual_machine_ev.SteemTx.Authority.{Authority}
use steem_virtual_machine_ev.SteemTx.Encoding.{account_update}
use steem_virtual_machine_ev.Multisig.Journal.{
  JournalEntry, ApprovalJournal, subject_of, pair_subject, payout_subject, record_approval,
  can_execute, conflicts, prune, prune_after,
}
use steem_virtual_machine_ev.Multisig.Journal.Live.{
  OneLive, can_execute-earlier, checked_alone, put-OneLive, get-prune,
}

-- The time is the true time of Steem, which a node that lags may not have seen.
pub record SignerState : Type 0 where
  pub signed : ApprovalJournal
  pub journal : ApprovalJournal
  pub time : ℕ

unfoldable pub fresh_signer : SignerState
fresh_signer = record { signed = []; journal = []; time = 0 }

unfoldable pub sign_approval : SignerState → Bytes → Transaction → SignerState
unfolding record_approval
sign_approval s id tx = record s {
  signed = record_approval s.signed id tx;
  journal = record_approval s.journal id tx;
}

subject_of-payout_ops :
    (bank dest amount memo : Bytes) (id : ℕ)
    → id < 2 ^ 64
    → subject_of (payout_ops bank dest amount memo id) ≡ payout_subject id
unfolding subject_of payout_ops
subject_of-payout_ops bank dest amount memo id h =
    rw (pair_subject, payout_of-payout_ops bank dest amount memo id h) refl

module _ (parse_time : Bytes → Option ℕ) where
  -- A vote for a proposal and the two proposals of the signer's own, which are checked against every
  -- approval of the withdrawal or of the account, each by the head time of a node that may lag; a prune, by a clock that is ahead by the
  -- margin at most; time that passes.
  pub data Passes : SignerState → Type 0 where
    start : Passes fresh_signer
    vote :
        (s : SignerState) (now : ℕ) (id : Bytes) (tx : Transaction)
        → Passes s
        → now ≤ s.time
        → id ≢ []
        → conflicts parse_time (some s.journal) (subject_of tx.operations) id now ≡ false
        → Passes (sign_approval s id tx)
    propose_payout :
        (s : SignerState) (now : ℕ) (id : Bytes) (tx : Transaction) (bank dest amount memo : Bytes)
        (withdrawal : ℕ)
        → Passes s
        → now ≤ s.time
        → id ≢ []
        → withdrawal < 2 ^ 64
        → tx.operations ≡ payout_ops bank dest amount memo withdrawal
        → conflicts parse_time (some s.journal) (payout_subject withdrawal) [] now ≡ false
        → Passes (sign_approval s id tx)
    propose_update :
        (s : SignerState) (now : ℕ) (id : Bytes) (tx : Transaction) (bank memo_key json : Bytes)
        (owner active posting : Option Authority)
        → Passes s
        → now ≤ s.time
        → id ≢ []
        → tx.operations ≡ account_update bank owner active posting memo_key json ∷ []
        → conflicts parse_time (some s.journal) (codes "account_update:" ++ bank) [] now ≡ false
        → Passes (sign_approval s id tx)
    prune_journal :
        (s : SignerState) (now : ℕ)
        → Passes s
        → now ≤ s.time + prune_after
        → Passes (record s { journal = prune parse_time s.journal now })
    wait :
        (s : SignerState) (later : ℕ)
        → Passes s
        → s.time ≤ later
        → Passes (record s { time = later })

  record Sound (s : SignerState) : Type 0 where
    one : OneLive parse_time s.signed s.time
    kept :
        (p : Bytes) (e : JournalEntry)
        → get p s.signed ≡ some e
        → can_execute parse_time s.time e ≡ true
        → get p s.journal ≡ some e
    named : get [] s.signed ≡ none

  sign_approval-Sound :
      (s : SignerState) (now : ℕ) (id checked : Bytes) (tx : Transaction)
      → Sound s
      → now ≤ s.time
      → id ≢ []
      → ((p : Bytes) → p ≢ [] → p ≡ checked → p ≡ id)
      → conflicts parse_time (some s.journal) (subject_of tx.operations) checked now ≡ false
      → Sound (sign_approval s id tx)
  unfolding sign_approval record_approval
  sign_approval-Sound s now id checked tx sound le has_name same free = record {
    one = put-OneLive parse_time s.signed s.time id v alone sound.one;
    kept = λ p e held live.
        ground (arith, get-put p id v s.signed, get-put p id v s.journal, sound.kept p e);
    named = ground (arith, get-put [] id v s.signed, bytes_beq_iff [] id, sound.named);
  }
    where
      v : JournalEntry
      v = record { subject = subject_of tx.operations; expiration = tx.expiration }

      alone :
          (p : Bytes) (e : JournalEntry)
          → get p s.signed ≡ some e
          → e.subject ≡ subject_of tx.operations
          → e.subject ≢ []
          → can_execute parse_time s.time e ≡ true
          → p ≡ id
      alone p e held eq some_subject live =
          let has_name' : p ≢ [] = λ at. ground (arith, sound.named) in
          same p has_name' (
            checked_alone parse_time s.journal s.time now (subject_of tx.operations) checked p e le
              free (sound.kept p e held live) eq some_subject live)

  propose-Sound :
      (s : SignerState) (now : ℕ) (id subject : Bytes) (tx : Transaction)
      → Sound s
      → now ≤ s.time
      → id ≢ []
      → subject_of tx.operations ≡ subject
      → conflicts parse_time (some s.journal) subject [] now ≡ false
      → Sound (sign_approval s id tx)
  propose-Sound s now id subject tx sound le has_name same free =
      sign_approval-Sound s now id [] tx sound le has_name (λ p ne eq. elim (ne eq) [ ])
        (rw (same) free)

  Passes-Sound : (s : SignerState) → Passes s → Sound s
  unfolding fresh_signer get subject_of
  Passes-Sound s start = record {
    one = λ p q e f hp hq same named live_e live_f. ground arith;
    kept = λ p e held live. held;
    named = refl;
  }
  Passes-Sound s' (vote s now id tx before le has_name free) =
      sign_approval-Sound s now id id tx (Passes-Sound s before) le has_name (λ p ne eq. eq) free
  Passes-Sound s'
        (propose_payout s now id tx bank dest amount memo withdrawal before le has_name bound ops
          free) =
      let subject : subject_of tx.operations ≡ payout_subject withdrawal =
        rw (ops) (subject_of-payout_ops bank dest amount memo withdrawal bound) in
      propose-Sound s now id (payout_subject withdrawal) tx (Passes-Sound s before) le has_name
        subject free
  Passes-Sound s'
        (propose_update s now id tx bank memo_key json owner active posting before le has_name ops
          free) =
      let subject : subject_of tx.operations ≡ codes "account_update:" ++ bank = rw (ops) refl in
      propose-Sound s now id (codes "account_update:" ++ bank) tx (Passes-Sound s before) le
        has_name subject free
  Passes-Sound s' (prune_journal s now before le) =
      let sound = Passes-Sound s before in
      record {
        one = sound.one;
        kept = λ p e held live.
            get-prune parse_time p now s.time e s.journal le (sound.kept p e held live) live;
        named = sound.named;
      }
  Passes-Sound s' (wait s later before le) =
      let sound = Passes-Sound s before in
      record {
        one = λ p q e f hp hq same named live_e live_f.
            sound.one p q e f hp hq same named
              (can_execute-earlier parse_time s.time later e le live_e)
              (can_execute-earlier parse_time s.time later f le live_f);
        kept = λ p e held live.
            sound.kept p e held (can_execute-earlier parse_time s.time later e le live);
        named = sound.named;
      }

  -- Of all approvals that a signer has signed, the pruned ones too, no two of one subject for
  -- different proposals can both still execute, after any votes, proposals and prunes, with head
  -- times that may lag and prunes by a clock that is ahead by 72 hours at most.
  pub Passes-one_live :
      (s : SignerState) (p q : Bytes) (e f : JournalEntry)
      → Passes s
      → get p s.signed ≡ some e
      → get q s.signed ≡ some f
      → e.subject ≡ f.subject
      → e.subject ≢ []
      → can_execute parse_time s.time e ≡ true
      → can_execute parse_time s.time f ≡ true
      → p ≡ q
  Passes-one_live s p q e f run held_p held_q same named live_e live_f =
      Sound.one (Passes-Sound s run) p q e f held_p held_q same named live_e live_f
