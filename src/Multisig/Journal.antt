-- ===== src/Multisig/Journal.antt =====
-- oracle/go/multisig/journal.go: the record of the approvals that a signer has signed.
pub mod Live
pub mod Passes
use steem_virtual_machine_ev.Prelude.{
  ℕ, ◌+◌, ◌*◌, ◌^◌, ltb, ◌=?◌, if◌then◌else◌, Bool, true, false, not, ◌&&◌, ◌||◌, Bytes, bytes_beq,
  bytes_eq, List, [], ◌∷◌, ◌++◌, codes, Option, none, some, Map, put,
}
use steem_virtual_machine_ev.SteemTx.Encoding.{
  Operation, transfer, transfer_to_vesting, withdraw_vesting, account_update, custom_json,
  change_recovery_account, account_update2,
}
use steem_virtual_machine_ev.Multisig.Payout.{
  Transaction, Transfer, format_uint, transfer_of, payout_of,
}

pub record JournalEntry : Type 0 where
  pub subject : Bytes
  pub expiration : Bytes

-- `ApprovalJournal.Approvals`, by the proposal's identifier.
abbrev pub ApprovalJournal : Type 0
ApprovalJournal = Map Bytes JournalEntry

-- 72 hours in nanoseconds.
abbrev pub prune_after : ℕ
prune_after = 72 * 3600 * 10 ^ 9

unfoldable pub payout_subject : ℕ → Bytes
unfolding format_uint
payout_subject id = codes "withdrawal:" ++ format_uint id

unfoldable pub update_subject : Operation Bytes → Bytes
update_subject (transfer source dest amount memo) = []
update_subject (transfer_to_vesting source dest amount) = []
update_subject (withdraw_vesting account shares) = []
update_subject (account_update account owner active posting memo_key json) =
    codes "account_update:" ++ account
update_subject (custom_json auths posting id json) = []
update_subject (change_recovery_account account agent) = []
update_subject (account_update2 account owner active posting memo_key json posting_json) = []

-- A payout is one by the sender of its own transfer.
unfoldable pub pair_subject : List (Operation Bytes) → Option Transfer → Bytes
unfolding payout_of payout_subject
pair_subject ops none = []
pair_subject ops (some t) = elim (payout_of ops t.source) [
  | none ↦ []
  | some (t', id) ↦ payout_subject id
]

-- `SubjectOf` of a transaction's operations.
unfoldable pub subject_of : List (Operation Bytes) → Bytes
unfolding update_subject pair_subject transfer_of
subject_of [] = []
subject_of (a ∷ []) = update_subject a
subject_of (a ∷ b ∷ []) = pair_subject (a ∷ b ∷ []) (transfer_of a)
subject_of (a ∷ b ∷ c ∷ ops) = []

unfoldable pub record_approval : ApprovalJournal → Bytes → Transaction → ApprovalJournal
unfolding subject_of put
record_approval j id tx =
    put id record { subject = subject_of tx.operations; expiration = tx.expiration } j

-- `time.Parse` by the layout of Steem's times, in nanoseconds.
module _ (parse_time : Bytes → Option ℕ) where
  -- A time that does not parse counts as one still to come.
  unfoldable pub can_execute : ℕ → JournalEntry → Bool
  can_execute now e = elim (parse_time e.expiration) [ none ↦ true | some exp ↦ ltb now exp ]

  unfoldable pub any_conflict : ApprovalJournal → Bytes → Bytes → ℕ → Bool
  unfolding can_execute
  any_conflict [] subject id now = false
  any_conflict ((pid, e) ∷ j) subject id now =
      (not (pid =? id) && ((e.subject =? subject) && can_execute now e))
      || any_conflict j subject id now

  -- The signer always has a journal; `none` is the nil pointer.
  unfoldable pub conflicts : Option ApprovalJournal → Bytes → Bytes → ℕ → Bool
  unfolding any_conflict
  conflicts none subject id now = false
  conflicts (some j) subject id now =
      if bytes_beq subject [] then false else any_conflict j subject id now

  unfoldable pub is_stale : ℕ → JournalEntry → Bool
  is_stale now e = elim (parse_time e.expiration) [
    | none ↦ false
    | some exp ↦ ltb (exp + prune_after) now
  ]

  unfoldable pub prune : ApprovalJournal → ℕ → ApprovalJournal
  unfolding is_stale
  prune [] now = []
  prune ((id, e) ∷ j) now =
      let rest = prune j now in if is_stale now e then rest else (id, e) ∷ rest
