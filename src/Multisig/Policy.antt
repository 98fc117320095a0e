-- ===== src/Multisig/Policy.antt =====
-- oracle/go/multisig/policy.go: the review of a proposal that pays a withdrawal.
pub mod Approval
use steem_virtual_machine_ev.Prelude.{
  ℕ, ◌+◌, ◌%◌, ◌^◌, ltb, ◌=?◌, ◌==◌, if◌then◌else◌, Bool, true, false, not, ◌&&◌, ◌||◌, Bytes,
  bytes_eq, nat_eq, List, [], ◌∷◌, codes, Option, none, some, Map, get, Result, ok, err,
}
use steem_virtual_machine_ev.SteemTx.Asset.{parse_asset, format_milli}
use steem_virtual_machine_ev.Multisig.Payout.{Transaction, Transfer, format_uint, payout_of}
use steem_virtual_machine_ev.Multisig.Journal.{ApprovalJournal, subject_of, conflicts}

pub data Decision : Type 0 where
  abstain approve deny : Decision

pub data Status : Type 0 where
  open_status ready rejected expired executed : Status

-- The parts of `Config` that the review of a payout reads.
pub record Config : Type 0 where
  pub bank_account : Bytes
  pub payout_margin_blocks : ℕ
  pub max_per_tx_milli : Map Bytes ℕ

pub record Withdrawal : Type 0 where
  pub destination : Bytes
  pub amount_milli : ℕ
  pub symbol : Bytes
  pub memo : Bytes
  pub created_at : ℕ
  pub status : Bytes

pub record SvmState : Type 0 where
  pub height : ℕ
  pub timeout : ℕ
  pub requested : Map ℕ Withdrawal

pub record Proposal : Type 0 where
  pub id : Bytes
  pub tx : Transaction
  pub status : Status

-- `View`, with `HistoryIndex.Paid` for the history.
pub record View : Type 0 where
  pub now : ℕ
  pub paid : Map Bytes Bytes
  pub proposals : List Proposal

-- `SVM.Withdrawal`, a query of the chain: it may fail, and it may find nothing.
pub data Query : Type 0 where
  unreadable not_found : Query
  found : Withdrawal → Query

-- `Status` tests: `Live`, and the comparison with `Expired`.
unfoldable pub is_live : Status → Bool
is_live open_status = true
is_live ready = true
is_live rejected = false
is_live expired = false
is_live executed = false

unfoldable pub is_expired : Status → Bool
is_expired open_status = false
is_expired ready = false
is_expired rejected = false
is_expired expired = true
is_expired executed = false

unfoldable pub is_approve : Decision → Bool
is_approve abstain = false
is_approve approve = true
is_approve deny = false

unfoldable pub is_paid : Map Bytes Bytes → ℕ → Bool
unfolding format_uint get
is_paid paid id = elim (get (format_uint id) paid) [ none ↦ false | some trx ↦ true ]

-- A vote's `A`, 1 for an approval.
unfoldable pub has_approved : Map Bytes ℕ → Bytes → Bool
unfolding get
has_approved my_votes id = elim (get id my_votes) [ none ↦ false | some a ↦ a == 1 ]

unfoldable pub over_cap : Config → Bytes → Bool
unfolding get parse_asset
over_cap cfg amount = elim (parse_asset amount) [
  | err why ↦ false
  | ok a ↦ elim (get a.symbol cfg.max_per_tx_milli) [
    | none ↦ false
    | some cap ↦ ltb 0 cap && ltb cap a.amount
  ]
]

module _ (parse_time : Bytes → Option ℕ) (query : ℕ → Query) (cfg : Config) where
  unfoldable pub requested_withdrawal : SvmState → ℕ → Result Decision Withdrawal
  unfolding get
  requested_withdrawal st id = elim (get id st.requested) [
    | some w ↦ ok w
    | none ↦ elim (query id) [
      | unreadable ↦ err abstain
      | not_found ↦ err abstain
      | found w ↦ if w.status =? codes "REQUESTED" then ok w else err deny
    ]
  ]

  unfoldable pub compare_payout : Transfer → Withdrawal → SvmState → Decision
  unfolding format_milli
  compare_payout t w st =
      if not (t.dest =? w.destination)
      then deny
      else if not (t.amount =? format_milli w.amount_milli w.symbol)
      then deny
      else if not (t.memo =? w.memo)
      then deny
      else if ltb ((w.created_at + st.timeout) % 2 ^ 64)
          ((st.height + cfg.payout_margin_blocks) % 2 ^ 64)
      then deny
      else approve

  unfoldable pub payout_facts : Transfer → ℕ → View → SvmState → Decision
  unfolding is_paid requested_withdrawal compare_payout
  payout_facts t id v st =
      if not (t.source =? cfg.bank_account)
      then deny
      else if is_paid v.paid id
      then deny
      else elim (requested_withdrawal st id) [ err d ↦ d | ok w ↦ compare_payout t w st ]

  -- A proposal of the list for the same withdrawal that this signer has approved.
  unfoldable pub blocks : Proposal → ℕ → Map Bytes ℕ → Proposal → Bool
  unfolding payout_of is_expired has_approved
  blocks prop id my_votes q = elim (payout_of q.tx.operations cfg.bank_account) [
    | none ↦ false
    | some (qt, qid) ↦
        qid == id
        && (not (q.id =? prop.id) && (not (is_expired q.status) && has_approved my_votes q.id))
  ]

  unfoldable pub next_earliest : ℕ → View → SvmState → Bytes → Proposal → Bytes
  unfolding payout_of is_live is_approve payout_facts
  next_earliest id v st earliest q = elim (payout_of q.tx.operations cfg.bank_account) [
    | none ↦ earliest
    | some (qt, qid) ↦
        if qid == id
          && (earliest =? [] && (is_live q.status && is_approve (payout_facts qt qid v st)))
        then q.id
        else earliest
  ]

  -- The loop over the proposals: `none` where it returns.
  unfoldable pub find_earliest :
      Proposal → ℕ → View → SvmState → Map Bytes ℕ → Bytes → List Proposal → Option Bytes
  unfolding blocks next_earliest
  find_earliest prop id v st my_votes earliest [] = some earliest
  find_earliest prop id v st my_votes earliest (q ∷ qs) =
      let rest = find_earliest prop id v st my_votes (next_earliest id v st earliest q) qs in
      if blocks prop id my_votes q then none else rest

  unfoldable pub review_transfer :
      Option ApprovalJournal → Proposal → Transfer → ℕ → View → SvmState → Map Bytes ℕ → Decision
  unfolding payout_facts is_approve over_cap conflicts subject_of find_earliest
  review_transfer journal prop t id v st my_votes =
      let d = payout_facts t id v st in
      if not (is_approve d)
      then d
      else if over_cap cfg t.amount
      then abstain
      else if conflicts parse_time journal (subject_of prop.tx.operations) prop.id v.now
      then abstain
      else elim (find_earliest prop id v st my_votes [] v.proposals) [
        | none ↦ abstain
        | some earliest ↦ if earliest =? prop.id then approve else abstain
      ]
