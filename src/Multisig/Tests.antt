-- ===== src/Multisig/Tests.antt =====
-- The apportionment at three stakes, one of them too small for a point of its own, and two
-- proposals that pay one withdrawal.
use steem_virtual_machine_ev.Prelude.{
  ◌*◌, ◌≡◌, ◌≤◌, ◌<◌, refl, arith, List, [], ◌∷◌, length, take, map, All, codes, ok, err, bytes_eq,
  has, bytes_beq, ◌+◌, true, false,
}
use steem_virtual_machine_ev.Prelude.{ℕ, Bytes, Option, some, get, arith}
use steem_virtual_machine_ev.Multisig.Payout.{
  Transaction, Transfer, payout_ops, payout_of, parse_uint64,
}
use steem_virtual_machine_ev.Multisig.Payout.RoundTrip.{payout_of-payout_ops}
use steem_virtual_machine_ev.Multisig.Journal.{JournalEntry, conflicts, subject_of, payout_subject}
use steem_virtual_machine_ev.Multisig.Journal.Passes.{
  SignerState, fresh_signer, sign_approval, Passes, Passes-one_live, start, vote, propose_payout,
  wait,
}
use steem_virtual_machine_ev.Multisig.Policy.{
  Decision, approve, deny, abstain, open_status, Config, Withdrawal, SvmState, Proposal, View,
  not_found, is_paid, review_transfer,
}
use steem_virtual_machine_ev.Multisig.Policy.Approval.{
  IsRequested, PaysExactly, review_transfer-PaysExactly,
}
use steem_virtual_machine_ev.SteemTx.Authority.{Authority, total}
use steem_virtual_machine_ev.Multisig.Apportion.{
  StakeEntry, non_negative_int, nil_int, duplicate_account, stake_of, apportion, exceeds_tolerance,
}
use steem_virtual_machine_ev.Multisig.Apportion.Total.{staked, apportion_succeeds}

abbrev entries : List StakeEntry
entries =
    record { account = codes "carol"; tokens = non_negative_int 1 }
    ∷ record { account = codes "dave"; tokens = nil_int }
    ∷ record { account = codes "alice"; tokens = non_negative_int 200000 }
    ∷ record { account = codes "bob"; tokens = non_negative_int 100000 }
    ∷ []

abbrev authority : Authority
authority = elim (apportion entries 75) [
  | ok a ↦ a
  | err e ↦ record { weight_threshold = 0; account_auths = []; key_auths = [] }
]

abbrev half_each : Authority
half_each = record authority {
  account_auths =
      record { name = codes "alice"; weight = 4998 }
      ∷ record { name = codes "bob"; weight = 5001 }
      ∷ record { name = codes "carol"; weight = 1 }
      ∷ [];
}

-- carol's point is taken from alice.
authority-weights :
    (map (λ a. a.weight) authority.account_auths ≡ 6666 ∷ 3333 ∷ 1 ∷ [])
    × (authority.weight_threshold ≡ 7500)
unfolding apportion has bytes_beq
authority-weights = (refl, refl)

apportion-duplicate :
    apportion (record { account = codes "bob"; tokens = non_negative_int 5 } ∷ entries) 75
    ≡ err duplicate_account
unfolding apportion has bytes_beq
apportion-duplicate = refl

-- No proposal for the authority that is in place; one for a stake that moved by more than the tolerance.
exceeds_tolerance-cases :
    (exceeds_tolerance authority authority 0 ≡ false)
    × (exceeds_tolerance authority half_each 1000 ≡ true)
unfolding apportion exceeds_tolerance has bytes_beq
exceeds_tolerance-cases = (refl, refl)

apportion_succeeds_example :
    (a : Authority) × (apportion entries 75 ≡ ok a)
    × (total a ≡ 10000)
    × All (λ x. 1 ≤ x.weight) a.account_auths
    × (length a.account_auths ≡ length (take 40 (staked entries)))
    × (10000 * 75 ≤ a.weight_threshold * 100)
    × (a.weight_threshold * 100 < 10000 * 75 + 100)
    × (a.weight_threshold ≤ total a)
unfolding staked stake_of has bytes_beq
apportion_succeeds_example =
    apportion_succeeds entries 75 (omega arith) (omega arith) (refl, (refl, (refl, tt)))
      (omega arith)

-- Times as seconds in digits.
abbrev clock : Bytes → Option ℕ
clock = parse_uint64

abbrev payout_at : Bytes → Transaction
payout_at expiration = record {
  ref_block_num = 1;
  ref_block_prefix = 2;
  expiration = expiration;
  operations = payout_ops (codes "svm.bank") (codes "alice") (codes "1.000 SBD") (codes "hi") 507;
}

abbrev first_payout : SignerState
first_payout = record (sign_approval fresh_signer (codes "aa") (payout_at (codes "3600"))) {
  time = 4000;
}

-- The second proposal for the same withdrawal is approved once the first one has expired.
abbrev second_payout : SignerState
second_payout = sign_approval first_payout (codes "bb") (payout_at (codes "7600"))

first_payout-blocks :
    (conflicts clock (some first_payout.journal) (payout_subject 507) [] 3599 ≡ true)
    × (conflicts clock (some first_payout.journal) (payout_subject 507) (codes "aa") 3599 ≡ false)
    × (conflicts clock (some first_payout.journal) (payout_subject 508) [] 3599 ≡ false)
unfolding sign_approval fresh_signer conflicts payout_ops bytes_beq subject_of payout_subject
first_payout-blocks = (refl, refl, refl)

payout_of-payout_ops_example :
    payout_of
      (payout_ops (codes "svm.bank") (codes "alice") (codes "1.000 SBD") (codes "hi") 507)
      (codes "svm.bank")
    ≡ some (
      record {
        source = codes "svm.bank";
        dest = codes "alice";
        amount = codes "1.000 SBD";
        memo = codes "hi";
      },
      507,
    )
payout_of-payout_ops_example =
    payout_of-payout_ops (codes "svm.bank") (codes "alice") (codes "1.000 SBD") (codes "hi") 507
      (omega arith)

second_payout-Passes : Passes clock second_payout
unfolding sign_approval fresh_signer conflicts payout_ops bytes_beq subject_of payout_subject
second_payout-Passes =
    vote first_payout 3700 (codes "bb") (payout_at (codes "7600"))
      (wait (sign_approval fresh_signer (codes "aa") (payout_at (codes "3600"))) 4000
        (propose_payout fresh_signer 0 (codes "aa") (payout_at (codes "3600")) (codes "svm.bank")
          (codes "alice") (codes "1.000 SBD") (codes "hi") 507 start (omega arith)
          (λ e. ground arith) (omega arith) refl refl)
        (omega arith))
      (omega arith) (λ e. ground arith) refl

abbrev payout_entry : JournalEntry
payout_entry = record { subject = codes "withdrawal:507"; expiration = codes "7600" }

Passes-one_live_example : codes "bb" ≡ codes "bb"
unfolding sign_approval fresh_signer conflicts payout_ops bytes_beq subject_of payout_subject get
Passes-one_live_example =
    Passes-one_live clock second_payout (codes "bb") (codes "bb") payout_entry payout_entry
      second_payout-Passes refl refl refl (λ e. ground arith) refl refl

-- The payout of withdrawal 507 beside an earlier proposal with another amount.
abbrev config : Config
config = record {
  bank_account = codes "svm.bank";
  payout_margin_blocks = 14400;
  max_per_tx_milli = (codes "SBD", 5000) ∷ [];
}

abbrev svm_state : SvmState
svm_state = record {
  height = 1000;
  timeout = 20000;
  requested =
      (
        507,
        record {
          destination = codes "alice";
          amount_milli = 1000;
          symbol = codes "SBD";
          memo = codes "hi";
          created_at = 900;
          status = codes "REQUESTED";
        },
      )
      ∷ [];
}

abbrev payout_proposal : Bytes → Bytes → Proposal
payout_proposal id amount = record {
  id = id;
  tx = record (payout_at (codes "7600")) {
    operations = payout_ops (codes "svm.bank") (codes "alice") amount (codes "hi") 507;
  };
  status = open_status;
}

abbrev view : View
view = record {
  now = 3700;
  paid = [];
  proposals =
      payout_proposal (codes "cc") (codes "2.000 SBD")
      ∷ payout_proposal (codes "bb") (codes "1.000 SBD")
      ∷ payout_proposal (codes "dd") (codes "1.000 SBD")
      ∷ [];
}

abbrev payout_transfer : Bytes → Transfer
payout_transfer amount = record {
  source = codes "svm.bank";
  dest = codes "alice";
  amount = amount;
  memo = codes "hi";
}

abbrev review : Bytes → Bytes → Decision
review id amount =
    review_transfer clock (λ i. not_found) config (some first_payout.journal)
      (payout_proposal id amount) (payout_transfer amount) 507 view svm_state []

review-cases :
    (review (codes "bb") (codes "1.000 SBD") ≡ approve)
    × (review (codes "cc") (codes "2.000 SBD") ≡ deny)
    × (review (codes "dd") (codes "1.000 SBD") ≡ abstain)
unfolding sign_approval fresh_signer review_transfer payout_ops bytes_beq
review-cases = (refl, refl, refl)

review_transfer-PaysExactly_example :
    (conflicts clock
        (some first_payout.journal)
        (subject_of (payout_proposal (codes "bb") (codes "1.000 SBD")).tx.operations)
        (codes "bb")
        3700
      ≡ false)
    × (codes "svm.bank" ≡ codes "svm.bank")
    × (is_paid [] 507 ≡ false)
    × (w : Withdrawal) × IsRequested clock (λ i. not_found) config svm_state 507 w
    × PaysExactly clock (λ i. not_found) config (payout_transfer (codes "1.000 SBD")) w svm_state
review_transfer-PaysExactly_example =
    review_transfer-PaysExactly clock (λ i. not_found) config (some first_payout.journal)
      (payout_proposal (codes "bb") (codes "1.000 SBD")) (payout_transfer (codes "1.000 SBD")) 507
      view svm_state [] review-cases.0
