-- ===== src/Bridge/Duty.antt =====
-- x/oracle/bridge/keeper/oracle_report.go: the report of the events that were finalized in a block
-- to the slashing engine of x/oracle.
pub mod Laws
use steem_virtual_machine_ev.Prelude.{
  ℕ, ◌≡◌, if◌then◌else◌, Bool, true, false, Bytes, List, [], ◌∷◌, Option, none, some, Map, KeySet,
  nat_eq, bytes_eq, get, Result, ok, err, ◌>>=◌, or_err,
}
use steem_virtual_machine_ev.Oracle.Duty.{Tallies, record_bridge_event}
use steem_virtual_machine_ev.Bridge.State.{
  Error, not_found, invalid_address, Confirmation, Deposit, Withdrawal, BridgeDutyKind,
  duty_deposit, duty_withdrawal, Store, External,
}

-- The operators that the confirmations name; one that does not decode is passed over.
unfoldable pub attesters : External → List Confirmation → List Bytes
attesters x [] = []
attesters x (c ∷ cs) = elim (x.val_from_bech32 c.validator_address) [
  | none ↦ attesters x cs
  | some addr ↦ addr ∷ attesters x cs
]

unfoldable pub confirmations_of :
    {Bank : Type 0} → Store Bank → BridgeDutyKind → ℕ → Result Error (List Confirmation)
confirmations_of s duty_deposit i =
    or_err (get i s.deposits.deposit) not_found >>= λ d. ok d.validator_confirmations
confirmations_of s duty_withdrawal i =
    or_err (get i s.withdrawals.withdrawal) not_found >>= λ w. ok w.validator_confirmations

-- The slashing engine's part, by the staking keeper's bonded operators and their codec. Nothing is
-- reported if the engine is not wired.
unfoldable pub report_bridge_event :
    External
    → Bool
    → (Bytes → Option Bytes)
    → List Bytes
    → List Confirmation
    → Tallies
    → Result Error Tallies
unfolding attesters record_bridge_event
report_bridge_event x false decode bonded confirmations tallies = ok tallies
report_bridge_event x true decode bonded confirmations tallies =
    elim (record_bridge_event decode bonded (attesters x confirmations) tallies) [
      | err e ↦ err invalid_address
      | ok after ↦ ok after
    ]

unfoldable pub report_events :
    {Bank : Type 0}
    → External
    → Bool
    → (Bytes → Option Bytes)
    → List Bytes
    → Store Bank
    → KeySet (BridgeDutyKind × ℕ)
    → Tallies
    → Result Error Tallies
unfolding confirmations_of report_bridge_event
report_events x wired decode bonded s [] tallies = ok tallies
report_events x wired decode bonded s ((kind, i) ∷ events) tallies =
    confirmations_of s kind i >>= λ cs.
    report_bridge_event x wired decode bonded cs tallies >>= λ after.
    report_events x wired decode bonded s events after

unfoldable pub flush_bridge_duty :
    {Bank : Type 0}
    → External
    → Bool
    → (Bytes → Option Bytes)
    → List Bytes
    → Store Bank
    → Tallies
    → Result Error (Store Bank × Tallies)
unfolding report_events
flush_bridge_duty x wired decode bonded s tallies =
    report_events x wired decode bonded s s.bridge_duty_queue tallies >>= λ after.
    ok (record s { bridge_duty_queue = [] }, after)
