-- ===== src/Bridge/Duty/Laws.antt =====
-- What the report of a block adds to the counters of a bonded validator.
use steem_virtual_machine_ev.Prelude.{
  ℕ, ◌+◌, ◌≡◌, if◌then◌else◌, Bool, false, Bytes, List, [], ◌∷◌, Option, KeySet, nat_eq, bytes_eq,
  has, ok, err,
}
use steem_virtual_machine_ev.Oracle.Duty.{Tallies, get_tally}
use steem_virtual_machine_ev.Bridge.State.{BridgeDutyKind, Store, External}
use steem_virtual_machine_ev.Bridge.Duty.{attesters, confirmations_of}

-- Whether a validator confirmed an event.
unfoldable pub took_part :
    {Bank : Type 0} → External → Store Bank → BridgeDutyKind → ℕ → Bytes → Bool
took_part x s kind i v = elim (confirmations_of s kind i) [
  | ok cs ↦ has v (attesters x cs)
  | err e ↦ false
]

unfoldable pub attended :
    {Bank : Type 0} → External → Store Bank → KeySet (BridgeDutyKind × ℕ) → Bytes → ℕ
attended x s [] v = 0
attended x s ((kind, i) ∷ events) v =
    (if took_part x s kind i v then 1 else 0) + attended x s events v

module _ {Bank : Type 0} (x : External) (decode : Bytes → Option Bytes) (bonded vs : List Bytes)
    (s : Store Bank) where
  -- What the counters of one validator gain.
  record Counted (v : Bytes) (events hits : ℕ) (before after : Tallies) : Type 0 where
    opportunities :
        (get_tally v after).bridge_opportunities
        ≡ (get_tally v before).bridge_opportunities + events
    hit : (get_tally v after).bridge_hits ≡ (get_tally v before).bridge_hits + hits
