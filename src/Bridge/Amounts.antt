-- ===== src/Bridge/Amounts.antt =====
-- x/oracle/bridge/types/amounts.go: assets, the unit conversion and the bridge fee.
use steem_virtual_machine_ev.Prelude.{
  ℕ, ◌+◌, ◌-◌, ◌*◌, ◌/◌, ◌%◌, ◌^◌, ◌≤◌, ◌<◌, ◌≡◌, arith, leb, ◌==◌, if◌then◌else◌, Bytes, codes,
  Bool, true, false,
}

pub data BridgeAsset : Type 0 where
  steem sbd : BridgeAsset

abbrev pub asset_beq : BridgeAsset → BridgeAsset → Bool
asset_beq steem steem = true
asset_beq sbd sbd = true
asset_beq _ _ = false

-- Module arithmetic is uint64.
abbrev pub u64 : ℕ
u64 = 2 ^ 64

abbrev pub millisteem_to_asteem_factor : ℕ
millisteem_to_asteem_factor = 1000000000000000

-- `math.Int` has no wrap-around.
unfoldable pub millisteem_to_asteem : ℕ → ℕ
millisteem_to_asteem amount = amount * millisteem_to_asteem_factor

abbrev pub denom_sbd : Bytes
denom_sbd = codes "asbd"

-- `sdk.DefaultBondDenom`, a variable of the SDK that app/config.go sets to this value.
abbrev pub default_bond_denom : Bytes
default_bond_denom = codes "asteem"

unfoldable pub denom_for_asset : BridgeAsset → Bytes
denom_for_asset sbd = denom_sbd
denom_for_asset steem = default_bond_denom

-- `grossMilli * uint64(feeBps)` wraps at 2^64. The result is (net, fee).
unfoldable pub apply_bridge_fee : ℕ → ℕ → ℕ × ℕ
apply_bridge_fee gross bps =
    if bps == 0
    then (gross, 0)
    else if leb 10000 bps
    then (0, gross)
    else (gross - gross * bps % u64 / 10000, gross * bps % u64 / 10000)

fee_wrapped-le : (gross bps : ℕ) → bps < 10000 → gross * bps % u64 / 10000 ≤ gross
fee_wrapped-le gross bps h = let below : gross * bps ≤ gross * 10000 = grind arith in omega arith

-- Whatever the fee rate, and even where the product wraps, nothing is created or lost by the split.
pub apply_bridge_fee_conserves :
    (gross bps : ℕ) → let (net, fee) = apply_bridge_fee gross bps in net + fee ≡ gross
unfolding apply_bridge_fee
apply_bridge_fee_conserves gross bps = ground (arith, fee_wrapped-le gross bps)
