-- ===== src/Bridge/Credit.antt =====
-- x/oracle/bridge/keeper/deposit.go, `creditBridged`: where bridged coins enter circulation.
pub mod Laws
use steem_virtual_machine_ev.Prelude.{
  ℕ, ◌+◌, ◌==◌, if◌then◌else◌, Bytes, Option, none, some, Result, ok, err, ◌>>=◌, or_err,
}
use steem_virtual_machine_ev.Bridge.Amounts.{
  BridgeAsset, steem, sbd, millisteem_to_asteem, denom_for_asset, apply_bridge_fee,
}
use steem_virtual_machine_ev.Bridge.State.{
  Error, bank_refused, BridgeTotals, Store, External, BankKeeper,
}

-- A bank call that is made for a positive amount only.
unfoldable pub send_positive :
    {Bank : Type 0} → BankKeeper Bank → Bytes → Bytes → Bytes → ℕ → Bank → Result Error Bank
send_positive bk source dest denom amount bank =
    if amount == 0
    then ok bank
    else or_err (bk.send_coins source dest denom amount bank) bank_refused

unfoldable pub add_minted : BridgeAsset → ℕ → BridgeTotals → BridgeTotals
add_minted sbd amount t = record t { total_minted_asbd = t.total_minted_asbd + amount }
add_minted steem amount t = record t { total_minted_asteem = t.total_minted_asteem + amount }

-- Mints the gross amount into the black hole, sends the net amount on to the destination and the
-- fee to the reward account, and returns the net amount.
unfoldable pub credit_bridged :
    {Bank : Type 0}
    → External
    → BankKeeper Bank
    → Bytes
    → BridgeAsset
    → ℕ
    → ℕ
    → Store Bank
    → Result Error (ℕ × Store Bank)
unfolding send_positive add_minted millisteem_to_asteem denom_for_asset
credit_bridged x bk dest asset gross_milli fee_bps s = do
  let denom = denom_for_asset asset
  let split = apply_bridge_fee gross_milli fee_bps
  let gross = millisteem_to_asteem gross_milli
  let net = millisteem_to_asteem split.0
  let fee = millisteem_to_asteem split.1
  minted ← or_err (bk.mint_coins x.black_hole denom gross s.bank) bank_refused
  paid ← send_positive bk x.black_hole dest denom net minted
  routed ← send_positive bk x.black_hole x.bridge_reward denom fee paid
  ok (net, record s { bank = routed; totals = add_minted asset gross s.totals })
