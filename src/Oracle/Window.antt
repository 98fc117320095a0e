-- ===== src/Oracle/Window.antt =====
-- x/oracle/keeper/abci.go: at a window boundary every tally is judged, the failures are slashed and
-- jailed, and the window starts afresh. The staking module is a parameter. The order of the walk
-- over the tallies is that of the association list. Log lines and events are left out.
pub mod Laws
pub mod Punished
use steem_virtual_machine_ev.Prelude.{
  ℕ, ◌%◌, ◌≡◌, arith, ltb, ◌==◌, if◌then◌else◌, Bool, true, false, ◌&&◌, ◌||◌, Bytes, List, [], ◌∷◌,
  Option, none, some, map,
}
use steem_virtual_machine_ev.Decimal.{Decimal}
use steem_virtual_machine_ev.Oracle.Eval.{DutyTally, WindowResult, evaluate_validator_window}
use steem_virtual_machine_ev.Oracle.Duty.{ValidatorTally, Tallies}

pub record Params : Type 0 where
  pub slash_window : ℕ
  pub slash_fraction : ℕ
  pub min_valid_per_window : ℕ
  pub w_price : ℕ
  pub w_bridge : ℕ
  pub duty_floor : ℕ

-- What `slashAndJail` asks of the staking keeper, over its state `S`: the validator's consensus
-- address, if it has one that can be read, and its power; the slash; the jailing. `none` is a
-- refusal.
pub record StakingKeeper (S : Type 0) : Type 0 where
  pub get_validator : Bytes → S → Option (Option Bytes × ℕ)
  pub slash : Bytes → ℕ → ℕ → ℕ → S → Option S
  pub jail : Bytes → S → Option S

unfoldable pub price_tally : ValidatorTally → DutyTally
price_tally t = record { opportunities = t.price_opportunities; hits = t.price_hits }

unfoldable pub bridge_tally : ValidatorTally → DutyTally
bridge_tally t = record { opportunities = t.bridge_opportunities; hits = t.bridge_hits }

unfoldable pub judge : Decimal → Params → ValidatorTally → WindowResult
unfolding price_tally bridge_tally
judge dec p t =
    evaluate_validator_window dec (price_tally t) (bridge_tally t) p.w_price p.w_bridge
      p.min_valid_per_window p.duty_floor

-- The walk that gathers the failures.
unfoldable pub to_slash : Decimal → Params → Tallies → List Bytes
to_slash dec p [] = []
to_slash dec p ((valoper, t) ∷ tallies) =
    let rest = to_slash dec p tallies in
    if (judge dec p t).judged && (judge dec p t).should_slash then valoper ∷ rest else rest

module _ {S : Type 0} (k : StakingKeeper S) where
  -- A failure of one validator is swallowed; a failed jailing leaves the slash.
  unfoldable pub slash_and_jail : Params → ℕ → Bytes → S → S
  slash_and_jail p height valoper s = elim (k.get_validator valoper s) [
    | none ↦ s
    | some (none, power) ↦ s
    | some (some cons_addr, power) ↦ elim (k.slash cons_addr height power p.slash_fraction s) [
      | none ↦ s
      | some slashed ↦ elim (k.jail cons_addr slashed) [ none ↦ slashed | some jailed ↦ jailed ]
    ]
  ]

  unfoldable pub slash_all : Params → ℕ → List Bytes → S → S
  unfolding slash_and_jail
  slash_all p height [] s = s
  slash_all p height (v ∷ vs) s = slash_all p height vs (slash_and_jail p height v s)

  unfoldable pub evaluate_window : Decimal → Params → ℕ → Tallies × S → Tallies × S
  unfolding slash_all to_slash
  evaluate_window dec p height (tallies, s) = ([], slash_all p height (to_slash dec p tallies) s)

  unfoldable pub end_block : Decimal → Params → ℕ → Tallies × S → Tallies × S
  unfolding evaluate_window
  end_block dec p height (tallies, s) =
      if height == 0 || (p.slash_window == 0 || ltb 0 (height % p.slash_window))
      then (tallies, s)
      else evaluate_window dec p height (tallies, s)
