-- ===== src/Oracle/Window/Laws.antt =====
-- Who is slashed at a window boundary.
use steem_virtual_machine_ev.Prelude.{
  ◌<◌, ◌≤◌, ◌≡◌, arith, false, ◌&&◌, Bytes, [], ◌∷◌, none, some, has, bytes_beq_iff, refl, get,
  bytes_eq,
}
use steem_virtual_machine_ev.Decimal.{Decimal, Rounds, one}
use steem_virtual_machine_ev.Oracle.Eval.Laws.{full_participation-not-slashed}
use steem_virtual_machine_ev.Oracle.Duty.{ValidatorTally, Tallies}
use steem_virtual_machine_ev.Oracle.Window.{Params, price_tally, bridge_tally, judge, to_slash}

-- A validator's tally has a hit for every opportunity.
abbrev pub IsPerfect : ValidatorTally → Type 0
IsPerfect t = (t.price_hits ≡ t.price_opportunities) × (t.bridge_hits ≡ t.bridge_opportunities)

-- Each key stands once, as the store keeps it.
abbrev pub Keyed : Tallies → Type 0
Keyed [] = Unit
Keyed ((v, t) ∷ tallies) = (get v tallies ≡ none) × Keyed tallies

has-to_slash_fresh :
    (dec : Decimal) (p : Params) (tallies : Tallies) (v : Bytes)
    → get v tallies ≡ none
    → has v (to_slash dec p tallies) ≡ false
unfolding to_slash get has
has-to_slash_fresh dec p [] v h = refl
has-to_slash_fresh dec p ((w, t) ∷ tallies) v h = ground (arith, has-to_slash_fresh dec p tallies v)

-- The slashed are exactly the validators whose own tally is judged a failure.
has-to_slash :
    (dec : Decimal) (p : Params) (tallies : Tallies) (v : Bytes) (t : ValidatorTally)
    → Keyed tallies
    → get v tallies ≡ some t
    → has v (to_slash dec p tallies) ≡ ((judge dec p t).judged && (judge dec p t).should_slash)
unfolding to_slash get has
has-to_slash dec p [] v t u h = cc
has-to_slash dec p ((w, t') ∷ tallies) v t u h = ground (
  arith,
  has-to_slash dec p tallies v t u.1,
  has-to_slash_fresh dec p tallies w u.0,
  bytes_beq_iff v w,
)

-- A validator whose tally has a hit for every opportunity is not among those that the window
-- slashes, whatever the others did, where the floor is below 1 and the required score at most 1.
pub perfect-not-slashed :
    (dec : Decimal) (p : Params) (tallies : Tallies) (v : Bytes) (t : ValidatorTally)
    → Rounds dec
    → p.duty_floor < one
    → p.min_valid_per_window ≤ one
    → Keyed tallies
    → get v tallies ≡ some t
    → IsPerfect t
    → has v (to_slash dec p tallies) ≡ false
unfolding judge price_tally bridge_tally
perfect-not-slashed dec p tallies v t r floor valid keyed found perfect = ground (
  arith,
  has-to_slash dec p tallies v t keyed found,
  full_participation-not-slashed dec r (price_tally t) (bridge_tally t) p.w_price p.w_bridge
      p.min_valid_per_window p.duty_floor perfect.0 perfect.1 floor valid,
)
