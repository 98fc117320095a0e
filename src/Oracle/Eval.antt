-- ===== src/Oracle/Eval.antt =====
-- x/oracle/types/eval.go: the verdict on one validator over one slash window.
pub mod Laws
use steem_virtual_machine_ev.Prelude.{
  ℕ, suc, ◌+◌, ◌-◌, ◌*◌, ◌^◌, ◌≤◌, ◌<◌, ◌≡◌, arith, leb, ltb, ◌==◌, if◌then◌else◌, Bool, true,
  false, ◌&&◌,
}
use steem_virtual_machine_ev.Decimal.{
  Decimal, of_int, one, Signed, plus, minus, new_dec, signed_quo, signed_mul, signed_add, at_most,
  less_than,
}

-- Both counters are of type uint64.
pub record DutyTally : Type 0 where
  pub opportunities : ℕ
  pub hits : ℕ

-- `int64(n)` of a uint64: from 2^63 on the number is 2^64 less.
unfoldable pub to_int64 : ℕ → Signed
to_int64 n = if ltb n (2 ^ 63) then plus n else minus (suc (2 ^ 64 - 1 - n))

unfoldable pub active : DutyTally → Bool
active d = ltb 0 d.opportunities

unfoldable pub rate : Decimal → DutyTally → Signed
unfolding to_int64 new_dec signed_quo
rate dec d =
    if d.opportunities == 0
    then plus 0
    else signed_quo dec (new_dec (to_int64 d.hits)) (new_dec (to_int64 d.opportunities))

pub data Reason : Type 0 where
  reason_none below_min_valid price_duty_floor bridge_duty_floor : Reason

pub record WindowResult : Type 0 where
  pub judged : Bool
  pub score : Signed
  pub should_slash : Bool
  pub reason : Reason

-- The sum of the weights, and of the weighted rates, over the active duties.
unfoldable pub weight_sum : DutyTally → DutyTally → ℕ → ℕ → ℕ
weight_sum price bridge w_price w_bridge =
    (if active price then w_price else 0) + (if active bridge then w_bridge else 0)

unfoldable pub weighted : Decimal → DutyTally → DutyTally → ℕ → ℕ → Signed
unfolding signed_add signed_mul
weighted dec price bridge w_price w_bridge =
    signed_add (if active price then signed_mul dec w_price (rate dec price) else plus 0)
      (if active bridge then signed_mul dec w_bridge (rate dec bridge) else plus 0)

-- The unweighted mean of the active rates.
unfoldable pub plain_mean : Decimal → DutyTally → DutyTally → Signed
unfolding signed_add signed_quo
plain_mean dec price bridge =
    signed_quo dec
      (signed_add (if active price then rate dec price else plus 0)
        (if active bridge then rate dec bridge else plus 0))
      (plus (of_int ((if active price then 1 else 0) + (if active bridge then 1 else 0))))

unfoldable pub combined_score : Decimal → DutyTally → DutyTally → ℕ → ℕ → Signed
unfolding signed_quo
combined_score dec price bridge w_price w_bridge =
    if weight_sum price bridge w_price w_bridge == 0
    then plain_mean dec price bridge
    else signed_quo dec (weighted dec price bridge w_price w_bridge)
        (plus (weight_sum price bridge w_price w_bridge))

-- The arguments: price, bridge, wPrice, wBridge, minValidPerWindow, dutyFloor.
unfoldable pub evaluate_validator_window :
    Decimal → DutyTally → DutyTally → ℕ → ℕ → ℕ → ℕ → WindowResult
unfolding at_most less_than
evaluate_validator_window dec price bridge w_price w_bridge min_valid floor =
    let score = combined_score dec price bridge w_price w_bridge in
    if active price
    then verdict score
    else if active bridge
    then verdict score
    else record { judged = false; score = plus one; should_slash = false; reason = reason_none }
  where
    slash : Signed → Reason → WindowResult
    slash score why = record { judged = true; score = score; should_slash = true; reason = why }

    verdict : Signed → WindowResult
    verdict score =
        if active price && at_most (rate dec price) floor
        then slash score price_duty_floor
        else if active bridge && at_most (rate dec bridge) floor
        then slash score bridge_duty_floor
        else if less_than score min_valid
        then slash score below_min_valid
        else record { judged = true; score = score; should_slash = false; reason = reason_none }
