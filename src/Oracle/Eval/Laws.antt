-- ===== src/Oracle/Eval/Laws.antt =====
-- What the window verdict promises: the score is a rate, full participation is never slashed, and
-- an idle duty always is.
use steem_virtual_machine_ev.Prelude.{
  ℕ, suc, ◌+◌, ◌-◌, ◌^◌, ◌≤◌, ◌<◌, ◌≡◌, arith, true, false, refl, ◌⊎◌, inl, inr, ltb, ◌==◌,
  Bool-cases, if◌then◌else◌, ◌||◌,
}
use steem_virtual_machine_ev.Decimal.{
  plus, new_dec, signed_quo, signed_mul, signed_add, at_most, less_than, Decimal, Rounds, of_int,
  one, quo_exact, mul_exact,
}
use steem_virtual_machine_ev.Oracle.Eval.{
  to_int64, DutyTally, active, rate, weight_sum, weighted, plain_mean, combined_score,
  evaluate_validator_window,
}

module _ (dec : Decimal) (r : Rounds dec) where
  quo-le-one : (a b : ℕ) → 0 < b → a ≤ b → dec.quo a b ≤ one
  quo-le-one a b pos h = grind (arith, r.quo_upper a b pos)

  mul-le : (w x : ℕ) → x ≤ one → dec.mul w x ≤ w
  mul-le w x h = grind (arith, r.mul_upper w x)

  -- The counters are below 2^63, where they are themselves as int64.
  rate-le-one :
      (d : DutyTally)
      → d.hits ≤ d.opportunities
      → d.opportunities < 2 ^ 63
      → (n : ℕ) × (rate dec d ≡ plus n) × (n ≤ one)
  unfolding rate to_int64 new_dec signed_quo
  rate-le-one d h small = elim (Bool-cases (d.opportunities == 0)) [
    | inl none_yet ↦ (0, ground arith, omega arith)
    | inr some_yet ↦ (
      dec.quo (of_int d.hits) (of_int d.opportunities),
      ground arith,
      ground (arith, quo-le-one (of_int d.hits) (of_int d.opportunities)),
    )
  ]

  rate-full :
      (d : DutyTally) → d.hits ≡ d.opportunities → 0 < d.opportunities → rate dec d ≡ plus one
  unfolding rate to_int64 new_dec signed_quo
  rate-full d h pos =
      let wrapped = suc (2 ^ 64 - 1 - d.opportunities) in
      let same =
        quo_exact dec r (of_int d.opportunities) (of_int d.opportunities) one (omega arith)
          (omega arith) in
      let both_wrapped =
        quo_exact dec r (of_int wrapped) (of_int wrapped) one (omega arith) (omega arith) in
      ground (arith, h, same, both_wrapped)

  rate-idle : (d : DutyTally) (floor : ℕ) → d.hits ≡ 0 → at_most (rate dec d) floor ≡ true
  unfolding rate to_int64 new_dec signed_quo at_most
  rate-idle d floor h =
      let none_of = quo_exact dec r (of_int 0) (of_int d.opportunities) 0 in
      ground (arith, h, none_of)

  module _ (price bridge : DutyTally) (w_price w_bridge : ℕ) where
    -- No duty has more hits than opportunities, and the counters are below 2^63.
    abbrev pub IsSmall : Type 0
    IsSmall =
        (price.hits ≤ price.opportunities)
        × (bridge.hits ≤ bridge.opportunities)
        × (price.opportunities < 2 ^ 63)
        × (bridge.opportunities < 2 ^ 63)

    weighted-le :
        IsSmall
        → (n : ℕ) × (weighted dec price bridge w_price w_bridge ≡ plus n)
          × (n ≤ weight_sum price bridge w_price w_bridge)
    unfolding weighted weight_sum signed_add signed_mul
    weighted-le (hp, hb, sp, sb) =
        let (rp, ep, lp) = rate-le-one price hp sp in
        let (rb, eb, lb) = rate-le-one bridge hb sb in
        (
          (if active price then dec.mul w_price rp else 0)
              + (if active bridge then dec.mul w_bridge rb else 0),
          ground (arith, ep, eb),
          ground (arith, mul-le w_price rp lp, mul-le w_bridge rb lb),
        )

    plain_mean-le-one :
        IsSmall
        → (0 < price.opportunities) ⊎ (0 < bridge.opportunities)
        → (n : ℕ) × (plain_mean dec price bridge ≡ plus n) × (n ≤ one)
    unfolding plain_mean active signed_add signed_quo
    plain_mean-le-one (hp, hb, sp, sb) some_active =
        let (rp, ep, lp) = rate-le-one price hp sp in
        let (rb, eb, lb) = rate-le-one bridge hb sb in
        let total = (if active price then rp else 0) + (if active bridge then rb else 0) in
        let count = of_int ((if active price then 1 else 0) + (if active bridge then 1 else 0)) in
        (
          dec.quo total count,
          ground (arith, ep, eb),
          quo-le-one total count (ground arith) (ground (arith, lp, lb)),
        )

    combined_score-le-one :
        IsSmall
        → (0 < price.opportunities) ⊎ (0 < bridge.opportunities)
        → (n : ℕ) × (combined_score dec price bridge w_price w_bridge ≡ plus n) × (n ≤ one)
    unfolding combined_score signed_quo
    combined_score-le-one small some_active =
        let total = weight_sum price bridge w_price w_bridge in
        let (mean, em, lm) = plain_mean-le-one small some_active in
        let (n, en, ln) = weighted-le small in
        elim (Bool-cases (total == 0)) [
          | inl weightless ↦ (mean, ground (arith, em), lm)
          | inr weighs ↦
              (dec.quo n total, ground (arith, en), ground (arith, quo-le-one n total, ln))
        ]

    weighted-full :
        price.hits ≡ price.opportunities
        → bridge.hits ≡ bridge.opportunities
        → weighted dec price bridge w_price w_bridge
          ≡ plus (weight_sum price bridge w_price w_bridge)
    unfolding weighted weight_sum active signed_add signed_mul
    weighted-full hp hb = ground (
      arith,
      rate-full price hp,
      rate-full bridge hb,
      mul_exact dec r w_price one w_price refl,
      mul_exact dec r w_bridge one w_bridge refl,
    )

    plain_mean-full :
        price.hits ≡ price.opportunities
        → bridge.hits ≡ bridge.opportunities
        → (0 < price.opportunities) ⊎ (0 < bridge.opportunities)
        → plain_mean dec price bridge ≡ plus one
    unfolding plain_mean active signed_add signed_quo
    plain_mean-full hp hb some_active =
        let one_each = quo_exact dec r one (of_int 1) one (omega arith) (omega arith) in
        let two_each = quo_exact dec r (one + one) (of_int 2) one (omega arith) (omega arith) in
        ground (arith, rate-full price hp, rate-full bridge hb, one_each, two_each)

    full-score :
        price.hits ≡ price.opportunities
        → bridge.hits ≡ bridge.opportunities
        → (0 < price.opportunities) ⊎ (0 < bridge.opportunities)
        → combined_score dec price bridge w_price w_bridge ≡ plus one
    unfolding combined_score signed_quo
    full-score hp hb some_active =
        let total = weight_sum price bridge w_price w_bridge in
        ground (
          arith,
          plain_mean-full hp hb some_active,
          weighted-full hp hb,
          quo_exact dec r total total one,
        )

    module _ (min_valid floor : ℕ) where
      -- The score is a rate: it is from 0 to 1, whatever the weights, the thresholds and the
      -- rounding, where no duty has more hits than opportunities and the opportunities are below
      -- 2^63.
      pub score-le-one :
          price.hits ≤ price.opportunities
          → bridge.hits ≤ bridge.opportunities
          → price.opportunities < 2 ^ 63
          → bridge.opportunities < 2 ^ 63
          → (n : ℕ) × ((evaluate_validator_window dec price bridge w_price w_bridge min_valid
                floor).score
              ≡ plus n)
            × (n ≤ one)
      unfolding evaluate_validator_window active
      score-le-one hp hb sp sb =
          elim (Bool-cases (ltb 0 price.opportunities || ltb 0 bridge.opportunities)) [
            | inl judged ↦
                let (n, en, ln) = combined_score-le-one (hp, hb, sp, sb) (ground arith) in
                (n, ground (arith, en), ln)
            | inr unjudged ↦ (one, ground arith, omega arith)
          ]

      -- A validator that took every opportunity it had is not slashed, where the floor is below 1
      -- and the required score is at most 1; the weights may be anything, both zero included.
      pub full_participation-not-slashed :
          price.hits ≡ price.opportunities
          → bridge.hits ≡ bridge.opportunities
          → floor < one
          → min_valid ≤ one
          → (evaluate_validator_window dec price bridge w_price w_bridge min_valid
              floor).should_slash
            ≡ false
      unfolding evaluate_validator_window active at_most less_than
      full_participation-not-slashed hp hb hf hm =
          ground (arith, full-score hp hb, rate-full price hp, rate-full bridge hb)

      -- Perfect prices do not hide a bridge duty that was never met, and the other way round: one
      -- active duty with no hit is enough to be slashed, whatever the other one, the weights and
      -- the thresholds are.
      pub idle_duty-slashed :
          ((0 < price.opportunities) × (price.hits ≡ 0))
            ⊎ ((0 < bridge.opportunities) × (bridge.hits ≡ 0))
          → (evaluate_validator_window dec price bridge w_price w_bridge min_valid
              floor).should_slash
            ≡ true
      unfolding evaluate_validator_window active
      idle_duty-slashed idle = ground (arith, rate-idle price floor, rate-idle bridge floor)
