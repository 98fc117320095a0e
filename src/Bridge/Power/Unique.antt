-- ===== src/Bridge/Power/Unique.antt =====
-- Two candidates never both reach the threshold.
use steem_virtual_machine_ev.Prelude.{
  ℕ, ◌+◌, ◌*◌, ◌≤◌, ◌<◌, ◌≡◌, ◌≢◌, arith, if◌then◌else◌, true, false, Bytes, List, [], ◌∷◌, KeySet,
  ◌=?◌, Eq, bytes_eq, nat_eq, bytes_beq, sum_by, has, bytes_beq_iff, Bool-cases, inl, inr,
}
use steem_virtual_machine_ev.Decimal.{Decimal, Rounds, of_int, one}
use steem_virtual_machine_ev.Bridge.State.{Context}
use steem_virtual_machine_ev.Bridge.Power.{power_of, confirmed_power, candidate_ratio}

abbrev pub Distinct : List Bytes → Type 0
Distinct [] = Unit
Distinct (v ∷ vs) = (has v vs ≡ false) × Distinct vs

-- The staking module's total is at least the bonded tokens of any distinct validators.
abbrev pub TotalCovers : Context → Type 0
TotalCovers ctx =
    (vs : List Bytes) → Distinct vs → sum_by (power_of ctx) vs ≤ ctx.total_validator_power

module _ {K : Type 0} ⦃e : Eq K⦄ where
  -- Who has voted on a key, for whichever candidate.
  abbrev pub voters : K → KeySet (K × Bytes × Bytes) → List Bytes
  voters key [] = []
  voters key ((k, c, v) ∷ votes) = if k =? key then v ∷ voters key votes else voters key votes

  power-sum :
      (ctx : Context) (key : K) (a b : Bytes) (votes : KeySet (K × Bytes × Bytes))
      → a ≢ b
      → confirmed_power ctx key a votes + confirmed_power ctx key b votes
        ≤ sum_by (power_of ctx) (voters key votes)
  unfolding confirmed_power
  power-sum ctx key a b [] ne = omega arith
  power-sum ctx key a b ((k, c, v) ∷ votes) ne =
      ground (arith, power-sum ctx key a b votes ne, bytes_beq_iff c a, bytes_beq_iff c b)

  ratio-power :
      (dec : Decimal) (ctx : Context) (key : K) (a : Bytes) (votes : KeySet (K × Bytes × Bytes))
      (threshold : ℕ)
      → Rounds dec
      → 0 < threshold
      → threshold ≤ candidate_ratio dec ctx key a votes
      → (0 < ctx.total_validator_power)
        × (2 * (threshold * ctx.total_validator_power)
            ≤ 2 * (confirmed_power ctx key a votes * one) + ctx.total_validator_power)
  unfolding candidate_ratio
  ratio-power dec ctx key a votes threshold r pos h =
      let total = ctx.total_validator_power in
      let p = confirmed_power ctx key a votes in
      let some_power : 0 < total = ground arith in
      let reached : threshold ≤ dec.quo (of_int p) (of_int total) = ground arith in
      let times : threshold * total ≤ dec.quo (of_int p) (of_int total) * total = grind arith in
      (some_power, omega (arith, r.quo_upper (of_int p) (of_int total) (omega arith)))

  -- At any one time at most one candidate of a key has the confirmation threshold, if each
  -- validator has voted once on that key and the threshold is above one half, by more than the
  -- rounding of the ratio; the staking module's total covers the bonded validators.
  pub threshold_unique :
      (dec : Decimal) (ctx : Context) (key : K) (a b : Bytes) (votes : KeySet (K × Bytes × Bytes))
      (threshold : ℕ)
      → Rounds dec
      → TotalCovers ctx
      → Distinct (voters key votes)
      → one + 1 < threshold * 2
      → threshold ≤ candidate_ratio dec ctx key a votes
      → threshold ≤ candidate_ratio dec ctx key b votes
      → bytes_beq a b ≡ true
  threshold_unique dec ctx key a b votes threshold r covers once high ha hb =
      elim (Bool-cases (bytes_beq a b)) [
        | inl same ↦ same
        | inr differ ↦
            let total = ctx.total_validator_power in
            let pa = ratio-power dec ctx key a votes threshold r (omega arith) ha in
            let pb = ratio-power dec ctx key b votes threshold r (omega arith) hb in
            let fits : sum_by (power_of ctx) (voters key votes) ≤ total =
              covers (voters key votes) once in
            let apart : a ≢ b = ground (arith, bytes_beq_iff a b) in
            let both = power-sum ctx key a b votes apart in
            let more : (one + 2) * total ≤ threshold * 2 * total = grind arith in
            absurd (omega arith)
      ]
