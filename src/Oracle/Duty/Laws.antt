-- ===== src/Oracle/Duty/Laws.antt =====
-- The accrual of one event: what it changes for each validator, and the bound on the counters.
use steem_virtual_machine_ev.Prelude.{
  ℕ, ◌+◌, ◌≤◌, ◌≡◌, arith, if◌then◌else◌, Bool, true, false, not, ◌&&◌, Bytes, List, [], ◌∷◌,
  Option, some, ok, KeySet, put, has, bytes_eq, get-put, bytes_beq_iff, refl, bytes_beq,
  Option-cases, inl, inr,
}
use steem_virtual_machine_ev.Oracle.Duty.{
  ValidatorTally, Duty, duty_price, duty_bridge, Tallies, get_tally, bump, accrue, record_duty,
}

-- The operator strings decode to these addresses, in order.
abbrev pub Decodes : (Bytes → Option Bytes) → List Bytes → List Bytes → Type 0
Decodes decode [] [] = Unit
Decodes decode [] (v ∷ vs) = ⊥
Decodes decode (s ∷ ss) [] = ⊥
Decodes decode (s ∷ ss) (v ∷ vs) = (decode s ≡ some v) × Decodes decode ss vs

abbrev pub Distinct : List Bytes → Type 0
Distinct [] = Unit
Distinct (v ∷ vs) = (has v vs ≡ false) × Distinct vs

get_tally-put :
    (v w : Bytes) (t : ValidatorTally) (tallies : Tallies)
    → get_tally v (put w t tallies) ≡ (if bytes_beq v w then t else get_tally v tallies)
unfolding get_tally
get_tally-put v w t tallies = ground (arith, get-put v w t tallies)

get_tally-accrue :
    (decode : Bytes → Option Bytes) (d : Duty) (did : KeySet Bytes) (bonded vs : List Bytes)
    (tallies : Tallies)
    → Decodes decode bonded vs
    → Distinct vs
    → (after : Tallies) × (accrue decode d did bonded tallies ≡ ok after)
      × ((v : Bytes)
          → get_tally v after
            ≡ (if has v vs then bump d (has v did) (get_tally v tallies) else get_tally v tallies))
unfolding accrue has
get_tally-accrue decode d did [] [] tallies h u = (tallies, refl, λ v. refl)
get_tally-accrue decode d did [] (v ∷ vs) tallies h u = absurd h
get_tally-accrue decode d did (s ∷ ss) [] tallies h u = absurd h
get_tally-accrue decode d did (s ∷ ss) (w ∷ vs) tallies h u =
    let next = put w (bump d (has w did) (get_tally w tallies)) tallies in
    let (after, run, spec) = get_tally-accrue decode d did ss vs next h.1 u.1 in
    (
      after,
      rw (h.0, accrue) run,
      λ v. ground (
        arith,
        spec v,
        get_tally-put v w (bump d (has w did) (get_tally w tallies)) tallies,
        bytes_beq_iff v w,
      ),
    )

-- No duty has more hits than opportunities.
pub record IsCounted (t : ValidatorTally) : Type 0 where
  pub price_le : t.price_hits ≤ t.price_opportunities
  pub bridge_le : t.bridge_hits ≤ t.bridge_opportunities

bump-IsCounted :
    (d : Duty) (did : Bool) (t : ValidatorTally) → IsCounted t → IsCounted (bump d did t)
unfolding bump
bump-IsCounted duty_price did t h = ground arith
bump-IsCounted duty_bridge did t h = ground arith

accrue-IsCounted :
    (decode : Bytes → Option Bytes) (d : Duty) (did : KeySet Bytes) (bonded : List Bytes)
    (tallies after : Tallies)
    → ((v : Bytes) → IsCounted (get_tally v tallies))
    → accrue decode d did bonded tallies ≡ ok after
    → (v : Bytes) → IsCounted (get_tally v after)
unfolding accrue
accrue-IsCounted decode d did [] tallies after h e v = ground (arith, h v)
accrue-IsCounted decode d did (s ∷ ss) tallies after h e v = elim (Option-cases (decode s)) [
  | inl bad ↦ ground arith
  | inr (w, good) ↦
      accrue-IsCounted decode d did ss (put w (bump d (has w did) (get_tally w tallies)) tallies)
        after
        (λ x. ground (
          arith,
          h x,
          get_tally-put x w (bump d (has w did) (get_tally w tallies)) tallies,
          bump-IsCounted d (has w did) (get_tally w tallies) (h w),
        ))
        (ground arith) v
]

-- One in the given case, none otherwise.
abbrev pub one_if : Bool → ℕ
one_if b = if b then 1 else 0

abbrev pub is_price : Duty → Bool
is_price duty_price = true
is_price duty_bridge = false

-- The four counters of a tally after one event: one more opportunity of the duty for a bonded
-- validator, and one more hit of the duty for a bonded one that took part.
pub record Advanced (d : Duty) (bonded took_part : Bool) (before after : ValidatorTally)
    : Type 0 where
  pub price_opportunities :
      after.price_opportunities ≡ before.price_opportunities + one_if (bonded && is_price d)
  pub price_hits :
      after.price_hits ≡ before.price_hits + one_if (bonded && (took_part && is_price d))
  pub bridge_opportunities :
      after.bridge_opportunities ≡ before.bridge_opportunities + one_if (bonded && not (is_price d))
  pub bridge_hits :
      after.bridge_hits ≡ before.bridge_hits + one_if (bonded && (took_part && not (is_price d)))

bump-Advanced :
    (d : Duty) (bonded did : Bool) (t after : ValidatorTally)
    → after ≡ (if bonded then bump d did t else t)
    → Advanced d bonded did t after
unfolding bump
bump-Advanced duty_price bonded did t after e = record {
  price_opportunities = ground arith;
  price_hits = ground arith;
  bridge_opportunities = ground arith;
  bridge_hits = ground arith;
}
bump-Advanced duty_bridge bonded did t after e = record {
  price_opportunities = ground arith;
  price_hits = ground arith;
  bridge_opportunities = ground arith;
  bridge_hits = ground arith;
}

-- One event is accrued, and then each bonded validator has exactly one more opportunity of the
-- event's duty, and one more hit of it if it took part; every other counter, and every tally of a
-- validator that is not bonded, is as before. The bonded operators decode to distinct addresses.
pub get_tally-record_duty :
    (decode : Bytes → Option Bytes) (bonded vs participants : List Bytes) (d : Duty)
    (tallies : Tallies)
    → Decodes decode bonded vs
    → Distinct vs
    → (after : Tallies) × (record_duty decode bonded participants d tallies ≡ ok after)
      × ((v : Bytes)
          → Advanced d (has v vs) (has v participants) (get_tally v tallies) (get_tally v after))
unfolding record_duty
get_tally-record_duty decode bonded vs participants d tallies h u =
    let (after, run, each) = get_tally-accrue decode d participants bonded vs tallies h u in
    (
      after,
      run,
      λ v.
          bump-Advanced d (has v vs) (has v participants) (get_tally v tallies) (get_tally v after)
            (each v),
    )

-- Whatever is reported, and whoever is bonded, an accrual that succeeds leaves no validator with
-- more hits than opportunities in either duty, if none had before.
pub record_duty-IsCounted :
    (decode : Bytes → Option Bytes) (bonded participants : List Bytes) (d : Duty)
    (tallies after : Tallies)
    → ((v : Bytes) → IsCounted (get_tally v tallies))
    → record_duty decode bonded participants d tallies ≡ ok after
    → (v : Bytes) → IsCounted (get_tally v after)
unfolding record_duty
record_duty-IsCounted decode bonded participants d tallies after =
    accrue-IsCounted decode d participants bonded tallies after
