-- ===== src/Bridge/FeeSplit/Laws.antt =====
-- Where the fees of a block go.
use steem_virtual_machine_ev.Prelude.{
  ℕ, ◌+◌, ◌*◌, ◌/◌, ◌≡◌, ◌≢◌, refl, arith, sym, subst, ◌==◌, if◌then◌else◌, true, false, Bytes,
  bytes_beq, bytes_beq_iff, [], ◌∷◌, map, some, get, has, bytes_eq, ok, Bool-cases, Option-cases,
  Result-cases, inl, inr,
}
use steem_virtual_machine_ev.Bridge.State.{External}
use steem_virtual_machine_ev.Bridge.Power.Unique.{Distinct}
use steem_virtual_machine_ev.Bridge.FeeSplit.{
  Coins, amount_of, is_zero, CoinsKeeper, CoinsLaws, split_coin, split_coins, split_fees,
  sweep_black_hole,
}

amount_of-unlisted :
    (d : Bytes) (coins : Coins) → has d (map (λ c. c.0) coins) ≡ false → amount_of d coins ≡ 0
unfolding amount_of get has
amount_of-unlisted d [] h = refl
amount_of-unlisted d ((c, n) ∷ coins) h = ground (arith, amount_of-unlisted d coins)

amount_of-is_zero : (d : Bytes) (coins : Coins) → is_zero coins ≡ true → amount_of d coins ≡ 0
unfolding amount_of get is_zero
amount_of-is_zero d [] h = refl
amount_of-is_zero d ((c, n) ∷ coins) h = ground (arith, amount_of-is_zero d coins)

amount_of-cons :
    (d c : Bytes) (n : ℕ) (coins : Coins)
    → amount_of d ((c, n) ∷ coins) ≡ (if bytes_beq d c then n else amount_of d coins)
unfolding amount_of get
amount_of-cons d c n coins = ground arith

shares_add :
    (c : Bytes) (n : ℕ) (coins : Coins)
    → has c (map (λ e. e.0) coins) ≡ false
    → (d : Bytes)
    → amount_of d ((c, n) ∷ coins) / 4 ≡ amount_of d ((c, n / 4) ∷ []) + amount_of d coins / 4
unfolding has
shares_add c n coins h d = elim (Bool-cases (bytes_beq d c)) [
  | inl same ↦
      let here : c ≡ d = ground (arith, bytes_beq_iff d c) in
      let rest =
        amount_of-unlisted d coins (subst (λ z. has z (map (λ e. e.0) coins) ≡ false) here h) in
      rw (amount_of-cons d c n coins, amount_of-cons d c (n / 4) [], same, rest) (omega arith)
  | inr other ↦
      rw
        (
          amount_of-cons d c n coins,
          amount_of-cons d c (n / 4) [],
          other,
          amount_of-unlisted d [] refl,
        )
        (omega arith)
]

module _ {Bank : Type 0} (x : External) (ck : CoinsKeeper Bank) (laws : CoinsLaws ck)
    (apart_pool : x.fee_collector ≢ ck.community_pool) (apart_hole : x.fee_collector ≢ x.black_hole)
    (pool_hole : ck.community_pool ≢ x.black_hole) where
  abbrev pub held : Bank → Bytes → Bytes → ℕ
  held s a d = amount_of d (ck.all_balances s a)

  -- The shares of some coins are taken from the fee collector.
  record Split (share : Bytes → ℕ) (s s' : Bank) : Type 0 where
    collector : (d : Bytes) → held s' x.fee_collector d + 2 * share d ≡ held s x.fee_collector d
    pool : (d : Bytes) → held s' ck.community_pool d ≡ held s ck.community_pool d + share d
    hole : (d : Bytes) → held s' x.black_hole d ≡ held s x.black_hole d + share d
    others :
        (a d : Bytes)
        → a ≢ x.fee_collector
        → a ≢ ck.community_pool
        → a ≢ x.black_hole
        → held s' a d ≡ held s a d

  Split-nothing : (share : Bytes → ℕ) (s : Bank) → ((d : Bytes) → share d ≡ 0) → Split share s s
  Split-nothing share s h = record {
    collector = λ d. omega (arith, h d);
    pool = λ d. omega (arith, h d);
    hole = λ d. omega (arith, h d);
    others = λ a d p q r. refl;
  }

  split_coin-Split :
      (denom : Bytes) (n : ℕ) (s s' : Bank)
      → split_coin x ck denom n s ≡ ok s'
      → Split (λ d. amount_of d ((denom, n / 4) ∷ [])) s s'
  unfolding split_coin has
  split_coin-Split denom n s s' e = elim (Bool-cases (n / 4 == 0)) [
    | inl small ↦
        let same : s ≡ s' = ground arith in
        subst (λ t. Split (λ d. amount_of d ((denom, n / 4) ∷ [])) s t) same
          (Split-nothing (λ d. amount_of d ((denom, n / 4) ∷ [])) s
            (λ d. ground (arith, amount_of-cons d denom (n / 4) [], amount_of-unlisted d [] refl)))
    | inr large ↦
        elim (Option-cases (ck.fund_community_pool ((denom, n / 4) ∷ []) x.fee_collector s)) [
          | inl refused ↦ ground arith
          | inr (t, given) ↦
              let f = laws.funded x.fee_collector ((denom, n / 4) ∷ []) s t apart_pool given in
              let g =
                laws.sent x.fee_collector x.black_hole ((denom, n / 4) ∷ []) t s' apart_hole
                  (ground arith) in
              record {
                collector = λ d. omega (arith, f.from_source d, g.from_source d);
                pool = λ d. omega (
                  arith,
                  f.to_dest d,
                  g.elsewhere ck.community_pool d (λ q. apart_pool (sym q)) pool_hole,
                );
                hole = λ d. omega (
                  arith,
                  g.to_dest d,
                  f.elsewhere x.black_hole d (λ q. apart_hole (sym q)) (λ q. pool_hole (sym q)),
                );
                others = λ a d p q r. omega (arith, f.elsewhere a d p q, g.elsewhere a d p r);
              }
        ]
  ]

  split_coins-Split :
      (coins : Coins) (s s' : Bank)
      → Distinct (map (λ c. c.0) coins)
      → split_coins x ck coins s ≡ ok s'
      → Split (λ d. amount_of d coins / 4) s s'
  unfolding split_coins has
  split_coins-Split [] s s' u e =
      let same : s ≡ s' = ground arith in
      subst (λ t. Split (λ d. amount_of d [] / 4) s t) same
        (Split-nothing (λ d. amount_of d [] / 4) s
          (λ d. omega (arith, amount_of-unlisted d [] refl)))
  split_coins-Split ((denom, n) ∷ coins) s s' u e =
      elim (Result-cases (split_coin x ck denom n s)) [
        | inl (why, bad) ↦ ground arith
        | inr (t, first) ↦
            let a = split_coin-Split denom n s t first in
            let b = split_coins-Split coins t s' u.1 (ground arith) in
            let share = shares_add denom n coins u.0 in
            record {
              collector = λ d. omega (arith, a.collector d, b.collector d, share d);
              pool = λ d. omega (arith, a.pool d, b.pool d, share d);
              hole = λ d. omega (arith, a.hole d, b.hole d, share d);
              others = λ c d p q r. omega (arith, a.others c d p q r, b.others c d p q r);
            }
      ]

  abbrev pub Shares : Bank → Bytes → Bytes → Bank → Type 0
  Shares s d a s' =
      (held s' ck.community_pool d ≡ held s ck.community_pool d + held s x.fee_collector d / 4)
      × (held s' x.black_hole d ≡ held s x.black_hole d + held s x.fee_collector d / 4)
      × (held s' x.fee_collector d + 2 * (held s x.fee_collector d / 4)
          ≡ held s x.fee_collector d + held s x.bridge_reward d)
      × (held s' x.bridge_reward d ≡ 0)
      × (held s' a d ≡ held s a d)

  -- The split moves a quarter of each coin of the fee collector, rounded down, to the community pool
  -- and another to the black hole; the collector keeps the rest and has all of the bridge fees, of
  -- which none is left in their account. No other account changes. The four accounts are distinct,
  -- and the bank and distribution modules behave as documented.
  pub split_fees-Shares :
      (s s' : Bank) (d other : Bytes)
      → x.bridge_reward ≢ x.fee_collector
      → x.bridge_reward ≢ ck.community_pool
      → x.bridge_reward ≢ x.black_hole
      → other ≢ x.fee_collector
      → other ≢ ck.community_pool
      → other ≢ x.black_hole
      → other ≢ x.bridge_reward
      → split_fees x ck s ≡ ok s'
      → Shares s d other s'
  unfolding split_fees
  split_fees-Shares s s' d other rf rp rh of op oh or e =
      let fees = ck.all_balances s x.fee_collector in
      elim (Result-cases (split_coins x ck fees s)) [
        | inl (why, bad) ↦ ground arith
        | inr (t, done) ↦
            let a = split_coins-Split fees s t (laws.distinct s x.fee_collector) done in
            let reward = ck.all_balances t x.bridge_reward in
            let accrued = a.others x.bridge_reward d rf rp rh in
            elim (Bool-cases (is_zero reward)) [
              | inl none_left ↦
                  let same : t ≡ s' = ground arith in
                  let zero_reward = amount_of-is_zero d reward none_left in
                  subst (Shares s d other) same (
                    a.pool d,
                    a.hole d,
                    omega (arith, a.collector d, zero_reward, accrued),
                    zero_reward,
                    a.others other d of op oh,
                  )
              | inr some_left ↦
                  let b = laws.sent x.bridge_reward x.fee_collector reward t s' rf (ground arith) in
                  (
                    omega (
                      arith,
                      a.pool d,
                      b.elsewhere ck.community_pool d (λ q. rp (sym q)) (λ q. apart_pool (sym q)),
                    ),
                    omega (
                      arith,
                      a.hole d,
                      b.elsewhere x.black_hole d (λ q. rh (sym q)) (λ q. apart_hole (sym q)),
                    ),
                    omega (arith, a.collector d, b.to_dest d, accrued),
                    omega (arith, b.from_source d),
                    omega (arith, a.others other d of op oh, b.elsewhere other d or of),
                  )
            ]
      ]

-- The sweep leaves nothing in the black hole and takes nothing from any other account.
pub sweep_black_hole-empties :
    {Bank : Type 0} (x : External) (ck : CoinsKeeper Bank)
    → CoinsLaws ck
    → (s s' : Bank) → sweep_black_hole x ck s ≡ ok s'
    → (d : Bytes)
    → (amount_of d (ck.all_balances s' x.black_hole) ≡ 0)
      × ((a : Bytes)
          → a ≢ x.black_hole
          → amount_of d (ck.all_balances s' a) ≡ amount_of d (ck.all_balances s a))
unfolding sweep_black_hole
sweep_black_hole-empties x ck laws s s' e d =
    let balance = ck.all_balances s x.black_hole in
    elim (Bool-cases (is_zero balance)) [
      | inl empty ↦
          let same : s ≡ s' = ground arith in
          subst
            (λ t.
              (amount_of d (ck.all_balances t x.black_hole) ≡ 0)
              × ((a : Bytes)
                  → a ≢ x.black_hole
                  → amount_of d (ck.all_balances t a) ≡ amount_of d (ck.all_balances s a)))
            same (amount_of-is_zero d balance empty, λ a p. refl)
      | inr full ↦
          let burnt : ck.burn_all x.black_hole balance s ≡ some s' = ground arith in
          (
            omega (arith, laws.burnt x.black_hole balance s s' burnt d),
            λ a p. laws.burnt_elsewhere x.black_hole balance s s' burnt a d p,
          )
    ]
