-- ===== src/Bridge/FeeSplit.antt =====
-- x/oracle/bridge/keeper: feesplit.go (`SplitFees`, at the start of a block) and blackhole.go
-- (`SweepBlackHole`, at its end), over the bank and distribution modules.
pub mod Laws
pub mod Tests
use steem_virtual_machine_ev.Prelude.{
  ℕ, ◌+◌, ◌*◌, ◌/◌, ◌≡◌, ◌≢◌, ◌==◌, if◌then◌else◌, Bool, true, false, ◌&&◌, Bytes, List, [], ◌∷◌,
  map, Option, none, some, Map, get, bytes_eq, Result, ok, err, ◌>>=◌, or_err,
}
use steem_virtual_machine_ev.Bridge.State.{Error, bank_refused, distribution_refused, External}
use steem_virtual_machine_ev.Bridge.Power.Unique.{Distinct}

-- `sdk.Coins`: an amount for each denomination.
abbrev pub Coins : Type 0
Coins = Map Bytes ℕ

-- `Coins.AmountOf`
unfoldable pub amount_of : Bytes → Coins → ℕ
amount_of denom coins = elim (get denom coins) [ none ↦ 0 | some n ↦ n ]

-- `Coins.IsZero`
unfoldable pub is_zero : Coins → Bool
is_zero [] = true
is_zero ((denom, n) ∷ coins) = n == 0 && is_zero coins

-- The calls of the bank module on several coins at once, and that of the distribution module, whose
-- community pool is held by an account.
pub record CoinsKeeper (Bank : Type 0) : Type 0 where
  pub all_balances : Bank → Bytes → Coins
  pub send_all : Bytes → Bytes → Coins → Bank → Option Bank
  pub fund_community_pool : Coins → Bytes → Bank → Option Bank
  pub burn_all : Bytes → Coins → Bank → Option Bank
  pub community_pool : Bytes

-- What a transfer of coins from one account to another does to the balances.
pub record Transferred {Bank : Type 0} (ck : CoinsKeeper Bank) (source dest : Bytes) (coins : Coins)
    (s s' : Bank) : Type 0 where
  pub from_source :
      (d : Bytes)
      → amount_of d (ck.all_balances s' source) + amount_of d coins
        ≡ amount_of d (ck.all_balances s source)
  pub to_dest :
      (d : Bytes)
      → amount_of d (ck.all_balances s' dest)
        ≡ amount_of d (ck.all_balances s dest) + amount_of d coins
  pub elsewhere :
      (a d : Bytes)
      → a ≢ source
      → a ≢ dest
      → amount_of d (ck.all_balances s' a) ≡ amount_of d (ck.all_balances s a)

-- What the two modules document of calls that succeed.
pub record CoinsLaws {Bank : Type 0} (ck : CoinsKeeper Bank) : Type 0 where
  pub distinct : (s : Bank) (a : Bytes) → Distinct (map (λ c. c.0) (ck.all_balances s a))
  pub sent :
      (source dest : Bytes) (coins : Coins) (s s' : Bank)
      → source ≢ dest
      → ck.send_all source dest coins s ≡ some s'
      → Transferred ck source dest coins s s'
  pub funded :
      (source : Bytes) (coins : Coins) (s s' : Bank)
      → source ≢ ck.community_pool
      → ck.fund_community_pool coins source s ≡ some s'
      → Transferred ck source ck.community_pool coins s s'
  pub burnt :
      (source : Bytes) (coins : Coins) (s s' : Bank)
      → ck.burn_all source coins s ≡ some s'
      → (d : Bytes)
      → amount_of d (ck.all_balances s' source) + amount_of d coins
        ≡ amount_of d (ck.all_balances s source)
  pub burnt_elsewhere :
      (source : Bytes) (coins : Coins) (s s' : Bank)
      → ck.burn_all source coins s ≡ some s'
      → (a d : Bytes) → a ≢ source
      → amount_of d (ck.all_balances s' a) ≡ amount_of d (ck.all_balances s a)

module _ {Bank : Type 0} (x : External) (ck : CoinsKeeper Bank) where
  -- A quarter of one coin to the community pool, and a quarter to the black hole.
  unfoldable pub split_coin : Bytes → ℕ → Bank → Result Error Bank
  split_coin denom amount bank =
      let quarter = amount / 4 in
      if quarter == 0
      then ok bank
      else (or_err (ck.fund_community_pool ((denom, quarter) ∷ []) x.fee_collector bank)
            distribution_refused
          >>= λ funded.
              or_err (ck.send_all x.fee_collector x.black_hole ((denom, quarter) ∷ []) funded)
                bank_refused)

  unfoldable pub split_coins : Coins → Bank → Result Error Bank
  unfolding split_coin
  split_coins [] bank = ok bank
  split_coins ((denom, amount) ∷ coins) bank =
      split_coin denom amount bank >>= λ rest. split_coins coins rest

  -- The bridge fees go to the fee collector, once the fees in it are split.
  unfoldable pub split_fees : Bank → Result Error Bank
  unfolding split_coins is_zero
  split_fees bank = do
    split ← split_coins (ck.all_balances bank x.fee_collector) bank
    let reward = ck.all_balances split x.bridge_reward
    let routed = or_err (ck.send_all x.bridge_reward x.fee_collector reward split) bank_refused
    elim (is_zero reward) [ true ↦ ok split | false ↦ routed ]

  unfoldable pub sweep_black_hole : Bank → Result Error Bank
  unfolding is_zero
  sweep_black_hole bank =
      let balance = ck.all_balances bank x.black_hole in
      elim (is_zero balance) [
        | true ↦ ok bank
        | false ↦ or_err (ck.burn_all x.black_hole balance bank) bank_refused
      ]
