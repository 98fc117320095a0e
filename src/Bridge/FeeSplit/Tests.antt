-- ===== src/Bridge/FeeSplit/Tests.antt =====
-- The fee split on a bank with one denomination.
use steem_virtual_machine_ev.Prelude.{
  ℕ, ◌+◌, ◌-◌, ◌≡◌, ◌≢◌, refl, arith, sym, leb, if◌then◌else◌, Bool, true, false, ◌&&◌, Bytes,
  bytes_beq, bytes_beq_iff, [], ◌∷◌, codes, Option, none, some, Map, get, put, get-put, has,
  bytes_eq, ok, Bool-cases, Option-cases, inl, inr, subst, ap, err,
}
use steem_virtual_machine_ev.Bridge.Fixtures.{external, alice}
use steem_virtual_machine_ev.Bridge.FeeSplit.{
  Coins, amount_of, CoinsKeeper, Transferred, CoinsLaws, split_fees,
}
use steem_virtual_machine_ev.Bridge.FeeSplit.Laws.{Shares, split_fees-Shares}

abbrev Accounts : Type 0
Accounts = Map Bytes ℕ

abbrev denom : Bytes
denom = codes "asteem"

abbrev balance : Accounts → Bytes → ℕ
balance s a = amount_of a s

-- Coins of the one denomination only.
abbrev only_denom : Coins → Bool
only_denom [] = true
only_denom ((d, n) ∷ coins) = bytes_beq d denom && only_denom coins

abbrev take_out : Bytes → Coins → Accounts → Option Accounts
take_out a coins s =
    if only_denom coins && leb (amount_of denom coins) (balance s a)
    then some (put a (balance s a - amount_of denom coins) s)
    else none

abbrev put_in : Bytes → Coins → Accounts → Accounts
put_in a coins s = put a (balance s a + amount_of denom coins) s

abbrev move : Bytes → Bytes → Coins → Accounts → Option Accounts
move source dest coins s = elim (take_out source coins s) [
  | none ↦ none
  | some t ↦ some (put_in dest coins t)
]

abbrev keeper : CoinsKeeper Accounts
keeper = record {
  all_balances = λ s a. (denom, balance s a) ∷ [];
  send_all = move;
  fund_community_pool = λ coins source s. move source (codes "distribution") coins s;
  burn_all = take_out;
  community_pool = codes "distribution";
}

balance-put :
    (a b : Bytes) (n : ℕ) (s : Accounts)
    → balance (put a n s) b ≡ (if bytes_beq b a then n else balance s b)
unfolding amount_of
balance-put a b n s = ground (arith, get-put b a n s)

amount_of-one :
    (d : Bytes) (n : ℕ) → amount_of d ((denom, n) ∷ []) ≡ (if bytes_beq d denom then n else 0)
unfolding amount_of get
amount_of-one d n = ground arith

only_denom-others :
    (d : Bytes) (coins : Coins)
    → only_denom coins ≡ true
    → bytes_beq d denom ≡ false
    → amount_of d coins ≡ 0
unfolding amount_of get
only_denom-others d [] h o = refl
only_denom-others d ((c, n) ∷ coins) h o = ground (
  arith,
  only_denom-others d coins,
  bytes_beq_iff d c,
  bytes_beq_iff c denom,
  bytes_beq_iff d denom,
)

listed :
    (s : Accounts) (a d : Bytes)
    → amount_of d (keeper.all_balances s a) ≡ (if bytes_beq d denom then balance s a else 0)
listed s a d = amount_of-one d (balance s a)

only_denom-amount :
    (d : Bytes) (coins : Coins)
    → only_denom coins ≡ true
    → amount_of d coins ≡ (if bytes_beq d denom then amount_of denom coins else 0)
only_denom-amount d coins h = elim (Bool-cases (bytes_beq d denom)) [
  | inl same ↦
      let here : denom ≡ d = ground (arith, bytes_beq_iff d denom) in
      rw same (ap (λ e. amount_of e coins) (sym here))
  | inr other ↦ rw other (only_denom-others d coins h other)
]

take_out-balance :
    (source : Bytes) (coins : Coins) (s s' : Accounts)
    → take_out source coins s ≡ some s'
    → (only_denom coins ≡ true)
      × (balance s' source + amount_of denom coins ≡ balance s source)
      × ((a : Bytes) → a ≢ source → balance s' a ≡ balance s a)
take_out-balance source coins s s' e =
    let m = amount_of denom coins in
    elim (Bool-cases (only_denom coins && leb m (balance s source))) [
      | inr refused ↦ ground arith
      | inl taken ↦
          let same : put source (balance s source - m) s ≡ s' = ground arith in
          (
            ground arith,
            rw (← same, balance-put source source (balance s source - m) s)
                (ground (arith, bytes_beq_iff source source)),
            λ a p.
                rw (← same, balance-put source a (balance s source - m) s)
                  (ground (arith, bytes_beq_iff a source)),
          )
    ]

move-Transferred :
    (source dest : Bytes) (coins : Coins) (s s' : Accounts)
    → source ≢ dest
    → move source dest coins s ≡ some s'
    → Transferred keeper source dest coins s s'
move-Transferred source dest coins s s' apart e = elim (Option-cases (take_out source coins s)) [
  | inl refused ↦ ground arith
  | inr (t, taken) ↦
      let (only, left, rest) = take_out-balance source coins s t taken in
      let same : put_in dest coins t ≡ s' = ground arith in
      let m = balance t dest + amount_of denom coins in
      let coin = λ (d : Bytes). only_denom-amount d coins only in
      let u = put_in dest coins t in
      subst (λ v. Transferred keeper source dest coins s v) same
        record {
          from_source = λ d. ground (
            arith,
            listed u source d,
            listed s source d,
            balance-put dest source m t,
            coin d,
            left,
            bytes_beq_iff source dest,
          );
          to_dest = λ d. ground (
            arith,
            listed u dest d,
            listed s dest d,
            balance-put dest dest m t,
            coin d,
            rest dest (λ q. apart (sym q)),
            bytes_beq_iff dest dest,
          );
          elsewhere = λ a d p q. ground (
            arith,
            listed u a d,
            listed s a d,
            balance-put dest a m t,
            rest a p,
            bytes_beq_iff a dest,
          );
        }
]

keeper-CoinsLaws : CoinsLaws keeper
unfolding has
keeper-CoinsLaws = record {
  distinct = λ s a. (refl, tt);
  sent = λ source dest coins s s' apart e. move-Transferred source dest coins s s' apart e;
  funded = λ source coins s s' apart e.
      move-Transferred source (codes "distribution") coins s s' apart e;
  burnt = λ source coins s s' e d.
      let (only, left, rest) = take_out-balance source coins s s' e in
      ground (arith, listed s' source d, listed s source d, only_denom-amount d coins only, left);
  burnt_elsewhere = λ source coins s s' e a d p.
      let (only, left, rest) = take_out-balance source coins s s' e in
      ground (arith, listed s' a d, listed s a d, rest a p);
}

abbrev before : Accounts
before = (external.fee_collector, 1001) ∷ (external.bridge_reward, 7) ∷ []

abbrev split : Accounts
split = elim (split_fees external keeper before) [ ok s ↦ s | err e ↦ before ]

before-split : split_fees external keeper before ≡ ok split
unfolding split_fees amount_of get put bytes_beq
before-split = refl

split-collector : balance split external.fee_collector ≡ 508
unfolding split_fees amount_of get put bytes_beq
split-collector = refl

fee_collector-apart : external.fee_collector ≢ keeper.community_pool
fee_collector-apart q = ground (arith, q)

fee_collector-hole : external.fee_collector ≢ external.black_hole
fee_collector-hole q = ground (arith, q)

pool-hole : keeper.community_pool ≢ external.black_hole
pool-hole q = ground (arith, q)

reward-collector : external.bridge_reward ≢ external.fee_collector
reward-collector q = ground (arith, q)

reward-pool : external.bridge_reward ≢ keeper.community_pool
reward-pool q = ground (arith, q)

reward-hole : external.bridge_reward ≢ external.black_hole
reward-hole q = ground (arith, q)

alice-apart :
    (alice ≢ external.fee_collector)
    × (alice ≢ keeper.community_pool)
    × (alice ≢ external.black_hole)
    × (alice ≢ external.bridge_reward)
alice-apart =
    (λ q. ground (arith, q), λ q. ground (arith, q), λ q. ground (arith, q), λ q. ground (arith, q))

split_fees-Shares_example :
    Shares external keeper keeper-CoinsLaws fee_collector-apart fee_collector-hole pool-hole before
      denom alice split
split_fees-Shares_example =
    split_fees-Shares external keeper keeper-CoinsLaws fee_collector-apart fee_collector-hole
      pool-hole before split denom alice reward-collector reward-pool reward-hole alice-apart.0
      alice-apart.1 alice-apart.2 alice-apart.3 before-split
