-- ===== src/Multisig/Apportion/Total.antt =====
-- The apportionment succeeds on every valid input, and what its result is.
use steem_virtual_machine_ev.Prelude.{
  ℕ, zero, suc, ◌+◌, ◌-◌, ◌*◌, ◌%◌, ◌^◌, ◌≡◌, ◌≤◌, ◌<◌, refl, arith, ltb, leb, ◌==◌, true, false,
  not, ◌&&◌, ◌||◌, Bytes, List, [], ◌∷◌, length, take, length-take-le, sum_by, All, none, some,
  Option-cases, ok, bytes_beq_iff, lt→ltb, Result-cases, inl, inr, has, bytes_eq, subst, sort_by,
  sum_by-sort_by, length-sort_by, All-sort_by,
}
use steem_virtual_machine_ev.Bridge.Power.Unique.{Distinct}
use steem_virtual_machine_ev.SteemTx.Authority.{AccountAuth, Authority, sorted, total, name_less}
use steem_virtual_machine_ev.Multisig.Apportion.{
  StakeEntry, Stake, stake_of, collect_stakes, stake_less, Row, rem_less, account_less, weigh,
  top_up, fill_rows, to_auths, threshold_of, apportion,
}
use steem_virtual_machine_ev.Multisig.Apportion.Shares.{
  weights, stakes, deficit_fits, top_up-sum, length-top_up, length-map-share,
}
use steem_virtual_machine_ev.Multisig.Apportion.Minimum.{Sharing, fill_rows-minimum}

-- Every entry that is kept has tokens.
collect_stakes-positive :
    (seen : List Bytes) (es : List StakeEntry) (vals : List Stake)
    → collect_stakes seen es ≡ ok vals
    → All (λ s. 1 ≤ s.tokens) vals
unfolding collect_stakes stake_of
collect_stakes-positive seen [] vals e =
    let same : [] ≡ vals = ground arith in subst (λ vs. All (λ s. 1 ≤ s.tokens) vs) same tt
collect_stakes-positive seen (x ∷ es) vals e = elim (Option-cases (stake_of x)) [
  | inl skipped ↦ collect_stakes-positive seen es vals (ground arith)
  | inr (s, kept) ↦ elim (Result-cases (collect_stakes (s.account ∷ seen) es)) [
    | inl (why, bad) ↦ ground arith
    | inr (rest, collected) ↦
        let same : s ∷ rest ≡ vals = ground arith in
        let here : 1 ≤ s.tokens = ground arith in
        subst (λ vs. All (λ s. 1 ≤ s.tokens) vs) same
          (here, collect_stakes-positive (s.account ∷ seen) es rest collected)
  ]
]

stakes-positive :
    (vals : List Stake) → All (λ s. 1 ≤ s.tokens) vals → 0 < length vals → 0 < stakes vals
stakes-positive [] a h = h
stakes-positive (v ∷ vals) a h = omega (arith, a.0)

All-take :
    (n : ℕ) (vals : List Stake)
    → All (λ s. 1 ≤ s.tokens) vals
    → All (λ s. 1 ≤ s.tokens) (take n vals)
All-take zero vals a = tt
All-take (suc n) [] a = tt
All-take (suc n) (v ∷ vals) a = (a.0, All-take n vals a.1)

-- The weights fit their 16 bits.
to_auths-ok :
    (rows : List Row)
    → All (λ r. 1 ≤ r.weight) rows
    → weights rows ≤ 10000
    → (auths : List AccountAuth) × (to_auths rows ≡ ok auths)
      × (sum_by (λ a. a.weight) auths ≡ weights rows)
      × (length auths ≡ length rows)
      × All (λ a. 1 ≤ a.weight) auths
unfolding to_auths
to_auths-ok [] a h = ([], refl, refl, refl, tt)
to_auths-ok (r ∷ rows) a h =
    let (rest, made, sum, len, least) = to_auths-ok rows a.1 (omega (arith, h)) in
    let one = a.0 in
    let fits : r.weight % 2 ^ 16 ≡ r.weight = omega (arith, h) in
    let auth : AccountAuth = record { name = r.account; weight = r.weight % 2 ^ 16 } in
    (
      auth ∷ rest,
      ground arith,
      omega (arith, fits, sum),
      omega (arith, len),
      (omega (arith, fits, one), least),
    )

-- The accounts of the entries with tokens.
unfoldable pub staked : List StakeEntry → List Bytes
staked [] = []
staked (e ∷ es) = elim (stake_of e) [ none ↦ staked es | some s ↦ s.account ∷ staked es ]

collect_stakes-ok :
    (seen : List Bytes) (es : List StakeEntry)
    → Distinct (staked es)
    → ((a : Bytes) → has a (staked es) ≡ true → has a seen ≡ false)
    → (vals : List Stake) × (collect_stakes seen es ≡ ok vals) × (length vals ≡ length (staked es))
unfolding collect_stakes staked has
collect_stakes-ok seen [] u h = ([], refl, refl)
collect_stakes-ok seen (e ∷ es) u h = elim (Option-cases (stake_of e)) [
  | inl skipped ↦
      let (vals, collected, len) =
        collect_stakes-ok seen es (ground (arith, u)) (λ a b. h a (ground arith)) in
      (vals, ground arith, ground arith)
  | inr (s, kept) ↦
      let same : staked (e ∷ es) ≡ s.account ∷ staked es = ground arith in
      let apart = subst (λ t. Distinct t) same u in
      let unseen = subst (λ t. (a : Bytes) → has a t ≡ true → has a seen ≡ false) same h in
      let (rest, collected, len) =
        collect_stakes-ok (s.account ∷ seen) es apart.1
          (λ a b. ground (arith, unseen a, apart.0, bytes_beq_iff a s.account)) in
      (s ∷ rest, ground (arith, unseen s.account, bytes_beq_iff s.account s.account), ground arith)
]

-- The rows of the loop for the minimum: they share the whole between them.
topped-Sharing :
    (vals : List Stake)
    → 0 < length vals
    → length vals ≤ 40
    → All (λ s. 1 ≤ s.tokens) vals
    → let rows = weigh vals in
      let topped = top_up (10000 - weights rows) (sort_by rem_less rows) in
      let ready = sort_by account_less topped in Sharing ready × (length ready ≡ length rows)
unfolding weigh
topped-Sharing vals h few a =
    let rows = weigh vals in
    let (whole, under) = deficit_fits vals (stakes-positive vals a h) h in
    let n = 10000 - weights rows in
    let by_rem = sort_by rem_less rows in
    let sum = top_up-sum n by_rem (omega (arith, under, length-sort_by rem_less rows)) in
    let len : length (sort_by account_less (top_up n by_rem)) ≡ length rows = omega (
      arith,
      length-sort_by account_less (top_up n by_rem),
      length-top_up n by_rem,
      length-sort_by rem_less rows,
    ) in
    (
      record {
        whole = omega (
          arith,
          whole,
          sum,
          sum_by-sort_by (λ r. r.weight) rem_less rows,
          sum_by-sort_by (λ r. r.weight) account_less (top_up n by_rem),
        );
        few = omega (arith, few, len, length-map-share (stakes vals) vals);
      },
      len,
    )

take-same_length :
    {A B : Type 0} (n : ℕ) (xs : List A) (ys : List B)
    → length xs ≡ length ys
    → length (take n xs) ≡ length (take n ys)
take-same_length zero xs ys h = refl
take-same_length (suc n) [] [] h = refl
take-same_length (suc n) [] (y ∷ ys) h = omega (arith, h)
take-same_length (suc n) (x ∷ xs) [] h = omega (arith, h)
take-same_length (suc n) (x ∷ xs) (y ∷ ys) h =
    omega (arith, take-same_length n xs ys (omega (arith, h)))

take-nonempty : {A : Type 0} (n : ℕ) (xs : List A) → 0 < n → 0 < length xs → 0 < length (take n xs)
take-nonempty zero xs h l = h
take-nonempty (suc n) [] h l = l
take-nonempty (suc n) (x ∷ xs) h l = omega arith

-- The steps of a call that succeeds.
apportion-runs :
    (entries : List StakeEntry) (percent : ℕ) (stakers : List Stake) (filled : List Row)
    (auths : List AccountAuth)
    → 1 ≤ percent
    → percent ≤ 100
    → collect_stakes [] entries ≡ ok stakers
    → 0 < length stakers
    → let rows = weigh (take 40 (sort_by stake_less stakers)) in
      let topped = sort_by account_less (top_up (10000 - weights rows) (sort_by rem_less rows)) in
      weights rows ≤ 10000
      → 10000 - weights rows < length rows
      → fill_rows (length rows) 0 topped ≡ some filled
      → to_auths filled ≡ ok auths
      → weights filled ≡ 10000
      → apportion entries percent
        ≡ ok (
            sorted record {
              weight_threshold = threshold_of percent;
              account_auths = auths;
              key_auths = [];
            })
unfolding apportion
apportion-runs entries percent stakers filled auths low high collected there whole under done made
      sum =
    let rows = weigh (take 40 (sort_by stake_less stakers)) in
    let in_range : not (percent == 0 || ltb 100 percent) ≡ true = ground arith in
    let staffed : ltb 0 (length stakers) ≡ true = lt→ltb 0 (length stakers) there in
    let possible : (leb (weights rows) 10000 && ltb (10000 - weights rows) (length rows)) ≡ true =
      ground (arith, whole, under) in
    rw (apportion, in_range, collected, staffed, possible, done, made, sum) refl

-- What the entries of a valid input come to: the weighed rows of an authority.
record Weighed (entries : List StakeEntry) (stakers : List Stake) : Type 0 where
  collected : collect_stakes [] entries ≡ ok stakers
  there : 0 < length stakers
  count : length (weigh (take 40 (sort_by stake_less stakers))) ≡ length (take 40 (staked entries))
  few : length (take 40 (sort_by stake_less stakers)) ≤ 40
  some_vals : 0 < length (take 40 (sort_by stake_less stakers))
  positive : All (λ s. 1 ≤ s.tokens) (take 40 (sort_by stake_less stakers))

entries-Weighed :
    (entries : List StakeEntry)
    → Distinct (staked entries)
    → 0 < length (staked entries)
    → (stakers : List Stake) × Weighed entries stakers
unfolding weigh has
entries-Weighed entries distinct some_stake =
    let (stakers, collected, len) = collect_stakes-ok [] entries distinct (λ a h. refl) in
    let by_stake = sort_by stake_less stakers in
    let size = length-sort_by stake_less stakers in
    let same = take-same_length 40 by_stake (staked entries) (omega (arith, size, len)) in
    (
      stakers,
      record {
        collected = collected;
        there = omega (arith, len, some_stake);
        count =
            omega (arith, same, length-map-share (stakes (take 40 by_stake)) (take 40 by_stake));
        few = length-take-le 40 by_stake;
        some_vals = take-nonempty 40 by_stake (omega arith) (omega (arith, size, len, some_stake));
        positive = All-take 40 by_stake (
            All-sort_by (λ s. 1 ≤ s.tokens) stake_less stakers
              (collect_stakes-positive [] entries stakers collected));
      },
    )

-- Every valid input has a result: the percentage is 1 to 100, some entry has tokens, and no account
-- with tokens is entered twice. The authority has 40 members, or one for each entry with tokens if
-- those are fewer; every weight is at least 1, the weights add up to 10000, and the threshold is
-- the given percentage of them, rounded up, so that all members together reach it.
pub apportion_succeeds :
    (entries : List StakeEntry) (percent : ℕ)
    → 1 ≤ percent
    → percent ≤ 100
    → Distinct (staked entries)
    → 0 < length (staked entries)
    → (a : Authority) × (apportion entries percent ≡ ok a)
      × (total a ≡ 10000)
      × All (λ x. 1 ≤ x.weight) a.account_auths
      × (length a.account_auths ≡ length (take 40 (staked entries)))
      × (10000 * percent ≤ a.weight_threshold * 100)
      × (a.weight_threshold * 100 < 10000 * percent + 100)
      × (a.weight_threshold ≤ total a)
unfolding threshold_of sorted total
apportion_succeeds entries percent low high distinct some_stake =
    let (stakers, w) = entries-Weighed entries distinct some_stake in
    let vals = take 40 (sort_by stake_less stakers) in
    let rows = weigh vals in
    let (whole, under) =
      deficit_fits vals (stakes-positive vals w.positive w.some_vals) w.some_vals in
    let (ready, same_length) = topped-Sharing vals w.some_vals w.few w.positive in
    let topped = sort_by account_less (top_up (10000 - weights rows) (sort_by rem_less rows)) in
    let (filled, done, sharing, kept, least) = fill_rows-minimum topped ready in
    let (auths, made, sum, members, each) =
      to_auths-ok filled least (omega (arith, sharing.whole)) in
    let full : sum_by (λ x. x.weight) (sort_by name_less auths) ≡ 10000 =
      omega (arith, sum, sharing.whole, sum_by-sort_by (λ x. x.weight) name_less auths) in
    (
      sorted
          record { weight_threshold = threshold_of percent; account_auths = auths; key_auths = [] },
      apportion-runs entries percent stakers filled auths low high w.collected w.there whole under
          (subst (λ n. fill_rows n 0 topped ≡ some filled) same_length done) made sharing.whole,
      omega (arith, full),
      All-sort_by (λ x. 1 ≤ x.weight) name_less auths each,
      omega (arith, length-sort_by name_less auths, members, kept, same_length, w.count),
      omega arith,
      omega arith,
      omega (arith, full, high),
    )
