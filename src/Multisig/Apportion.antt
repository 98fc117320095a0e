-- ===== src/Multisig/Apportion.antt =====
-- oracle/go/multisig/apportion.go: the weights of the validators on the gateway account. An account
-- name stands for itself; a list of indices into the rows is the list of the rows in that order,
-- since the authority is sorted by name in the end.
pub mod Shares
pub mod Minimum
pub mod Total
use steem_virtual_machine_ev.Prelude.{
  ℕ, zero, suc, ◌+◌, ◌-◌, ◌*◌, ◌/◌, ◌%◌, ◌^◌, ltb, leb, ◌==◌, if◌then◌else◌, Bool, true, false, not,
  ◌&&◌, ◌||◌, Bytes, List, [], ◌∷◌, map, length, take, sum_by, Option, none, some, Result, ok, err,
  ◌>>=◌, ◌>>◌, guard, bytes_eq, has, or_err, sort_by, bytes_ltb,
}
use steem_virtual_machine_ev.SteemTx.Authority.{AccountAuth, KeyAuth, Authority, sorted, weight_of}

abbrev pub total_weight : ℕ
total_weight = 10000

abbrev pub max_account_auths : ℕ
max_account_auths = 40

-- A `*big.Int`: nil, a negative number, or another.
pub data BigInt : Type 0 where
  nil_int negative_int : BigInt
  non_negative_int : ℕ → BigInt

pub record StakeEntry : Type 0 where
  pub account : Bytes
  pub tokens : BigInt

pub data ApportionError : Type 0 where
  threshold_out_of_range duplicate_account no_validators impossible_deficit : ApportionError
  weight_out_of_range wrong_sum never_ends : ApportionError

-- An entry with tokens.
pub record Stake : Type 0 where
  pub account : Bytes
  pub tokens : ℕ

unfoldable pub stake_of : StakeEntry → Option Stake
stake_of e = elim e.tokens [
  | nil_int ↦ none
  | negative_int ↦ none
  | non_negative_int n ↦ if n == 0 then none else some record { account = e.account; tokens = n }
]

-- Drops the entries without tokens, and refuses an account that was seen before.
unfoldable pub collect_stakes : List Bytes → List StakeEntry → Result ApportionError (List Stake)
unfolding stake_of
collect_stakes seen [] = ok []
collect_stakes seen (e ∷ es) = elim (stake_of e) [
  | none ↦ collect_stakes seen es
  | some s ↦
      (guard (not (has s.account seen)) duplicate_account
        >> (collect_stakes (s.account ∷ seen) es >>= λ rest. ok (s ∷ rest)))
]

-- More tokens first, then by account.
unfoldable pub stake_less : Stake → Stake → Bool
unfolding bytes_ltb
stake_less a b =
    if a.tokens == b.tokens then bytes_ltb a.account b.account else ltb b.tokens a.tokens

pub record Row : Type 0 where
  pub account : Bytes
  pub weight : ℕ
  pub rem : ℕ

-- The floor of a validator's share, and the remainder.
unfoldable pub share : ℕ → Stake → Row
share t s = record {
  account = s.account;
  weight = total_weight * s.tokens / t;
  rem = (total_weight * s.tokens) % t;
}

-- A larger remainder first, then by account.
unfoldable pub rem_less : Row → Row → Bool
unfolding bytes_ltb
rem_less a b = if a.rem == b.rem then bytes_ltb a.account b.account else ltb b.rem a.rem

-- One point more for each of the first rows.
unfoldable pub top_up : ℕ → List Row → List Row
top_up zero rows = rows
top_up (suc n) [] = []
top_up (suc n) (r ∷ rows) = record r { weight = suc r.weight } ∷ top_up n rows

unfoldable pub account_less : Row → Row → Bool
unfolding bytes_ltb
account_less a b = bytes_ltb a.account b.account

unfoldable pub weight_at : ℕ → List Row → Option ℕ
weight_at i [] = none
weight_at zero (r ∷ rows) = some r.weight
weight_at (suc i) (r ∷ rows) = weight_at i rows

unfoldable pub set_weight : ℕ → (ℕ → ℕ) → List Row → List Row
set_weight i f [] = []
set_weight zero f (r ∷ rows) = record r { weight = f r.weight } ∷ rows
set_weight (suc i) f (r ∷ rows) = r ∷ set_weight i f rows

-- The loop for the donor: the place and the weight of the best row so far, and the next place.
unfoldable pub donor_loop : ℕ → ℕ → ℕ → List Row → ℕ × ℕ
donor_loop best best_weight at [] = (best, best_weight)
donor_loop best best_weight at (r ∷ rows) =
    let better = ltb best_weight r.weight in
    donor_loop (if better then at else best) (if better then r.weight else best_weight) (suc at)
      rows

-- The first row of the largest weight.
unfoldable pub donor : List Row → ℕ
unfolding donor_loop
donor [] = 0
donor (r ∷ rows) = (donor_loop 0 r.weight 1 rows).0

-- One unit moves from the donor to a row without weight.
unfoldable pub lift : ℕ → List Row → List Row
unfolding set_weight donor
lift i rows =
    let lifted = set_weight i (λ w. 1) rows in set_weight (donor lifted) (λ w. w - 1) lifted

-- `for rows[zi].weight == 0`; `none` is a loop that still runs.
unfoldable pub fill_row : ℕ → ℕ → List Row → Option (List Row)
unfolding lift weight_at
fill_row zero i rows = none
fill_row (suc fuel) i rows = elim (weight_at i rows) [
  | none ↦ some rows
  | some w ↦ elim w [ zero ↦ fill_row fuel i (lift i rows) | suc v ↦ some rows ]
]

-- A second look at a row always finds a weight.
abbrev pub fill_fuel : ℕ
fill_fuel = 2

-- The rows from one place on, in the order of their accounts.
unfoldable pub fill_rows : ℕ → ℕ → List Row → Option (List Row)
unfolding fill_row
fill_rows zero i rows = some rows
fill_rows (suc count) i rows = elim (fill_row fill_fuel i rows) [
  | none ↦ none
  | some filled ↦ fill_rows count (suc i) filled
]

-- The range check of every row, and the entries in 16 bits.
unfoldable pub to_auths : List Row → Result ApportionError (List AccountAuth)
to_auths [] = ok []
to_auths (r ∷ rows) = do
  guard (not (ltb r.weight 1 || ltb 65535 r.weight)) weight_out_of_range
  rest ← to_auths rows
  ok (record { name = r.account; weight = r.weight % 2 ^ 16 } ∷ rest)

-- `(TotalWeight*percent + 99) / 100`, in 64 bits, cast to 32.
unfoldable pub threshold_of : ℕ → ℕ
threshold_of percent = (total_weight * percent + 99) / 100

unfoldable pub weigh : List Stake → List Row
unfolding share
weigh vals = map (share (sum_by (λ s. s.tokens) vals)) vals

unfoldable pub apportion : List StakeEntry → ℕ → Result ApportionError Authority
unfolding collect_stakes stake_less weigh rem_less top_up account_less fill_rows to_auths
    threshold_of sorted sort_by
apportion entries percent = do
  guard (not (percent == 0 || ltb 100 percent)) threshold_out_of_range
  stakes ← collect_stakes [] entries
  guard (ltb 0 (length stakes)) no_validators
  let vals = take max_account_auths (sort_by stake_less stakes)
  let rows = weigh vals
  let sum_q = sum_by (λ r. r.weight) rows
  let deficit = total_weight - sum_q
  guard (leb sum_q total_weight && ltb deficit (length rows)) impossible_deficit
  let topped = top_up deficit (sort_by rem_less rows)
  filled ← or_err (fill_rows (length rows) 0 (sort_by account_less topped)) never_ends
  auths ← to_auths filled
  guard (sum_by (λ r. r.weight) filled == total_weight) wrong_sum
  ok (
      sorted
        record { weight_threshold = threshold_of percent; account_auths = auths; key_auths = [] })

-- `ExceedsTolerance`: membership or threshold changed, or a weight moved by more than the tolerance.
unfoldable pub moved_too_far : Authority → ℕ → List AccountAuth → Bool
unfolding weight_of
moved_too_far current tolerance [] = false
moved_too_far current tolerance (d ∷ ds) =
    let c = weight_of current d.name in
    let rest = moved_too_far current tolerance ds in
    if c == 0 || ltb tolerance ((c - d.weight) + (d.weight - c)) then true else rest

unfoldable pub exceeds_tolerance : Authority → Authority → ℕ → Bool
unfolding moved_too_far
exceeds_tolerance current desired tolerance =
    if not (current.weight_threshold == desired.weight_threshold)
      || not (length current.account_auths == length desired.account_auths)
    then true
    else moved_too_far current tolerance desired.account_auths
