-- ===== src/Multisig/Payout.antt =====
-- oracle/go/multisig/chain.go: the two operations of a withdrawal's payout, and the link between the
-- transaction and the withdrawal.
pub mod RoundTrip
use steem_virtual_machine_ev.Prelude.{
  ℕ, ◌^◌, ltb, leb, ◌==◌, if◌then◌else◌, Bool, true, false, ◌&&◌, ◌||◌, Bytes, bytes_beq, List, [],
  ◌∷◌, ◌++◌, codes, Option, none, some,
}
use steem_virtual_machine_ev.Text.{cut, cut_prefix}
use steem_virtual_machine_ev.SteemTx.Asset.{all_digits, digits_value, format_digits}
use steem_virtual_machine_ev.SteemTx.Encoding.{
  Operation, transfer, transfer_to_vesting, withdraw_vesting, account_update, custom_json,
  change_recovery_account, account_update2,
}

-- The extensions and the signatures, which no check reads, are left out.
pub record Transaction : Type 0 where
  pub ref_block_num : ℕ
  pub ref_block_prefix : ℕ
  pub expiration : Bytes
  pub operations : List (Operation Bytes)

pub record Transfer : Type 0 where
  pub source : Bytes
  pub dest : Bytes
  pub amount : Bytes
  pub memo : Bytes

-- `strconv.FormatUint(n, 10)`: a number of 64 bits has 20 digits at most.
unfoldable pub format_uint : ℕ → Bytes
unfolding format_digits
format_uint n = format_digits 20 n

abbrev pub payout_link_id : Bytes
payout_link_id = codes "svm-withdrawal"

abbrev pub payout_link_head : Bytes
payout_link_head = codes "{\"withdrawal_id\":\""

unfoldable pub payout_link_json : ℕ → Bytes
unfolding format_uint
payout_link_json id = payout_link_head ++ (format_uint id ++ codes "\"}")

-- `0|[1-9][0-9]*`
unfoldable pub is_canonical_number : Bytes → Bool
unfolding all_digits
is_canonical_number [] = false
is_canonical_number (c ∷ s) =
    (c == b'0' && bytes_beq s []) || ((leb b'1' c && leb c b'9') && all_digits s)

-- `payoutLinkRe`: the digits between the head and the closing quote and brace.
unfoldable pub match_payout_link : Bytes → Option Bytes
unfolding cut cut_prefix is_canonical_number
match_payout_link json = elim (cut_prefix payout_link_head json) [
  | none ↦ none
  | some rest ↦ elim (cut b'"' rest) [
    | none ↦ none
    | some (digits, tail) ↦
        if bytes_beq tail (codes "}") && is_canonical_number digits then some digits else none
  ]
]

-- `strconv.ParseUint(s, 10, 64)` of a string of digits.
unfoldable pub parse_uint64 : Bytes → Option ℕ
unfolding digits_value
parse_uint64 s = let n = digits_value 0 s in if ltb n (2 ^ 64) then some n else none

unfoldable pub is_signed_alone : List Bytes → Bytes → Bool
is_signed_alone [] bank = false
is_signed_alone (a ∷ []) bank = bytes_beq a bank
is_signed_alone (a ∷ b ∷ auths) bank = false

unfoldable pub is_empty : List Bytes → Bool
is_empty [] = true
is_empty (a ∷ auths) = false

-- `ParsePayoutLink` of the fields of a custom_json.
unfoldable pub parse_payout_link : List Bytes → List Bytes → Bytes → Bytes → Bytes → Option ℕ
unfolding is_signed_alone is_empty match_payout_link parse_uint64
parse_payout_link required_auths required_posting_auths id json bank =
    if bytes_beq id payout_link_id
      && (is_signed_alone required_auths bank && is_empty required_posting_auths)
    then elim (match_payout_link json) [ none ↦ none | some digits ↦ parse_uint64 digits ]
    else none

unfoldable pub transfer_of : Operation Bytes → Option Transfer
transfer_of (transfer source dest amount memo) =
    some record { source = source; dest = dest; amount = amount; memo = memo }
transfer_of (transfer_to_vesting source dest amount) = none
transfer_of (withdraw_vesting account shares) = none
transfer_of (account_update account owner active posting memo_key json) = none
transfer_of (custom_json auths posting id json) = none
transfer_of (change_recovery_account account agent) = none
transfer_of (account_update2 account owner active posting memo_key json posting_json) = none

unfoldable pub link_of : Operation Bytes → Bytes → Option ℕ
unfolding parse_payout_link
link_of (transfer source dest amount memo) bank = none
link_of (transfer_to_vesting source dest amount) bank = none
link_of (withdraw_vesting account shares) bank = none
link_of (account_update account owner active posting memo_key json) bank = none
link_of (custom_json auths posting id json) bank = parse_payout_link auths posting id json bank
link_of (change_recovery_account account agent) bank = none
link_of (account_update2 account owner active posting memo_key json posting_json) bank = none

-- `PayoutOf` of a transaction's operations.
unfoldable pub payout_of : List (Operation Bytes) → Bytes → Option (Transfer × ℕ)
unfolding transfer_of link_of
payout_of [] bank = none
payout_of (a ∷ []) bank = none
payout_of (a ∷ b ∷ []) bank = elim (transfer_of a) [
  | none ↦ none
  | some t ↦ elim (link_of b bank) [ none ↦ none | some id ↦ some (t, id) ]
]
payout_of (a ∷ b ∷ c ∷ ops) bank = none

-- `PayoutOps`
unfoldable pub payout_ops : Bytes → Bytes → Bytes → Bytes → ℕ → List (Operation Bytes)
unfolding payout_link_json
payout_ops bank dest amount memo id =
    transfer bank dest amount memo
    ∷ custom_json (bank ∷ []) [] payout_link_id (payout_link_json id)
    ∷ []
