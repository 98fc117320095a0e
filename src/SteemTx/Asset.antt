-- ===== src/SteemTx/Asset.antt =====
-- oracle/go/steemtx/encoding.go: amounts of Steem as text, `ParseAsset` and `FormatMilli`, with the
-- functions of Go's `strings`, `strconv` and `fmt` that they use.
pub mod RoundTrip
use steem_virtual_machine_ev.Prelude.{
  ℕ, zero, suc, ◌+◌, ◌-◌, ◌*◌, ◌/◌, ◌%◌, ◌^◌, ◌≡◌, refl, ltb, leb, ◌==◌, if◌then◌else◌, Bool, true,
  false, not, ◌&&◌, ◌||◌, Bytes, bytes_beq, List, [], ◌∷◌, ◌++◌, length, reverse, codes, Option,
  none, some, Result, ok, err, ◌>>=◌, ◌>>◌, guard, or_err,
}
use steem_virtual_machine_ev.Text.{space_head, cut, cut_prefix}
use steem_virtual_machine_ev.Bridge.Facts.{digits_le}

pub record Asset : Type 0 where
  pub amount : ℕ
  pub precision : ℕ
  pub symbol : Bytes

pub data AssetError : Type 0 where
  bad_asset unknown_symbol needs_decimals bad_digits out_of_range : AssetError

unfoldable pub add_word : Bytes → List Bytes → List Bytes
add_word [] later = later
add_word (c ∷ word) later = (c ∷ word) ∷ later

-- The first word and the later ones, while the given number of white space bytes is still skipped.
unfoldable pub words : ℕ → Bytes → Bytes × List Bytes
unfolding space_head add_word
words skip [] = ([], [])
words (suc skip) (c ∷ s) = words skip s
words zero (c ∷ s) = elim (space_head (c ∷ s)) [
  | zero ↦ let (word, later) = words zero s in (c ∷ word, later)
  | suc skip ↦ let (word, later) = words skip s in ([], add_word word later)
]

-- `strings.Fields`
unfoldable pub fields : Bytes → List Bytes
unfolding words add_word
fields s = let (word, later) = words 0 s in add_word word later

-- The decimals of a symbol.
unfoldable pub precision_of : Bytes → Option ℕ
precision_of symbol =
    if bytes_beq symbol (codes "STEEM") || bytes_beq symbol (codes "SBD")
    then some 3
    else if bytes_beq symbol (codes "VESTS")
    then some 6
    else none

unfoldable pub all_digits : Bytes → Bool
all_digits [] = true
all_digits (c ∷ s) = (leb b'0' c && leb c b'9') && all_digits s

-- The value of a string of digits that follow a number.
unfoldable pub digits_value : ℕ → Bytes → ℕ
digits_value n [] = n
digits_value n (c ∷ s) = digits_value (10 * n + (c - b'0')) s

-- `strconv.ParseInt(s, 10, 64)` of a string of digits.
unfoldable pub parse_int64 : Bytes → Result AssetError ℕ
unfolding digits_value
parse_int64 s = let n = digits_value 0 s in if ltb n (2 ^ 63) then ok n else err out_of_range

unfoldable pub has_prefix : Bytes → Bytes → Bool
unfolding cut_prefix
has_prefix prefix s = elim (cut_prefix prefix s) [ none ↦ false | some rest ↦ true ]

-- The number in front of the symbol.
unfoldable pub parse_amount : ℕ → Bytes → Result AssetError ℕ
unfolding cut has_prefix all_digits parse_int64
parse_amount precision text = do
  parts ← or_err (cut b'.' text) needs_decimals
  let whole = parts.0
  let frac = parts.1
  guard
      (length frac == precision
        && (not (length whole == 0)
            && (not (has_prefix (codes "-") whole) && not (has_prefix (codes "+") whole))))
      needs_decimals
  guard (all_digits (whole ++ frac)) bad_digits
  parse_int64 (whole ++ frac)

unfoldable pub parse_fields : List Bytes → Result AssetError Asset
unfolding precision_of parse_amount
parse_fields (text ∷ symbol ∷ []) = do
  precision ← or_err (precision_of symbol) unknown_symbol
  amount ← parse_amount precision text
  ok record { amount = amount; precision = precision; symbol = symbol }
parse_fields _ = err bad_asset

unfoldable pub parse_asset : Bytes → Result AssetError Asset
unfolding fields parse_fields
parse_asset s = parse_fields (fields s)

-- `%d` of a number with at most the given number of digits.
unfoldable pub format_digits : ℕ → ℕ → Bytes
format_digits zero n = []
format_digits (suc width) n =
    let shorter = format_digits width (n / 10) in
    if ltb n 10 then (n + b'0') ∷ [] else shorter ++ (n % 10 + b'0') ∷ []

-- `%0*d` of a number below 10 to the width.
unfoldable pub pad_digits : ℕ → ℕ → Bytes
pad_digits zero n = []
pad_digits (suc width) n = pad_digits width (n / 10) ++ (n % 10 + b'0') ∷ []

-- `%d.%03d %s`; a number in 64 bits has at most 20 digits.
unfoldable pub format_milli : ℕ → Bytes → Bytes
unfolding format_digits pad_digits
format_milli milli symbol =
    format_digits 20 (milli / 1000)
    ++ (codes "." ++ (pad_digits 3 (milli % 1000) ++ (codes " " ++ symbol)))

format_milli-short : format_milli 12500 (codes "SBD") ≡ codes "12.500 SBD"
unfolding format_milli
format_milli-short = refl

parse_asset-spaces :
    parse_asset (codes " 12.500  SBD ")
    ≡ ok record { amount = 12500; precision = 3; symbol = codes "SBD" }
unfolding parse_asset bytes_beq
parse_asset-spaces = refl

parse_asset-short : parse_asset (codes "12.5 SBD") ≡ err needs_decimals
unfolding parse_asset bytes_beq
parse_asset-short = refl
