-- ===== src/Bridge/Fields.antt =====
-- x/oracle/bridge/types: the stateless checks of a withdrawal's fields (steem_account.go,
-- message_bridge_out.go, field_limits.go), with `utf8.ValidString`, `unicode.IsControl` and the
-- regular expression of account names written out.
use steem_virtual_machine_ev.Prelude.{
  ℕ, zero, suc, ◌≡◌, refl, leb, ltb, ◌==◌, if◌then◌else◌, Bool, true, false, not, ◌&&◌, ◌||◌, Bytes,
  bytes_beq, [], ◌∷◌, Option, none, some, length, codes, Result, ok, ◌>>◌, guard,
}
use steem_virtual_machine_ev.Bridge.State.{
  Error, invalid_steem_account, invalid_request, gateway_account_name,
}

unfoldable pub is_lower : ℕ → Bool
is_lower c = leb b'a' c && leb c b'z'

-- `^[a-z][a-z0-9-]*(?:\.[a-z][a-z0-9-]*)*$`, from the start of a segment (`true`) or from inside
-- one.
unfoldable pub matches_account_name : Bool → Bytes → Bool
unfolding is_lower
matches_account_name true [] = false
matches_account_name false [] = true
matches_account_name true (c ∷ s) = is_lower c && matches_account_name false s
matches_account_name false (c ∷ s) =
    let next = matches_account_name true s in
    let inside = matches_account_name false s in
    if c == b'.' then next else (is_lower c || ((leb b'0' c && leb c b'9') || c == b'-')) && inside

unfoldable pub validate_steem_account_name : Bytes → Result Error (Unit {0})
unfolding matches_account_name
validate_steem_account_name name = do
  guard (leb 3 (length name) && leb (length name) 16) invalid_steem_account
  guard (matches_account_name true name) invalid_steem_account

unfoldable pub validate_withdrawal_destination : Bytes → Result Error (Unit {0})
unfolding validate_steem_account_name
validate_withdrawal_destination account = do
  validate_steem_account_name account
  guard (not (bytes_beq account gateway_account_name)) invalid_steem_account

-- How many bytes follow a leading byte of UTF-8, and the bounds of the first of them.
unfoldable pub utf8_lead : ℕ → Option (ℕ × ℕ × ℕ)
utf8_lead c =
    if ltb c 0x80
    then some (0, 0x80, 0xBF)
    else if leb 0xC2 c && leb c 0xDF
    then some (1, 0x80, 0xBF)
    else if c == 0xE0
    then some (2, 0xA0, 0xBF)
    else if c == 0xED
    then some (2, 0x80, 0x9F)
    else if leb 0xE1 c && leb c 0xEF
    then some (2, 0x80, 0xBF)
    else if c == 0xF0
    then some (3, 0x90, 0xBF)
    else if leb 0xF1 c && leb c 0xF3
    then some (3, 0x80, 0xBF)
    else if c == 0xF4
    then some (3, 0x80, 0x8F)
    else none

unfoldable pub valid_string : ℕ → ℕ → ℕ → Bytes → Bool
unfolding utf8_lead
valid_string zero low high [] = true
valid_string (suc n) low high [] = false
valid_string zero low high (c ∷ s) = elim (utf8_lead c) [
  | none ↦ false
  | some (n, l, h) ↦ valid_string n l h s
]
valid_string (suc n) low high (c ∷ s) = leb low c && (leb c high && valid_string n 0x80 0xBF s)

abbrev pub max_memo_bytes : ℕ
max_memo_bytes = 2048

abbrev pub max_withdrawal_memo_bytes : ℕ
max_withdrawal_memo_bytes = 256

unfoldable pub validate_memo : Bytes → Result Error (Unit {0})
unfolding valid_string
validate_memo memo = do
  guard (leb (length memo) max_memo_bytes) invalid_request
  guard (valid_string 0 0x80 0xBF memo) invalid_request

-- A control character of a valid string: U+0000 to U+001F, or U+007F to U+009F, which from U+0080
-- on begins with the byte 0xC2.
unfoldable pub has_control : Bytes → Bool
has_control [] = false
has_control (a ∷ []) = ltb a 32 || a == 127
has_control (a ∷ b ∷ s) =
    (ltb a 32 || a == 127) || ((a == 0xC2 && (leb 0x80 b && leb b 0x9F)) || has_control (b ∷ s))

unfoldable pub validate_withdrawal_memo : Bytes → Result Error (Unit {0})
unfolding validate_memo has_control
validate_withdrawal_memo memo = do
  validate_memo memo
  guard (leb (length memo) max_withdrawal_memo_bytes) invalid_request
  guard (not (has_control memo)) invalid_request

validate_withdrawal_destination-name : validate_withdrawal_destination (codes "foo-bar.b2") ≡ ok tt
unfolding validate_withdrawal_destination bytes_beq
validate_withdrawal_destination-name = refl
