-- ===== src/Bridge/Memo.antt =====
-- x/oracle/bridge/types/memo.go: the destination of a deposit, from its memo. The bech32 decoder of
-- the SDK and the hex decoder of go-ethereum are parameters.
use steem_virtual_machine_ev.Prelude.{
  ℕ, ◌≡◌, refl, leb, ◌==◌, if◌then◌else◌, Bool, true, false, ◌&&◌, ◌||◌, Bytes, [], ◌∷◌, Option,
  none, some, length, codes,
}
use steem_virtual_machine_ev.Text.{trim_space, cut_prefix}

pub data DestinationType : Type 0 where
  destination_none destination_cosmos destination_evm : DestinationType

unfoldable pub is_hex_digit : ℕ → Bool
is_hex_digit c =
    (leb b'0' c && leb c b'9') || ((leb b'a' c && leb c b'f') || (leb b'A' c && leb c b'F'))

all_hex : Bytes → Bool
all_hex [] = true
all_hex (c ∷ s) = is_hex_digit c && all_hex s

-- `^0x[0-9a-fA-F]{40}$`
unfoldable pub is_hex_address : Bytes → Bool
unfolding all_hex is_hex_digit
is_hex_address s = elim (cut_prefix (codes "0x") s) [
  | none ↦ false
  | some rest ↦ length rest == 40 && all_hex rest
]

-- What is left after a prefix must begin with a separator.
after_prefix : Bytes → Bytes → Bytes
after_prefix trimmed [] = trim_space []
after_prefix trimmed (c ∷ rest) = if c == 32 || c == 9 then trim_space (c ∷ rest) else trimmed

-- Strips one leading intent token; the first prefix that is found ends the loop.
unfoldable pub strip_intent : Bytes → Bytes
unfolding after_prefix
strip_intent trimmed = elim (cut_prefix (codes "svm-deposit") trimmed) [
  | some rest ↦ after_prefix trimmed rest
  | none ↦ elim (cut_prefix (codes "svm-register") trimmed) [
    | some rest ↦ after_prefix trimmed rest
    | none ↦ trimmed
  ]
]

-- `none` is the unparseable memo, of type `destination_none`.
unfoldable pub derive_destination :
    (Bytes → Option Bytes) → (Bytes → Bytes) → Bytes → Option (Bytes × DestinationType)
unfolding strip_intent is_hex_address
derive_destination acc_from_bech32 hex_to_address memo =
    let trimmed = strip_intent (trim_space memo) in
    elim (acc_from_bech32 trimmed) [
      | some addr ↦ some (addr, destination_cosmos)
      | none ↦
          if is_hex_address trimmed then some (hex_to_address trimmed, destination_evm) else none
    ]

strip_intent-glued : strip_intent (codes "svm-depositgarbage") ≡ codes "svm-depositgarbage"
unfolding strip_intent cut_prefix
strip_intent-glued = refl
