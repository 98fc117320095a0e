-- ===== src/SteemTx/Encoding.antt =====
-- oracle/go/steemtx/encoding.go: the binary form of operations, `Writer`, with `DecodePublicKey` of
-- keys.go. A write is the bytes that it appends; an error leaves the whole call without a result.
pub mod Reader
pub mod Content
pub mod Operations
pub mod RoundTrip
use steem_virtual_machine_ev.Prelude.{
  ℕ, zero, suc, ◌+◌, ◌*◌, ◌/◌, ◌%◌, ◌^◌, ◌≡◌, refl, ltb, ◌==◌, if◌then◌else◌, Bool, true, false,
  Bytes, bytes_beq, List, [], ◌∷◌, ◌++◌, length, take, codes, Option, none, some, Result, ok, err,
  ◌>>=◌, ◌>>◌, guard, or_err,
}
use steem_virtual_machine_ev.Text.{drop, cut_prefix}
use steem_virtual_machine_ev.Bridge.Facts.{digits_le}
use steem_virtual_machine_ev.SteemTx.Authority.{AccountAuth, KeyAuth, Authority}
use steem_virtual_machine_ev.SteemTx.Asset.{Asset, AssetError, parse_asset}

pub data EncodeError : Type 0 where
  bad_amount : AssetError → EncodeError
  bad_public_key : EncodeError

-- The base58 and RIPEMD-160 packages.
pub record KeyCodec : Type 0 where
  pub base58_decode : Bytes → Bytes
  pub ripemd160 : Bytes → Bytes

-- The operations with amounts of one type, as text or as assets. The extensions, which are never
-- written, are left out.
pub data Operation (Amount : Type 0) : Type 0 where
  transfer : Bytes → Bytes → Amount → Bytes → Operation Amount
  transfer_to_vesting : Bytes → Bytes → Amount → Operation Amount
  withdraw_vesting : Bytes → Amount → Operation Amount
  account_update :
      Bytes
      → Option Authority
      → Option Authority
      → Option Authority
      → Bytes
      → Bytes
      → Operation Amount
  custom_json : List Bytes → List Bytes → Bytes → Bytes → Operation Amount
  change_recovery_account : Bytes → Bytes → Operation Amount
  account_update2 :
      Bytes
      → Option Authority
      → Option Authority
      → Option Authority
      → Bytes
      → Bytes
      → Bytes
      → Operation Amount

-- `U8`, `U16`, `U32` and `I64` of a number that is not negative.
unfoldable pub put_u8 : ℕ → Bytes
put_u8 n = digits_le 256 1 n

unfoldable pub put_u16 : ℕ → Bytes
put_u16 n = digits_le 256 2 n

unfoldable pub put_u32 : ℕ → Bytes
put_u32 n = digits_le 256 4 n

unfoldable pub put_i64 : ℕ → Bytes
put_i64 n = digits_le 256 8 n

-- `Varint`, as so many bytes at most.
unfoldable pub varint_bytes : ℕ → ℕ → Bytes
varint_bytes zero v = []
varint_bytes (suc fuel) v =
    let rest = varint_bytes fuel (v / 128) in if ltb v 128 then v ∷ [] else (v % 128 + 128) ∷ rest

-- A number of 32 bits has 5 bytes at most.
unfoldable pub put_varint : ℕ → Bytes
unfolding varint_bytes
put_varint v = varint_bytes 5 v

unfoldable pub put_str : Bytes → Bytes
unfolding put_varint
put_str s = put_varint (length s % 2 ^ 32) ++ s

unfoldable pub pad_to : ℕ → Bytes → Bytes
pad_to zero s = []
pad_to (suc n) [] = 0 ∷ pad_to n []
pad_to (suc n) (c ∷ s) = c ∷ pad_to n s

unfoldable pub put_asset : Asset → Bytes
unfolding put_i64 put_u8 pad_to
put_asset a = put_i64 a.amount ++ (put_u8 a.precision ++ pad_to 7 a.symbol)

unfoldable pub decode_public_key : KeyCodec → Bytes → Option Bytes
decode_public_key codec s = elim (cut_prefix (codes "STM") s) [
  | none ↦ none
  | some encoded ↦
      let raw = codec.base58_decode encoded in
      if length raw == 37
      then if bytes_beq (take 4 (codec.ripemd160 (take 33 raw))) (drop 33 raw)
        then some (take 33 raw)
        else none
      else none
]

unfoldable pub put_account_auths : List AccountAuth → Bytes
unfolding put_str put_u16
put_account_auths [] = []
put_account_auths (a ∷ auths) = put_str a.name ++ (put_u16 a.weight ++ put_account_auths auths)

module _ (codec : KeyCodec) where
  unfoldable pub put_key_auths : List KeyAuth → Result EncodeError Bytes
  unfolding put_u16 decode_public_key
  put_key_auths [] = ok []
  put_key_auths (k ∷ keys) = do
    pk ← or_err (decode_public_key codec k.key) bad_public_key
    rest ← put_key_auths keys
    ok (pk ++ (put_u16 k.weight ++ rest))

  unfoldable pub put_authority : Authority → Result EncodeError Bytes
  unfolding put_u32 put_varint put_account_auths put_key_auths
  put_authority a = do
    keys ← put_key_auths a.key_auths
    ok (
        put_u32 a.weight_threshold
        ++ (put_varint (length a.account_auths % 2 ^ 32)
            ++ (put_account_auths a.account_auths
                ++ (put_varint (length a.key_auths % 2 ^ 32) ++ keys))))

  unfoldable pub put_opt_authority : Option Authority → Result EncodeError Bytes
  unfolding put_u8 put_authority
  put_opt_authority none = ok (put_u8 0)
  put_opt_authority (some a) = put_authority a >>= λ bytes. ok (put_u8 1 ++ bytes)

  unfoldable pub put_authorities :
      Option Authority → Option Authority → Option Authority → Result EncodeError Bytes
  unfolding put_opt_authority
  put_authorities owner active posting = do
    a ← put_opt_authority owner
    b ← put_opt_authority active
    c ← put_opt_authority posting
    ok (a ++ (b ++ c))

  -- The memo key of the second form may be empty.
  unfoldable pub put_opt_key : Bytes → Result EncodeError Bytes
  unfolding put_u8 decode_public_key
  put_opt_key [] = ok (put_u8 0)
  put_opt_key (c ∷ key) = do
    pk ← or_err (decode_public_key codec (c ∷ key)) bad_public_key
    ok (put_u8 1 ++ pk)

unfoldable pub put_amount : Bytes → Result EncodeError Bytes
unfolding put_asset parse_asset
put_amount text = elim (parse_asset text) [
  | err why ↦ err (bad_amount why)
  | ok a ↦ ok (put_asset a)
]

unfoldable pub put_names : List Bytes → Bytes
unfolding put_str
put_names [] = []
put_names (name ∷ names) = put_str name ++ put_names names

unfoldable pub put_name_list : List Bytes → Bytes
unfolding put_names put_varint
put_name_list names = put_varint (length names % 2 ^ 32) ++ put_names names

-- `Writer.Operation`: the number of the operation and its fields in the order of the chain.
unfoldable pub put_operation : KeyCodec → Operation Bytes → Result EncodeError Bytes
unfolding put_varint put_str put_amount put_authorities put_opt_key put_name_list decode_public_key
put_operation codec (transfer source dest amount memo) = do
  asset ← put_amount amount
  ok (put_varint 2 ++ (put_str source ++ (put_str dest ++ (asset ++ put_str memo))))
put_operation codec (transfer_to_vesting source dest amount) = do
  asset ← put_amount amount
  ok (put_varint 3 ++ (put_str source ++ (put_str dest ++ asset)))
put_operation codec (withdraw_vesting account shares) = do
  asset ← put_amount shares
  ok (put_varint 4 ++ (put_str account ++ asset))
put_operation codec (account_update account owner active posting memo_key json) = do
  authorities ← put_authorities codec owner active posting
  pk ← or_err (decode_public_key codec memo_key) bad_public_key
  ok (put_varint 10 ++ (put_str account ++ (authorities ++ (pk ++ put_str json))))
put_operation codec (custom_json auths posting_auths id json) = ok (
    put_varint 18
    ++ (put_name_list auths ++ (put_name_list posting_auths ++ (put_str id ++ put_str json))))
put_operation codec (change_recovery_account account recovery) =
    ok (put_varint 26 ++ (put_str account ++ (put_str recovery ++ put_varint 0)))
put_operation codec (account_update2 account owner active posting memo_key json posting_json) = do
  authorities ← put_authorities codec owner active posting
  key ← put_opt_key codec memo_key
  ok (
      put_varint 43
      ++ (put_str account
          ++ (authorities ++ (key ++ (put_str json ++ (put_str posting_json ++ put_varint 0))))))
