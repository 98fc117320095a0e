-- ===== src/SteemTx/Encoding/Reader.antt =====
-- A reader of the binary form, written from Steem's format and not from the writer: what another
-- party gets out of the bytes that are signed.
use steem_virtual_machine_ev.Prelude.{
  ℕ, zero, suc, ◌+◌, ◌-◌, ◌*◌, ◌==◌, ltb, if◌then◌else◌, Bool, true, false, Bytes, List, [], ◌∷◌,
  Option, none, some, Result, ok, err, ◌>>=◌, ◌>>◌, guard,
}
use steem_virtual_machine_ev.SteemTx.Authority.{AccountAuth, KeyAuth, Authority}
use steem_virtual_machine_ev.SteemTx.Asset.{Asset}
use steem_virtual_machine_ev.SteemTx.Encoding.{
  Operation, transfer, transfer_to_vesting, withdraw_vesting, account_update, custom_json,
  change_recovery_account, account_update2,
}

pub data ReadError : Type 0 where
  truncated unknown_operation : ReadError

-- A value and the bytes after it.
abbrev pub Reader : Type 0 → Type 0
Reader A = Bytes → Result ReadError (A × Bytes)

unfoldable pub read_le : ℕ → Reader ℕ
read_le zero s = ok (0, s)
read_le (suc width) [] = err truncated
read_le (suc width) (c ∷ s) = read_le width s >>= λ p. ok (c + 256 * p.0, p.1)

unfoldable pub read_varint : ℕ → Reader ℕ
read_varint zero s = err truncated
read_varint (suc fuel) [] = err truncated
read_varint (suc fuel) (c ∷ s) =
    let rest = (read_varint fuel s >>= λ p. ok ((c - 128) + 128 * p.0, p.1)) in
    if ltb c 128 then ok (c, s) else rest

unfoldable pub read_bytes : ℕ → Reader Bytes
read_bytes zero s = ok ([], s)
read_bytes (suc n) [] = err truncated
read_bytes (suc n) (c ∷ s) = read_bytes n s >>= λ p. ok (c ∷ p.0, p.1)

unfoldable pub read_str : Reader Bytes
unfolding read_varint read_bytes
read_str s = read_varint 5 s >>= λ n. read_bytes n.0 n.1

unfoldable pub read_many : {A : Type 0} → Reader A → ℕ → Reader (List A)
read_many r zero s = ok ([], s)
read_many r (suc n) s = do first ← r s; rest ← read_many r n first.1; ok (first.0 ∷ rest.0, rest.1)

unfoldable pub read_list : {A : Type 0} → Reader A → Reader (List A)
unfolding read_varint read_many
read_list r s = read_varint 5 s >>= λ n. read_many r n.0 n.1

-- The symbol is the 7 bytes of the format.
unfoldable pub read_asset : Reader Asset
unfolding read_le read_bytes
read_asset s = do
  amount ← read_le 8 s
  precision ← read_le 1 amount.1
  symbol ← read_bytes 7 precision.1
  ok (record { amount = amount.0; precision = precision.0; symbol = symbol.0 }, symbol.1)

unfoldable pub read_account_auth : Reader AccountAuth
unfolding read_str read_le
read_account_auth s = do
  name ← read_str s
  weight ← read_le 2 name.1
  ok (record { name = name.0; weight = weight.0 }, weight.1)

-- The key is its 33 bytes.
unfoldable pub read_key_auth : Reader KeyAuth
unfolding read_bytes read_le
read_key_auth s = do
  key ← read_bytes 33 s
  weight ← read_le 2 key.1
  ok (record { key = key.0; weight = weight.0 }, weight.1)

unfoldable pub read_authority : Reader Authority
unfolding read_le read_list read_account_auth read_key_auth
read_authority s = do
  threshold ← read_le 4 s
  accounts ← read_list read_account_auth threshold.1
  keys ← read_list read_key_auth accounts.1
  ok (
    record { weight_threshold = threshold.0; account_auths = accounts.0; key_auths = keys.0 },
    keys.1,
  )

unfoldable pub read_flagged : {A : Type 0} → Reader A → Bool → Reader (Option A)
read_flagged r true s = ok (none, s)
read_flagged r false s = r s >>= λ a. ok (some a.0, a.1)

unfoldable pub read_option : {A : Type 0} → Reader A → Reader (Option A)
unfolding read_le read_flagged
read_option r s = read_le 1 s >>= λ flag. read_flagged r (flag.0 == 0) flag.1

-- The memo key of `account_update2`, empty if there is none.
unfoldable pub read_opt_key : Reader Bytes
unfolding read_option read_bytes
read_opt_key s = read_option (read_bytes 33) s >>= λ k. ok (or_empty k.0, k.1)
  where
    or_empty : Option Bytes → Bytes
    or_empty none = []
    or_empty (some key) = key

-- An empty list of extensions.
unfoldable pub read_no_extensions : Reader (Unit {0})
unfolding read_varint
read_no_extensions s = do n ← read_varint 5 s; guard (n.0 == 0) unknown_operation; ok (tt, n.1)

unfoldable pub read_transfer : Reader (Operation Asset)
unfolding read_str read_asset
read_transfer s = do
  source ← read_str s
  dest ← read_str source.1
  amount ← read_asset dest.1
  memo ← read_str amount.1
  ok (transfer source.0 dest.0 amount.0 memo.0, memo.1)

unfoldable pub read_transfer_to_vesting : Reader (Operation Asset)
unfolding read_str read_asset
read_transfer_to_vesting s = do
  source ← read_str s
  dest ← read_str source.1
  amount ← read_asset dest.1
  ok (transfer_to_vesting source.0 dest.0 amount.0, amount.1)

unfoldable pub read_withdraw_vesting : Reader (Operation Asset)
unfolding read_str read_asset
read_withdraw_vesting s = do
  account ← read_str s
  shares ← read_asset account.1
  ok (withdraw_vesting account.0 shares.0, shares.1)

unfoldable pub read_account_update : Reader (Operation Asset)
unfolding read_str read_option read_authority read_bytes
read_account_update s = do
  account ← read_str s
  owner ← read_option read_authority account.1
  active ← read_option read_authority owner.1
  posting ← read_option read_authority active.1
  key ← read_bytes 33 posting.1
  json ← read_str key.1
  ok (account_update account.0 owner.0 active.0 posting.0 key.0 json.0, json.1)

unfoldable pub read_custom_json : Reader (Operation Asset)
unfolding read_str read_list
read_custom_json s = do
  auths ← read_list read_str s
  posting_auths ← read_list read_str auths.1
  id ← read_str posting_auths.1
  json ← read_str id.1
  ok (custom_json auths.0 posting_auths.0 id.0 json.0, json.1)

unfoldable pub read_change_recovery_account : Reader (Operation Asset)
unfolding read_str read_no_extensions
read_change_recovery_account s = do
  account ← read_str s
  recovery ← read_str account.1
  done ← read_no_extensions recovery.1
  ok (change_recovery_account account.0 recovery.0, done.1)

unfoldable pub read_account_update2 : Reader (Operation Asset)
unfolding read_str read_option read_authority read_opt_key read_no_extensions
read_account_update2 s = do
  account ← read_str s
  owner ← read_option read_authority account.1
  active ← read_option read_authority owner.1
  posting ← read_option read_authority active.1
  key ← read_opt_key posting.1
  json ← read_str key.1
  posting_json ← read_str json.1
  done ← read_no_extensions posting_json.1
  ok (account_update2 account.0 owner.0 active.0 posting.0 key.0 json.0 posting_json.0, done.1)

-- The fields that the number of an operation stands for.
unfoldable pub read_fields : ℕ → Reader (Operation Asset)
unfolding read_transfer read_transfer_to_vesting read_withdraw_vesting read_account_update
    read_custom_json read_change_recovery_account read_account_update2
read_fields n s =
    if n == 2
    then read_transfer s
    else if n == 3
    then read_transfer_to_vesting s
    else if n == 4
    then read_withdraw_vesting s
    else if n == 10
    then read_account_update s
    else if n == 18
    then read_custom_json s
    else if n == 26
    then read_change_recovery_account s
    else if n == 43
    then read_account_update2 s
    else err unknown_operation

unfoldable pub read_operation : Reader (Operation Asset)
unfolding read_varint read_fields
read_operation s = read_varint 5 s >>= λ n. read_fields n.0 n.1
