-- ===== src/SteemTx/Encoding/Content.antt =====
-- What an operation says: its amounts as assets with a symbol of 7 bytes, its keys as 33 bytes. It
-- is there exactly when every amount and key is well-formed.
use steem_virtual_machine_ev.Prelude.{
  ◌^◌, ◌<◌, Bytes, List, [], ◌∷◌, length, All, Option, none, some, ok, err,
}
use steem_virtual_machine_ev.SteemTx.Authority.{KeyAuth, Authority}
use steem_virtual_machine_ev.SteemTx.Asset.{Asset, parse_asset}
use steem_virtual_machine_ev.SteemTx.Encoding.{
  KeyCodec, Operation, transfer, transfer_to_vesting, withdraw_vesting, account_update, custom_json,
  change_recovery_account, account_update2, decode_public_key, pad_to,
}

infixl 5 ◌>>?◌
abbrev pub ◌>>?◌ : {A B : Type 0} → Option A → (A → Option B) → Option B
none >>? next = none
some a >>? next = next a

unfoldable pub asset_content : Bytes → Option Asset
asset_content text = elim (parse_asset text) [
  | err why ↦ none
  | ok a ↦ some (record a { symbol = pad_to 7 a.symbol })
]

module _ (codec : KeyCodec) where
  unfoldable pub keys_content : List KeyAuth → Option (List KeyAuth)
  keys_content [] = some []
  keys_content (k ∷ keys) = decode_public_key codec k.key >>? λ pk.
      keys_content keys >>? λ rest. some (record { key = pk; weight = k.weight } ∷ rest)

  unfoldable pub authority_content : Authority → Option Authority
  unfolding keys_content
  authority_content a = keys_content a.key_auths >>? λ keys. some (record a { key_auths = keys })

  unfoldable pub opt_authority_content : Option Authority → Option (Option Authority)
  unfolding authority_content
  opt_authority_content none = some none
  opt_authority_content (some a) = authority_content a >>? λ b. some (some b)

  unfoldable pub opt_key_content : Bytes → Option Bytes
  opt_key_content [] = some []
  opt_key_content (c ∷ key) = decode_public_key codec (c ∷ key)

  unfoldable pub content : Operation Bytes → Option (Operation Asset)
  unfolding asset_content opt_authority_content opt_key_content
  content (transfer source dest amount memo) =
      asset_content amount >>? λ a. some (transfer source dest a memo)
  content (transfer_to_vesting source dest amount) =
      asset_content amount >>? λ a. some (transfer_to_vesting source dest a)
  content (withdraw_vesting account shares) =
      asset_content shares >>? λ a. some (withdraw_vesting account a)
  content (account_update account owner active posting key json) =
      opt_authority_content owner >>? λ a. opt_authority_content active >>? λ b.
      opt_authority_content posting >>? λ c.
      decode_public_key codec key >>? λ k. some (account_update account a b c k json)
  content (custom_json auths posting_auths id json) = some (custom_json auths posting_auths id json)
  content (change_recovery_account account recovery) =
      some (change_recovery_account account recovery)
  content (account_update2 account owner active posting key json posting_json) =
      opt_authority_content owner >>? λ a. opt_authority_content active >>? λ b.
      opt_authority_content posting >>? λ c.
      opt_key_content key >>? λ k. some (account_update2 account a b c k json posting_json)

-- The sizes that the format can express.
abbrev pub IsShort : Bytes → Type 0
IsShort s = length s < 2 ^ 32

abbrev pub AreShort : List Bytes → Type 0
AreShort names = (length names < 2 ^ 32) × All IsShort names

pub record AuthorityFits (a : Authority) : Type 0 where
  pub threshold : a.weight_threshold < 2 ^ 32
  pub accounts : length a.account_auths < 2 ^ 32
  pub names : All (λ x. IsShort x.name × (x.weight < 2 ^ 16)) a.account_auths
  pub keys : length a.key_auths < 2 ^ 32
  pub weights : All (λ x. x.weight < 2 ^ 16) a.key_auths

abbrev pub OptionFits : Option Authority → Type 0
OptionFits none = Unit
OptionFits (some a) = AuthorityFits a

abbrev pub OperationFits : Operation Bytes → Type 0
OperationFits (transfer source dest amount memo) = IsShort source × IsShort dest × IsShort memo
OperationFits (transfer_to_vesting source dest amount) = IsShort source × IsShort dest
OperationFits (withdraw_vesting account shares) = IsShort account
OperationFits (account_update account owner active posting key json) =
    IsShort account × OptionFits owner × OptionFits active × OptionFits posting × IsShort json
OperationFits (custom_json auths posting_auths id json) =
    AreShort auths × AreShort posting_auths × IsShort id × IsShort json
OperationFits (change_recovery_account account recovery) = IsShort account × IsShort recovery
OperationFits (account_update2 account owner active posting key json posting_json) =
    IsShort account
    × OptionFits owner
    × OptionFits active
    × OptionFits posting
    × IsShort json
    × IsShort posting_json
