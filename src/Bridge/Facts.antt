-- ===== src/Bridge/Facts.antt =====
-- x/oracle/bridge/types/facts.go and the key strings of keeper/power.go: the byte encoding of an
-- attested fact-set, whose hash is the candidate that votes are tallied under.
pub mod Laws
use steem_virtual_machine_ev.Prelude.{
  ℕ, zero, suc, ◌+◌, ◌/◌, ◌%◌, ◌≡◌, refl, Bytes, List, [], ◌∷◌, ◌++◌, length, reverse, codes,
}
use steem_virtual_machine_ev.Bridge.Amounts.{BridgeAsset, steem, sbd}

-- The `width` lowest digits of a number, the lowest first.
unfoldable pub digits_le : ℕ → ℕ → ℕ → List ℕ
digits_le base zero n = []
digits_le base (suc width) n = n % base ∷ digits_le base width (n / base)

-- `binary.BigEndian.PutUint64`
unfoldable pub enc_u64 : ℕ → Bytes
unfolding digits_le
enc_u64 n = reverse (digits_le 256 8 n)

-- The length before the bytes.
unfoldable pub enc_str : Bytes → Bytes
unfolding enc_u64
enc_str s = enc_u64 (length s) ++ s

unfoldable pub asset_number : BridgeAsset → ℕ
asset_number steem = 0
asset_number sbd = 1

-- What the validators attest of a deposit, in the order in which it is hashed.
pub record DepositFacts : Type 0 where
  pub steem_block : ℕ
  pub steem_timestamp : Bytes
  pub steem_sender : Bytes
  pub gateway_account : Bytes
  pub amount_millisteem : ℕ
  pub memo : Bytes
  pub asset : BridgeAsset

unfoldable pub deposit_facts_bytes : DepositFacts → Bytes
unfolding enc_u64 enc_str asset_number
deposit_facts_bytes f =
    enc_u64 f.steem_block
    ++ (enc_str f.steem_timestamp
        ++ (enc_str f.steem_sender
            ++ (enc_str f.gateway_account
                ++ (enc_u64 f.amount_millisteem
                    ++ (enc_str f.memo ++ enc_u64 (asset_number f.asset))))))

-- `sha256_hex` is the lowercase hex form of the SHA-256 digest.
unfoldable pub deposit_facts_hash : (Bytes → Bytes) → DepositFacts → Bytes
unfolding deposit_facts_bytes
deposit_facts_hash sha256_hex f = sha256_hex (deposit_facts_bytes f)

pub record NameFacts : Type 0 where
  pub steem_block : ℕ
  pub steem_timestamp : Bytes
  pub steem_account : Bytes
  pub gateway_account : Bytes
  pub amount_millisteem : ℕ
  pub memo : Bytes

unfoldable pub name_facts_bytes : NameFacts → Bytes
unfolding enc_u64 enc_str
name_facts_bytes f =
    enc_u64 f.steem_block
    ++ (enc_str f.steem_timestamp
        ++ (enc_str f.steem_account
            ++ (enc_str f.gateway_account ++ (enc_u64 f.amount_millisteem ++ enc_str f.memo))))

unfoldable pub name_facts_hash : (Bytes → Bytes) → NameFacts → Bytes
unfolding name_facts_bytes
name_facts_hash sha256_hex f = sha256_hex (name_facts_bytes f)

-- `fmt.Sprintf("%s/%010d", txid, opIndex)`; an op index is below 2^32 and has ten digits at most.
ascii_digits : List ℕ → Bytes
ascii_digits [] = []
ascii_digits (d ∷ ds) = (d + b'0') ∷ ascii_digits ds

unfoldable pub dedup_key_string : Bytes → ℕ → Bytes
unfolding ascii_digits digits_le
dedup_key_string txid op_index =
    txid ++ (codes "/" ++ ascii_digits (reverse (digits_le 10 10 op_index)))

-- The same format, written out a second time in the source.
unfoldable pub payout_candidate_key : Bytes → ℕ → Bytes
unfolding ascii_digits digits_le
payout_candidate_key txid op_index =
    txid ++ (codes "/" ++ ascii_digits (reverse (digits_le 10 10 op_index)))

dedup_key_string-padded : dedup_key_string (codes "ab") 42 ≡ codes "ab/0000000042"
unfolding dedup_key_string
dedup_key_string-padded = refl

enc_u64-bytes : enc_u64 258 ≡ 0 ∷ 0 ∷ 0 ∷ 0 ∷ 0 ∷ 0 ∷ 1 ∷ 2 ∷ []
unfolding enc_u64
enc_u64-bytes = refl
