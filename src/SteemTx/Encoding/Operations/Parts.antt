-- ===== src/SteemTx/Encoding/Operations/Parts.antt =====
-- The parts of an operation that may fail: amounts, keys and authorities.
use mathlib.Core.List.{append_assoc}
use steem_virtual_machine_ev.Prelude.{
  ℕ, suc, ◌%◌, ◌^◌, ◌≡◌, ◌<◌, refl, arith, subst, ltb, ltb→lt, ◌==◌, Bytes, bytes_beq, List, [],
  ◌∷◌, ◌++◌, length, length-take, take, codes, All, Option, none, some, ok, Bool-cases,
  Option-cases, Result-cases, inl, inr,
}
use steem_virtual_machine_ev.Text.{cut, cut_prefix, drop}
use steem_virtual_machine_ev.Bridge.Facts.{digits_le}
use steem_virtual_machine_ev.SteemTx.Authority.{KeyAuth, Authority}
use steem_virtual_machine_ev.SteemTx.Asset.{
  Asset, fields, parse_asset, parse_fields, parse_amount, parse_int64, precision_of, digits_value,
}
use steem_virtual_machine_ev.SteemTx.Encoding.{
  KeyCodec, put_u8, put_u16, put_u32, put_varint, pad_to, put_asset, decode_public_key,
  put_account_auths, put_key_auths, put_authority, put_opt_authority, put_amount,
}
use steem_virtual_machine_ev.SteemTx.Encoding.Reader.{
  Reader, read_le, read_bytes, read_many, read_asset, read_account_auth, read_key_auth,
  read_authority, read_flagged, read_option,
}
use steem_virtual_machine_ev.SteemTx.Encoding.RoundTrip.{
  Reads, read_le-digits, read_bytes-all, put_asset-Reads, read_list-Reads, put_account_auths-Reads,
}
use steem_virtual_machine_ev.SteemTx.Encoding.Content.{
  asset_content, keys_content, authority_content, opt_authority_content, AuthorityFits, OptionFits,
}

parse_int64-small : (s : Bytes) (n : ℕ) → parse_int64 s ≡ ok n → n < 2 ^ 64
unfolding parse_int64
parse_int64-small s n h = elim (Bool-cases (ltb (digits_value 0 s) (2 ^ 63))) [
  | inl small ↦
      let same : digits_value 0 s ≡ n = ground arith in
      omega (arith, same, ltb→lt (digits_value 0 s) (2 ^ 63) small)
  | inr large ↦ ground arith
]

parse_amount-small : (p : ℕ) (s : Bytes) (n : ℕ) → parse_amount p s ≡ ok n → n < 2 ^ 64
unfolding parse_amount
parse_amount-small p s n h = elim (Option-cases (cut b'.' s)) [
  | inl missing ↦ ground arith
  | inr ((whole, frac), parts) ↦ parse_int64-small (whole ++ frac) n (ground arith)
]

precision_of-small : (s : Bytes) (p : ℕ) → precision_of s ≡ some p → p < 256
unfolding precision_of
precision_of-small s p h = ground arith

parse_fields-small :
    (words : List Bytes) (a : Asset)
    → parse_fields words ≡ ok a
    → (a.amount < 2 ^ 64) × (a.precision < 256)
unfolding parse_fields
parse_fields-small [] a h = ground arith
parse_fields-small (w ∷ []) a h = ground arith
parse_fields-small (text ∷ symbol ∷ []) a h = elim (Option-cases (precision_of symbol)) [
  | inl unknown ↦ ground arith
  | inr (p, known) ↦ elim (Result-cases (parse_amount p text)) [
    | inl (why, bad) ↦ ground arith
    | inr (n, parsed) ↦
        let one = parse_amount-small p text n parsed in
        let two = precision_of-small symbol p known in
        let same : record { amount = n; precision = p; symbol = symbol } ≡ a = ground arith in
        subst (λ b. (b.amount < 2 ^ 64) × (b.precision < 256)) same (one, two)
  ]
]
parse_fields-small (u ∷ v ∷ w ∷ ws) a h = ground arith

-- What is written by one writer is read by one reader, as some content.
pub record Written {A : Type 0} (r : Reader A) (bytes : Bytes) (c : Option A) : Type 0 where
  pub value : A
  pub meant : c ≡ some value
  pub reads : Reads r bytes value

pub put_amount-Written :
    (text bytes : Bytes)
    → put_amount text ≡ ok bytes
    → Written read_asset bytes (asset_content text)
unfolding put_amount asset_content parse_asset
put_amount-Written text bytes h = elim (Result-cases (parse_asset text)) [
  | inl (why, bad) ↦ ground arith
  | inr (a, parsed) ↦
      let (one, two) = parse_fields-small (fields text) a parsed in
      let same : put_asset a ≡ bytes = ground arith in
      subst (λ b. Written read_asset b (asset_content text)) same
        record {
          value = record a { symbol = pad_to 7 a.symbol };
          meant = ground arith;
          reads = put_asset-Reads a one two;
        }
]

module _ (codec : KeyCodec) where
  pub length-decode_public_key :
      (s pk : Bytes) → decode_public_key codec s ≡ some pk → length pk ≡ 33
  unfolding decode_public_key
  length-decode_public_key s pk h = elim (Option-cases (cut_prefix (codes "STM") s)) [
    | inl other ↦ ground arith
    | inr (encoded, stm) ↦
        let raw = codec.base58_decode encoded in
        elim (Bool-cases (length raw == 37)) [
          | inr wrong ↦ ground arith
          | inl right ↦
              elim (Bool-cases (bytes_beq (take 4 (codec.ripemd160 (take 33 raw))) (drop 33 raw))) [
                | inr bad ↦ ground arith
                | inl good ↦
                    let same : take 33 raw ≡ pk = ground arith in
                    subst (λ k. length k ≡ 33) same
                      (length-take 33 raw
                        (let n : length raw ≡ 37 = ground arith in omega (arith, n)))
              ]
        ]
  ]

  pub public_key-Reads :
      (s pk : Bytes) → decode_public_key codec s ≡ some pk → Reads (read_bytes 33) pk pk
  public_key-Reads s pk h =
      subst (λ n. Reads (read_bytes n) pk pk) (length-decode_public_key s pk h) (read_bytes-all pk)

  put_key_auths-Written :
      (keys : List KeyAuth) (bytes : Bytes)
      → All (λ x. x.weight < 2 ^ 16) keys
      → put_key_auths codec keys ≡ ok bytes
      → Written (read_many read_key_auth (length keys)) bytes (keys_content codec keys)
  unfolding put_key_auths keys_content put_u16 read_many read_key_auth
  put_key_auths-Written [] bytes w h =
      let same : [] ≡ bytes = ground arith in
      subst (λ b. Written (read_many read_key_auth 0) b (some [])) same
        record { value = []; meant = refl; reads = λ rest. refl }
  put_key_auths-Written (k ∷ keys) bytes w h = elim (Option-cases (decode_public_key codec k.key)) [
    | inl bad ↦ ground arith
    | inr (pk, decoded) ↦ elim (Result-cases (put_key_auths codec keys)) [
      | inl (why, bad) ↦ ground arith
      | inr (later, written) ↦
          let rec = put_key_auths-Written keys later w.1 written in
          let weight = digits_le 256 2 k.weight in
          let same : pk ++ (put_u16 k.weight ++ later) ≡ bytes = ground arith in
          let small = w.0 in
          subst
            (λ b.
              Written (read_many read_key_auth (suc (length keys))) b
                (keys_content codec (k ∷ keys)))
            same
            record {
              value = record { key = pk; weight = k.weight } ∷ rec.value;
              meant = rw (keys_content, decoded, rec.meant) refl;
              reads = λ rest.
                  rw
                    (
                      put_u16,
                      append_assoc pk (weight ++ later) rest,
                      append_assoc weight later rest,
                      read_many,
                      read_key_auth,
                      public_key-Reads k.key pk decoded (weight ++ (later ++ rest)),
                      read_le-digits 2 k.weight (omega (arith, small)) (later ++ rest),
                      rec.reads rest,
                    )
                    refl;
            }
    ]
  ]

  put_authority-Written :
      (a : Authority) (bytes : Bytes)
      → AuthorityFits a
      → put_authority codec a ≡ ok bytes
      → Written read_authority bytes (authority_content codec a)
  unfolding put_authority authority_content put_u32 read_authority
  put_authority-Written a bytes f h = elim (Result-cases (put_key_auths codec a.key_auths)) [
    | inl (why, bad) ↦ ground arith
    | inr (keys, written) ↦
        let rec = put_key_auths-Written a.key_auths keys f.weights written in
        let t = digits_le 256 4 a.weight_threshold in
        let accounts = put_account_auths a.account_auths in
        let n = put_varint (length a.account_auths % 2 ^ 32) in
        let m = put_varint (length a.key_auths % 2 ^ 32) in
        let small = f.threshold in
        let same : put_u32 a.weight_threshold ++ (n ++ (accounts ++ (m ++ keys))) ≡ bytes =
          ground arith in
        subst (λ b. Written read_authority b (authority_content codec a)) same
          record {
            value = record a { key_auths = rec.value };
            meant = rw (authority_content, rec.meant) refl;
            reads = λ rest.
                let first =
                  read_list-Reads read_account_auth (length a.account_auths) accounts
                    a.account_auths f.accounts (put_account_auths-Reads a.account_auths f.names)
                    ((m ++ keys) ++ rest) in
                let second =
                  read_list-Reads read_key_auth (length a.key_auths) keys rec.value f.keys rec.reads
                    rest in
                rw
                  (
                    put_u32,
                    append_assoc t (n ++ (accounts ++ (m ++ keys))) rest,
                    ← append_assoc n accounts (m ++ keys),
                    append_assoc (n ++ accounts) (m ++ keys) rest,
                    read_authority,
                    read_le-digits 4 a.weight_threshold (omega (arith, small))
                        ((n ++ accounts) ++ ((m ++ keys) ++ rest)),
                    first,
                    second,
                  )
                  refl;
          }
  ]

  pub put_opt_authority-Written :
      (a : Option Authority) (bytes : Bytes)
      → OptionFits a
      → put_opt_authority codec a ≡ ok bytes
      → Written (read_option read_authority) bytes (opt_authority_content codec a)
  unfolding put_opt_authority opt_authority_content put_u8 read_option read_flagged digits_le
      read_le
  put_opt_authority-Written none bytes f h =
      let same : put_u8 0 ≡ bytes = ground arith in
      subst (λ b. Written (read_option read_authority) b (some none)) same
        record { value = none; meant = refl; reads = λ rest. refl }
  put_opt_authority-Written (some a) bytes f h = elim (Result-cases (put_authority codec a)) [
    | inl (why, bad) ↦ ground arith
    | inr (inner, written) ↦
        let rec = put_authority-Written a inner f written in
        let same : put_u8 1 ++ inner ≡ bytes = ground arith in
        subst (λ b. Written (read_option read_authority) b (opt_authority_content codec (some a)))
          same
          record {
            value = some rec.value;
            meant = rw (opt_authority_content, rec.meant) refl;
            reads = λ rest. rw (read_option, read_flagged, rec.reads rest) refl;
          }
  ]
