-- ===== src/SteemTx/Encoding/Operations.antt =====
-- Every operation that is written is read back as its content.
pub mod Parts
pub mod Updates
use mathlib.Core.List.{append_assoc}
use steem_virtual_machine_ev.Prelude.{
  ℕ, zero, suc, ◌+◌, ◌%◌, ◌^◌, ◌≡◌, ◌<◌, ◌≤◌, refl, arith, sym, subst, ltb, ltb→lt, ◌==◌,
  if◌then◌else◌, Bool, true, false, not, ◌&&◌, Bytes, bytes_beq, List, [], ◌∷◌, ◌++◌, length,
  length-take, take, codes, All, Option, none, some, Result, ok, err, Bool-cases, Option-cases,
  Result-cases, inl, inr,
}
use steem_virtual_machine_ev.Text.{cut, cut_prefix, drop}
use steem_virtual_machine_ev.Bridge.Facts.{digits_le}
use steem_virtual_machine_ev.SteemTx.Authority.{AccountAuth, KeyAuth, Authority}
use steem_virtual_machine_ev.SteemTx.Asset.{
  Asset, fields, parse_asset, parse_fields, parse_amount, parse_int64, precision_of, digits_value,
  all_digits, has_prefix,
}
use steem_virtual_machine_ev.SteemTx.Encoding.{
  KeyCodec, Operation, transfer, transfer_to_vesting, withdraw_vesting, account_update, custom_json,
  change_recovery_account, account_update2, put_u8, put_u16, put_u32, put_varint, put_str, pad_to,
  put_asset, decode_public_key, put_account_auths, put_key_auths, put_authority, put_opt_authority,
  put_authorities, put_opt_key, put_amount, put_names, put_name_list, put_operation,
}
use steem_virtual_machine_ev.SteemTx.Encoding.Reader.{
  Reader, read_le, read_varint, read_bytes, read_str, read_many, read_list, read_asset,
  read_account_auth, read_key_auth, read_authority, read_flagged, read_option, read_opt_key,
  read_no_extensions, read_transfer, read_transfer_to_vesting, read_withdraw_vesting,
  read_account_update, read_custom_json, read_change_recovery_account, read_account_update2,
  read_fields, read_operation,
}
use steem_virtual_machine_ev.SteemTx.Encoding.RoundTrip.{
  Reads, read_le-digits, put_varint-Reads, read_bytes-all, put_str-Reads, put_asset-Reads,
  read_list-Reads, put_names-Reads, put_account_auths-Reads, three_parts, four_parts,
}
use steem_virtual_machine_ev.SteemTx.Encoding.Content.{
  asset_content, keys_content, authority_content, opt_authority_content, opt_key_content, content,
  IsShort, AreShort, AuthorityFits, OptionFits, OperationFits,
}
use steem_virtual_machine_ev.SteemTx.Encoding.Operations.Parts.{
  Written, put_amount-Written, public_key-Reads, put_opt_authority-Written,
}
use steem_virtual_machine_ev.SteemTx.Encoding.Operations.Updates.{
  account_update-Written, account_update2-Written,
}

module _ (codec : KeyCodec) where
  transfer-Written :
      (source dest amount memo bytes : Bytes)
      → OperationFits (transfer source dest amount memo)
      → put_operation codec (transfer source dest amount memo) ≡ ok bytes
      → Written read_operation bytes (content codec (transfer source dest amount memo))
  unfolding put_operation content read_operation read_fields read_varint put_varint read_transfer
  transfer-Written source dest amount memo bytes f h = elim (Result-cases (put_amount amount)) [
    | inl (why, bad) ↦ ground arith
    | inr (asset, written) ↦
        let a = put_amount-Written amount asset written in
        let body = put_str source ++ (put_str dest ++ (asset ++ put_str memo)) in
        let same : put_varint 2 ++ body ≡ bytes = ground arith in
        subst (λ b. Written read_operation b (content codec (transfer source dest amount memo)))
          same
          record {
            value = transfer source dest a.value memo;
            meant = rw (content, a.meant) refl;
            reads = λ rest.
                rw
                  (
                    read_operation,
                    read_fields,
                    read_transfer,
                    four_parts (put_str source) (put_str dest) asset (put_str memo) rest,
                    put_str-Reads source f.0 (put_str dest ++ (asset ++ (put_str memo ++ rest))),
                    put_str-Reads dest f.1 (asset ++ (put_str memo ++ rest)),
                    a.reads (put_str memo ++ rest),
                    put_str-Reads memo f.2 rest,
                  )
                  refl;
          }
  ]

  transfer_to_vesting-Written :
      (source dest amount bytes : Bytes)
      → OperationFits (transfer_to_vesting source dest amount)
      → put_operation codec (transfer_to_vesting source dest amount) ≡ ok bytes
      → Written read_operation bytes (content codec (transfer_to_vesting source dest amount))
  unfolding put_operation content read_operation read_fields read_varint put_varint
      read_transfer_to_vesting
  transfer_to_vesting-Written source dest amount bytes f h =
      elim (Result-cases (put_amount amount)) [
        | inl (why, bad) ↦ ground arith
        | inr (asset, written) ↦
            let a = put_amount-Written amount asset written in
            let body = put_str source ++ (put_str dest ++ asset) in
            let same : put_varint 3 ++ body ≡ bytes = ground arith in
            subst
              (λ b.
                Written read_operation b (content codec (transfer_to_vesting source dest amount)))
              same
              record {
                value = transfer_to_vesting source dest a.value;
                meant = rw (content, a.meant) refl;
                reads = λ rest.
                    rw
                      (
                        read_operation,
                        read_fields,
                        read_transfer_to_vesting,
                        three_parts (put_str source) (put_str dest) asset rest,
                        put_str-Reads source f.0 (put_str dest ++ (asset ++ rest)),
                        put_str-Reads dest f.1 (asset ++ rest),
                        a.reads rest,
                      )
                      refl;
              }
      ]

  withdraw_vesting-Written :
      (account shares bytes : Bytes)
      → OperationFits (withdraw_vesting account shares)
      → put_operation codec (withdraw_vesting account shares) ≡ ok bytes
      → Written read_operation bytes (content codec (withdraw_vesting account shares))
  unfolding put_operation content read_operation read_fields read_varint put_varint
      read_withdraw_vesting
  withdraw_vesting-Written account shares bytes f h = elim (Result-cases (put_amount shares)) [
    | inl (why, bad) ↦ ground arith
    | inr (asset, written) ↦
        let a = put_amount-Written shares asset written in
        let same : put_varint 4 ++ (put_str account ++ asset) ≡ bytes = ground arith in
        subst (λ b. Written read_operation b (content codec (withdraw_vesting account shares))) same
          record {
            value = withdraw_vesting account a.value;
            meant = rw (content, a.meant) refl;
            reads = λ rest.
                rw
                  (
                    read_operation,
                    read_fields,
                    read_withdraw_vesting,
                    append_assoc (put_str account) asset rest,
                    put_str-Reads account f (asset ++ rest),
                    a.reads rest,
                  )
                  refl;
          }
  ]

  name_list-Reads :
      (names : List Bytes) → AreShort names → Reads (read_list read_str) (put_name_list names) names
  unfolding put_name_list
  name_list-Reads names f =
      read_list-Reads read_str (length names) (put_names names) names f.0
        (put_names-Reads names f.1)

  custom_json-Written :
      (auths posting_auths : List Bytes) (id json bytes : Bytes)
      → OperationFits (custom_json auths posting_auths id json)
      → put_operation codec (custom_json auths posting_auths id json) ≡ ok bytes
      → Written read_operation bytes (content codec (custom_json auths posting_auths id json))
  unfolding put_operation content read_operation read_fields read_varint put_varint read_custom_json
  custom_json-Written auths posting_auths id json bytes f h =
      let a = put_name_list auths in
      let p = put_name_list posting_auths in
      let same : put_varint 18 ++ (a ++ (p ++ (put_str id ++ put_str json))) ≡ bytes =
        ground arith in
      subst
        (λ b. Written read_operation b (content codec (custom_json auths posting_auths id json)))
        same
        record {
          value = custom_json auths posting_auths id json;
          meant = refl;
          reads = λ rest.
              rw
                (
                  read_operation,
                  read_fields,
                  read_custom_json,
                  four_parts a p (put_str id) (put_str json) rest,
                  name_list-Reads auths f.0 (p ++ (put_str id ++ (put_str json ++ rest))),
                  name_list-Reads posting_auths f.1 (put_str id ++ (put_str json ++ rest)),
                  put_str-Reads id f.2 (put_str json ++ rest),
                  put_str-Reads json f.3 rest,
                )
                refl;
        }

  change_recovery_account-Written :
      (account recovery bytes : Bytes)
      → OperationFits (change_recovery_account account recovery)
      → put_operation codec (change_recovery_account account recovery) ≡ ok bytes
      → Written read_operation bytes (content codec (change_recovery_account account recovery))
  unfolding put_operation content read_operation read_fields read_varint put_varint
      read_change_recovery_account read_no_extensions
  change_recovery_account-Written account recovery bytes f h =
      let same : put_varint 26 ++ (put_str account ++ (put_str recovery ++ put_varint 0)) ≡ bytes =
        ground arith in
      subst
        (λ b. Written read_operation b (content codec (change_recovery_account account recovery)))
        same
        record {
          value = change_recovery_account account recovery;
          meant = refl;
          reads = λ rest.
              rw
                (
                  read_operation,
                  read_fields,
                  read_change_recovery_account,
                  three_parts (put_str account) (put_str recovery) (put_varint 0) rest,
                  put_str-Reads account f.0 (put_str recovery ++ (put_varint 0 ++ rest)),
                  put_str-Reads recovery f.1 (put_varint 0 ++ rest),
                )
                refl;
        }

  put_operation-Written :
      (o : Operation Bytes) (bytes : Bytes)
      → OperationFits o
      → put_operation codec o ≡ ok bytes
      → Written read_operation bytes (content codec o)
  put_operation-Written (transfer source dest amount memo) bytes f h =
      transfer-Written source dest amount memo bytes f h
  put_operation-Written (transfer_to_vesting source dest amount) bytes f h =
      transfer_to_vesting-Written source dest amount bytes f h
  put_operation-Written (withdraw_vesting account shares) bytes f h =
      withdraw_vesting-Written account shares bytes f h
  put_operation-Written (account_update account owner active posting key json) bytes f h =
      account_update-Written codec account owner active posting key json bytes f h
  put_operation-Written (custom_json auths posting_auths id json) bytes f h =
      custom_json-Written auths posting_auths id json bytes f h
  put_operation-Written (change_recovery_account account recovery) bytes f h =
      change_recovery_account-Written account recovery bytes f h
  put_operation-Written (account_update2 account owner active posting key json more) bytes f h =
      account_update2-Written codec account owner active posting key json more bytes f h

  -- The bytes of an operation that is written are read back, whatever follows them, as what the
  -- operation says: its amounts as assets, its keys as points and every other field as it is. The
  -- lengths, weights and thresholds are within the widths of the format.
  pub put_operation-read :
      (o : Operation Bytes) (bytes rest : Bytes)
      → OperationFits o
      → put_operation codec o ≡ ok bytes
      → (said : Operation Asset) × (content codec o ≡ some said)
        × (read_operation (bytes ++ rest) ≡ ok (said, rest))
  put_operation-read o bytes rest f h =
      let w = put_operation-Written o bytes f h in (w.value, w.meant, w.reads rest)
