-- ===== src/SteemTx/Encoding/Operations/Updates.antt =====
-- The two updates of an account are read back as their content.

use steem_virtual_machine_ev.Prelude.{
  ◌≡◌, refl, arith, subst, Bytes, [], ◌∷◌, ◌++◌, Option, some, ok, Option-cases, Result-cases, inl,
  inr,
}
use steem_virtual_machine_ev.Bridge.Facts.{digits_le}
use steem_virtual_machine_ev.SteemTx.Authority.{Authority}
use steem_virtual_machine_ev.SteemTx.Encoding.{
  KeyCodec, account_update, account_update2, put_u8, put_varint, put_str, decode_public_key,
  put_opt_authority, put_authorities, put_opt_key, put_operation,
}
use steem_virtual_machine_ev.SteemTx.Encoding.Reader.{
  read_le, read_varint, read_authority, read_flagged, read_option, read_opt_key, read_no_extensions,
  read_account_update, read_account_update2, read_fields, read_operation,
}
use steem_virtual_machine_ev.SteemTx.Encoding.RoundTrip.{put_str-Reads, three_parts, four_parts}
use steem_virtual_machine_ev.SteemTx.Encoding.Content.{
  opt_authority_content, opt_key_content, content, OptionFits, OperationFits,
}
use steem_virtual_machine_ev.SteemTx.Encoding.Operations.Parts.{
  Written, public_key-Reads, put_opt_authority-Written,
}

module _ (codec : KeyCodec) where
  put_opt_key-Written :
      (key bytes : Bytes)
      → put_opt_key codec key ≡ ok bytes
      → Written read_opt_key bytes (opt_key_content codec key)
  unfolding put_opt_key opt_key_content put_u8 read_opt_key read_option read_flagged digits_le
      read_le
  put_opt_key-Written [] bytes h =
      let same : put_u8 0 ≡ bytes = ground arith in
      subst (λ b. Written read_opt_key b (some [])) same
        record { value = []; meant = refl; reads = λ rest. refl }
  put_opt_key-Written (c ∷ key) bytes h = elim (Option-cases (decode_public_key codec (c ∷ key))) [
    | inl bad ↦ ground arith
    | inr (pk, decoded) ↦
        let same : put_u8 1 ++ pk ≡ bytes = ground arith in
        subst (λ b. Written read_opt_key b (opt_key_content codec (c ∷ key))) same
          record {
            value = pk;
            meant = rw (opt_key_content, decoded) refl;
            reads = λ rest.
                rw
                  (
                    read_opt_key,
                    read_option,
                    read_flagged,
                    public_key-Reads codec (c ∷ key) pk decoded rest,
                  )
                  refl;
          }
  ]

  -- The three authorities of an update, one after the other.
  record Three (owner active posting : Option Authority) (bytes : Bytes) : Type 0 where
    first : Bytes
    second : Bytes
    third : Bytes
    parts : first ++ (second ++ third) ≡ bytes
    one : Written (read_option read_authority) first (opt_authority_content codec owner)
    two : Written (read_option read_authority) second (opt_authority_content codec active)
    three : Written (read_option read_authority) third (opt_authority_content codec posting)

  put_authorities-Three :
      (owner active posting : Option Authority) (bytes : Bytes)
      → OptionFits owner
      → OptionFits active
      → OptionFits posting
      → put_authorities codec owner active posting ≡ ok bytes
      → Three owner active posting bytes
  unfolding put_authorities
  put_authorities-Three owner active posting bytes p q r h =
      elim (Result-cases (put_opt_authority codec owner)) [
        | inl (why, bad) ↦ ground arith
        | inr (a, wrote_a) ↦ elim (Result-cases (put_opt_authority codec active)) [
          | inl (why, bad) ↦ ground arith
          | inr (b, wrote_b) ↦ elim (Result-cases (put_opt_authority codec posting)) [
            | inl (why, bad) ↦ ground arith
            | inr (c, wrote_c) ↦ record {
              first = a;
              second = b;
              third = c;
              parts = ground arith;
              one = put_opt_authority-Written codec owner a p wrote_a;
              two = put_opt_authority-Written codec active b q wrote_b;
              three = put_opt_authority-Written codec posting c r wrote_c;
            }
          ]
        ]
      ]

  pub account_update-Written :
      (account : Bytes) (owner active posting : Option Authority) (key json bytes : Bytes)
      → OperationFits (account_update account owner active posting key json)
      → put_operation codec (account_update account owner active posting key json) ≡ ok bytes
      → Written read_operation bytes
          (content codec (account_update account owner active posting key json))
  unfolding put_operation content read_operation read_fields read_varint put_varint
      read_account_update
  account_update-Written account owner active posting key json bytes f h =
      elim (Result-cases (put_authorities codec owner active posting)) [
        | inl (why, bad) ↦ ground arith
        | inr (authorities, written) ↦ elim (Option-cases (decode_public_key codec key)) [
          | inl bad ↦ ground arith
          | inr (pk, decoded) ↦
              let t = put_authorities-Three owner active posting authorities f.1 f.2 f.3 written in
              let body = put_str account ++ (authorities ++ (pk ++ put_str json)) in
              let same : put_varint 10 ++ body ≡ bytes = ground arith in
              let later = λ (rest : Bytes). pk ++ (put_str json ++ rest) in
              subst
                (λ b.
                  Written read_operation b
                    (content codec (account_update account owner active posting key json)))
                same
                record {
                  value = account_update account t.one.value t.two.value t.three.value pk json;
                  meant = rw (content, t.one.meant, t.two.meant, t.three.meant, decoded) refl;
                  reads = λ rest.
                      rw
                        (
                          read_operation,
                          read_fields,
                          read_account_update,
                          four_parts (put_str account) authorities pk (put_str json) rest,
                          put_str-Reads account f.0 (authorities ++ later rest),
                          ← t.parts,
                          three_parts t.first t.second t.third (later rest),
                          t.one.reads (t.second ++ (t.third ++ later rest)),
                          t.two.reads (t.third ++ later rest),
                          t.three.reads (later rest),
                          public_key-Reads codec key pk decoded (put_str json ++ rest),
                          put_str-Reads json f.4 rest,
                        )
                        refl;
                }
        ]
      ]

  pub account_update2-Written :
      (account : Bytes) (owner active posting : Option Authority)
      (key json posting_json bytes : Bytes)
      → OperationFits (account_update2 account owner active posting key json posting_json)
      → put_operation codec (account_update2 account owner active posting key json posting_json)
        ≡ ok bytes
      → Written read_operation bytes
          (content codec (account_update2 account owner active posting key json posting_json))
  unfolding put_operation content read_operation read_fields read_varint put_varint
      read_account_update2 read_no_extensions
  account_update2-Written account owner active posting key json posting_json bytes f h =
      elim (Result-cases (put_authorities codec owner active posting)) [
        | inl (why, bad) ↦ ground arith
        | inr (authorities, written) ↦ elim (Result-cases (put_opt_key codec key)) [
          | inl (why, bad) ↦ ground arith
          | inr (pk, written_key) ↦
              let t = put_authorities-Three owner active posting authorities f.1 f.2 f.3 written in
              let o = put_opt_key-Written key pk written_key in
              let ends = put_str json ++ (put_str posting_json ++ put_varint 0) in
              let body = put_str account ++ (authorities ++ (pk ++ ends)) in
              let same : put_varint 43 ++ body ≡ bytes = ground arith in
              let tail = λ (rest : Bytes).
                put_str json ++ (put_str posting_json ++ (put_varint 0 ++ rest)) in
              let later = λ (rest : Bytes). pk ++ tail rest in
              subst
                (λ b. Written read_operation b (
                  content codec
                    (account_update2 account owner active posting key json posting_json)))
                same
                record {
                  value =
                      account_update2 account t.one.value t.two.value t.three.value o.value json
                        posting_json;
                  meant = rw (content, t.one.meant, t.two.meant, t.three.meant, o.meant) refl;
                  reads = λ rest.
                      rw
                        (
                          read_operation,
                          read_fields,
                          read_account_update2,
                          four_parts (put_str account) authorities pk ends rest,
                          three_parts (put_str json) (put_str posting_json) (put_varint 0) rest,
                          put_str-Reads account f.0 (authorities ++ later rest),
                          ← t.parts,
                          three_parts t.first t.second t.third (later rest),
                          t.one.reads (t.second ++ (t.third ++ later rest)),
                          t.two.reads (t.third ++ later rest),
                          t.three.reads (later rest),
                          o.reads (tail rest),
                          put_str-Reads json f.4 (put_str posting_json ++ (put_varint 0 ++ rest)),
                          put_str-Reads posting_json f.5 (put_varint 0 ++ rest),
                        )
                        refl;
                }
        ]
      ]
