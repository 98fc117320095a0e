-- ===== src/SteemTx/Tests.antt =====
-- The theorems of the SteemTx modules at one payout.
use steem_virtual_machine_ev.Prelude.{
  ◌^◌, ◌≡◌, refl, arith, ltb, if◌then◌else◌, codes, bytes_beq, some, ok, err, Bytes, [], ◌∷◌, ◌++◌,
  length,
}
use steem_virtual_machine_ev.Bridge.Facts.{digits_le}
use steem_virtual_machine_ev.SteemTx.Asset.{
  Asset, out_of_range, precision_of, parse_asset, format_milli,
}
use steem_virtual_machine_ev.SteemTx.Encoding.{KeyCodec, Operation, transfer, put_operation}
use steem_virtual_machine_ev.SteemTx.Encoding.Reader.{read_operation}
use steem_virtual_machine_ev.SteemTx.Encoding.Content.{content}
use steem_virtual_machine_ev.SteemTx.Encoding.Operations.{put_operation-read}
use steem_virtual_machine_ev.SteemTx.Asset.RoundTrip.{parse_asset-format_milli}

sbd-precision : precision_of (codes "SBD") ≡ some 3
unfolding precision_of bytes_beq
sbd-precision = refl

parse_asset-format_milli_example : parse_asset (format_milli 12500 (codes "SBD")) ≡ (
    if ltb 12500 (2 ^ 63)
    then ok record { amount = 12500; precision = 3; symbol = codes "SBD" }
    else err out_of_range)
parse_asset-format_milli_example =
    parse_asset-format_milli 12500 (codes "SBD") (omega arith) sbd-precision

-- Keys of 33 bytes in a toy base58 that keeps the bytes, with an empty checksum of zeros.
abbrev codec : KeyCodec
codec = record { base58_decode = λ s. s; ripemd160 = λ s. 0 ∷ 0 ∷ 0 ∷ 0 ∷ [] }

abbrev payout : Operation Bytes
payout = transfer (codes "svm.bank") (codes "bob") (codes "0.495 STEEM") (codes "thanks")

abbrev payout_bytes : Bytes
payout_bytes = elim (put_operation codec payout) [ ok bytes ↦ bytes | err e ↦ [] ]

payout-written : put_operation codec payout ≡ ok payout_bytes
unfolding put_operation bytes_beq
payout-written = refl

payout-length : length payout_bytes ≡ 37
unfolding put_operation bytes_beq digits_le
payout-length = refl

put_operation-read_example :
    (said : Operation Asset) × (content codec payout ≡ some said)
    × (read_operation (payout_bytes ++ codes "more") ≡ ok (said, codes "more"))
put_operation-read_example =
    put_operation-read codec payout payout_bytes (codes "more")
      (omega arith, omega arith, omega arith) payout-written
