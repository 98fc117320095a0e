-- ===== src/SteemTx/Encoding/RoundTrip.antt =====
-- What is written is read back, field by field.
use mathlib.Core.List.{append_assoc}
use steem_virtual_machine_ev.Prelude.{
  ℕ, zero, suc, ◌+◌, ◌-◌, ◌*◌, ◌/◌, ◌%◌, ◌^◌, ◌≡◌, ◌<◌, refl, arith, subst, ltb, true, false, Bytes,
  List, [], ◌∷◌, ◌++◌, length, All, ok, Bool-cases, inl, inr, lt→ltb, le→ltb,
}
use native.Mathlib.Nat.{div-add-mod}
use steem_virtual_machine_ev.Bridge.Facts.{digits_le}
use steem_virtual_machine_ev.SteemTx.Authority.{AccountAuth}
use steem_virtual_machine_ev.SteemTx.Asset.{Asset}
use steem_virtual_machine_ev.SteemTx.Encoding.{
  put_u8, put_u16, put_i64, varint_bytes, put_varint, put_str, pad_to, put_asset, put_account_auths,
  put_names,
}
use steem_virtual_machine_ev.SteemTx.Encoding.Reader.{
  Reader, read_le, read_varint, read_bytes, read_str, read_many, read_list, read_asset,
  read_account_auth,
}

-- The bytes are read as the value, whatever follows them.
abbrev pub Reads : {A : Type 0} → Reader A → Bytes → A → Type 0
Reads r bytes v = (rest : Bytes) → r (bytes ++ rest) ≡ ok (v, rest)

-- The number fits in so many bytes.
abbrev FitsBytes : ℕ → ℕ → Type 0
FitsBytes zero n = n ≡ 0
FitsBytes (suc width) n = FitsBytes width (n / 256)

pub read_le-digits :
    (width n : ℕ) → FitsBytes width n → Reads (read_le width) (digits_le 256 width n) n
unfolding read_le digits_le
read_le-digits zero n h rest = ground arith
read_le-digits (suc width) n h rest =
    rw (read_le, digits_le, read_le-digits width (n / 256) h rest)
      (ground (arith, div-add-mod n 256))

read_varint-bytes :
    (fuel v : ℕ) → v < 128 ^ suc fuel → Reads (read_varint (suc fuel)) (varint_bytes (suc fuel) v) v
unfolding read_varint varint_bytes
read_varint-bytes zero v h rest =
    let small : ltb v 128 ≡ true = lt→ltb v 128 (omega (arith, h)) in
    rw (varint_bytes, small, read_varint, small) refl
read_varint-bytes (suc fuel) v h rest = elim (Bool-cases (ltb v 128)) [
  | inl small ↦ rw (varint_bytes, small, read_varint, small) refl
  | inr large ↦
      let marked : ltb (v % 128 + 128) 128 ≡ false = le→ltb (v % 128 + 128) 128 (omega arith) in
      let later = read_varint-bytes fuel (v / 128) (omega (arith, h)) rest in
      let whole : (v % 128 + 128 - 128) + 128 * (v / 128) ≡ v = omega arith in
      rw (varint_bytes, large, read_varint, marked, later, whole) refl
]

pub put_varint-Reads : (v : ℕ) → v < 2 ^ 32 → Reads (read_varint 5) (put_varint v) v
unfolding put_varint
put_varint-Reads v h = read_varint-bytes 4 v (omega (arith, h))

pub read_bytes-all : (b : Bytes) → Reads (read_bytes (length b)) b b
unfolding read_bytes
read_bytes-all [] rest = refl
read_bytes-all (c ∷ b) rest = rw (read_bytes, read_bytes-all b rest) refl

pub put_str-Reads : (s : Bytes) → length s < 2 ^ 32 → Reads read_str (put_str s) s
unfolding put_str read_str
put_str-Reads s h rest =
    let n : length s % 2 ^ 32 ≡ length s = omega (arith, h) in
    rw
      (
        put_str,
        n,
        append_assoc (put_varint (length s)) s rest,
        read_str,
        put_varint-Reads (length s) h (s ++ rest),
        read_bytes-all s rest,
      )
      refl

length-pad_to : (n : ℕ) (s : Bytes) → length (pad_to n s) ≡ n
unfolding pad_to
length-pad_to zero s = refl
length-pad_to (suc n) [] = omega (arith, length-pad_to n [])
length-pad_to (suc n) (c ∷ s) = omega (arith, length-pad_to n s)

pub put_asset-Reads :
    (a : Asset)
    → a.amount < 2 ^ 64
    → a.precision < 256
    → Reads read_asset (put_asset a) (record a { symbol = pad_to 7 a.symbol })
unfolding put_asset read_asset put_i64 put_u8
put_asset-Reads a h p rest =
    let amount = digits_le 256 8 a.amount in
    let precision = digits_le 256 1 a.precision in
    let symbol = pad_to 7 a.symbol in
    let last : read_bytes 7 (symbol ++ rest) ≡ ok (symbol, rest) =
      subst (λ n. read_bytes n (symbol ++ rest) ≡ ok (symbol, rest)) (length-pad_to 7 a.symbol)
        (read_bytes-all symbol rest) in
    rw
      (
        put_asset,
        put_i64,
        put_u8,
        append_assoc amount (precision ++ symbol) rest,
        append_assoc precision symbol rest,
        read_asset,
        read_le-digits 8 a.amount (omega (arith, h)) (precision ++ (symbol ++ rest)),
        read_le-digits 1 a.precision (omega (arith, p)) (symbol ++ rest),
        last,
      )
      refl

-- The number of elements before the elements.
pub read_list-Reads :
    {A : Type 0} (r : Reader A) (n : ℕ) (bytes : Bytes) (xs : List A)
    → n < 2 ^ 32
    → Reads (read_many r n) bytes xs
    → Reads (read_list r) (put_varint (n % 2 ^ 32) ++ bytes) xs
unfolding read_list
read_list-Reads r n bytes xs h body rest =
    let same : n % 2 ^ 32 ≡ n = omega (arith, h) in
    rw
      (
        same,
        append_assoc (put_varint n) bytes rest,
        read_list,
        put_varint-Reads n h (bytes ++ rest),
        body rest,
      )
      refl

pub put_names-Reads :
    (names : List Bytes)
    → All (λ s. length s < 2 ^ 32) names
    → Reads (read_many read_str (length names)) (put_names names) names
unfolding put_names read_many
put_names-Reads [] a rest = refl
put_names-Reads (name ∷ names) a rest =
    rw
      (
        put_names,
        append_assoc (put_str name) (put_names names) rest,
        read_many,
        put_str-Reads name a.0 (put_names names ++ rest),
        put_names-Reads names a.1 rest,
      )
      refl

pub put_account_auths-Reads :
    (auths : List AccountAuth)
    → All (λ x. (length x.name < 2 ^ 32) × (x.weight < 2 ^ 16)) auths
    → Reads (read_many read_account_auth (length auths)) (put_account_auths auths) auths
unfolding put_account_auths read_many read_account_auth put_u16
put_account_auths-Reads [] a rest = refl
put_account_auths-Reads (x ∷ auths) a rest =
    let weight = digits_le 256 2 x.weight in
    let later = put_account_auths auths in
    let small = a.0.1 in
    rw
      (
        put_account_auths,
        put_u16,
        append_assoc (put_str x.name) (weight ++ later) rest,
        append_assoc weight later rest,
        read_many,
        read_account_auth,
        put_str-Reads x.name a.0.0 (weight ++ (later ++ rest)),
        read_le-digits 2 x.weight (omega (arith, small)) (later ++ rest),
        put_account_auths-Reads auths a.1 rest,
      )
      refl

-- Three and four parts, one after the other.
pub three_parts : (a b c rest : Bytes) → (a ++ (b ++ c)) ++ rest ≡ a ++ (b ++ (c ++ rest))
three_parts a b c rest = rw (append_assoc a (b ++ c) rest, append_assoc b c rest) refl

pub four_parts :
    (a b c d rest : Bytes) → (a ++ (b ++ (c ++ d))) ++ rest ≡ a ++ (b ++ (c ++ (d ++ rest)))
four_parts a b c d rest = rw (append_assoc a (b ++ (c ++ d)) rest, three_parts b c d rest) refl
