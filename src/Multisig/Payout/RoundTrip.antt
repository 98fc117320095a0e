-- ===== src/Multisig/Payout/RoundTrip.antt =====
-- A payout's operations, as a signer builds them and as a reviewer reads them.
use steem_virtual_machine_ev.Prelude.{
  ℕ, zero, suc, ◌+◌, ◌/◌, ◌%◌, ◌^◌, ◌≡◌, ◌≤◌, ◌<◌, inl, inr, arith, refl, ltb, leb, Bool, true,
  false, ◌&&◌, Bytes, bytes_beq, bytes_beq_iff, [], ◌∷◌, ◌++◌, codes, All, some, Bool-cases,
}
use steem_virtual_machine_ev.Text.{cut, cut_prefix}
use steem_virtual_machine_ev.SteemTx.Asset.{all_digits, format_digits}
use steem_virtual_machine_ev.SteemTx.Asset.RoundTrip.{
  IsDigit, format_digits-IsDigit, digits_value-format_digits,
}
use steem_virtual_machine_ev.Multisig.Payout.{
  payout_ops, payout_of, is_canonical_number, match_payout_link, payout_link_json,
  parse_payout_link, parse_uint64, format_uint, payout_link_id, link_of,
}

-- A number that does not start with a zero.
unfoldable is_positive_number : Bytes → Bool
unfolding all_digits
is_positive_number [] = false
is_positive_number (c ∷ s) = (leb b'1' c && leb c b'9') && all_digits s

all_digits-snoc :
    (s : Bytes) (d : ℕ) → d < 10 → all_digits s ≡ true → all_digits (s ++ (d + 48) ∷ []) ≡ true
unfolding all_digits
all_digits-snoc [] d h a = ground arith
all_digits-snoc (c ∷ s) d h a = ground (arith, all_digits-snoc s d h)

is_positive_number-snoc :
    (s : Bytes) (d : ℕ)
    → d < 10
    → is_positive_number s ≡ true
    → is_positive_number (s ++ (d + 48) ∷ []) ≡ true
unfolding is_positive_number
is_positive_number-snoc [] d h a = ground arith
is_positive_number-snoc (c ∷ s) d h a = ground (arith, all_digits-snoc s d h)

format_digits-positive :
    (width n : ℕ) → 1 ≤ n → n < 10 ^ width → is_positive_number (format_digits width n) ≡ true
unfolding format_digits is_positive_number
format_digits-positive zero n some_digit h = ground (arith, h, some_digit)
format_digits-positive (suc width) n some_digit h = elim (Bool-cases (ltb n 10)) [
  | inl small ↦ ground (arith, small)
  | inr large ↦
      rw (format_digits, large)
        (is_positive_number-snoc (format_digits width (n / 10)) (n % 10) (omega arith)
          (format_digits-positive width (n / 10) (ground (arith, large)) (omega (arith, h))))
]

is_positive_number-canonical :
    (s : Bytes) → is_positive_number s ≡ true → is_canonical_number s ≡ true
unfolding is_positive_number is_canonical_number
is_positive_number-canonical [] h = h
is_positive_number-canonical (c ∷ s) h = ground arith

format_uint-canonical : (n : ℕ) → n < 2 ^ 64 → is_canonical_number (format_uint n) ≡ true
unfolding format_uint is_canonical_number bytes_beq
format_uint-canonical zero h = refl
format_uint-canonical (suc n) h =
    is_positive_number-canonical (format_digits 20 (suc n))
      (format_digits-positive 20 (suc n) (omega arith) (omega (arith, h)))

cut-quote : (s t : Bytes) → All IsDigit s → cut b'"' (s ++ b'"' ∷ t) ≡ some (s, t)
unfolding cut
cut-quote [] t a = refl
cut-quote (c ∷ s) t a = ground (arith, a.0, cut-quote s t a.1)

match_payout_link-json :
    (id : ℕ) → id < 2 ^ 64 → match_payout_link (payout_link_json id) ≡ some (format_uint id)
unfolding match_payout_link payout_link_json cut_prefix bytes_beq
match_payout_link-json id h =
    rw
      (
        match_payout_link,
        cut-quote (format_uint id) (codes "}") (format_digits-IsDigit 20 id),
        format_uint-canonical id h,
      )
      refl

parse_payout_link-json :
    (bank : Bytes) (id : ℕ)
    → id < 2 ^ 64
    → parse_payout_link (bank ∷ []) [] payout_link_id (payout_link_json id) bank ≡ some id
unfolding parse_payout_link parse_uint64 format_uint bytes_beq
parse_payout_link-json bank id h =
    rw
      (
        (bytes_beq_iff bank bank).1 refl,
        match_payout_link-json id h,
        digits_value-format_digits 20 id (omega (arith, h)),
      )
      (ground (arith, h))

-- The operations that are built for the payout of a withdrawal with a number in 64 bits are read
-- back as a payout of exactly that withdrawal, with exactly that transfer.
pub payout_of-payout_ops :
    (bank dest amount memo : Bytes) (id : ℕ)
    → id < 2 ^ 64
    → payout_of (payout_ops bank dest amount memo id) bank
      ≡ some (record { source = bank; dest = dest; amount = amount; memo = memo }, id)
unfolding payout_of payout_ops link_of
payout_of-payout_ops bank dest amount memo id h =
    rw (payout_of, link_of, parse_payout_link-json bank id h) refl
