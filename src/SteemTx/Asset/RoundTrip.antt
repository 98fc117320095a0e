-- ===== src/SteemTx/Asset/RoundTrip.antt =====
-- An amount that is printed is parsed as the same amount.
use steem_virtual_machine_ev.Prelude.{
  ℕ, zero, suc, ◌+◌, ◌-◌, ◌*◌, ◌/◌, ◌%◌, ◌^◌, ◌≡◌, ◌≤◌, ◌<◌, inl, inr, refl, arith, ltb, ◌==◌,
  if◌then◌else◌, true, false, Bytes, bytes_beq, [], ◌∷◌, ◌++◌, length, length-append, codes, All,
  some, ok, err, Bool-cases, subst, ap, bytes_beq_iff,
}
use steem_virtual_machine_ev.Text.{
  space_head, is_ascii_space, pair_space, wide_space, cut, cut_prefix,
}
use steem_virtual_machine_ev.SteemTx.Asset.{
  out_of_range, add_word, words, fields, precision_of, all_digits, digits_value, parse_int64,
  has_prefix, parse_amount, parse_fields, parse_asset, format_digits, pad_digits, format_milli,
}

-- A byte that is neither white space nor the start of any.
abbrev IsPlain : ℕ → Type 0
IsPlain c = (c < 128) × (is_ascii_space c ≡ false)

space_head-plain : (c : ℕ) (s : Bytes) → IsPlain c → space_head (c ∷ s) ≡ 0
unfolding space_head pair_space wide_space
space_head-plain c [] p = ground arith
space_head-plain c (d ∷ []) p = ground arith
space_head-plain c (d ∷ e ∷ s) p = ground arith

space_head-space : (s : Bytes) → space_head (b' ' ∷ s) ≡ 1
unfolding space_head is_ascii_space
space_head-space [] = refl
space_head-space (d ∷ []) = refl
space_head-space (d ∷ e ∷ s) = refl

words-last : (w : Bytes) → All IsPlain w → words 0 w ≡ (w, [])
unfolding words
words-last [] a = refl
words-last (c ∷ w) a = rw (words, space_head-plain c w a.0, words-last w a.1) refl

words-spaced :
    (w s : Bytes)
    → All IsPlain w
    → words 0 (w ++ b' ' ∷ s) ≡ (w, add_word (words 0 s).0 (words 0 s).1)
unfolding words
words-spaced [] s a = rw (words, space_head-space s) refl
words-spaced (c ∷ w) s a =
    rw (words, space_head-plain c (w ++ b' ' ∷ s) a.0, words-spaced w s a.1) refl

-- Two words with a space between them.
fields-two :
    (v w : Bytes)
    → 0 < length v
    → 0 < length w
    → All IsPlain v
    → All IsPlain w
    → fields (v ++ b' ' ∷ w) ≡ v ∷ w ∷ []
unfolding fields add_word
fields-two [] w h g p q = elim h [ ]
fields-two (a ∷ v) [] h g p q = elim g [ ]
fields-two (a ∷ v) (b ∷ w) h g p q =
    rw (fields, words-spaced (a ∷ v) (b ∷ w) p, words-last (b ∷ w) q) refl

abbrev pub IsDigit : ℕ → Type 0
IsDigit c = (48 ≤ c) × (c ≤ 57)

All-append : (P : ℕ → Type 0) (xs ys : Bytes) → All P xs → All P ys → All P (xs ++ ys)
All-append P [] ys a b = b
All-append P (x ∷ xs) ys a b = (a.0, All-append P xs ys a.1 b)

IsDigit-IsPlain : (s : Bytes) → All IsDigit s → All IsPlain s
unfolding is_ascii_space
IsDigit-IsPlain [] a = tt
IsDigit-IsPlain (c ∷ s) a = ((omega (arith, a.0), ground (arith, a.0)), IsDigit-IsPlain s a.1)

pub IsDigit-all_digits : (s : Bytes) → All IsDigit s → all_digits s ≡ true
unfolding all_digits
IsDigit-all_digits [] a = refl
IsDigit-all_digits (c ∷ s) a = ground (arith, a, IsDigit-all_digits s a.1)

pub format_digits-IsDigit : (width n : ℕ) → All IsDigit (format_digits width n)
unfolding format_digits
format_digits-IsDigit zero n = tt
format_digits-IsDigit (suc width) n = elim (Bool-cases (ltb n 10)) [
  | inl small ↦ rw (format_digits, small) ((omega arith, ground (arith, small)), tt)
  | inr large ↦
      rw (format_digits, large)
        (All-append IsDigit (format_digits width (n / 10)) (_ ∷ [])
          (format_digits-IsDigit width (n / 10)) ((omega arith, omega arith), tt))
]

pad_digits-IsDigit : (width n : ℕ) → All IsDigit (pad_digits width n)
unfolding pad_digits
pad_digits-IsDigit zero n = tt
pad_digits-IsDigit (suc width) n =
    All-append IsDigit (pad_digits width (n / 10)) (_ ∷ []) (pad_digits-IsDigit width (n / 10))
      ((omega arith, omega arith), tt)

digits_value-snoc :
    (acc d : ℕ) (s : Bytes) → digits_value acc (s ++ (d + 48) ∷ []) ≡ 10 * digits_value acc s + d
unfolding digits_value
digits_value-snoc acc d [] = omega arith
digits_value-snoc acc d (c ∷ s) = digits_value-snoc (10 * acc + (c - 48)) d s

digits_value-append :
    (acc : ℕ) (s t : Bytes) → digits_value acc (s ++ t) ≡ digits_value (digits_value acc s) t
unfolding digits_value
digits_value-append acc [] t = refl
digits_value-append acc (c ∷ s) t = digits_value-append (10 * acc + (c - 48)) s t

-- Enough digits print a number that reads as itself.
pub digits_value-format_digits :
    (width n : ℕ) → n < 10 ^ width → digits_value 0 (format_digits width n) ≡ n
unfolding format_digits digits_value
digits_value-format_digits zero n h = omega (arith, h)
digits_value-format_digits (suc width) n h = elim (Bool-cases (ltb n 10)) [
  | inl small ↦ ground arith
  | inr large ↦
      rw
        (
          format_digits,
          large,
          digits_value-snoc 0 (n % 10) (format_digits width (n / 10)),
          digits_value-format_digits width (n / 10) (omega (arith, h)),
        )
        (omega arith)
]

digits_value-pad_three : (acc r : ℕ) → r < 1000 → digits_value acc (pad_digits 3 r) ≡ 1000 * acc + r
unfolding digits_value pad_digits
digits_value-pad_three acc r h = omega (arith, h)

cut-digits : (s t : Bytes) → All IsDigit s → cut b'.' (s ++ b'.' ∷ t) ≡ some (s, t)
unfolding cut
cut-digits [] t a = refl
cut-digits (c ∷ s) t a = ground (arith, a.0, cut-digits s t a.1)

no_sign :
    (s : Bytes)
    → All IsDigit s
    → (has_prefix (codes "-") s ≡ false) × (has_prefix (codes "+") s ≡ false)
unfolding has_prefix cut_prefix
no_sign [] a = (refl, refl)
no_sign (c ∷ s) a = (ground (arith, a.0), ground (arith, a.0))

length-pad_digits : (width n : ℕ) → length (pad_digits width n) ≡ width
unfolding pad_digits
length-pad_digits zero n = refl
length-pad_digits (suc width) n = omega (
  arith,
  length-append (pad_digits width (n / 10)) ((n % 10 + 48) ∷ []),
  length-pad_digits width (n / 10),
)

format_digits-nonempty : (width n : ℕ) → (length (format_digits (suc width) n) == 0) ≡ false
unfolding format_digits
format_digits-nonempty width n =
    ground (arith, length-append (format_digits width (n / 10)) ((n % 10 + 48) ∷ []))

-- The number in front of the symbol.
parse_amount-format :
    (milli : ℕ)
    → milli < 2 ^ 64
    → parse_amount 3 (format_digits 20 (milli / 1000) ++ b'.' ∷ pad_digits 3 (milli % 1000))
      ≡ (if ltb milli (2 ^ 63) then ok milli else err out_of_range)
unfolding parse_amount parse_int64
parse_amount-format milli h =
    let whole = format_digits 20 (milli / 1000) in
    let frac = pad_digits 3 (milli % 1000) in
    let dw = format_digits-IsDigit 20 (milli / 1000) in
    let df = pad_digits-IsDigit 3 (milli % 1000) in
    let value : digits_value 0 (whole ++ frac) ≡ milli =
      rw
        (
          digits_value-append 0 whole frac,
          digits_value-format_digits 20 (milli / 1000) (omega (arith, h)),
          digits_value-pad_three (milli / 1000) (milli % 1000) (omega arith),
        )
        (omega arith) in
    rw
      (
        parse_amount,
        cut-digits whole frac dw,
        length-pad_digits 3 (milli % 1000),
        format_digits-nonempty 19 (milli / 1000),
        (no_sign whole dw).0,
        (no_sign whole dw).1,
        IsDigit-all_digits (whole ++ frac) (All-append IsDigit whole frac dw df),
        parse_int64,
        value,
      )
      refl

-- The symbols with three decimals are words.
symbol-IsPlain :
    (symbol : Bytes) → precision_of symbol ≡ some 3 → (0 < length symbol) × All IsPlain symbol
unfolding precision_of is_ascii_space
symbol-IsPlain symbol h = elim (Bool-cases (bytes_beq symbol (codes "STEEM"))) [
  | inl steem ↦
      let same : codes "STEEM" ≡ symbol = ground (arith, bytes_beq_iff symbol (codes "STEEM")) in
      subst (λ s. (0 < length s) × All IsPlain s) same
        (
          omega arith,
          (
            (omega arith, refl),
            (
              (omega arith, refl),
              ((omega arith, refl), ((omega arith, refl), ((omega arith, refl), tt))),
            ),
          ),
        )
  | inr other ↦ elim (Bool-cases (bytes_beq symbol (codes "SBD"))) [
    | inl sbd ↦
        let same : codes "SBD" ≡ symbol = ground (arith, bytes_beq_iff symbol (codes "SBD")) in
        subst (λ s. (0 < length s) × All IsPlain s) same
          (omega arith, ((omega arith, refl), ((omega arith, refl), ((omega arith, refl), tt))))
    | inr neither ↦ ground arith
  ]
]

append_assoc : (a b c : Bytes) → (a ++ b) ++ c ≡ a ++ (b ++ c)
append_assoc [] b c = refl
append_assoc (x ∷ a) b c = ap (λ t. x ∷ t) (append_assoc a b c)

-- The amount of a payout that is printed reads as itself, for the two symbols with three decimals
-- and every amount in 64 bits; from 2^63 on it is refused as out of range.
pub parse_asset-format_milli :
    (milli : ℕ) (symbol : Bytes)
    → milli < 2 ^ 64
    → precision_of symbol ≡ some 3
    → parse_asset (format_milli milli symbol) ≡ (
        if ltb milli (2 ^ 63)
        then ok record { amount = milli; precision = 3; symbol = symbol }
        else err out_of_range)
unfolding parse_asset format_milli parse_fields is_ascii_space
parse_asset-format_milli milli symbol h known =
    let whole = format_digits 20 (milli / 1000) in
    let frac = pad_digits 3 (milli % 1000) in
    let number = whole ++ b'.' ∷ frac in
    let (some_symbol, plain) = symbol-IsPlain symbol known in
    let digits =
      All-append IsPlain whole (b'.' ∷ frac)
        (IsDigit-IsPlain whole (format_digits-IsDigit 20 (milli / 1000)))
        ((omega arith, refl), IsDigit-IsPlain frac (pad_digits-IsDigit 3 (milli % 1000))) in
    let long : 0 < length number = omega (arith, length-append whole (b'.' ∷ frac)) in
    let parts : fields (format_milli milli symbol) ≡ number ∷ symbol ∷ [] =
      subst (λ t. fields t ≡ number ∷ symbol ∷ [])
        (append_assoc whole (b'.' ∷ frac) (b' ' ∷ symbol))
        (fields-two number symbol long some_symbol digits plain) in
    elim (Bool-cases (ltb milli (2 ^ 63))) [
      | inl fits ↦
          rw (parse_asset, parts, parse_fields, known, parse_amount-format milli h, fits) refl
      | inr large ↦
          rw (parse_asset, parts, parse_fields, known, parse_amount-format milli h, large) refl
    ]
