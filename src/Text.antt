-- ===== src/Text.antt =====
-- The functions of Go's `strings` package that the modelled code uses, over byte strings.
use steem_virtual_machine_ev.Prelude.{
  ℕ, zero, suc, ◌≡◌, leb, ◌==◌, if◌then◌else◌, Bool, true, false, ◌&&◌, ◌||◌, Bytes, List, [], ◌∷◌,
  Option, none, some, length, reverse, refl, codes, bytes_eq, nat_eq,
}

unfoldable pub drop : ℕ → Bytes → Bytes
drop zero s = s
drop (suc n) [] = []
drop (suc n) (c ∷ s) = drop n s

unfoldable pub is_ascii_space : ℕ → Bool
is_ascii_space c = c == 32 || (leb 9 c && leb c 13)

-- The length of the Unicode white space that stands at the head, 0 if none does: in UTF-8, U+0085
-- and U+00A0 have two bytes, and U+1680, U+2000 to U+200A, U+2028, U+2029, U+202F, U+205F and
-- U+3000 three.
unfoldable pub wide_space : ℕ → ℕ → ℕ → Bool
wide_space a b c =
    (a == 0xE1 && (b == 0x9A && c == 0x80))
    || ((a == 0xE2
          && ((b == 0x80 && ((leb 0x80 c && leb c 0x8A) || (c == 0xA8 || (c == 0xA9 || c == 0xAF))))
              || (b == 0x81 && c == 0x9F)))
        || (a == 0xE3 && (b == 0x80 && c == 0x80)))

unfoldable pub pair_space : ℕ → ℕ → Bool
pair_space a b = a == 0xC2 && (b == 0x85 || b == 0xA0)

unfoldable pub space_head : Bytes → ℕ
unfolding is_ascii_space wide_space pair_space
space_head [] = 0
space_head (a ∷ []) = if is_ascii_space a then 1 else 0
space_head (a ∷ b ∷ []) = if is_ascii_space a then 1 else if pair_space a b then 2 else 0
space_head (a ∷ b ∷ c ∷ s) =
    if is_ascii_space a then 1 else if pair_space a b then 2 else if wide_space a b c then 3 else 0

-- The same of the end of a string that is given in reverse.
unfoldable pub space_tail : Bytes → ℕ
unfolding is_ascii_space wide_space pair_space
space_tail [] = 0
space_tail (a ∷ []) = if is_ascii_space a then 1 else 0
space_tail (b ∷ a ∷ []) = if is_ascii_space b then 1 else if pair_space a b then 2 else 0
space_tail (c ∷ b ∷ a ∷ s) =
    if is_ascii_space c then 1 else if pair_space b c then 2 else if wide_space a b c then 3 else 0

-- Drops white space while there is some; each round drops a byte at least, so the length is fuel
-- enough.
unfoldable pub drop_while_space : (Bytes → ℕ) → ℕ → Bytes → Bytes
unfolding drop
drop_while_space width zero s = s
drop_while_space width (suc fuel) s =
    let rest = drop_while_space width fuel (drop (width s) s) in if width s == 0 then s else rest

-- `strings.TrimSpace`
unfoldable pub trim_space : Bytes → Bytes
unfolding drop_while_space space_head space_tail
trim_space s =
    let left = drop_while_space space_head (length s) s in
    reverse (drop_while_space space_tail (length s) (reverse left))

-- `strings.CutPrefix`
unfoldable pub cut_prefix : Bytes → Bytes → Option Bytes
cut_prefix [] s = some s
cut_prefix (p ∷ ps) [] = none
cut_prefix (p ∷ ps) (c ∷ s) = if p == c then cut_prefix ps s else none

-- The text before and after the first `sep`.
unfoldable pub cut : ℕ → Bytes → Option (Bytes × Bytes)
cut sep [] = none
cut sep (c ∷ s) =
    if c == sep
    then some ([], s)
    else elim (cut sep s) [ none ↦ none | some (a, b) ↦ some (c ∷ a, b) ]

-- The text before and after the last `sep`.
unfoldable pub cut_last : ℕ → Bytes → Option (Bytes × Bytes)
cut_last sep [] = none
cut_last sep (c ∷ s) = elim (cut_last sep s) [
  | none ↦ if c == sep then some ([], s) else none
  | some (a, b) ↦ some (c ∷ a, b)
]

-- `strings.Split` by one byte: a string without `sep` is one part.
unfoldable pub split : ℕ → Bytes → List Bytes
split sep [] = [] ∷ []
split sep (c ∷ s) = add_to (c == sep) (split sep s)
  where
    add_to : Bool → List Bytes → List Bytes
    add_to true parts = [] ∷ parts
    add_to false [] = (c ∷ []) ∷ []
    add_to false (part ∷ parts) = (c ∷ part) ∷ parts

trim_space-words : trim_space (codes "  svm-deposit steem1 ") ≡ codes "svm-deposit steem1"
unfolding trim_space
trim_space-words = refl

split-rates : split b',' (codes "A:1,B:2") ≡ codes "A:1" ∷ codes "B:2" ∷ []
unfolding split
split-rates = refl
