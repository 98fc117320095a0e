-- ===== src/Bridge/Facts/Laws.antt =====
-- The encoding is unambiguous, so that distinct facts are distinct candidates.
use mathlib.Core.List.{reverse-reverse, append_assoc}
use native.Mathlib.Nat.{div-add-mod}
use steem_virtual_machine_ev.Prelude.{
  ℕ, zero, suc, ◌*◌, ◌/◌, ◌%◌, ◌<◌, ◌≡◌, refl, sym, ap, ◌∙◌, arith, Bytes, List, [], ◌++◌, length,
  reverse, append_inj,
}
use steem_virtual_machine_ev.Bridge.Amounts.{BridgeAsset, steem, sbd, u64}
use steem_virtual_machine_ev.Bridge.Facts.{
  digits_le, enc_u64, enc_str, asset_number, DepositFacts, deposit_facts_bytes, deposit_facts_hash,
}

-- The number fits in so many digits.
abbrev Fits : ℕ → ℕ → ℕ → Type 0
Fits base zero n = n ≡ 0
Fits base (suc width) n = Fits base width (n / base)

digits_le-inj :
    (base width n m : ℕ)
    → Fits base width n
    → Fits base width m
    → digits_le base width n ≡ digits_le base width m
    → n ≡ m
unfolding digits_le
digits_le-inj base zero n m hn hm e = omega arith
digits_le-inj base (suc width) n m hn hm e =
    let high : n / base ≡ m / base =
      digits_le-inj base width (n / base) (m / base) hn hm (ground arith) in
    let low : n % base ≡ m % base = ground arith in
    omega (arith, div-add-mod n base, div-add-mod m base, ap (λ (q : ℕ). base * q) high)

reverse_inj {ℓ} : {A : Type ℓ} (xs ys : List A) → reverse xs ≡ reverse ys → xs ≡ ys
reverse_inj xs ys e = sym (reverse-reverse xs) ∙ (ap reverse e ∙ reverse-reverse ys)

length-enc_u64 : (n : ℕ) → length (enc_u64 n) ≡ 8
unfolding enc_u64 digits_le
length-enc_u64 n = refl

enc_u64-inj : (n m : ℕ) → n < u64 → m < u64 → enc_u64 n ≡ enc_u64 m → n ≡ m
unfolding enc_u64
enc_u64-inj n m hn hm e = digits_le-inj 256 8 n m (omega arith) (omega arith) (reverse_inj _ _ e)

-- The fields that follow one another can be read back.
u64_field :
    (n m : ℕ) (us vs : Bytes)
    → n < u64
    → m < u64
    → enc_u64 n ++ us ≡ enc_u64 m ++ vs
    → (n ≡ m) × (us ≡ vs)
u64_field n m us vs hn hm e =
    let (same, rest) =
      append_inj (enc_u64 n) (enc_u64 m) us vs (length-enc_u64 n ∙ sym (length-enc_u64 m)) e in
    (enc_u64-inj n m hn hm same, rest)

str_field :
    (s t us vs : Bytes)
    → length s < u64
    → length t < u64
    → enc_str s ++ us ≡ enc_str t ++ vs
    → (s ≡ t) × (us ≡ vs)
unfolding enc_str
str_field s t us vs hs ht e =
    let (same, rest) = u64_field (length s) (length t) (s ++ us) (t ++ vs) hs ht (
      sym (append_assoc (enc_u64 (length s)) s us)
      ∙ (e ∙ append_assoc (enc_u64 (length t)) t vs)) in
    append_inj s t us vs same rest

last_str : (s t : Bytes) → length s < u64 → length t < u64 → enc_str s ≡ enc_str t → s ≡ t
last_str s t hs ht e = (str_field s t [] [] hs ht (ap (λ u. u ++ []) e)).0

asset_number-inj : (a b : BridgeAsset) → enc_u64 (asset_number a) ≡ enc_u64 (asset_number b) → a ≡ b
unfolding asset_number
asset_number-inj steem steem e = refl
asset_number-inj steem sbd e = absurd (omega (arith, enc_u64-inj 0 1 (omega arith) (omega arith) e))
asset_number-inj sbd steem e = absurd (omega (arith, enc_u64-inj 1 0 (omega arith) (omega arith) e))
asset_number-inj sbd sbd e = refl

-- The numbers are uint64 and no string has 2^64 bytes, as in the Go types.
pub record InRange (f : DepositFacts) : Type 0 where
  pub block : f.steem_block < u64
  pub timestamp : length f.steem_timestamp < u64
  pub sender : length f.steem_sender < u64
  pub gateway : length f.gateway_account < u64
  pub amount : f.amount_millisteem < u64
  pub memo : length f.memo < u64

-- No two distinct fact-sets of a deposit have the same encoding, whatever bytes their strings hold.
-- Their numbers and the lengths of their strings fit in 64 bits.
pub deposit_facts_bytes-inj :
    (f g : DepositFacts)
    → InRange f
    → InRange g
    → deposit_facts_bytes f ≡ deposit_facts_bytes g
    → f ≡ g
unfolding deposit_facts_bytes
deposit_facts_bytes-inj f g rf rg e0 =
    let (block, e1) = u64_field f.steem_block g.steem_block _ _ rf.block rg.block e0 in
    let (time, e2) =
      str_field f.steem_timestamp g.steem_timestamp _ _ rf.timestamp rg.timestamp e1 in
    let (sender, e3) = str_field f.steem_sender g.steem_sender _ _ rf.sender rg.sender e2 in
    let (gateway, e4) =
      str_field f.gateway_account g.gateway_account _ _ rf.gateway rg.gateway e3 in
    let (amount, e5) =
      u64_field f.amount_millisteem g.amount_millisteem _ _ rf.amount rg.amount e4 in
    let (memo, e6) = str_field f.memo g.memo _ _ rf.memo rg.memo e5 in
    let asset = asset_number-inj f.asset g.asset e6 in
    cc (block, time, sender, gateway, amount, memo, asset)

-- Two attestations count for one candidate only if they report the same facts, where the hash
-- does not collide on the two encodings, and numbers and string lengths fit in 64 bits.
pub deposit_facts_hash-inj :
    (sha256_hex : Bytes → Bytes) (f g : DepositFacts)
    → (sha256_hex (deposit_facts_bytes f) ≡ sha256_hex (deposit_facts_bytes g)
        → deposit_facts_bytes f ≡ deposit_facts_bytes g)
    → InRange f
    → InRange g
    → deposit_facts_hash sha256_hex f ≡ deposit_facts_hash sha256_hex g
    → f ≡ g
unfolding deposit_facts_hash
deposit_facts_hash-inj sha256_hex f g collides rf rg e =
    deposit_facts_bytes-inj f g rf rg (collides e)
