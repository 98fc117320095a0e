-- ===== src/Data/Commit/Laws.antt =====
-- The commit and reveal protocol.
use steem_virtual_machine_ev.Prelude.{
  ℕ, ◌-◌, ◌%◌, ◌*◌, ◌/◌, ◌≤◌, ◌<◌, ◌≡◌, ◌↔◌, Result-cases, ap, arith, true, Bytes, none, some, get,
  bytes_eq, nat_eq, bytes_beq, bytes_beq_iff, has, false, take, codes, [], ◌∷◌, ◌++◌, ◌∙◌, subst,
  append_cancel-right, ok, err, get-remove, get-put_self, inl, inr,
}
use native.Mathlib.Nat.{div-add-mod}
use steem_virtual_machine_ev.Data.Tally.{Prevote, Vote, DataStore, Context}
use steem_virtual_machine_ev.Data.Commit.{
  External, MsgPrevote, MsgVote, prevote_not_expired, get_aggregate_vote_hash,
  parse_exchange_rate_tuples, is_bonded, aggregate_exchange_rate_prevote, current_period_start,
  aggregate_exchange_rate_vote,
}

-- The text that a commit is the hash of.
abbrev pub opening : Bytes → Bytes → Bytes → Bytes
opening salt rates validator = salt ++ (codes ":" ++ (rates ++ (codes ":" ++ validator)))

-- A text without colons ends at the first one.
cut_at_colon :
    (a b s t : Bytes)
    → has b':' a ≡ false
    → has b':' b ≡ false
    → a ++ b':' ∷ s ≡ b ++ b':' ∷ t
    → (a ≡ b) × (s ≡ t)
unfolding has
cut_at_colon [] [] s t ha hb e = ground arith
cut_at_colon [] (d ∷ b) s t ha hb e = ground arith
cut_at_colon (c ∷ a) [] s t ha hb e = ground arith
cut_at_colon (c ∷ a) (d ∷ b) s t ha hb e = ground (arith, cut_at_colon a b s t)

opening-inj :
    (salt salt' rates rates' validator : Bytes)
    → has b':' salt ≡ false
    → has b':' salt' ≡ false
    → opening salt rates validator ≡ opening salt' rates' validator
    → (salt ≡ salt') × (rates ≡ rates')
opening-inj salt salt' rates rates' validator plain plain' e =
    let (first, rest) = cut_at_colon salt salt' _ _ plain plain' e in
    (first, append_cancel-right rates rates' (codes ":" ++ validator) rest)

module _ (x : External) (ctx : Context) (msg : MsgVote) (k k' : DataStore) where
  -- The first 40 digits of the hash of the text.
  abbrev pub committed_hash : Bytes → Bytes → Bytes
  committed_hash salt rates = take 40 (x.sha256_hex (opening salt rates msg.validator))

  -- A reveal that is accepted, where the validator's commit was made to a salt and rates, has
  -- exactly that salt and these rates; the validator is bonded, the commit is of an earlier
  -- vote period, and the reveal stores the parsed rates and uses the commit up. Neither salt
  -- has a colon, and the truncated hash does not collide on the two texts.
  pub vote-opens-prevote :
      (addr salt rates : Bytes) (p : Prevote)
      → x.string_to_bytes msg.validator ≡ some addr
      → get addr k.prevote ≡ some p
      → p.hash ≡ committed_hash salt rates
      → has b':' salt ≡ false
      → has b':' msg.salt ≡ false
      → (committed_hash msg.salt msg.exchange_rates ≡ committed_hash salt rates
          → opening msg.salt msg.exchange_rates msg.validator ≡ opening salt rates msg.validator)
      → aggregate_exchange_rate_vote x ctx msg k ≡ ok k'
      → (msg.salt ≡ salt)
        × (msg.exchange_rates ≡ rates)
        × (p.submit_block < current_period_start k ctx)
        × (is_bonded ctx addr ≡ true)
        × (v : Vote) × (get addr k'.vote ≡ some v)
        × (parse_exchange_rate_tuples x rates ≡ ok v.exchange_rates)
        × (get addr k'.prevote ≡ none)
  unfolding aggregate_exchange_rate_vote get_aggregate_vote_hash
  vote-opens-prevote addr salt rates p dec found made plain plain' collides e =
      elim (Result-cases (parse_exchange_rate_tuples x msg.exchange_rates)) [
        | inl (why, bad) ↦ ground arith
        | inr (tuples, parsed) ↦
            let v : Vote = record { exchange_rates = tuples; voter = x.val_address_string addr } in
            let revealed : get_aggregate_vote_hash x msg.salt msg.exchange_rates msg.validator
                ≡ p.hash =
              ground (arith, hash_iff) in
            let (same_salt, same_rates) =
              opening-inj msg.salt salt msg.exchange_rates rates msg.validator plain' plain
                (collides (revealed ∙ made)) in
            (
              same_salt,
              same_rates,
              ground arith,
              ground arith,
              v,
              ground (arith, get-put_self addr v k.vote),
              subst (λ r. parse_exchange_rate_tuples x r ≡ ok tuples) same_rates parsed,
              ground (arith, get-remove addr addr k.prevote, bytes_beq_iff addr addr),
            )
      ]
    where
      hash_iff :
          (bytes_beq (get_aggregate_vote_hash x msg.salt msg.exchange_rates msg.validator) p.hash
            ≡ true)
          ↔ (get_aggregate_vote_hash x msg.salt msg.exchange_rates msg.validator ≡ p.hash)
      hash_iff =
          bytes_beq_iff (get_aggregate_vote_hash x msg.salt msg.exchange_rates msg.validator) p.hash

period_start-le : (a b n : ℕ) → a / n ≡ b / n → b - b % n ≤ a
period_start-le a b n same =
    omega (arith, div-add-mod a n, div-add-mod b n, ap (λ (q : ℕ). n * q) same)

-- A commit cannot be revealed in the vote period in which it was made: from an accepted prevote at
-- one height, every reveal by that validator at a height of the same period is refused.
pub vote-same_period :
    (x : External) (ctx later : Context) (commit : MsgPrevote) (reveal : MsgVote) (k k' : DataStore)
    (addr : Bytes)
    → x.string_to_bytes commit.validator ≡ some addr
    → x.string_to_bytes reveal.validator ≡ some addr
    → is_bonded later addr ≡ true
    → 0 < k.params.vote_period
    → ctx.block_height / k.params.vote_period ≡ later.block_height / k.params.vote_period
    → aggregate_exchange_rate_prevote x ctx commit k ≡ ok k'
    → aggregate_exchange_rate_vote x later reveal k' ≡ err prevote_not_expired
unfolding aggregate_exchange_rate_prevote aggregate_exchange_rate_vote current_period_start
vote-same_period x ctx later commit reveal k k' addr dc dr bonded pos same e = ground (
  arith,
  period_start-le ctx.block_height later.block_height k.params.vote_period same,
  get-put_self addr
      (record {
        hash = commit.hash;
        voter = x.val_address_string addr;
        submit_block = ctx.block_height;
      })
      k.prevote,
)
