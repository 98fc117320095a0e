-- ===== src/Data/Commit.antt =====
-- x/oracle/data: the commit and the reveal of a vote (keeper/msg_server_prevote.go,
-- keeper/msg_server_vote.go, types/vote.go). SHA-256, the address codecs and the decimal parser are
-- parameters. Events are left out.
pub mod Laws
use steem_virtual_machine_ev.Prelude.{
  ℕ, ◌-◌, ◌%◌, ◌≡◌, leb, ltb, ◌==◌, if◌then◌else◌, Bool, true, false, not, Bytes, List, [], ◌∷◌,
  ◌++◌, Option, none, some, get, put, remove, has, bytes_eq, bytes_beq, take, codes, Result, ok,
  err, ◌>>=◌, ◌>>◌, guard, or_err,
}
use steem_virtual_machine_ev.Text.{trim_space, split, cut_last}
use steem_virtual_machine_ev.Data.Tally.{Prevote, Vote, DataStore, Validator, Context}

pub data Error : Type 0 where
  invalid_hash invalid_address not_bonded_validator no_aggregate_prevote : Error
  prevote_not_expired hash_verification invalid_exchange_rate : Error

pub data Sign : Type 0 where
  negative non_negative : Sign

-- What the handlers call of other packages: the lowercase hex form of a SHA-256 digest, the account
-- address codec, the operator address's string form, and `LegacyNewDecFromStr` with its sign.
pub record External : Type 0 where
  pub sha256_hex : Bytes → Bytes
  pub string_to_bytes : Bytes → Option Bytes
  pub val_address_string : Bytes → Bytes
  pub dec_from_str : Bytes → Option (Sign × ℕ)

pub record MsgPrevote : Type 0 where
  pub hash : Bytes
  pub validator : Bytes

pub record MsgVote : Type 0 where
  pub salt : Bytes
  pub exchange_rates : Bytes
  pub validator : Bytes

abbrev pub aggregate_vote_hash_len : ℕ
aggregate_vote_hash_len = 40

-- `err != nil || !validator.IsBonded()`
unfoldable pub is_bonded : Context → Bytes → Bool
is_bonded ctx addr = elim (ctx.get_validator addr) [ none ↦ false | some v ↦ v.is_bonded ]

-- `height - height % period`, or the height if the period is 0.
unfoldable pub current_period_start : DataStore → Context → ℕ
current_period_start k ctx =
    if k.params.vote_period == 0
    then ctx.block_height
    else ctx.block_height - ctx.block_height % k.params.vote_period

module _ (x : External) where
  -- `hex(sha256("salt:rates:validator"))[:40]`
  unfoldable pub get_aggregate_vote_hash : Bytes → Bytes → Bytes → Bytes
  get_aggregate_vote_hash salt rates validator =
      take aggregate_vote_hash_len
        (x.sha256_hex (salt ++ (codes ":" ++ (rates ++ (codes ":" ++ validator)))))

  -- One entry after the first ones, whose pairs are `seen`: `none` stands for an empty entry.
  unfoldable pub parse_entry : Bytes → List Bytes → Result Error (Option (Bytes × ℕ))
  parse_entry entry seen = if bytes_beq entry [] then ok none else elim (cut_last b':' entry) [
    | none ↦ err invalid_exchange_rate
    | some (before, after) ↦
        if bytes_beq before []
        then err invalid_exchange_rate
        else if bytes_beq after []
        then err invalid_exchange_rate
        else if bytes_beq (trim_space before) []
        then err invalid_exchange_rate
        else if has (trim_space before) seen
        then err invalid_exchange_rate
        else elim (x.dec_from_str (trim_space after)) [
          | none ↦ err invalid_exchange_rate
          | some (negative, r) ↦ err invalid_exchange_rate
          | some (non_negative, r) ↦ ok (some (trim_space before, r))
        ]
  ]

  unfoldable pub parse_entries : List Bytes → List Bytes → Result Error (List (Bytes × ℕ))
  unfolding parse_entry
  parse_entries [] seen = ok []
  parse_entries (entry ∷ entries) seen = elim (parse_entry (trim_space entry) seen) [
    | err e ↦ err e
    | ok none ↦ parse_entries entries seen
    | ok (some (pair, r)) ↦ elim (parse_entries entries (pair ∷ seen)) [
      | err e ↦ err e
      | ok tuples ↦ ok ((pair, r) ∷ tuples)
    ]
  ]

  unfoldable pub parse_exchange_rate_tuples : Bytes → Result Error (List (Bytes × ℕ))
  unfolding parse_entries
  parse_exchange_rate_tuples rates =
      if bytes_beq (trim_space rates) []
      then ok []
      else parse_entries (split b',' (trim_space rates)) []

  unfoldable pub aggregate_exchange_rate_prevote :
      Context → MsgPrevote → DataStore → Result Error DataStore
  unfolding is_bonded
  aggregate_exchange_rate_prevote ctx msg k = do
    guard (not (bytes_beq msg.hash [])) invalid_hash
    addr ← or_err (x.string_to_bytes msg.validator) invalid_address
    guard (is_bonded ctx addr) not_bonded_validator
    ok (record k {
      prevote =
          put addr
            (record {
              hash = msg.hash;
              voter = x.val_address_string addr;
              submit_block = ctx.block_height;
            })
            k.prevote;
    })

  unfoldable pub aggregate_exchange_rate_vote :
      Context → MsgVote → DataStore → Result Error DataStore
  unfolding is_bonded current_period_start
  aggregate_exchange_rate_vote ctx msg k = do
    addr ← or_err (x.string_to_bytes msg.validator) invalid_address
    guard (is_bonded ctx addr) not_bonded_validator
    prevote ← or_err (get addr k.prevote) no_aggregate_prevote
    guard (ltb prevote.submit_block (current_period_start k ctx)) prevote_not_expired
    guard
        (bytes_beq (get_aggregate_vote_hash msg.salt msg.exchange_rates msg.validator) prevote.hash)
        hash_verification
    tuples ← parse_exchange_rate_tuples msg.exchange_rates
    ok (record k {
      vote =
          put addr (record { exchange_rates = tuples; voter = x.val_address_string addr }) k.vote;
      prevote = remove addr k.prevote;
    })
