-- ===== src/SteemTx/Authority.antt =====
-- oracle/go/steemtx/encoding.go: a Steem authority, its weights and its order.
use steem_virtual_machine_ev.Prelude.{
  ℕ, ◌+◌, Bool, if◌then◌else◌, Bytes, bytes_beq, List, [], ◌∷◌, sort_by, bytes_ltb, sum_by,
}

pub record AccountAuth : Type 0 where
  pub name : Bytes
  pub weight : ℕ

pub record KeyAuth : Type 0 where
  pub key : Bytes
  pub weight : ℕ

pub record Authority : Type 0 where
  pub weight_threshold : ℕ
  pub account_auths : List AccountAuth
  pub key_auths : List KeyAuth

unfoldable pub name_less : AccountAuth → AccountAuth → Bool
unfolding bytes_ltb
name_less a b = bytes_ltb a.name b.name

-- `Authority.Sorted`: the accounts in the order of their names.
unfoldable pub sorted : Authority → Authority
unfolding sort_by name_less
sorted a = record a { account_auths = sort_by name_less a.account_auths }

-- `Authority.Total`, in uint32. The weights are 16 bits wide, and an authority is far from 2^16
-- members.
unfoldable pub total : Authority → ℕ
total a = sum_by (λ x. x.weight) a.account_auths + sum_by (λ x. x.weight) a.key_auths

-- `Authority.WeightOf`: the weight of the first entry of the name, 0 if there is none.
unfoldable pub weight_in : Bytes → List AccountAuth → ℕ
weight_in name [] = 0
weight_in name (x ∷ xs) =
    let rest = weight_in name xs in if bytes_beq x.name name then x.weight else rest

unfoldable pub weight_of : Authority → Bytes → ℕ
unfolding weight_in
weight_of a name = weight_in name a.account_auths
