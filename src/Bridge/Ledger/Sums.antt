-- ===== src/Bridge/Ledger/Sums.antt =====
-- Sums over the records of a map.
use steem_virtual_machine_ev.Prelude.{
  ℕ, ◌+◌, ◌≡◌, refl, arith, [], ◌∷◌, Option, none, some, Map, nat_eq, get, put, ==_iff,
}
use steem_virtual_machine_ev.Bridge.Ledger.{sum_values}

module _ {V : Type 0} where
  unfoldable pub value_at : (V → ℕ) → Option V → ℕ
  value_at f none = 0
  value_at f (some v) = f v

  -- A write replaces the value that was there.
  pub sum_values-put :
      (f : V → ℕ) (k : ℕ) (v : V) (m : Map ℕ V)
      → sum_values f (put k v m) + value_at f (get k m) ≡ sum_values f m + f v
  unfolding sum_values put get value_at
  sum_values-put f k v [] = ground arith
  sum_values-put f k v ((j, w) ∷ m) = ground (arith, sum_values-put f k v m)

  pub put-put : (k : ℕ) (v w : V) (m : Map ℕ V) → put k v (put k w m) ≡ put k v m
  unfolding put
  put-put k v w [] = ground (arith, ==_iff k k)
  put-put k v w ((j, u) ∷ m) = ground (arith, ==_iff k k, put-put k v w m)

  pub sum_values-add :
      (f g h : V → ℕ)
      → ((v : V) → f v ≡ g v + h v)
      → (m : Map ℕ V) → sum_values f m ≡ sum_values g m + sum_values h m
  unfolding sum_values
  sum_values-add f g h e [] = refl
  sum_values-add f g h e ((i, v) ∷ m) = ground (arith, e v, sum_values-add f g h e m)
