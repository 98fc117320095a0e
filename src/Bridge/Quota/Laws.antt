-- ===== src/Bridge/Quota/Laws.antt =====
-- How many of an address's messages are free in one block, whatever the other addresses do.
use steem_virtual_machine_ev.Prelude.{
  ℕ, ◌+◌, ◌-◌, ◌≡◌, arith, leb, ◌==◌, if◌then◌else◌, true, false, ◌&&◌, none, some, get,
  Option-cases, inl, inr, Bytes, bytes_beq, bytes_beq_iff, List, [], ◌∷◌, Map, bytes_eq, get-put,
}
use steem_virtual_machine_ev.Bridge.Quota.{FreeDepositCounter, current_counter, consume_free_quota}

-- The calls of one address in a sequence.
unfoldable pub calls : Bytes → List Bytes → ℕ
calls v [] = 0
calls v (a ∷ rest) = if bytes_beq v a then 1 + calls v rest else calls v rest

-- How many of them are granted, in a block.
unfoldable pub granted : ℕ → ℕ → Bytes → List Bytes → Map Bytes FreeDepositCounter → ℕ
granted height quota v [] counters = 0
granted height quota v (a ∷ rest) counters =
    let (free, after) = consume_free_quota height quota a counters in
    let more = granted height quota v rest after in if bytes_beq v a && free then 1 + more else more

-- What the address has used of its quota in the block at this height: the count that is stored for
-- that height, nothing where there is none.
unfoldable pub used : ℕ → Bytes → Map Bytes FreeDepositCounter → ℕ
used height v counters = elim (get v counters) [
  | none ↦ 0
  | some c ↦ if c.height == height then c.count else 0
]

current_counter-used :
    (height : ℕ) (v : Bytes) (counters : Map Bytes FreeDepositCounter)
    → ((current_counter height v counters).count ≡ used height v counters)
      × ((current_counter height v counters).height ≡ height)
unfolding used current_counter
current_counter-used height v counters = elim (Option-cases (get v counters)) [
  | inl missing ↦ (ground arith, ground arith)
  | inr (c, found) ↦ (ground arith, ground arith)
]

unfoldable pub smaller : ℕ → ℕ → ℕ
smaller a b = if leb a b then a else b

used-consume :
    (height quota : ℕ) (v a : Bytes) (counters : Map Bytes FreeDepositCounter)
    → used height v (consume_free_quota height quota a counters).1 ≡ (
        if bytes_beq v a && (consume_free_quota height quota a counters).0
        then used height v counters + 1
        else used height v counters)
unfolding used consume_free_quota
used-consume height quota v a counters =
    let c = current_counter height a counters in
    ground (
      arith,
      get-put v a (record c { count = c.count + 1 }) counters,
      bytes_beq_iff v a,
      current_counter-used height a counters,
    )

free-consume :
    (height quota : ℕ) (a : Bytes) (counters : Map Bytes FreeDepositCounter)
    → (consume_free_quota height quota a counters).0
      ≡ (if leb quota (used height a counters) then false else true)
unfolding consume_free_quota
free-consume height quota a counters = ground (arith, current_counter-used height a counters)

-- Of the messages of an address in one block, as many are free as there are, up to what is left of
-- its quota, in any order with the messages of other addresses. What was used before counts only
-- where it was used in this block: a block without a count of its own starts with the whole quota.
pub free_quota_exact :
    (height quota : ℕ) (v : Bytes) (rest : List Bytes) (counters : Map Bytes FreeDepositCounter)
    → granted height quota v rest counters ≡ smaller (calls v rest) (quota - used height v counters)
unfolding granted calls smaller
free_quota_exact height quota v [] counters = ground arith
free_quota_exact height quota v (a ∷ rest) counters =
    let next = consume_free_quota height quota a counters in
    ground (
      arith,
      free_quota_exact height quota v rest next.1,
      used-consume height quota v a counters,
      free-consume height quota a counters,
      bytes_beq_iff v a,
    )
