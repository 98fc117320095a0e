-- ===== src/Bridge/Quota/Tests.antt =====
-- Three messages of one validator around one of another, under a quota of two.
use steem_virtual_machine_ev.Prelude.{◌-◌, ◌≡◌, Bytes, Map, [], ◌∷◌, codes}
use steem_virtual_machine_ev.Bridge.Quota.{FreeDepositCounter}
use steem_virtual_machine_ev.Bridge.Quota.Laws.{calls, granted, used, smaller, free_quota_exact}

abbrev alice : Bytes
alice = codes "alice"

abbrev bob : Bytes
bob = codes "bob"

-- alice's quota of the block before is used up; that is over.
abbrev stale : Map Bytes FreeDepositCounter
stale = (alice, record { height = 6; count = 2 }) ∷ []

free_quota_exact_example :
    granted 7 2 alice (alice ∷ bob ∷ alice ∷ alice ∷ []) stale
    ≡ smaller (calls alice (alice ∷ bob ∷ alice ∷ alice ∷ [])) (2 - used 7 alice stale)
free_quota_exact_example = free_quota_exact 7 2 alice (alice ∷ bob ∷ alice ∷ alice ∷ []) stale
