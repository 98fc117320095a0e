-- ===== src/Bridge/Ledger/Index.antt =====
-- A sequence, the records under its numbers, and an index of the records by their status, of which
-- one status is followed: what stays true of the three.
use steem_virtual_machine_ev.Prelude.{
  ℕ, suc, ◌≡◌, ◌≢◌, ◌≤◌, refl, arith, if◌then◌else◌, Bool, true, false, ◌||◌, List, [], ◌∷◌, none,
  some, Map, KeySet, Eq, ◌=?◌, nat_eq, pair_eq, get, put, has, add_key, drop_key, get-put,
  has-add_key, has-drop_key, ==_iff, Bool-cases, inl, inr, take, zero,
}
use steem_virtual_machine_ev.Bridge.Expiry.{insert_id, ids_of_status}

module _ {K : Type 0} ⦃e : Eq K⦄ where
  unfoldable pub Unique : KeySet K → Type 0
  Unique [] = Unit
  Unique (k ∷ ks) = (has k ks ≡ false) × Unique ks

  pub add_key-Unique : (k : K) (ks : KeySet K) → Unique ks → Unique (add_key k ks)
  unfolding Unique add_key has
  add_key-Unique k [] u = (refl, tt)
  add_key-Unique k (j ∷ ks) u =
      ground (arith, e.beq_iff k j, e.beq_iff j k, has-add_key j k ks, add_key-Unique k ks u.1)

  pub drop_key-Unique : (k : K) (ks : KeySet K) → Unique ks → Unique (drop_key k ks)
  unfolding Unique drop_key
  drop_key-Unique k [] u = tt
  drop_key-Unique k (j ∷ ks) u = ground (arith, has-drop_key j k ks, drop_key-Unique k ks u.1)

module _ {V S : Type 0} ⦃eS : Eq S⦄ (status : V → S) (live : S) where
  pub record Indexed (seq : ℕ) (m : Map ℕ V) (index : KeySet (S × ℕ)) : Type 0 where
    pub fresh : (i : ℕ) → seq ≤ i → get i m ≡ none
    pub unique : Unique index
    pub listed :
        (i : ℕ) → has (live, i) index ≡ true → (v : V) × (get i m ≡ some v) × (status v ≡ live)

  -- A record is created with the followed status.
  pub Indexed-new :
      (seq : ℕ) (m : Map ℕ V) (index : KeySet (S × ℕ)) (v : V)
      → Indexed seq m index
      → status v ≡ live
      → Indexed (suc seq) (put seq v m) (add_key (live, seq) index)
  Indexed-new seq m index v ok_before e = record {
    fresh = λ i h. ground (arith, get-put i seq v m, ok_before.fresh i, ==_iff i seq);
    unique = add_key-Unique (live, seq) index ok_before.unique;
    listed = λ i h. elim (Bool-cases (i =? seq)) [
      | inl same ↦ (v, ground (arith, get-put i seq v m), e)
      | inr other ↦
          let before =
            ok_before.listed i (ground (arith, has-add_key (live, i) (live, seq) index)) in
          (before.0, ground (arith, get-put i seq v m, before.1), before.2)
    ];
  }

  -- A record is changed under its status.
  pub Indexed-update :
      (seq : ℕ) (m : Map ℕ V) (index : KeySet (S × ℕ)) (i : ℕ) (v v' : V)
      → Indexed seq m index
      → get i m ≡ some v
      → status v' ≡ status v
      → Indexed seq (put i v' m) index
  Indexed-update seq m index i v v' ok_before g e = record {
    fresh = λ j h. ground (arith, get-put j i v' m, ok_before.fresh j h, ==_iff j i);
    unique = ok_before.unique;
    listed = λ j h.
        let before = ok_before.listed j h in
        elim (Bool-cases (j =? i)) [
          | inl same ↦
              (v', ground (arith, get-put j i v' m), ground (arith, ==_iff j i, before.1, before.2))
          | inr other ↦ (before.0, ground (arith, get-put j i v' m, before.1), before.2)
        ];
  }

  -- A record leaves the followed status.
  pub Indexed-leave :
      (seq : ℕ) (m : Map ℕ V) (index : KeySet (S × ℕ)) (i : ℕ) (v v' : V) (to : S)
      → Indexed seq m index
      → get i m ≡ some v
      → to ≢ live
      → Indexed seq (put i v' m) (add_key (to, i) (drop_key (live, i) index))
  Indexed-leave seq m index i v v' to ok_before g ne = record {
    fresh = λ j h. ground (arith, get-put j i v' m, ok_before.fresh j h, ==_iff j i);
    unique =
        add_key-Unique (to, i) (drop_key (live, i) index)
          (drop_key-Unique (live, i) index ok_before.unique);
    listed = λ j h.
        let both = has-left i j index to ne h in
        let before = ok_before.listed j both.0 in
        (before.0, ground (arith, get-put j i v' m, before.1, both.1), before.2);
  }
    where
      has-left :
          (i j : ℕ) (index : KeySet (S × ℕ)) (to : S)
          → to ≢ live
          → has (live, j) (add_key (to, i) (drop_key (live, i) index)) ≡ true
          → (has (live, j) index ≡ true) × ((j =? i) ≡ false)
      has-left i j index to ne h = ground (
        arith,
        has-add_key (live, j) (to, i) (drop_key (live, i) index),
        has-drop_key (live, j) (live, i) index,
        eS.beq_iff live to,
        eS.beq_iff live live,
      )

has-insert_id : (j i : ℕ) (is : List ℕ) → has j (insert_id i is) ≡ (j =? i || has j is)
unfolding has insert_id
has-insert_id j i [] = refl
has-insert_id j i (k ∷ is) = ground (arith, has-insert_id j i is)

insert_id-Unique : (i : ℕ) (is : List ℕ) → has i is ≡ false → Unique is → Unique (insert_id i is)
unfolding Unique insert_id has
insert_id-Unique i [] h u = (refl, tt)
insert_id-Unique i (j ∷ is) h u =
    ground (arith, ==_iff i j, ==_iff j i, has-insert_id j i is, insert_id-Unique i is)

-- The walk over one status lists exactly the numbers of its index entries, each of them once.
module _ {S : Type 0} ⦃eS : Eq S⦄ where
  pub has-ids_of_status :
      (status : S) (i : ℕ) (index : KeySet (S × ℕ))
      → has i (ids_of_status status index) ≡ has (status, i) index
  unfolding has ids_of_status
  has-ids_of_status status i [] = refl
  has-ids_of_status status i ((t, j) ∷ index) = ground (
    arith,
    has-ids_of_status status i index,
    has-insert_id i j (ids_of_status status index),
    eS.beq_iff t status,
    eS.beq_iff status t,
  )

  pub ids_of_status-Unique :
      (status : S) (index : KeySet (S × ℕ)) → Unique index → Unique (ids_of_status status index)
  unfolding Unique ids_of_status
  ids_of_status-Unique status [] u = tt
  ids_of_status-Unique status ((t, j) ∷ index) u = ground (
    arith,
    ids_of_status-Unique status index u.1,
    insert_id-Unique j (ids_of_status status index),
    has-ids_of_status status j index,
    eS.beq_iff t status,
  )

pub has-take : (n i : ℕ) (is : List ℕ) → has i (take n is) ≡ true → has i is ≡ true
unfolding has
has-take zero i is h = ground arith
has-take (suc n) i [] h = ground arith
has-take (suc n) i (j ∷ is) h = ground (arith, has-take n i is)

pub take-Unique : (n : ℕ) (is : List ℕ) → Unique is → Unique (take n is)
unfolding Unique has
take-Unique zero is u = tt
take-Unique (suc n) [] u = tt
take-Unique (suc n) (j ∷ is) u =
    ground (arith, take-Unique n is u.1, has-take n j is, Bool-cases (has j (take n is)))

pub has-other : (i j : ℕ) (is : List ℕ) → has i is ≡ false → has j is ≡ true → (j =? i) ≡ false
has-other i j is absent present = ground (arith, ==_iff j i, Bool-cases (j =? i))

-- A selection from a list of numbers, one by one: either the head is kept or it is not.
pub select-Unique :
    (i : ℕ) (is js : List ℕ) (keep : Bool)
    → Unique (i ∷ is)
    → Unique js
    → ((j : ℕ) → has j js ≡ true → has j is ≡ true)
    → Unique (if keep then i ∷ js else js)
      × ((j : ℕ) → has j (if keep then i ∷ js else js) ≡ true → has j (i ∷ is) ≡ true)
unfolding Unique has
select-Unique i is js true u v within =
    ((ground (arith, within i, Bool-cases (has i js)), v), λ j h. ground (arith, within j))
select-Unique i is js false u v within = (v, λ j h. ground (arith, within j))
