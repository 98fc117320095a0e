-- ===== src/Prelude/Key.antt =====
-- Equality of keys as an interface, and the store's maps and key sets over it.
-- `collections.Map` and `collections.KeySet` are used through get, set, remove, has and prefix
-- walks. A map is an association list with one entry for each key, a key set a list of keys.
use Prim.Native.Nat.{ℕ}
use mathlib.Core.Path.{◌≡◌, refl}
use mathlib.Core.Logic.{◌↔◌, ◌≢◌}
use mathlib.Core.Bool.{Bool, true, false, not, ◌&&◌, ◌||◌}
use mathlib.Core.Option.{Option, none, some}
use mathlib.Core.List.{List, [], ◌∷◌}
use native.Mathlib.Omega.{arith}
use steem_virtual_machine_ev.Prelude.Tests.{◌==◌ as nat_beq, ==_iff, if◌then◌else◌}
use steem_virtual_machine_ev.Prelude.Lists.{Bytes}

pub record Eq {ℓ} (A : Type ℓ) : Type ℓ where
  pub beq : A → A → Bool
  pub beq_iff : (a b : A) → (beq a b ≡ true) ↔ (a ≡ b)

infix 50 ◌=?◌
abbrev pub ◌=?◌ {ℓ} : {A : Type ℓ} ⦃e : Eq A⦄ → A → A → Bool
◌=?◌ ⦃e⦄ = e.beq

instance abbrev pub nat_eq : Eq ℕ
nat_eq = record { beq = nat_beq; beq_iff = ==_iff }

unfoldable pub bytes_beq : Bytes → Bytes → Bool
bytes_beq [] [] = true
bytes_beq [] (y ∷ ys) = false
bytes_beq (x ∷ xs) [] = false
bytes_beq (x ∷ xs) (y ∷ ys) = nat_beq x y && bytes_beq xs ys

pub bytes_beq_iff : (a b : Bytes) → (bytes_beq a b ≡ true) ↔ (a ≡ b)
unfolding bytes_beq
bytes_beq_iff [] [] = ground arith
bytes_beq_iff [] (y ∷ ys) = ground arith
bytes_beq_iff (x ∷ xs) [] = ground arith
bytes_beq_iff (x ∷ xs) (y ∷ ys) = ground (arith, bytes_beq_iff xs ys)

instance abbrev pub bytes_eq : Eq Bytes
bytes_eq = record { beq = bytes_beq; beq_iff = bytes_beq_iff }

module _ {ℓ κ} {A : Type ℓ} {B : Type κ} ⦃ea : Eq A⦄ ⦃eb : Eq B⦄ where
  abbrev pub pair_beq : A × B → A × B → Bool
  pair_beq (a, b) (c, d) = ea.beq a c && eb.beq b d

  pub pair_beq_iff : (p q : A × B) → (pair_beq p q ≡ true) ↔ (p ≡ q)
  pair_beq_iff (a, b) (c, d) = ground (arith, ea.beq_iff a c, eb.beq_iff b d)

  instance abbrev pub pair_eq : Eq (A × B)
  pair_eq = record { beq = pair_beq; beq_iff = pair_beq_iff }

module _ {ℓ κ μ} {A : Type ℓ} {B : Type κ} {C : Type μ} ⦃ea : Eq A⦄ ⦃eb : Eq B⦄ ⦃ec : Eq C⦄ where
  abbrev pub triple_beq : A × B × C → A × B × C → Bool
  triple_beq (a, b, c) (x, y, z) = ea.beq a x && (eb.beq b y && ec.beq c z)

  pub triple_beq_iff : (p q : A × B × C) → (triple_beq p q ≡ true) ↔ (p ≡ q)
  triple_beq_iff (a, b, c) (x, y, z) =
      ground (arith, ea.beq_iff a x, eb.beq_iff b y, ec.beq_iff c z)

  instance abbrev pub triple_eq : Eq (A × B × C)
  triple_eq = record { beq = triple_beq; beq_iff = triple_beq_iff }

abbrev pub Map {ℓ κ} : Type ℓ → Type κ → Type (ℓ ⊔ κ)
Map K V = List (K × V)

abbrev pub KeySet {ℓ} : Type ℓ → Type ℓ
KeySet K = List K

module _ {ℓ κ} {K : Type ℓ} {V : Type κ} ⦃e : Eq K⦄ where
  unfoldable pub get : K → Map K V → Option V
  get k [] = none
  get k ((j, v) ∷ m) = if k =? j then some v else get k m

  unfoldable pub put : K → V → Map K V → Map K V
  put k v [] = (k, v) ∷ []
  put k v ((j, w) ∷ m) = if k =? j then (k, v) ∷ m else (j, w) ∷ put k v m

  unfoldable pub remove : K → Map K V → Map K V
  remove k [] = []
  remove k ((j, w) ∷ m) = if k =? j then remove k m else (j, w) ∷ remove k m

  pub get-put :
      (j k : K) (v : V) (m : Map K V) → get j (put k v m) ≡ (if j =? k then some v else get j m)
  unfolding get put
  get-put j k v [] = refl
  get-put j k v ((i, w) ∷ m) =
      ground (arith, e.beq_iff j k, e.beq_iff j i, e.beq_iff k i, get-put j k v m)

  pub get-put_self : (k : K) (v : V) (m : Map K V) → get k (put k v m) ≡ some v
  get-put_self k v m = ground (arith, get-put k k v m, e.beq_iff k k)

  pub get-put_ne : (j k : K) (v : V) (m : Map K V) → j ≢ k → get j (put k v m) ≡ get j m
  get-put_ne j k v m h = ground (arith, get-put j k v m, e.beq_iff j k)

  pub get-remove : (j k : K) (m : Map K V) → get j (remove k m) ≡ (if j =? k then none else get j m)
  unfolding get remove
  get-remove j k [] = ground arith
  get-remove j k ((i, w) ∷ m) =
      ground (arith, e.beq_iff j k, e.beq_iff j i, e.beq_iff k i, get-remove j k m)

module _ {ℓ} {K : Type ℓ} ⦃e : Eq K⦄ where
  unfoldable pub has : K → KeySet K → Bool
  has k [] = false
  has k (j ∷ s) = k =? j || has k s

  -- A key that is there already is not added twice.
  unfoldable pub add_key : K → KeySet K → KeySet K
  add_key k [] = k ∷ []
  add_key k (j ∷ s) = if k =? j then j ∷ s else j ∷ add_key k s

  unfoldable pub drop_key : K → KeySet K → KeySet K
  drop_key k [] = []
  drop_key k (j ∷ s) = if k =? j then drop_key k s else j ∷ drop_key k s

  pub has-add_key : (j k : K) (s : KeySet K) → has j (add_key k s) ≡ (j =? k || has j s)
  unfolding has add_key
  has-add_key j k [] = refl
  has-add_key j k (i ∷ s) =
      ground (arith, e.beq_iff j k, e.beq_iff j i, e.beq_iff k i, has-add_key j k s)

  pub has-drop_key : (j k : K) (s : KeySet K) → has j (drop_key k s) ≡ (not (j =? k) && has j s)
  unfolding has drop_key
  has-drop_key j k [] = ground arith
  has-drop_key j k (i ∷ s) =
      ground (arith, e.beq_iff j k, e.beq_iff j i, e.beq_iff k i, has-drop_key j k s)
