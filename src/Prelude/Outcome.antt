-- ===== src/Prelude/Outcome.antt =====
-- A fallible call: the value with the new state inside, or an error, on which the transaction's
-- writes are discarded.
use mathlib.Core.Path.{◌≡◌, refl}
use mathlib.Core.Logic.{◌⊎◌, inl, inr}
use mathlib.Core.Bool.{Bool}
use mathlib.Core.Option.{Option, none, some}
use steem_virtual_machine_ev.Prelude.Tests.{if◌then◌else◌}

pub data Result {ℓ} (E : Type 0) (A : Type ℓ) : Type ℓ where
  ok : A → Result E A
  err : E → Result E A

-- `if !b { return err }`
abbrev pub guard : {E : Type 0} → Bool → E → Result E (Unit {0})
guard holds why = if holds then ok tt else err why

-- A read that fails on a missing key.
abbrev pub or_err {ℓ} : {E : Type 0} {A : Type ℓ} → Option A → E → Result E A
or_err none why = err why
or_err (some found) why = ok found

-- The rest of a handler, after a call that may have failed.
infixl 5 ◌>>=◌ ◌>>◌
abbrev pub ◌>>=◌ {ℓ κ} :
    {E : Type 0} {A : Type ℓ} {B : Type κ} → Result E A → (A → Result E B) → Result E B
err why >>= next = err why
ok found >>= next = next found

abbrev pub ◌>>◌ {ℓ} : {E : Type 0} {B : Type ℓ} → Result E (Unit {0}) → Result E B → Result E B
err why >> next = err why
ok done >> next = next

pub Result-cases {ℓ} :
    {E : Type 0} {A : Type ℓ} (r : Result E A) → ((e : E) × (r ≡ err e)) ⊎ ((a : A) × (r ≡ ok a))
Result-cases (ok a) = inr (a, refl)
Result-cases (err e) = inl (e, refl)
