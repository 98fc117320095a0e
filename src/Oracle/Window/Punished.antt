-- ===== src/Oracle/Window/Punished.antt =====
-- Whom the end of a window slashes and jails, as the staking module sees it.
use steem_virtual_machine_ev.Prelude.{
  ℕ, ◌+◌, ◌%◌, ◌≡◌, ltb, ◌==◌, if◌then◌else◌, Bool, false, ◌&&◌, ◌||◌, Bytes, Option, none, some,
  ◌=?◌, get, bytes_eq,
}
use steem_virtual_machine_ev.Decimal.{Decimal}
use steem_virtual_machine_ev.Oracle.Duty.{Tallies}
use steem_virtual_machine_ev.Oracle.Window.{Params, StakingKeeper, judge}

abbrev pub or_stay {ℓ} : {S : Type ℓ} → Option S → S → S
or_stay none s = s
or_stay (some after) s = after

-- A staking module that knows every validator by its consensus address. A slash takes the fraction
-- from that validator alone, and jails nobody; after a jailing, which may be refused for who is
-- jailed already, that validator is jailed too, and nobody lost anything.
pub record Reliable {S : Type 0} (k : StakingKeeper S) (cons : Bytes → Bytes)
    (taken : Bytes → S → ℕ) (is_jailed : Bytes → S → Bool) : Type 0 where
  pub known :
      (v : Bytes) (s : S) → (power : ℕ) × (k.get_validator v s ≡ some (some (cons v), power))
  pub slashes :
      (v : Bytes) (height power fraction : ℕ) (s : S)
      → (after : S) × (k.slash (cons v) height power fraction s ≡ some after)
        × ((u : Bytes) → taken u after ≡ taken u s + (if u =? v then fraction else 0))
        × ((u : Bytes) → is_jailed u after ≡ is_jailed u s)
  pub jails :
      (v : Bytes) (s : S)
      → ((u : Bytes) → taken u (or_stay (k.jail (cons v) s) s) ≡ taken u s)
        × ((u : Bytes) → is_jailed u (or_stay (k.jail (cons v) s) s) ≡ (u =? v || is_jailed u s))

-- The validator has a tally in the window, and it is a failure.
abbrev pub has_failed : Decimal → Params → Tallies → Bytes → Bool
has_failed dec p tallies v = elim (get v tallies) [
  | none ↦ false
  | some t ↦ (judge dec p t).should_slash
]

abbrev pub is_window_end : Params → ℕ → Bool
is_window_end p height = ltb 0 height && (ltb 0 p.slash_window && height % p.slash_window == 0)
