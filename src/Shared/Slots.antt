-- ===== src/Shared/Slots.antt =====
-- Tables with an entry for each number: a change of one entry, and weighted sums over the first `n`.
use Prim.Native.Nat.{ℕ, zero, suc, ◌+◌, ◌≤◌, ◌<◌}
use mathlib.Core.Path.{◌≡◌, refl}
use native.Mathlib.Decide.{dec_lt}
use native.Mathlib.Omega.{arith}
use rayls_sovereign_tests_au.Shared.Tests.{◌==◌, if◌then◌else◌}

module _ {A : Type 0} where
  abbrev pub set : ℕ → A → (ℕ → A) → ℕ → A
  set i a f j = if j == i then a else f j

  abbrev pub total : (A → ℕ) → ℕ → (ℕ → A) → ℕ
  total w zero f = 0
  total w (suc n) f = total w n f + w (f n)

  set-outside :
      (w : A → ℕ) (n i : ℕ) (a : A) (f : ℕ → A) → n ≤ i → total w n (set i a f) ≡ total w n f
  set-outside w zero i a f h = refl
  set-outside w (suc n) i a f h = ground (arith, set-outside w n i a f)

  pub total-set :
      (w : A → ℕ) (n i : ℕ) (a : A) (f : ℕ → A)
      → i < n
      → total w n (set i a f) + w (f i) ≡ total w n f + w a
  total-set w zero i a f h = absurd (omega arith)
  total-set w (suc n) i a f h = elim (dec_lt i n) [
    | yes below ↦ ground (arith, total-set w n i a f below)
    | no last ↦ ground (arith, set-outside w n i a f)
  ]

  pub total-le : (w : A → ℕ) (n : ℕ) (f : ℕ → A) → ((a : A) → w a ≤ 1) → total w n f ≤ n
  total-le w zero f small = omega arith
  total-le w (suc n) f small = omega (arith, small (f n), total-le w n f small)
