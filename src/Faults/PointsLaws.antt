-- ===== src/Faults/PointsLaws.antt =====
-- The names of the fault points are distinct.
use rayls_sovereign_tests_au.Shared.{
  ℕ, zero, suc, String, Option, some, Bool, true, false, not, ◌&&◌, any, List, [], ◌∷◌, map,
  get_elem?, ◌≡◌, refl, ap, sym, ◌∙◌, arith,
}
use rayls_sovereign_tests_au.Faults.Points.{fault_points}
use text.Mathlib.Text.{◌==◌ as str_eq}
use text.Mathlib.TextEquality.{eq_iff}

abbrev no_repeats : List String → Bool
no_repeats [] = true
no_repeats (s ∷ ss) = not (any (str_eq s) ss) && no_repeats ss

listed-any :
    (s : String) (ss : List String) (i : ℕ) → get_elem? ss i ≡ some s → any (str_eq s) ss ≡ true
listed-any s [] i h = absurd (cc)
listed-any s (x ∷ ss) zero h = rw ((eq_iff s x).1 (sym (some-same x s h))) refl
  where
    some-same : (a b : String) → some a ≡ some b → a ≡ b
    some-same a b h = cc
listed-any s (x ∷ ss) (suc i) h = ground (arith, listed-any s ss i h)

both : (a b : Bool) → (not a && b) ≡ true → (a ≡ false) × (b ≡ true)
both true b h = absurd (cc)
both false b h = (refl, h)

first-same : (x s : String) → ◌≡◌ {A = Option String} (some x) (some s) → x ≡ s
first-same x s h = cc

first-apart :
    (x s : String) (ss : List String) (j : ℕ)
    → no_repeats (x ∷ ss) ≡ true
    → x ≡ s
    → get_elem? ss j ≡ some s
    → ⊥
first-apart x s ss j d same h =
    let repeated : any (str_eq x) ss ≡ true = listed-any x ss j (h ∙ ap some (sym same)) in
    let fresh : any (str_eq x) ss ≡ false = (both (any (str_eq x) ss) (no_repeats ss) d).0 in
    absurd (cc)

no_repeats-injective :
    (ss : List String) (i j : ℕ) (s : String)
    → no_repeats ss ≡ true
    → get_elem? ss i ≡ some s
    → get_elem? ss j ≡ some s
    → i ≡ j
no_repeats-injective [] i j s d h k = absurd (cc)
no_repeats-injective (x ∷ ss) zero zero s d h k = refl
no_repeats-injective (x ∷ ss) zero (suc j) s d h k =
    absurd (first-apart x s ss j d (first-same x s h) k)
no_repeats-injective (x ∷ ss) (suc i) zero s d h k =
    absurd (first-apart x s ss i d (first-same x s k) h)
no_repeats-injective (x ∷ ss) (suc i) (suc j) s d h k =
    ap suc (no_repeats-injective ss i j s (both (any (str_eq x) ss) (no_repeats ss) d).1 h k)

-- Two fault points of the table, at whatever positions, have different names.
pub fault_points-injective :
    (i j : ℕ) (name : String)
    → get_elem? (map (λ p. p.1) fault_points) i ≡ some name
    → get_elem? (map (λ p. p.1) fault_points) j ≡ some name
    → i ≡ j
fault_points-injective i j name h k =
    no_repeats-injective (map (λ p. p.1) fault_points) i j name refl h k
