-- ===== src/Shared/Text/Search.antt =====
-- The search for a pattern, read as: the text is some prefix, the pattern and some rest; and the
-- comparison of two lists of code points.
use Prim.Native.Nat.{ℕ}
use mathlib.Core.Path.{◌≡◌, refl, ap, ◌∙◌}
use mathlib.Core.Logic.{◌↔◌, inl, inr}
use mathlib.Core.Bool.{true, false}
use mathlib.Core.List.{List, [], ◌∷◌, ◌++◌}
use native.Mathlib.Omega.{arith}
use rayls_sovereign_tests_au.Shared.Tests.{==_iff, Bool-cases}
use rayls_sovereign_tests_au.Shared.Text.{includes, is_prefix, list_eq}

-- The pattern stands somewhere in the text.
abbrev pub Infix : List ℕ → List ℕ → Type 0
Infix p t = (before after : List ℕ) × (t ≡ before ++ (p ++ after))

abbrev pub Prefix : List ℕ → List ℕ → Type 0
Prefix p t = (after : List ℕ) × (t ≡ p ++ after)

pub is_prefix→Prefix : (p t : List ℕ) → is_prefix p t ≡ true → Prefix p t
is_prefix→Prefix [] t h = (t, refl)
is_prefix→Prefix (c ∷ p) [] h = absurd (ground arith)
is_prefix→Prefix (c ∷ p) (d ∷ t) h =
    let (after, e) = is_prefix→Prefix p t (ground arith) in (after, ground (arith, ==_iff c d))

pub Prefix→is_prefix : (p after : List ℕ) → is_prefix p (p ++ after) ≡ true
Prefix→is_prefix [] after = refl
Prefix→is_prefix (c ∷ p) after = ground (arith, Prefix→is_prefix p after)

pub no_Prefix : (p t : List ℕ) → is_prefix p t ≡ false → ¬ Prefix p t
no_Prefix p t h pre =
    absurd (let found = ap (λ u. is_prefix p u) pre.1 ∙ Prefix→is_prefix p pre.0 in cc)

includes→Infix : (p t : List ℕ) → includes p t ≡ true → Infix p t
unfolding includes
includes→Infix p [] h = let (after, e) = is_prefix→Prefix p [] h in ([], after, e)
includes→Infix p (c ∷ t) h = elim (Bool-cases (is_prefix p (c ∷ t))) [
  | inl here ↦ (let (after, e) = is_prefix→Prefix p (c ∷ t) here in ([], after, e))
  | inr later ↦
      (let (before, after, e) = includes→Infix p t (ground arith) in
        (c ∷ before, after, ap (λ r. c ∷ r) e))
]

is_prefix→includes : (p t : List ℕ) → is_prefix p t ≡ true → includes p t ≡ true
unfolding includes
is_prefix→includes p [] h = h
is_prefix→includes p (c ∷ t) h = ground arith

Infix→includes : (p before after : List ℕ) → includes p (before ++ (p ++ after)) ≡ true
unfolding includes
Infix→includes p [] after = is_prefix→includes p (p ++ after) (Prefix→is_prefix p after)
Infix→includes p (c ∷ before) after = ground (arith, Infix→includes p before after)

pub includes_iff : (p t : List ℕ) → (includes p t ≡ true) ↔ Infix p t
includes_iff p t =
    (includes→Infix p t, λ h. let (before, after, e) = h in rw e (Infix→includes p before after))

pub list_eq_sound : (xs ys : List ℕ) → list_eq xs ys ≡ true → xs ≡ ys
list_eq_sound [] [] h = refl
list_eq_sound [] (y ∷ ys) h = absurd (cc)
list_eq_sound (x ∷ xs) [] h = absurd (cc)
list_eq_sound (x ∷ xs) (y ∷ ys) h = grind (arith, list_eq_sound xs ys, ==_iff x y)

pub list_eq-same : (xs : List ℕ) → list_eq xs xs ≡ true
list_eq-same [] = refl
list_eq-same (x ∷ xs) = grind (arith, list_eq-same xs, ==_iff x x)
