-- ===== src/Shared/Text/Decimal.antt =====
-- Decimal numbers in a text: a printed number is read back, also in front of other text.
use Prim.Native.Char.{code}
use Prim.Native.String
use Prim.Native.String.{String}
use Prim.Native.String.append
use Prim.Native.Nat.{ℕ, zero, suc, ◌+◌, ◌*◌, ◌/◌, ◌%◌, ◌<◌}
use mathlib.Core.Path.{◌≡◌, refl, sym, ap, ◌∙◌}
use mathlib.Core.List.{List, [], ◌∷◌, ◌++◌}
use mathlib.Core.Logic.{inl, inr}
use native.Mathlib.Omega.{arith}
use text.Mathlib.TextLemmas.{append-nil, append_assoc, append_cancel_left}
use rayls_sovereign_tests_au.Shared.Tests.{◌==◌, Bool-cases, ==_iff}
use rayls_sovereign_tests_au.Shared.Text.{◌<>◌, codes, digit_text, decimal_from, show, digits_value}

codes-append : (s t : String) → codes (String.◌++◌ s t) ≡ codes s ++ codes t
codes-append String.[] t = ap codes (append.nil t)
codes-append (String.◌∷◌ c s) t =
    ap codes (append.cons c s t) ∙ ap (λ cs. code c ∷ cs) (codes-append s t)

digit_code : (d : ℕ) → d < 10 → codes (digit_text d) ≡ (48 + d) ∷ []
digit_code zero h = refl
digit_code (suc zero) h = refl
digit_code (suc (suc zero)) h = refl
digit_code (suc (suc (suc zero))) h = refl
digit_code (suc (suc (suc (suc zero)))) h = refl
digit_code (suc (suc (suc (suc (suc zero))))) h = refl
digit_code (suc (suc (suc (suc (suc (suc zero)))))) h = refl
digit_code (suc (suc (suc (suc (suc (suc (suc zero))))))) h = refl
digit_code (suc (suc (suc (suc (suc (suc (suc (suc zero)))))))) h = refl
digit_code (suc (suc (suc (suc (suc (suc (suc (suc (suc zero))))))))) h = refl
digit_code (suc (suc (suc (suc (suc (suc (suc (suc (suc (suc d)))))))))) h = absurd (omega arith)

codes-digit_text :
    (d : ℕ) (s : String) → d < 10 → codes (String.◌++◌ (digit_text d) s) ≡ (48 + d) ∷ codes s
codes-digit_text d s h = codes-append (digit_text d) s ∙ ap (λ cs. cs ++ codes s) (digit_code d h)

-- One digit is read behind the number before it.
digits_value-digit :
    (m d : ℕ) (cs : List ℕ) → d < 10 → digits_value m ((48 + d) ∷ cs) ≡ digits_value (m * 10 + d) cs
unfolding digits_value
digits_value-digit m d cs h = ground arith

digits_value-decimal_from :
    (fuel n : ℕ) (done : String)
    → n < fuel
    → digits_value 0 (codes (decimal_from fuel n done)) ≡ digits_value n (codes done)
unfolding decimal_from
digits_value-decimal_from zero n done h = absurd (omega arith)
digits_value-decimal_from (suc fuel) n done h =
    let shown = String.◌++◌ (digit_text (n % 10)) done in
    let written = codes-digit_text (n % 10) done (omega arith) in
    elim (Bool-cases (n / 10 == 0)) [
      | inl e ↦
          (let small = (==_iff (n / 10) 0).0 e in
            let all : 0 * 10 + n % 10 ≡ n = omega (arith, small) in
            rw e (
              ap (λ cs. digits_value 0 cs) written
              ∙ digits_value-digit 0 (n % 10) (codes done) (omega arith)
              ∙ ap (λ m. digits_value m (codes done)) all))
      | inr e ↦
          (let large : 0 < n / 10 = ground (arith, ==_iff (n / 10) 0) in
            let all : n / 10 * 10 + n % 10 ≡ n = omega arith in
            rw e (
              digits_value-decimal_from fuel (n / 10) shown (omega (arith, large))
              ∙ ap (λ cs. digits_value (n / 10) cs) written
              ∙ digits_value-digit (n / 10) (n % 10) (codes done) (omega arith)
              ∙ ap (λ m. digits_value m (codes done)) all))
    ]

decimal_from-append :
    (fuel n : ℕ) (done s : String)
    → String.◌++◌ (decimal_from fuel n done) s ≡ decimal_from fuel n (String.◌++◌ done s)
unfolding decimal_from
decimal_from-append zero n done s = refl
decimal_from-append (suc fuel) n done s =
    let moved = append_assoc (digit_text (n % 10)) done s in
    elim (Bool-cases (n / 10 == 0)) [
      | inl e ↦ rw e moved
      | inr e ↦ rw e (
          decimal_from-append fuel (n / 10) (String.◌++◌ (digit_text (n % 10)) done) s
          ∙ ap (λ t. decimal_from fuel (n / 10) t) moved)
    ]

-- A number is read back from its print in front of any text, as far as reading the text goes on.
pub digits_value-show :
    (n : ℕ) (s : String) → digits_value 0 (codes (show n <> s)) ≡ digits_value n (codes s)
unfolding ◌<>◌ show
digits_value-show n s =
    ap (λ t. digits_value 0 (codes t))
      (decimal_from-append (suc n) n "" s ∙ ap (λ t. decimal_from (suc n) n t) (append.nil s))
    ∙ digits_value-decimal_from (suc n) n s (omega arith)

digits_value-dash : (n : ℕ) (s : String) → digits_value n (codes ("-" <> s)) ≡ n
unfolding ◌<>◌ digits_value
digits_value-dash n s = rw (codes-append "-" s) (refl)

digits_value-alone : (n : ℕ) → digits_value 0 (codes (show n)) ≡ n
unfolding ◌<>◌ digits_value
digits_value-alone n =
    ap (λ t. digits_value 0 (codes t)) (sym (append-nil (show n))) ∙ digits_value-show n ""

same_behind : (t : String) (r s : ℕ) → t <> "-" <> show r ≡ t <> "-" <> show s → r ≡ s
unfolding ◌<>◌
same_behind t r s e =
    let printed =
      append_cancel_left "-" (show r) (show s)
        (append_cancel_left t ("-" <> show r) ("-" <> show s) e) in
    sym (digits_value-alone r) ∙ ap (λ t. digits_value 0 (codes t)) printed ∙ digits_value-alone s

-- Two numbers that are printed with a dash between them are read back.
pub dashed_injective :
    (i r j s : ℕ) → show i <> "-" <> show r ≡ show j <> "-" <> show s → (i ≡ j) × (r ≡ s)
dashed_injective i r j s h =
    let first : i ≡ j =
      sym (digits_value-show i ("-" <> show r) ∙ digits_value-dash i (show r))
      ∙ ap (λ t. digits_value 0 (codes t)) h
      ∙ digits_value-show j ("-" <> show s)
      ∙ digits_value-dash j (show s) in
    let aligned : show i <> "-" <> show r ≡ show i <> "-" <> show s =
      h ∙ ap (λ k. show k <> "-" <> show s) (sym first) in
    (first, same_behind (show i) r s aligned)
