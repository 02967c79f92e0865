-- ===== src/Errors/Laws.antt =====
-- What the classification of errors guarantees. The search for a pattern is read as: the text is some
-- prefix, the pattern and some rest.
use rayls_sovereign_tests_au.Shared.{
  String, none, List, [], ◌∷◌, Bool, true, false, ◌||◌, ◌≡◌, ◌≢◌, refl, any, Bool-cases, ◌↔◌, ◌⊎◌,
  inl, inr, arith,
}
use Prim.Native.Nat.{ℕ}
use rayls_sovereign_tests_au.Shared.{if◌then◌else◌}
use rayls_sovereign_tests_au.Shared.Text.{codes, includes}
use rayls_sovereign_tests_au.Shared.Text.Search.{Infix, includes_iff}
use rayls_sovereign_tests_au.Js.{JsError}
use rayls_sovereign_tests_au.Errors.{
  is_transient, transient_reason, is_nonce_error, is_transient_rpc_error, matches, error_text,
  nonce_patterns, replacement_patterns, known_patterns, transient_patterns, is_nonce_instance,
  is_transient_instance, has_code,
}

-- A reason is reported exactly for the errors that are retried.
pub transient_reason-is_transient :
    (e : JsError) → (is_transient e ≡ true) ↔ (transient_reason e ≢ none)
unfolding is_transient transient_reason
transient_reason-is_transient e = (ground arith, ground arith)

-- One of the patterns stands somewhere in the text.
abbrev pub AnyInfix : List String → List ℕ → Type 0
AnyInfix [] t = ⊥
AnyInfix (p ∷ ps) t = Infix (codes p) t ⊎ AnyInfix ps t

any-includes→AnyInfix :
    (ps : List String) (t : List ℕ) → any (λ p. includes (codes p) t) ps ≡ true → AnyInfix ps t
any-includes→AnyInfix [] t h = cc
any-includes→AnyInfix (p ∷ ps) t h = elim (Bool-cases (includes (codes p) t)) [
  | inl here ↦ inl ((includes_iff (codes p) t).0 here)
  | inr later ↦ inr (any-includes→AnyInfix ps t (ground arith))
]

AnyInfix→any-includes :
    (ps : List String) (t : List ℕ) → AnyInfix ps t → any (λ p. includes (codes p) t) ps ≡ true
AnyInfix→any-includes [] t h = absurd h
AnyInfix→any-includes (p ∷ ps) t (inl here) = rw ((includes_iff (codes p) t).1 here)
AnyInfix→any-includes (p ∷ ps) t (inr later) = ground (arith, AnyInfix→any-includes ps t later)

matches_iff : (ps : List String) (e : JsError) → (matches ps e ≡ true) ↔ AnyInfix ps (error_text e)
unfolding matches
matches_iff ps e =
    (any-includes→AnyInfix ps (error_text e), AnyInfix→any-includes ps (error_text e))

-- A Boolean test in front of an equivalence, as in `if (test) return true; return rest;`.
if_true_or_iff :
    (test rest : Bool) {P : Type 0}
    → ((rest ≡ true) ↔ P)
    → ((if test then true else rest) ≡ true) ↔ ((test ≡ true) ⊎ P)
if_true_or_iff true rest h = ((λ _. inl refl), (λ _. refl))
if_true_or_iff false rest h = ((λ e. inr (h.0 e)), elim [ inl e ↦ cc | inr p ↦ h.1 p ])

or_iff :
    (a b : Bool) {P Q : Type 0} → ((a ≡ true) ↔ P) → ((b ≡ true) ↔ Q) → ((a || b) ≡ true) ↔ (P ⊎ Q)
or_iff true b h k = ((λ _. inl (h.0 refl)), (λ _. refl))
or_iff false b h k = ((λ e. inr (k.0 e)), elim [ inl p ↦ absurd (cc (h.1 p)) | inr q ↦ k.1 q ])

or_false_iff : (a : Bool) {P : Type 0} → ((a ≡ true) ↔ P) → ((a || false) ≡ true) ↔ P
or_false_iff true h = h
or_false_iff false h = h

-- What makes an error a nonce error: its class, its code, or a pattern of any of the three classes
-- somewhere in its text, whatever the case of the letters.
abbrev pub IsNonceCondition : JsError → Type 0
IsNonceCondition e =
    (is_nonce_instance e.kind ≡ true)
    ⊎ ((has_code "TRANSACTION_REPLACED" e ≡ true)
        ⊎ (AnyInfix replacement_patterns (error_text e)
            ⊎ (AnyInfix known_patterns (error_text e) ⊎ AnyInfix nonce_patterns (error_text e))))

-- An error is classed as a nonce error exactly if its class is a nonce class, its code is that of a
-- replaced transaction, or a pattern of one of the three classes stands anywhere in its text.
pub is_nonce_error_iff : (e : JsError) → (is_nonce_error e ≡ true) ↔ IsNonceCondition e
unfolding is_nonce_error
is_nonce_error_iff e = if_true_or_iff (is_nonce_instance e.kind) _ (
    if_true_or_iff (has_code "TRANSACTION_REPLACED" e) _ (
      or_iff (matches replacement_patterns e) _ (matches_iff replacement_patterns e) (
        or_iff (matches known_patterns e) _ (matches_iff known_patterns e)
          (or_false_iff (matches nonce_patterns e) (matches_iff nonce_patterns e)))))

-- An error is classed as a transient RPC error exactly if its class is that class, its code is
-- BAD_DATA, or a pattern of the class stands anywhere in its text.
pub is_transient_rpc_error_iff :
    (e : JsError)
    → (is_transient_rpc_error e ≡ true) ↔ (
        (is_transient_instance e.kind ≡ true)
        ⊎ (has_code "BAD_DATA" e ≡ true)
        ⊎ AnyInfix transient_patterns (error_text e))
unfolding is_transient_rpc_error
is_transient_rpc_error_iff e =
    if_true_or_iff (is_transient_instance e.kind) _
      (if_true_or_iff (has_code "BAD_DATA" e) _ (matches_iff transient_patterns e))
