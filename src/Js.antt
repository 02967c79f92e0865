-- ===== src/Js.antt =====
-- What the source takes from its language: thrown values, and asynchronous code that changes state
-- and may throw. A thrown error keeps the state that the code had reached.
use rayls_sovereign_tests_au.Shared.{ℕ, String, Option, none, some, ◌≡◌, refl, ◌⊎◌, inl, inr}

-- The classes of errors that the source tells apart by `instanceof`, and the value `undefined`, which
-- a `throw` of an unset variable throws.
pub data ErrorKind : Type 0 where
  undefined_value : ErrorKind
  plain_error : ErrorKind
  assertion_error : ErrorKind
  receipt_timeout_error : ErrorKind
  nonce_error : ErrorKind
  replacement_transaction_error : ErrorKind
  known_transaction_error : ErrorKind
  transient_rpc_error : ErrorKind
  backend_error : ErrorKind

-- A thrown value, with the properties that the source reads; `none` is a missing property.
pub record JsError : Type 0 where
  pub kind : ErrorKind
  pub message : Option String
  pub reason : Option String
  pub code : Option String
  pub status : Option ℕ
  pub response_status : Option ℕ
  pub response_data : Option String

abbrev pub undefined_error : JsError
undefined_error = record {
  kind = undefined_value;
  message = none;
  reason = none;
  code = none;
  status = none;
  response_status = none;
  response_data = none;
}

-- `new Error(message)`.
abbrev pub error : String → JsError
error text = record undefined_error { kind = plain_error; message = some text }

-- A failed expectation of the assertion library.
abbrev pub assertion : String → JsError
assertion text = record undefined_error { kind = assertion_error; message = some text }

pub data Result {ℓ} (A : Type ℓ) : Type ℓ where
  ok : A → Result A
  err : JsError → Result A

pub Result-cases {ℓ} :
    {A : Type ℓ} (r : Result A) → ((a : A) × (r ≡ ok a)) ⊎ ((e : JsError) × (r ≡ err e))
Result-cases (ok a) = inl (a, refl)
Result-cases (err e) = inr (e, refl)

-- Asynchronous code over a state.
abbrev pub Exec {ℓ} : Type 0 → Type ℓ → Type ℓ
Exec S A = S → Result A × S

module _ {ℓ} {S : Type 0} {A : Type ℓ} where
  abbrev pub pure : A → Exec S A
  pure a s = (ok a, s)

  abbrev pub throw : JsError → Exec S A
  throw e s = (err e, s)

  abbrev pub state_of : Result A × S → S
  state_of r = r.1

  -- `catch`: the handler runs from the state that the failed code left.
  abbrev pub or_else : Result A × S → (JsError → Exec S A) → Result A × S
  or_else (ok a, s) h = (ok a, s)
  or_else (err e, s) h = h e s

  abbrev pub catch : Exec S A → (JsError → Exec S A) → Exec S A
  catch m h s = or_else (m s) h

module _ {ℓ κ} {S : Type 0} {A : Type ℓ} {B : Type κ} where
  abbrev pub and_then : Result A × S → (A → Exec S B) → Result B × S
  and_then (ok a, s) f = f a s
  and_then (err e, s) f = (err e, s)

  infixl 10 ◌>>=◌ ◌>>◌
  abbrev pub ◌>>=◌ : Exec S A → (A → Exec S B) → Exec S B
  ◌>>=◌ m f s = and_then (m s) f

  abbrev pub ◌>>◌ : Exec S A → Exec S B → Exec S B
  ◌>>◌ m k s = and_then (m s) (λ _. k)

module _ {S : Type 0} where
  -- Code that reads the state, or changes it and cannot fail.
  abbrev pub gets {ℓ} : {A : Type ℓ} → (S → A) → Exec S A
  gets f s = (ok (f s), s)

  abbrev pub modify : (S → S) → Exec S (Unit {0})
  modify f s = (ok tt, f s)

-- Inversion of a bind that returned.
pub and_then-ok {ℓ κ} :
    {S : Type 0} {A : Type ℓ} {B : Type κ} (p : Result A × S) (f : A → Exec S B) (b : B) (t : S)
    → and_then p f ≡ (ok b, t)
    → (a : A) × (s : S) × (p ≡ (ok a, s)) × (f a s ≡ (ok b, t))
and_then-ok (ok a, s) f b t h = (a, s, refl, h)
and_then-ok (err e, s) f b t h = absurd (cc)
