-- ===== src/Messages/Reading.antt =====
-- What the tests of `getMessageId` of src/utils/common.ts say of a log, apart from how they are made.
use rayls_sovereign_tests_au.Shared.{
  String, Option, none, some, [], true, ◌≡◌, ◌≢◌, ◌⊎◌, inl, inr, refl, ap, sym, subst, Bool-cases,
}
use rayls_sovereign_tests_au.Shared.Text.{◌<>◌, codes, to_lower, is_prefix, list_eq}
use rayls_sovereign_tests_au.Shared.Text.Search.{
  Prefix, is_prefix→Prefix, no_Prefix, list_eq_sound, list_eq-same,
}
use rayls_sovereign_tests_au.Js.{ok}
use rayls_sovereign_tests_au.Transactions.{Log}
use rayls_sovereign_tests_au.Messages.{
  ParsedLog, from_endpoint, dispatched, message_id_text, with_prefix,
}
use text.Mathlib.Text.{◌==◌ as str_eq}
use text.Mathlib.TextEquality.{eq_iff}

-- The address is that of the endpoint in small letters; a missing one is the empty text.
abbrev pub SameAddress : (endpoint : String) → Option String → Type 0
SameAddress endpoint none = to_lower (codes endpoint) ≡ []
SameAddress endpoint (some a) = to_lower (codes a) ≡ to_lower (codes endpoint)

-- The log is read as a `MessageDispatched`.
abbrev pub Dispatched : Option ParsedLog → ParsedLog → Type 0
Dispatched o p = (o ≡ some p) × (p.name ≡ "MessageDispatched")

-- The text with 0x in front, if it does not start so.
abbrev pub Prefixed : String → String → Type 0
Prefixed m id =
    (Prefix (codes "0x") (codes m) × (id ≡ m))
    ⊎ (¬ Prefix (codes "0x") (codes m) × (id ≡ "0x" <> m))

-- The id that is read from the event's argument: one that is there and is not empty.
abbrev pub IdRead : Option String → String → Type 0
IdRead o id = (m : String) × (o ≡ some m) × (m ≢ "") × Prefixed m id

pub from_endpoint→SameAddress :
    (endpoint : String) (l : Log) → from_endpoint endpoint l ≡ true → SameAddress endpoint l.address
from_endpoint→SameAddress endpoint l = go (l.address)
  where
    go :
        (a : Option String)
        → (elim a [
          | none ↦ list_eq [] (to_lower (codes endpoint))
          | some a ↦ list_eq (to_lower (codes a)) (to_lower (codes endpoint))
        ])
          ≡ true
        → SameAddress endpoint a
    go none h = sym (list_eq_sound _ _ h)
    go (some a) h = list_eq_sound _ _ h

pub SameAddress→from_endpoint :
    (endpoint : String) (l : Log) → SameAddress endpoint l.address → from_endpoint endpoint l ≡ true
SameAddress→from_endpoint endpoint l = go (l.address)
  where
    go :
        (a : Option String)
        → SameAddress endpoint a
        → (elim a [
          | none ↦ list_eq [] (to_lower (codes endpoint))
          | some a ↦ list_eq (to_lower (codes a)) (to_lower (codes endpoint))
        ])
          ≡ true
    go none h = rw h (refl)
    go (some a) h = rw h (list_eq-same (to_lower (codes endpoint)))

pub dispatched→Dispatched :
    (o : Option ParsedLog) → dispatched o ≡ true → (p : ParsedLog) × Dispatched o p
dispatched→Dispatched none h = absurd (cc)
dispatched→Dispatched (some p) h = (p, (refl, (eq_iff p.name "MessageDispatched").0 h))

pub Dispatched→dispatched :
    (o : Option ParsedLog) (p : ParsedLog) → Dispatched o p → dispatched o ≡ true
Dispatched→dispatched o p (e, named) = rw e ((eq_iff p.name "MessageDispatched").1 named)

Prefixed-with_prefix : (m : String) → Prefixed m (with_prefix m)
Prefixed-with_prefix m = elim (Bool-cases (is_prefix (codes "0x") (codes m))) [
  | inl e ↦ inl (is_prefix→Prefix (codes "0x") (codes m) e, rw e (refl))
  | inr e ↦ inr (no_Prefix (codes "0x") (codes m) e, rw e (refl))
]

Prefixed→with_prefix : (m id : String) → Prefixed m id → with_prefix m ≡ id
Prefixed→with_prefix m id pre = elim (Bool-cases (is_prefix (codes "0x") (codes m))) [
  | inl e ↦ elim pre [
    | inl (there, same) ↦ rw e (sym same)
    | inr (missing, same) ↦ absurd (missing (is_prefix→Prefix (codes "0x") (codes m) e))
  ]
  | inr e ↦ elim pre [
    | inl (there, same) ↦ absurd (no_Prefix (codes "0x") (codes m) e there)
    | inr (missing, same) ↦ rw e (sym same)
  ]
]

pub message_id_text→IdRead :
    (o : Option String) (id : String) → message_id_text o ≡ ok id → IdRead o id
unfolding message_id_text
message_id_text→IdRead none id h = absurd (cc)
message_id_text→IdRead (some m) id h = elim (Bool-cases (str_eq m "")) [
  | inl e ↦ absurd (let h' = rw e at h in cc)
  | inr e ↦ (
    m,
    refl,
    (λ same. absurd (let e' = (eq_iff m "").1 same in cc)),
    (let h' = rw e at h in
        let same : with_prefix m ≡ id = cc in subst (Prefixed m) same (Prefixed-with_prefix m)),
  )
]

pub IdRead→message_id_text :
    (o : Option String) (id : String) → IdRead o id → message_id_text o ≡ ok id
unfolding message_id_text
IdRead→message_id_text o id (m, e, filled, pre) = rw e (elim (Bool-cases (str_eq m "")) [
  | inl empty ↦ absurd (filled ((eq_iff m "").0 empty))
  | inr f ↦ rw f (ap ok (Prefixed→with_prefix m id pre))
])
