-- ===== src/Messages/Laws.antt =====
-- Which message id `getMessageId` of src/utils/common.ts reads from a receipt.
use rayls_sovereign_tests_au.Shared.{
  String, Bool, Option, none, some, List, [], ◌∷◌, ◌++◌, true, false, ◌≡◌, ◌↔◌, ◌⊎◌, inl, inr, refl,
  ap, ◌∙◌, sym, subst, ◌≢◌, Bool-cases, AllOf,
}
use rayls_sovereign_tests_au.Js.{JsError, Result, error, ok, err}
use rayls_sovereign_tests_au.Transactions.{Log}
use rayls_sovereign_tests_au.Messages.{
  ParsedLog, from_endpoint, dispatched, id_of, message_id_text, not_found, with_prefix,
  find_message_id, get_message_id,
}
use rayls_sovereign_tests_au.Messages.Reading.{
  SameAddress, Dispatched, IdRead, from_endpoint→SameAddress, SameAddress→from_endpoint,
  dispatched→Dispatched, Dispatched→dispatched, message_id_text→IdRead, IdRead→message_id_text,
}
use text.Mathlib.Text.{◌==◌ as str_eq}

is_message : String → Result String → Bool
is_message m (ok id) = false
is_message m (err e) = elim e.message [ none ↦ false | some n ↦ str_eq n m ]

not_found_apart : not_found ≢ err (error "receipt has no logs")
unfolding is_message
not_found_apart h = absurd (true_false (ap (is_message "receipt has no logs") (sym h)))
  where
    true_false : true ≡ false → ⊥
    true_false e = absurd (cc)

ok_apart : {e : JsError} (id : String) → ok id ≢ err e
ok_apart id h = absurd (cc)

module _ (parse_log : Log → Option ParsedLog) (endpoint : String) where
  -- A log of the endpoint that the interface parses as this `MessageDispatched`.
  abbrev pub IsDispatch : Log → ParsedLog → Type 0
  IsDispatch l p = SameAddress endpoint l.address × Dispatched (parse_log l) p

  abbrev pub NoDispatch : Log → Type 0
  NoDispatch l = ¬ ((p : ParsedLog) × IsDispatch l p)

  -- The first dispatch of the endpoint among the logs has the id.
  abbrev pub FirstDispatch : List Log → String → Type 0
  FirstDispatch logs id =
      (before : List Log) × (l : Log) × (after : List Log) × (p : ParsedLog) × (logs
        ≡ before ++ l ∷ after)
      × AllOf NoDispatch before
      × IsDispatch l p
      × IdRead p.message_id id

  -- What the two tests of the loop say of the log.
  IsDispatch-cases :
      (l : Log)
      → ((p : ParsedLog) × IsDispatch l p)
        ⊎ (NoDispatch l × ((from_endpoint endpoint l ≡ false) ⊎ (dispatched (parse_log l) ≡ false)))
  IsDispatch-cases l = elim (Bool-cases (from_endpoint endpoint l)) [
    | inr away ↦
        inr ((λ h. absurd (let e = SameAddress→from_endpoint endpoint l h.1.0 in cc)), inl away)
    | inl here ↦ elim (Bool-cases (dispatched (parse_log l))) [
      | inl found ↦
          (let (p, d) = dispatched→Dispatched (parse_log l) found in
            inl (p, (from_endpoint→SameAddress endpoint l here, d)))
      | inr other ↦
          inr
            ((λ h. absurd (let e = Dispatched→dispatched (parse_log l) h.0 h.1.1 in cc)), inr other)
    ]
  ]

  find_message_id-skip :
      (l : Log) (logs : List Log)
      → (from_endpoint endpoint l ≡ false) ⊎ (dispatched (parse_log l) ≡ false)
      → find_message_id parse_log endpoint (l ∷ logs) ≡ find_message_id parse_log endpoint logs
  unfolding find_message_id
  find_message_id-skip l logs (inl other) = rw other
  find_message_id-skip l logs (inr other) = elim (Bool-cases (from_endpoint endpoint l)) [
    | inl here ↦ rw here (rw other)
    | inr away ↦ rw away
  ]

  find_message_id-take :
      (l : Log) (p : ParsedLog) (logs : List Log)
      → IsDispatch l p
      → find_message_id parse_log endpoint (l ∷ logs) ≡ message_id_text p.message_id
  unfolding find_message_id
  find_message_id-take l p logs (here, d) =
      let parsed = Dispatched→dispatched (parse_log l) p d in
      rw (SameAddress→from_endpoint endpoint l here)
        (rw parsed (ap (λ o. message_id_text (id_of o)) d.0))

  FirstDispatch-cons :
      (l : Log) (logs : List Log) (id : String)
      → NoDispatch l
      → FirstDispatch logs id
      → FirstDispatch (l ∷ logs) id
  FirstDispatch-cons l logs id skipped (before, k, after, p, same, none_before, found, text) =
      (l ∷ before, k, after, p, ap (λ r. l ∷ r) same, (skipped, none_before), found, text)

  found→FirstDispatch :
      (logs : List Log) (id : String)
      → find_message_id parse_log endpoint logs ≡ ok id
      → FirstDispatch logs id
  unfolding find_message_id
  found→FirstDispatch [] id h = absurd (cc)
  found→FirstDispatch (l ∷ logs) id h = elim (IsDispatch-cases l) [
    | inr (none_here, skipped) ↦
        FirstDispatch-cons l logs id none_here
          (found→FirstDispatch logs id (sym (find_message_id-skip l logs skipped) ∙ h))
    | inl (p, d) ↦ (
      [],
      l,
      logs,
      p,
      refl,
      tt,
      d,
      message_id_text→IdRead p.message_id id (sym (find_message_id-take l p logs d) ∙ h),
    )
  ]

  FirstDispatch→found :
      (before after : List Log) (l : Log) (p : ParsedLog) (id : String)
      → AllOf NoDispatch before
      → IsDispatch l p
      → IdRead p.message_id id
      → find_message_id parse_log endpoint (before ++ l ∷ after) ≡ ok id
  FirstDispatch→found [] after l p id h found text =
      find_message_id-take l p after found ∙ IdRead→message_id_text p.message_id id text
  FirstDispatch→found (k ∷ before) after l p id (none_here, h) found text =
      elim (IsDispatch-cases k) [
        | inl (q, d) ↦ absurd (none_here (q, d))
        | inr (same, skipped) ↦
            find_message_id-skip k (before ++ l ∷ after) skipped
            ∙ FirstDispatch→found before after l p id h found text
      ]

  FirstDispatch→read :
      (logs : List Log) (id : String)
      → FirstDispatch logs id
      → find_message_id parse_log endpoint logs ≡ ok id
  FirstDispatch→read logs id (before, l, after, p, same, none_before, found, text) =
      rw same (FirstDispatch→found before after l p id none_before found text)

  message_id_text-ends :
      (o : Option String)
      → ((id : String) × (message_id_text o ≡ ok id)) ⊎ (message_id_text o ≡ not_found)
  unfolding message_id_text
  message_id_text-ends none = inr refl
  message_id_text-ends (some m) = elim (Bool-cases (str_eq m "")) [
    | inl e ↦ inr (rw e (refl))
    | inr e ↦ inl (with_prefix m, rw e (refl))
  ]

  find_message_id-ends :
      (logs : List Log)
      → ((id : String) × (find_message_id parse_log endpoint logs ≡ ok id))
        ⊎ (find_message_id parse_log endpoint logs ≡ not_found)
  unfolding find_message_id
  find_message_id-ends [] = inr refl
  find_message_id-ends (l ∷ logs) = elim (IsDispatch-cases l) [
    | inl (p, d) ↦ rw (find_message_id-take l p logs d) (message_id_text-ends p.message_id)
    | inr (none_here, skipped) ↦
        rw (find_message_id-skip l logs skipped) (find_message_id-ends logs)
  ]

  found-no_logs :
      (logs : List Log)
      → find_message_id parse_log endpoint logs ≢ err (error "receipt has no logs")
  found-no_logs logs h = elim (find_message_id-ends logs) [
    | inl (id, e) ↦ ok_apart id (sym e ∙ h)
    | inr e ↦ not_found_apart (sym e ∙ h)
  ]

  -- The id that is read from a receipt is that of the first log of the endpoint (its address compared
  -- in small letters) that is parsed as a `MessageDispatched`, with 0x in front if it does not start so,
  -- and no later log is consulted. Without such a log, or if its id is missing or empty, no id is read;
  -- and the error that the receipt has no logs is thrown exactly when they are missing.
  pub get_message_id_iff :
      (receipt_logs : Option (List Log)) (id : String)
      → ((get_message_id parse_log endpoint receipt_logs ≡ ok id)
          ↔ ((logs : List Log) × (receipt_logs ≡ some logs) × FirstDispatch logs id))
        × ((get_message_id parse_log endpoint receipt_logs ≡ err (error "receipt has no logs"))
            ↔ (receipt_logs ≡ none))
  unfolding get_message_id
  get_message_id_iff none id =
      (((λ h. absurd (cc)), (λ h. absurd (let e = h.1 in cc))), ((λ h. refl), (λ h. refl)))
  get_message_id_iff (some logs) id = (
    (
      (λ h. (logs, refl, found→FirstDispatch logs id h)),
      (λ h.
          let same : h.0 ≡ logs = (let e = h.1 in cc) in
          FirstDispatch→read logs id (subst (λ k. FirstDispatch k id) same h.2)),
    ),
    ((λ h. absurd (found-no_logs logs h)), (λ h. absurd (cc))),
  )
