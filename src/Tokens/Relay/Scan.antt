-- ===== src/Tokens/Relay/Scan.antt =====
-- Which accounts the scan of the transfer events keeps: the possible holders, each once.
use rayls_sovereign_tests_au.Shared.{
  ℕ, String, Option, none, some, true, false, List, [], ◌∷◌, ◌++◌, ◌≡◌, refl, sym, ap, ◌∙◌, ◌↔◌,
  ◌⊎◌, inl, inr, Bool-cases, arith, AnyOf, subst,
}
use rayls_sovereign_tests_au.Shared.Text.{list_eq}
use rayls_sovereign_tests_au.Shared.Text.Search.{list_eq_sound, list_eq-same}
use rayls_sovereign_tests_au.Tokens.{zero_address}
use rayls_sovereign_tests_au.Tokens.Relay.{
  Transfer, TransferEvent, lower, among, newest_first, holder_of, unseen, scan,
}

-- Two accounts are the same up to the case of their letters.
abbrev pub SameAccount : String → String → Type 0
SameAccount a b = lower a ≡ lower b

among-snoc :
    (s l : List ℕ) (seen : List (List ℕ))
    → (among s (l ∷ seen) ≡ false) ↔ ((list_eq s l ≡ false) × (among s seen ≡ false))
among-snoc s l seen = ((λ h. ground arith), (λ h. ground arith))

unseen-cases :
    (seen : List (List ℕ)) (h : Option String)
    → ((unseen seen h ≡ none) × ((c : String) → h ≡ some c → among (lower c) seen ≡ true))
      ⊎ ((c : String) × (h ≡ some c) × (among (lower c) seen ≡ false) × (unseen seen h ≡ some c))
unseen-cases seen none = inl (refl, (λ c e. absurd (cc)))
unseen-cases seen (some c) = elim (Bool-cases (among (lower c) seen)) [
  | inl known ↦ inl (rw known (refl), (λ d e. subst_seen d e known))
  | inr new ↦ inr (c, refl, new, rw new (refl))
]
  where
    subst_seen :
        (d : String) → some c ≡ some d → among (lower c) seen ≡ true → among (lower d) seen ≡ true
    subst_seen d e known = cc

module _ {A : Type 0} (P : A → Type 0) where
  AnyOf-snoc : (xs : List A) (x : A) → AnyOf P (xs ++ x ∷ []) ↔ (P x ⊎ AnyOf P xs)
  AnyOf-snoc [] x = ((λ h. h), (λ h. h))
  AnyOf-snoc (y ∷ xs) x = (
    (λ h. elim h [
      | inl at ↦ inr (inl at)
      | inr later ↦ elim ((AnyOf-snoc xs x).0 later) [ inl at ↦ inl at | inr back ↦ inr (inr back) ]
    ]),
    (λ h. elim h [
      | inl at ↦ inr ((AnyOf-snoc xs x).1 (inl at))
      | inr front ↦ elim front [ inl at ↦ inl at | inr back ↦ inr ((AnyOf-snoc xs x).1 (inr back)) ]
    ]),
  )

  pub AnyOf-newest_first : (xs : List A) → AnyOf P (newest_first xs) ↔ AnyOf P xs
  AnyOf-newest_first [] = ((λ h. h), (λ h. h))
  AnyOf-newest_first (x ∷ xs) = (
    (λ h. elim ((AnyOf-snoc (newest_first xs) x).0 h) [
      | inl at ↦ inl at
      | inr later ↦ inr ((AnyOf-newest_first xs).0 later)
    ]),
    (λ h.
        (AnyOf-snoc (newest_first xs) x).1
          (elim h [ inl at ↦ inl at | inr later ↦ inr ((AnyOf-newest_first xs).1 later) ])),
  )

-- The event moves the token to an account of the lower-case spelling `s`.
abbrev pub MovesTo : ℕ → List ℕ → TransferEvent → Type 0
MovesTo nft_id s e = (t : Transfer) × (e.transfer ≡ some t) × (t.id ≡ nft_id) × (lower t.to ≡ s)

-- No account is kept twice.
abbrev pub AreDistinct : List String → Type 0
AreDistinct [] = Unit
AreDistinct (c ∷ cs) = (AnyOf (λ d. lower d ≡ lower c) cs → ⊥) × AreDistinct cs

module _ (nft_id : ℕ) (vault : List ℕ) where
  -- The event names such an account as a possible holder.
  abbrev pub Holds : List ℕ → TransferEvent → Type 0
  Holds s e = (c : String) × (holder_of nft_id vault e.transfer ≡ some c) × (lower c ≡ s)

  pub holder_of-cases :
      (o : Option Transfer) (c : String)
      → holder_of nft_id vault o ≡ some c
      → (t : Transfer) × (o ≡ some t)
        × (t.id ≡ nft_id)
        × (t.to ≡ c)
        × (list_eq (lower c) (lower zero_address) ≡ false)
        × (list_eq (lower c) vault ≡ false)
  holder_of-cases none c h = absurd (cc)
  holder_of-cases (some t) c h = (t, refl, ground arith, ground arith, ground arith, ground arith)

  pub holder_of-holder :
      (t : Transfer)
      → t.id ≡ nft_id
      → list_eq (lower t.to) (lower zero_address) ≡ false
      → list_eq (lower t.to) vault ≡ false
      → holder_of nft_id vault (some t) ≡ some t.to
  holder_of-holder t i z v = ground arith

  scan-skip :
      (seen : List (List ℕ)) (e : TransferEvent) (es : List TransferEvent)
      → unseen seen (holder_of nft_id vault e.transfer) ≡ none
      → scan nft_id vault seen (e ∷ es) ≡ scan nft_id vault seen es
  unfolding scan
  scan-skip seen e es h = rw (scan, h) (refl)

  scan-take :
      (seen : List (List ℕ)) (e : TransferEvent) (es : List TransferEvent) (c : String)
      → unseen seen (holder_of nft_id vault e.transfer) ≡ some c
      → scan nft_id vault seen (e ∷ es) ≡ c ∷ scan nft_id vault (lower c ∷ seen) es
  unfolding scan
  scan-take seen e es c h = rw (scan, h) (refl)

  -- The spellings that the scan keeps are those of the possible holders that were not seen before.
  abbrev pub Found : List ℕ → List (List ℕ) → List TransferEvent → Type 0
  Found s seen es = AnyOf (λ c. lower c ≡ s) (scan nft_id vault seen es)

  abbrev pub Kept : List ℕ → List (List ℕ) → List TransferEvent → Type 0
  Kept s seen es = (among s seen ≡ false) × AnyOf (Holds s) es

  taken-Kept :
      (s : List ℕ) (seen : List (List ℕ)) (e : TransferEvent) (es : List TransferEvent) (c : String)
      → holder_of nft_id vault e.transfer ≡ some c
      → among (lower c) seen ≡ false
      → (Found s (lower c ∷ seen) es → Kept s (lower c ∷ seen) es)
      → AnyOf (λ c. lower c ≡ s) (c ∷ scan nft_id vault (lower c ∷ seen) es)
      → Kept s seen (e ∷ es)
  taken-Kept s seen e es c named new rest (inl same) =
      (subst (λ l. among l seen ≡ false) same new, inl (c, named, same))
  taken-Kept s seen e es c named new rest (inr later) =
      let (fresh, held) = rest later in (((among-snoc s (lower c) seen).0 fresh).1, inr held)

  pub scanned-Kept :
      (s : List ℕ) (seen : List (List ℕ)) (es : List TransferEvent)
      → Found s seen es
      → Kept s seen es
  unfolding scan
  scanned-Kept s seen [] h = absurd h
  scanned-Kept s seen (e ∷ es) h = elim (unseen-cases seen (holder_of nft_id vault e.transfer)) [
    | inl (skip, _) ↦
        (let (new, held) =
            scanned-Kept s seen es
              (subst (AnyOf (λ c. lower c ≡ s)) (scan-skip seen e es skip) h) in
          (new, inr held))
    | inr (c, named, new, take) ↦
        taken-Kept s seen e es c named new (scanned-Kept s (lower c ∷ seen) es)
          (subst (AnyOf (λ c. lower c ≡ s)) (scan-take seen e es c take) h)
  ]

  skipped-Found :
      (s : List ℕ) (seen : List (List ℕ)) (e : TransferEvent) (es : List TransferEvent)
      → among s seen ≡ false
      → ((c : String) → holder_of nft_id vault e.transfer ≡ some c → among (lower c) seen ≡ true)
      → (AnyOf (Holds s) es → Found s seen es)
      → AnyOf (Holds s) (e ∷ es)
      → Found s seen es
  skipped-Found s seen e es new known rest (inl (c, named, same)) =
      let twice : among s seen ≡ true = subst (λ l. among l seen ≡ true) same (known c named) in
      absurd (cc)
  skipped-Found s seen e es new known rest (inr later) = rest later

  taken-Found :
      (s : List ℕ) (seen : List (List ℕ)) (e : TransferEvent) (es : List TransferEvent) (c : String)
      → among s seen ≡ false
      → holder_of nft_id vault e.transfer ≡ some c
      → (Kept s (lower c ∷ seen) es → Found s (lower c ∷ seen) es)
      → AnyOf (Holds s) (e ∷ es)
      → AnyOf (λ c. lower c ≡ s) (c ∷ scan nft_id vault (lower c ∷ seen) es)
  taken-Found s seen e es c new named rest (inl (d, named', same)) =
      let one : d ≡ c = cc in inl (ap lower (sym one) ∙ same)
  taken-Found s seen e es c new named rest (inr later) = elim (Bool-cases (list_eq s (lower c))) [
    | inl here ↦ inl (sym (list_eq_sound s (lower c) here))
    | inr apart ↦ inr (rest ((among-snoc s (lower c) seen).1 (apart, new), later))
  ]

  pub Kept-scanned :
      (s : List ℕ) (seen : List (List ℕ)) (es : List TransferEvent)
      → Kept s seen es
      → Found s seen es
  Kept-scanned s seen [] (new, held) = absurd held
  Kept-scanned s seen (e ∷ es) (new, held) =
      elim (unseen-cases seen (holder_of nft_id vault e.transfer)) [
        | inl (skip, known) ↦ subst (AnyOf (λ c. lower c ≡ s)) (sym (scan-skip seen e es skip)) (
            skipped-Found s seen e es new known (λ later. Kept-scanned s seen es (new, later)) held)
        | inr (c, named, _, take) ↦
            subst (AnyOf (λ c. lower c ≡ s)) (sym (scan-take seen e es c take))
              (taken-Found s seen e es c new named (Kept-scanned s (lower c ∷ seen) es) held)
      ]

  pub scanned-AreDistinct :
      (seen : List (List ℕ)) (es : List TransferEvent) → AreDistinct (scan nft_id vault seen es)
  unfolding scan
  scanned-AreDistinct seen [] = tt
  scanned-AreDistinct seen (e ∷ es) = elim (unseen-cases seen (holder_of nft_id vault e.transfer)) [
    | inl (skip, _) ↦
        subst AreDistinct (sym (scan-skip seen e es skip)) (scanned-AreDistinct seen es)
    | inr (c, _, _, take) ↦ subst AreDistinct (sym (scan-take seen e es c take)) (
      (λ again.
          let (fresh, _) = scanned-Kept (lower c) (lower c ∷ seen) es again in
          let apart = ((among-snoc (lower c) (lower c) seen).0 fresh).0 in
          let same = list_eq-same (lower c) in absurd (cc)),
      scanned-AreDistinct (lower c ∷ seen) es,
    )
  ]
