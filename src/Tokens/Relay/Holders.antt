-- ===== src/Tokens/Relay/Holders.antt =====
-- The candidates of the scan, told by the transfer events alone.
use rayls_sovereign_tests_au.Shared.{
  ℕ, true, false, List, [], ◌∷◌, ◌≡◌, ◌≢◌, refl, sym, ap, ◌∙◌, ◌↔◌, inl, inr, Bool-cases, AnyOf,
  subst,
}
use rayls_sovereign_tests_au.Shared.Text.{list_eq}
use rayls_sovereign_tests_au.Tokens.{zero_address}
use rayls_sovereign_tests_au.Tokens.Relay.{
  TransferEvent, lower, newest_first, holder_of, candidates,
}
use rayls_sovereign_tests_au.Shared.Text.Search.{list_eq_sound, list_eq-same}
use rayls_sovereign_tests_au.Tokens.Relay.Scan.{
  AnyOf-newest_first, MovesTo, Holds, holder_of-cases, holder_of-holder, scanned-Kept, Kept-scanned,
  AreDistinct, scanned-AreDistinct,
}

-- The account is neither the zero address nor the vault.
abbrev pub IsOutside : (vault : List ℕ) → List ℕ → Type 0
IsOutside vault s = (s ≢ lower zero_address) × (s ≢ vault)

list_eq-apart : (xs ys : List ℕ) → xs ≢ ys → list_eq xs ys ≡ false
list_eq-apart xs ys h = elim (Bool-cases (list_eq xs ys)) [
  | inl same ↦ absurd (h (list_eq_sound xs ys same))
  | inr apart ↦ apart
]

apart-list_eq : (xs ys : List ℕ) → list_eq xs ys ≡ false → xs ≢ ys
apart-list_eq xs ys h same =
    let one : list_eq xs ys ≡ true = subst (λ l. list_eq xs l ≡ true) same (list_eq-same xs) in
    absurd (cc)

module _ (nft_id : ℕ) (vault : List ℕ) where
  Holds-moved :
      (s : List ℕ) (e : TransferEvent)
      → Holds nft_id vault s e
      → IsOutside vault s × MovesTo nft_id s e
  Holds-moved s e (c, named, same) =
      let (t, at, id, to, zero_apart, vault_apart) =
        holder_of-cases nft_id vault e.transfer c named in
      (
        (
          apart-list_eq s (lower zero_address)
              (subst (λ l. list_eq l (lower zero_address) ≡ false) same zero_apart),
          apart-list_eq s vault (subst (λ l. list_eq l vault ≡ false) same vault_apart),
        ),
        (t, at, id, ap lower to ∙ same),
      )

  moved-Holds :
      (s : List ℕ) (e : TransferEvent)
      → IsOutside vault s
      → MovesTo nft_id s e
      → Holds nft_id vault s e
  moved-Holds s e (zero_apart, vault_apart) (t, at, id, same) = (
    t.to,
    ap (holder_of nft_id vault) at
        ∙ holder_of-holder nft_id vault t id
            (list_eq-apart (lower t.to) (lower zero_address) (λ e. zero_apart (sym same ∙ e)))
            (list_eq-apart (lower t.to) vault (λ e. vault_apart (sym same ∙ e))),
    same,
  )

  all_held :
      (s : List ℕ) (es : List TransferEvent)
      → AnyOf (Holds nft_id vault s) es
      → IsOutside vault s × AnyOf (MovesTo nft_id s) es
  all_held s [] h = absurd h
  all_held s (e ∷ es) (inl h) = let (outside, moves) = Holds-moved s e h in (outside, inl moves)
  all_held s (e ∷ es) (inr h) = let (outside, moves) = all_held s es h in (outside, inr moves)

  moved_held :
      (s : List ℕ) (es : List TransferEvent)
      → IsOutside vault s
      → AnyOf (MovesTo nft_id s) es
      → AnyOf (Holds nft_id vault s) es
  moved_held s [] outside h = absurd h
  moved_held s (e ∷ es) outside (inl h) = inl (moved-Holds s e outside h)
  moved_held s (e ∷ es) outside (inr h) = inr (moved_held s es outside h)

  -- The candidates are different accounts, up to the case of their letters. They are, up to that case,
  -- exactly the accounts other than the zero address and the vault that some transfer event of the
  -- token's id names as its receiver.
  pub candidates-exact :
      (events : List TransferEvent)
      → AreDistinct (candidates nft_id vault events)
        × ((s : List ℕ)
            → AnyOf (λ c. lower c ≡ s) (candidates nft_id vault events)
              ↔ (IsOutside vault s × AnyOf (MovesTo nft_id s) events))
  unfolding candidates
  candidates-exact events = (
    scanned-AreDistinct nft_id vault [] (newest_first events),
    (λ s. (
      (λ h.
          let (_, held) = scanned-Kept nft_id vault s [] (newest_first events) h in
          let (outside, moves) = all_held s (newest_first events) held in
          (outside, (AnyOf-newest_first (MovesTo nft_id s) events).0 moves)),
      (λ h. Kept-scanned nft_id vault s [] (newest_first events) (
        refl,
        moved_held s (newest_first events) h.0
            ((AnyOf-newest_first (MovesTo nft_id s) events).1 h.1),
      )),
    )),
  )
