-- ===== src/Runner/Queue/Reports.antt =====
-- The reports of the parallel phase of scripts/runners/base-parallel-runner.js: a child's report is
-- named by its slot and the number of its run there.
use rayls_sovereign_tests_au.Shared.{
  subst, ℕ, suc, ◌≤◌, ◌<◌, Option, List, [], ◌∷◌, ◌≡◌, ◌≢◌, refl, sym, ap, ◌∙◌, ◌⊎◌, inl, inr,
  arith, AllOf, AllOf-map,
}
use native.Mathlib.Decide.{ℕ_discrete}
use rayls_sovereign_tests_au.Shared.Slots.{set}
use rayls_sovereign_tests_au.Shared.Text.{◌<>◌, show}
use rayls_sovereign_tests_au.Shared.Text.Decimal.{dashed_injective}
use rayls_sovereign_tests_au.Runner.Queue.{
  Plan, Queue, Slot, Child, waiting, running, finished, Reach, pull, leave, start_file, close,
  completed, failed, child_of,
}
use rayls_sovereign_tests_au.Runner.Queue.Rules.{pull_rule, close_rule, reach_rule, advance}
use rayls_sovereign_tests_au.Runner.Queue.Accounts.{set-same, set-other}

-- The reports of two children are not the same file.
abbrev pub Apart : Child → Child → Type 0
Apart c d = c.report_suffix ≢ d.report_suffix

abbrev pub Distinct : List Child → Type 0
Distinct [] = Unit
Distinct (c ∷ cs) = AllOf (Apart c) cs × Distinct cs

-- The suffix is made of the slot and the run's number there.
abbrev Suffixed : Child → Type 0
Suffixed c = c.report_suffix ≡ show c.slot_id <> "-" <> show c.run_index

abbrev Renumbered : Child → Child → Type 0
Renumbered c d = (c.slot_id ≢ d.slot_id) ⊎ (c.run_index ≢ d.run_index)

abbrev AllRenumbered : List Child → Type 0
AllRenumbered [] = Unit
AllRenumbered (c ∷ cs) = AllOf (Renumbered c) cs × AllRenumbered cs

Renumbered→Apart : (c d : Child) → Suffixed c → Suffixed d → Renumbered c d → Apart c d
Renumbered→Apart c d of_c of_d differ same =
    let (slots, runs) =
      dashed_injective c.slot_id c.run_index d.slot_id d.run_index (sym of_c ∙ same ∙ of_d) in
    elim differ [ inl other ↦ other slots | inr other ↦ other runs ]

AllOf-Apart :
    (c : Child) (cs : List Child)
    → Suffixed c
    → AllOf Suffixed cs
    → AllOf (Renumbered c) cs
    → AllOf (Apart c) cs
AllOf-Apart c [] of_c of_cs differ = tt
AllOf-Apart c (d ∷ cs) of_c of_cs differ =
    (Renumbered→Apart c d of_c of_cs.0 differ.0, AllOf-Apart c cs of_c of_cs.1 differ.1)

AllRenumbered→Distinct : (cs : List Child) → AllOf Suffixed cs → AllRenumbered cs → Distinct cs
AllRenumbered→Distinct [] of_cs differ = tt
AllRenumbered→Distinct (c ∷ cs) of_cs differ =
    (AllOf-Apart c cs of_cs.0 of_cs.1 differ.0, AllRenumbered→Distinct cs of_cs.1 differ.1)

-- How far a slot's runs have come.
abbrev Bounded : Slot → ℕ → Type 0
Bounded waiting n = ⊥
Bounded (running r k) n = n ≤ r
Bounded finished n = Unit

abbrev Past : Queue → Child → Type 0
Past q c = Bounded (q.slots c.slot_id) c.run_index

-- The runs of the slot `i` are before its run `r`.
abbrev PastBut : (i r : ℕ) → Queue → Child → Type 0
PastBut i r q c = (c.slot_id ≡ i → c.run_index < r) × (c.slot_id ≢ i → Past q c)

module _ (p : Plan) where
  abbrev Named : Queue → Type 0
  Named q = AllRenumbered q.children × AllOf (Past q) q.children

  moved :
      (i : ℕ) (s : Slot) (q : Queue) (c : Child)
      → (c.slot_id ≡ i → Bounded s c.run_index)
      → (c.slot_id ≢ i → Past q c)
      → Bounded (set i s q.slots c.slot_id) c.run_index
  moved i s q c here there = elim (ℕ_discrete c.slot_id i) [
    | yes same ↦
        subst (λ t. Bounded t c.run_index)
          (sym (ap (λ j. set i s q.slots j) same ∙ set-same i s q.slots)) (here same)
    | no apart ↦
        subst (λ t. Bounded t c.run_index) (sym (set-other i c.slot_id s q.slots apart))
          (there apart)
  ]

  leave-Past : (i r : ℕ) (q : Queue) (c : Child) → PastBut i r q c → Past (leave p i q) c
  leave-Past i r q c h = moved i finished q c (λ same. tt) h.1

  start-Past :
      (i r : ℕ) (q : Queue) (c : Child)
      → PastBut i r q c
      → Past (start_file p i r q.queue_pos (advance q)) c
  start-Past i r q c h = moved i (running r q.queue_pos) q c (λ same. omega (arith, h.0 same)) h.1

  new-Renumbered :
      (i r k : ℕ) (q : Queue) (c : Child) → PastBut i r q c → Renumbered (child_of p i r k) c
  new-Renumbered i r k q c h = elim (ℕ_discrete c.slot_id i) [
    | yes same ↦ inr (λ e. absurd (omega (arith, h.0 same, e)))
    | no apart ↦ inl (λ e. apart (sym e))
  ]

  pull-Named :
      (i r : ℕ) (q : Queue)
      → AllRenumbered q.children
      → AllOf (PastBut i r q) q.children
      → Named (pull p i r q)
  pull-Named i r q d h =
      pull_rule p Named i r q
        (λ e. (d, AllOf-map (PastBut i r q) (Past (leave p i q)) q.children (leave-Past i r q) h))
        (λ e past.
          (d, AllOf-map (PastBut i r q) (Past (leave p i q)) q.children (leave-Past i r q) h))
        (λ e more. (
          (
            AllOf-map (PastBut i r q) (Renumbered (child_of p i r q.queue_pos)) q.children
                (new-Renumbered i r q.queue_pos q) h,
            d,
          ),
          (
            subst (λ t. Bounded t r) (sym (set-same i (running r q.queue_pos) q.slots))
                (omega arith),
            AllOf-map (PastBut i r q) (Past (start_file p i r q.queue_pos (advance q))) q.children
                (start-Past i r q) h,
          ),
        ))

  waiting-PastBut :
      (i : ℕ) (q : Queue) (c : Child) → q.slots i ≡ waiting → Past q c → PastBut i 0 q c
  waiting-PastBut i q c e h =
      (λ same. absurd (subst (λ s. Bounded s c.run_index) (ap q.slots same ∙ e) h), λ apart. h)

  running-PastBut :
      (i r k : ℕ) (q : Queue) (c : Child)
      → q.slots i ≡ running r k
      → Past q c
      → PastBut i (suc r) q c
  running-PastBut i r k q c e h = (
    λ same.
        let le : c.run_index ≤ r = subst (λ s. Bounded s c.run_index) (ap q.slots same ∙ e) h in
        omega arith,
    λ apart. h,
  )

  close-Named :
      (i r k : ℕ) (code : Option ℕ) (ms : ℕ) (q : Queue)
      → q.slots i ≡ running r k
      → Named q
      → Named (close p i r k code ms q)
  close-Named i r k code ms q e h =
      let but =
        AllOf-map (Past q) (PastBut i (suc r) q) q.children (λ c. running-PastBut i r k q c e)
          h.1 in
      close_rule p Named i r k code ms q
        (λ passed. pull-Named i (suc r) (completed p i k code ms q) h.0 but)
        (λ failing bails. (
          h.0,
          AllOf-map (PastBut i (suc r) q) (Past (leave p i q)) q.children (leave-Past i (suc r) q)
              but,
        ))
        (λ failing on. pull-Named i (suc r) (failed p i k (completed p i k code ms q)) h.0 but)

  reach-Named : (q : Queue) → Reach p q → Named q
  reach-Named =
      reach_rule p Named (tt, tt)
        (λ i q worker e r h.
          pull-Named i 0 q h.0
            (AllOf-map (Past q) (PastBut i 0 q) q.children (λ c. waiting-PastBut i q c e) h.1))
        (λ i r k code ms q worker e reached h. close-Named i r k code ms q e h)

  pull-Suffixed :
      (i r : ℕ) (q : Queue) → AllOf Suffixed q.children → AllOf Suffixed ((pull p i r q).children)
  pull-Suffixed i r q h =
      pull_rule p (λ q. AllOf Suffixed q.children) i r q (λ e. h) (λ e past. h)
        (λ e more. (refl, h))

  reach-Suffixed : (q : Queue) → Reach p q → AllOf Suffixed q.children
  reach-Suffixed =
      reach_rule p (λ q. AllOf Suffixed q.children) tt (λ i q worker e r h. pull-Suffixed i 0 q h)
        (λ i r k code ms q worker e reached h.
          close_rule p (λ q. AllOf Suffixed q.children) i r k code ms q
            (λ passed. pull-Suffixed i (suc r) (completed p i k code ms q) h) (λ failing bails. h)
            (λ failing on. pull-Suffixed i (suc r) (failed p i k (completed p i k code ms q)) h))

  -- In every state of the parallel phase, any two children that were started have different report
  -- suffixes.
  pub children-Distinct : (q : Queue) → Reach p q → Distinct q.children
  children-Distinct q r =
      AllRenumbered→Distinct q.children (reach-Suffixed q r) ((reach-Named q r).0)
