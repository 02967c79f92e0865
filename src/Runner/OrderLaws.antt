-- ===== src/Runner/OrderLaws.antt =====
-- The order in which the queue of scripts/runners/base-parallel-runner.js takes its files.
use mathlib.Core.List.{Perm}
use mathlib.Core.List.Perm
use rayls_sovereign_tests_au.Shared.{
  ◌≤◌, ℕ, String, Option, none, some, Bool, true, false, List, [], ◌∷◌, keep, keep_one, ◌≡◌, refl,
  ap, ◌∙◌, inl, inr, arith, AllOf, AllOf-map, Bool-cases, ◌==◌,
}
use rayls_sovereign_tests_au.Js.{Result}
use rayls_sovereign_tests_au.Runner.Order.{
  TestResult, longer, insert, by_duration, sort_with, sort_by_expected_duration, expected_duration,
  load_duration_hints,
}

-- Equal durations.
abbrev pub same_duration : Option ℕ → Option ℕ → Bool
same_duration none none = true
same_duration (some a) (some b) = a == b
same_duration _ _ = false

-- The first duration is at least the second; an unknown one is infinite.
abbrev pub Covers : Option ℕ → Option ℕ → Type 0
Covers none b = Unit
Covers (some a) none = ⊥
Covers (some a) (some b) = b ≤ a

Covers-trans : (a b c : Option ℕ) → Covers a b → Covers b c → Covers a c
Covers-trans none b c h k = tt
Covers-trans (some a) none c h k = absurd h
Covers-trans (some a) (some b) none h k = k
Covers-trans (some a) (some b) (some c) h k = omega arith

-- What the comparison of two durations says.
longer-Covers : (a b : Option ℕ) → longer a b ≡ true → Covers a b
longer-Covers none b h = tt
longer-Covers (some a) none h = absurd (cc)
longer-Covers (some a) (some b) h = ground arith

not_longer-Covers : (a b : Option ℕ) → longer a b ≡ false → Covers b a
not_longer-Covers none none h = tt
not_longer-Covers none (some b) h = absurd (cc)
not_longer-Covers (some a) none h = tt
not_longer-Covers (some a) (some b) h = ground arith

longer-same :
    (a b d : Option ℕ) → longer a b ≡ true → same_duration b d ≡ true → same_duration a d ≡ false
longer-same none none d h k = absurd (cc)
longer-same none (some b) none h k = absurd (cc)
longer-same none (some b) (some d) h k = refl
longer-same (some a) none d h k = absurd (cc)
longer-same (some a) (some b) none h k = absurd (cc)
longer-same (some a) (some b) (some d) h k = ground arith

module _ (goes_first : String → String → Bool) where
  insert-perm : (a : String) (bs : List String) → Perm (insert goes_first a bs) (a ∷ bs)
  insert-perm a [] = Perm.rfl
  insert-perm a (b ∷ bs) = elim (Bool-cases (goes_first b a)) [
    | inl e ↦ rw e (Perm.trans (Perm.cons b (insert-perm a bs)) (Perm.swap a b bs))
    | inr e ↦ rw e Perm.rfl
  ]

  pub sort-perm : (as' : List String) → Perm (sort_with goes_first as') as'
  unfolding sort_with
  sort-perm [] = Perm.rfl
  sort-perm (a ∷ as') =
      Perm.trans (insert-perm a (sort_with goes_first as')) (Perm.cons a (sort-perm as'))

module _ (duration : String → Option ℕ) where
  -- A file may stand in front of another one: it takes at least as long.
  abbrev pub NotShorter : String → String → Type 0
  NotShorter a b = Covers (duration a) (duration b)

  abbrev pub LongestFirst : List String → Type 0
  LongestFirst [] = Unit
  LongestFirst (a ∷ as') = AllOf (NotShorter a) as' × LongestFirst as'

  -- What holds of a file and of those of a list holds of the list with the file inserted.
  AllOf-insert :
      (P : String → Type 0) (a : String) (bs : List String)
      → P a
      → AllOf P bs
      → AllOf P (insert (by_duration duration) a bs)
  AllOf-insert P a [] h all = (h, tt)
  AllOf-insert P a (b ∷ bs) h all = elim (Bool-cases (longer (duration b) (duration a))) [
    | inl e ↦ rw e (all.0, AllOf-insert P a bs h all.1)
    | inr e ↦ rw e (h, all)
  ]

  insert-LongestFirst :
      (a : String) (bs : List String)
      → LongestFirst bs
      → LongestFirst (insert (by_duration duration) a bs)
  insert-LongestFirst a [] s = (tt, tt)
  insert-LongestFirst a (b ∷ bs) s = elim (Bool-cases (longer (duration b) (duration a))) [
    | inl e ↦ rw e (
      AllOf-insert (NotShorter b) a bs (longer-Covers (duration b) (duration a) e) s.0,
      insert-LongestFirst a bs s.1,
    )
    | inr e ↦ rw e (
      (
        not_longer-Covers (duration b) (duration a) e,
        AllOf-map (NotShorter b) (NotShorter a) bs
            (λ c.
              Covers-trans (duration a) (duration b) (duration c)
                (not_longer-Covers (duration b) (duration a) e))
            s.0,
      ),
      s,
    )
  ]

  sort-LongestFirst : (as' : List String) → LongestFirst (sort_with (by_duration duration) as')
  unfolding sort_with
  sort-LongestFirst [] = tt
  sort-LongestFirst (a ∷ as') =
      insert-LongestFirst a (sort_with (by_duration duration) as') (sort-LongestFirst as')

  abbrev pub of_duration : Option ℕ → List String → List String
  of_duration d = keep (λ a. same_duration (duration a) d)

  insert-of_duration :
      (d : Option ℕ) (a : String) (bs : List String)
      → of_duration d (insert (by_duration duration) a bs) ≡ of_duration d (a ∷ bs)
  insert-of_duration d a [] = refl
  insert-of_duration d a (b ∷ bs) = elim (Bool-cases (longer (duration b) (duration a))) [
    | inr e ↦ rw e refl
    | inl e ↦ (elim (Bool-cases (same_duration (duration a) d)) [
      | inl same ↦
          (let other = longer-same (duration b) (duration a) d e same in
            rw (e, same, other) (insert-of_duration d a bs ∙ rw same refl))
      | inr other ↦ rw (e, other) (rw (insert-of_duration d a bs, other) refl)
    ])
  ]

  sort-of_duration :
      (d : Option ℕ) (as' : List String)
      → of_duration d (sort_with (by_duration duration) as') ≡ of_duration d as'
  unfolding sort_with
  sort-of_duration d [] = refl
  sort-of_duration d (a ∷ as') =
      insert-of_duration d a (sort_with (by_duration duration) as')
      ∙ ap (keep_one (same_duration (duration a) d) a) (sort-of_duration d as')

-- The queue is the given files in another order, a file that takes longer in front and one without a
-- hint as the longest, and files of the same expected duration stay in the order in which they were
-- given.
pub sort_by_expected_duration-perm :
    (report : Option (Result (Option (List TestResult)))) (files : List String)
    → Perm (sort_by_expected_duration report files) files
      × LongestFirst
          (expected_duration (load_duration_hints report))
          (sort_by_expected_duration report files)
      × ((d : Option ℕ)
          → of_duration
              (expected_duration (load_duration_hints report))
              d
              (sort_by_expected_duration report files)
            ≡ of_duration (expected_duration (load_duration_hints report)) d files)
unfolding sort_by_expected_duration
sort_by_expected_duration-perm report files =
    let duration = expected_duration (load_duration_hints report) in
    (
      sort-perm (by_duration duration) files,
      sort-LongestFirst duration files,
      λ d. sort-of_duration duration d files,
    )
