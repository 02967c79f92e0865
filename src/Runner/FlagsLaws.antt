-- ===== src/Runner/FlagsLaws.antt =====
-- The flags of a run of scripts/runners/base-parallel-runner.js, seen as options.
use rayls_sovereign_tests_au.Shared.{
  ℕ, suc, String, Option, none, some, true, false, List, [], ◌∷◌, ◌++◌, any, AllOf, ◌≡◌, refl, ap,
  sym, ◌∙◌, inl, inr, Bool-cases, if◌then◌else◌,
}
use rayls_sovereign_tests_au.Runner.Queue.{contains_text}
use rayls_sovereign_tests_au.Runner.Flags.{
  last_index_of, splice_two, push_bail, push_grep, dedupe_from, dedupe_flags,
}
use mathlib.Core.List.{append-nil, append_assoc}
use text.Mathlib.Text.{◌==◌ as str_eq}
use text.Mathlib.TextEquality.{eq_iff}
use rayls_sovereign_tests_au.Runner.Options.{
  FlagOption, bail, grep, other, words_of, command_words, IsUsual, is_bail, is_grep,
  distinct_options, drop_grep, AtMostOne, kept, IsUsual-snoc, IsUsual-drop_grep, drop_grep-clears,
  one_grep, drop_grep-snoc, kept-other, kept-bail_again, kept-bail, kept-grep,
}

str_eq-sym : (s t : String) → str_eq s t ≡ false → str_eq t s ≡ false
str_eq-sym s t h = elim (Bool-cases (str_eq t s)) [
  | inr e ↦ e
  | inl e ↦ (let same : str_eq s t ≡ true = (eq_iff s t).1 (sym ((eq_iff t s).0 e)) in absurd (cc))
]

words-append :
    (xs ys : List FlagOption) → command_words (xs ++ ys) ≡ command_words xs ++ command_words ys
words-append [] ys = refl
words-append (o ∷ xs) ys =
    ap (λ r. words_of o ++ r) (words-append xs ys)
    ∙ sym (append_assoc (words_of o) (command_words xs) (command_words ys))

words-snoc :
    (xs : List FlagOption) (o : FlagOption)
    → command_words (xs ++ o ∷ []) ≡ command_words xs ++ words_of o
words-snoc xs o =
    words-append xs (o ∷ []) ∙ ap (λ r. command_words xs ++ r) (append-nil (words_of o))

-- The option is among the words exactly if the flag is.
contains-bail :
    (os : List FlagOption)
    → AllOf IsUsual os
    → contains_text "--bail" (command_words os) ≡ any is_bail os
contains-bail [] u = refl
contains-bail (bail ∷ os) u = refl
contains-bail (grep s ∷ os) u = rw (str_eq-sym s "--bail" u.0.0) (contains-bail os u.1)
contains-bail (other s ∷ os) u = rw (str_eq-sym s "--bail" u.0.0) (contains-bail os u.1)

no_grep-index :
    (os : List FlagOption)
    → AllOf IsUsual os
    → any is_grep os ≡ false
    → last_index_of "--grep" (command_words os) ≡ none
no_grep-index [] u h = refl
no_grep-index (bail ∷ os) u h = rw (no_grep-index os u.1 h) refl
no_grep-index (grep s ∷ os) u h = absurd (cc)
no_grep-index (other s ∷ os) u h = rw (no_grep-index os u.1 h, u.0.1) refl

splice-cons :
    (x : String) (xs : List String)
    → str_eq x "--grep" ≡ false
    → splice_two (x ∷ xs) (last_index_of "--grep" (x ∷ xs))
      ≡ x ∷ splice_two xs (last_index_of "--grep" xs)
splice-cons x xs h = go (last_index_of "--grep" xs)
  where
    go :
        (i : Option ℕ)
        → splice_two
            (x ∷ xs)
            (elim i [ some j ↦ some (suc j) | none ↦ if str_eq x "--grep" then some 0 else none ])
          ≡ x ∷ splice_two xs i
    go none = rw h refl
    go (some j) = refl

splice-drop_grep :
    (os : List FlagOption)
    → AllOf IsUsual os
    → AtMostOne os
    → splice_two (command_words os) (last_index_of "--grep" (command_words os))
      ≡ command_words (drop_grep os)
splice-drop_grep [] u h = refl
splice-drop_grep (bail ∷ os) u h =
    splice-cons "--bail" (command_words os) refl
    ∙ ap (λ r. "--bail" ∷ r) (splice-drop_grep os u.1 h)
splice-drop_grep (grep s ∷ os) u h = rw (no_grep-index os u.1 h, u.0.1) refl
splice-drop_grep (other s ∷ os) u h =
    splice-cons s (command_words os) u.0.1 ∙ ap (λ r. s ∷ r) (splice-drop_grep os u.1 h)

push_bail-again :
    (done : List FlagOption)
    → AllOf IsUsual done
    → any is_bail done ≡ true
    → push_bail (command_words done) ≡ command_words done
push_bail-again done u e = rw (contains-bail done u, e) refl

push_bail-first :
    (done : List FlagOption)
    → AllOf IsUsual done
    → any is_bail done ≡ false
    → push_bail (command_words done) ≡ command_words (done ++ bail ∷ [])
push_bail-first done u e = rw (contains-bail done u, e) (sym (words-snoc done bail))

push_grep-words :
    (done : List FlagOption) (s : String)
    → AllOf IsUsual done
    → AtMostOne done
    → push_grep (command_words done) ++ s ∷ [] ≡ command_words (drop_grep done ++ grep s ∷ [])
push_grep-words done s u m = rw (splice-drop_grep done u m) (
    append_assoc (command_words (drop_grep done)) ("--grep" ∷ []) (s ∷ [])
    ∙ sym (words-snoc (drop_grep done) (grep s)))

dedupe_from-words :
    (done os : List FlagOption)
    → AllOf IsUsual done
    → AtMostOne done
    → AllOf IsUsual os
    → dedupe_from false (command_words done) (command_words os) ≡ command_words (kept done os)
unfolding dedupe_from
dedupe_from-words done [] u m v = ap command_words (sym (append-nil done))
dedupe_from-words done (bail ∷ os) u m v = elim (Bool-cases (any is_bail done)) [
  | inl e ↦
      ap (λ out. dedupe_from false out (command_words os)) (push_bail-again done u e)
      ∙ dedupe_from-words done os u m v.1
      ∙ ap command_words (kept-bail_again done os e)
  | inr e ↦
      ap (λ out. dedupe_from false out (command_words os)) (push_bail-first done u e)
      ∙ dedupe_from-words (done ++ bail ∷ []) os (IsUsual-snoc done bail u tt)
          ((drop_grep-snoc done bail refl m).0) v.1
      ∙ ap command_words (kept-bail done os m e)
]
dedupe_from-words done (grep s ∷ os) u m v = rw (push_grep-words done s u m) (
    dedupe_from-words (drop_grep done ++ grep s ∷ []) os
      (IsUsual-snoc (drop_grep done) (grep s) (IsUsual-drop_grep done u) v.0)
      (one_grep (drop_grep done) s (drop_grep-clears done m)) v.1
    ∙ ap command_words (kept-grep done os s m))
dedupe_from-words done (other s ∷ os) u m v =
    rw (v.0.0, v.0.1)
      (ap (λ out. dedupe_from false out (command_words os)) (sym (words-snoc done (other s)))
        ∙ dedupe_from-words (done ++ other s ∷ []) os (IsUsual-snoc done (other s) u v.0)
            ((drop_grep-snoc done (other s) refl m).0) v.1
        ∙ ap command_words (kept-other done os s m))

-- Seen as options, `_dedupeFlags` keeps the first `--bail`, the last `--grep` with its pattern, and
-- every other flag, each at its place; provided that each `--grep` has a pattern and that no pattern
-- and no other flag is `--bail` or `--grep`.
pub dedupe_flags-distinct_options :
    (os : List FlagOption)
    → AllOf IsUsual os
    → dedupe_flags (command_words os) ≡ command_words (distinct_options false os)
unfolding dedupe_flags
dedupe_flags-distinct_options os u =
    dedupe_from-words [] os tt tt u ∙ ap command_words (kept-nil os)
  where
    kept-nil : (os : List FlagOption) → kept [] os ≡ distinct_options false os
    kept-nil os = elim (Bool-cases (any is_grep os)) [ inl e ↦ rw e refl | inr e ↦ rw e refl ]
