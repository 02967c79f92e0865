-- ===== src/Runner/Options.antt =====
-- The flags of a run as options, and which of them scripts/runners/base-parallel-runner.js keeps.
use rayls_sovereign_tests_au.Shared.{
  String, Bool, true, false, ◌||◌, List, [], ◌∷◌, ◌++◌, any, AllOf, ◌≡◌, refl, ap, ◌∙◌, inl, inr,
  arith, Bool-cases, if◌then◌else◌,
}
use mathlib.Core.List.{append_assoc}
use text.Mathlib.Text.{◌==◌ as str_eq}

-- An option of the command line: a `--grep` has a pattern.
pub data FlagOption : Type 0 where
  bail : FlagOption
  grep : (pattern : String) → FlagOption
  other : (flag : String) → FlagOption

abbrev pub words_of : FlagOption → List String
words_of bail = "--bail" ∷ []
words_of (grep s) = "--grep" ∷ s ∷ []
words_of (other s) = s ∷ []

abbrev pub command_words : List FlagOption → List String
command_words [] = []
command_words (o ∷ os) = words_of o ++ command_words os

-- No pattern and no other flag reads like one of the two.
abbrev pub IsPlain : String → Type 0
IsPlain s = (str_eq s "--bail" ≡ false) × (str_eq s "--grep" ≡ false)

abbrev pub IsUsual : FlagOption → Type 0
IsUsual bail = Unit
IsUsual (grep s) = IsPlain s
IsUsual (other s) = IsPlain s

abbrev pub is_bail : FlagOption → Bool
is_bail bail = true
is_bail _ = false

abbrev pub is_grep : FlagOption → Bool
is_grep (grep s) = true
is_grep _ = false

-- The first `--bail`, the last `--grep`, and every other option, each at its place.
abbrev pub distinct_options : (bailed : Bool) → List FlagOption → List FlagOption
distinct_options bailed [] = []
distinct_options bailed (bail ∷ os) =
    let rest = distinct_options true os in if bailed then rest else bail ∷ rest
distinct_options bailed (grep s ∷ os) =
    let rest = distinct_options bailed os in if any is_grep os then rest else grep s ∷ rest
distinct_options bailed (other s ∷ os) = other s ∷ distinct_options bailed os

abbrev pub drop_grep : List FlagOption → List FlagOption
drop_grep [] = []
drop_grep (grep s ∷ os) = os
drop_grep (o ∷ os) = o ∷ drop_grep os

abbrev pub AtMostOne : List FlagOption → Type 0
AtMostOne [] = Unit
AtMostOne (grep s ∷ os) = any is_grep os ≡ false
AtMostOne (o ∷ os) = AtMostOne os

pub any-snoc :
    (p : FlagOption → Bool) (os : List FlagOption) (o : FlagOption)
    → any p (os ++ o ∷ []) ≡ any p os || p o
any-snoc p [] o = ground arith
any-snoc p (x ∷ os) o = ground (arith, any-snoc p os o)

pub IsUsual-snoc :
    (os : List FlagOption) (o : FlagOption)
    → AllOf IsUsual os
    → IsUsual o
    → AllOf IsUsual (os ++ o ∷ [])
IsUsual-snoc [] o u h = (h, tt)
IsUsual-snoc (x ∷ os) o u h = (u.0, IsUsual-snoc os o u.1 h)

pub IsUsual-drop_grep : (os : List FlagOption) → AllOf IsUsual os → AllOf IsUsual (drop_grep os)
IsUsual-drop_grep [] u = tt
IsUsual-drop_grep (bail ∷ os) u = (u.0, IsUsual-drop_grep os u.1)
IsUsual-drop_grep (grep s ∷ os) u = u.1
IsUsual-drop_grep (other s ∷ os) u = (u.0, IsUsual-drop_grep os u.1)

bail-drop_grep : (os : List FlagOption) → any is_bail (drop_grep os) ≡ any is_bail os
bail-drop_grep [] = refl
bail-drop_grep (bail ∷ os) = refl
bail-drop_grep (grep s ∷ os) = refl
bail-drop_grep (other s ∷ os) = bail-drop_grep os

pub drop_grep-clears : (os : List FlagOption) → AtMostOne os → any is_grep (drop_grep os) ≡ false
drop_grep-clears [] h = refl
drop_grep-clears (bail ∷ os) h = drop_grep-clears os h
drop_grep-clears (grep s ∷ os) h = h
drop_grep-clears (other s ∷ os) h = drop_grep-clears os h

drop_grep-last :
    (os : List FlagOption) (s : String)
    → any is_grep os ≡ false
    → drop_grep (os ++ grep s ∷ []) ≡ os
drop_grep-last [] s h = refl
drop_grep-last (bail ∷ os) s h = ap (λ r. bail ∷ r) (drop_grep-last os s h)
drop_grep-last (grep t ∷ os) s h = absurd (cc)
drop_grep-last (other t ∷ os) s h = ap (λ r. other t ∷ r) (drop_grep-last os s h)

pub one_grep :
    (os : List FlagOption) (s : String) → any is_grep os ≡ false → AtMostOne (os ++ grep s ∷ [])
one_grep [] s h = refl
one_grep (bail ∷ os) s h = one_grep os s h
one_grep (grep t ∷ os) s h = absurd (cc)
one_grep (other t ∷ os) s h = one_grep os s h

-- An option that is no `--grep`, at the end.
pub drop_grep-snoc :
    (os : List FlagOption) (o : FlagOption)
    → is_grep o ≡ false
    → AtMostOne os
    → (AtMostOne (os ++ o ∷ [])) × (drop_grep (os ++ o ∷ []) ≡ drop_grep os ++ o ∷ [])
drop_grep-snoc [] bail h m = (tt, refl)
drop_grep-snoc [] (grep s) h m = absurd (cc)
drop_grep-snoc [] (other s) h m = (tt, refl)
drop_grep-snoc (bail ∷ os) o h m =
    let rest = drop_grep-snoc os o h m in (rest.0, ap (λ r. bail ∷ r) rest.1)
drop_grep-snoc (grep s ∷ os) o h m = (any-snoc is_grep os o ∙ rw (m, h) refl, refl)
drop_grep-snoc (other s ∷ os) o h m =
    let rest = drop_grep-snoc os o h m in (rest.0, ap (λ r. other s ∷ r) rest.1)

-- What the loop makes of the options pushed so far and those to come.
abbrev pub kept : (done coming : List FlagOption) → List FlagOption
kept done coming =
    (if any is_grep coming then drop_grep done else done)
    ++ distinct_options (any is_bail done) coming

kept-snoc :
    (done os : List FlagOption) (o : FlagOption)
    → is_grep o ≡ false
    → AtMostOne done
    → (if any is_grep os then drop_grep (done ++ o ∷ []) else done ++ o ∷ [])
      ≡ (if any is_grep os then drop_grep done else done) ++ o ∷ []
kept-snoc done os o h m = elim (Bool-cases (any is_grep os)) [
  | inl e ↦ rw e ((drop_grep-snoc done o h m).1)
  | inr e ↦ rw e refl
]

snoc-append : (xs ys : List FlagOption) (o : FlagOption) → (xs ++ o ∷ []) ++ ys ≡ xs ++ (o ∷ ys)
snoc-append xs ys o = append_assoc xs (o ∷ []) ys

or_false : (b : Bool) → b || false ≡ b
or_false b = ground arith

or_true : (b : Bool) → b || true ≡ true
or_true b = ground arith

pub kept-other :
    (done os : List FlagOption) (s : String)
    → AtMostOne done
    → kept (done ++ other s ∷ []) os ≡ kept done (other s ∷ os)
kept-other done os s m =
    rw
      (
        kept-snoc done os (other s) refl m,
        any-snoc is_bail done (other s),
        or_false (any is_bail done),
      )
      (snoc-append (if any is_grep os then drop_grep done else done)
        (distinct_options (any is_bail done) os) (other s))

pub kept-bail_again :
    (done os : List FlagOption) → any is_bail done ≡ true → kept done os ≡ kept done (bail ∷ os)
kept-bail_again done os h = rw h refl

pub kept-bail :
    (done os : List FlagOption)
    → AtMostOne done
    → any is_bail done ≡ false
    → kept (done ++ bail ∷ []) os ≡ kept done (bail ∷ os)
kept-bail done os m h =
    rw (kept-snoc done os bail refl m, any-snoc is_bail done bail, or_true (any is_bail done), h)
      (snoc-append (if any is_grep os then drop_grep done else done) (distinct_options true os)
        bail)

pub kept-grep :
    (done os : List FlagOption) (s : String)
    → AtMostOne done
    → kept (drop_grep done ++ grep s ∷ []) os ≡ kept done (grep s ∷ os)
kept-grep done os s m =
    let bails : any is_bail (drop_grep done ++ grep s ∷ []) ≡ any is_bail done =
      any-snoc is_bail (drop_grep done) (grep s)
      ∙ or_false (any is_bail (drop_grep done))
      ∙ bail-drop_grep done in
    elim (Bool-cases (any is_grep os)) [
      | inl e ↦ rw (e, bails, drop_grep-last (drop_grep done) s (drop_grep-clears done m)) refl
      | inr e ↦
          rw (e, bails)
            (snoc-append (drop_grep done) (distinct_options (any is_bail done) os) (grep s))
    ]
