-- ===== src/Runner/Words.antt =====
-- The words of a script command, as scripts/runners/base-parallel-runner.js reads them.
use Prim.Native.Char.{code}
use rayls_sovereign_tests_au.Shared.{
  String, Bool, true, false, ◌||◌, Option, none, some, ◌≢◌, ◌⊎◌, inl, inr, Bool-cases, map, List,
  [], ◌∷◌, AllOf, ◌≡◌, refl, ap, ◌∙◌, arith, ◌==◌,
}
use rayls_sovereign_tests_au.Runner.Flags.{
  between, in_quote, has_code, scan_words, script_tokens, token_of, put_first,
}
use text.Mathlib.Text.{◌==◌ as str_eq}
use text.Mathlib.TextEquality.{eq_iff}

-- The text with a quotation mark and a space behind it, in front of a rest.
abbrev pub close_quote : String → String → String
close_quote String.[] rest = String.◌∷◌ "'" (String.◌∷◌ " " rest)
close_quote (String.◌∷◌ c w) rest = String.◌∷◌ c (close_quote w rest)

-- A command whose words stand in single quotation marks, a space behind each.
abbrev pub quote_words : List String → String
quote_words [] = ""
quote_words (w ∷ ws) = String.◌∷◌ "'" (close_quote w (quote_words ws))

quote_words_example : quote_words ("npx" ∷ "a b" ∷ []) ≡ "'npx' 'a b' "
quote_words_example = refl

abbrev pub HasNoQuote : String → Type 0
HasNoQuote w = has_code b'\'' w ≡ false

has_code-close_quote : (w rest : String) → has_code b'\'' (close_quote w rest) ≡ true
has_code-close_quote String.[] rest = refl
has_code-close_quote (String.◌∷◌ c w) rest = ground (arith, has_code-close_quote w rest)

apart_left : (a b : Bool) → a || b ≡ false → (a ≡ false) × (b ≡ false)
apart_left a b h = ground arith

scan-close_quote :
    (w rest : String)
    → HasNoQuote w
    → scan_words (in_quote b'\'') (close_quote w rest) ≡ w ∷ scan_words between rest
unfolding scan_words
scan-close_quote String.[] rest h = refl
scan-close_quote (String.◌∷◌ c w) rest h =
    let parts = apart_left (code c == b'\'') (has_code b'\'' w) h in
    rw parts.0 (ap (put_first c) (scan-close_quote w rest parts.1))

scan-quote_words :
    (ws : List String) → AllOf HasNoQuote ws → scan_words between (quote_words ws) ≡ ws
unfolding scan_words
scan-quote_words [] h = refl
scan-quote_words (w ∷ ws) h =
    rw (has_code-close_quote w (quote_words ws))
      (scan-close_quote w (quote_words ws) h.0 ∙ ap (λ r. w ∷ r) (scan-quote_words ws h.1))

-- The entry is what the source pushes for the word: the word, or `undefined` for an empty one.
abbrev pub Pushed : String → Option String → Type 0
Pushed w t = ((w ≢ "") × (t ≡ some w)) ⊎ ((w ≡ "") × (t ≡ none))

-- Each entry is the one of the word at its place, and there are as many.
abbrev pub AllPushed : List String → List (Option String) → Type 0
AllPushed [] [] = Unit {0}
AllPushed (w ∷ ws) (t ∷ ts) = Pushed w t × AllPushed ws ts
AllPushed _ _ = ⊥

token_of-Pushed : (w : String) → Pushed w (token_of w)
token_of-Pushed w = elim (Bool-cases (str_eq w "")) [
  | inl e ↦ inr ((eq_iff w "").0 e, rw e (refl))
  | inr e ↦ inl ((λ same. absurd (let e' = (eq_iff w "").1 same in cc)), rw e (refl))
]

map-AllPushed : (ws : List String) → AllPushed ws (map token_of ws)
map-AllPushed [] = tt
map-AllPushed (w ∷ ws) = (token_of-Pushed w, map-AllPushed ws)

-- If no word has a single quotation mark in it, then a script command whose words stand in such marks
-- is read as one entry for each word, in their order: the word itself, or `undefined` if it is empty.
pub script_tokens-quote_words :
    (ws : List String) → AllOf HasNoQuote ws → AllPushed ws (script_tokens (quote_words ws))
unfolding script_tokens
script_tokens-quote_words ws h = rw (scan-quote_words ws h) (map-AllPushed ws)
