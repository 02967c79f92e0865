-- ===== src/Runner/Flags.antt =====
-- The command line of scripts/runners/base-parallel-runner.js: the constructor's arguments,
-- `isScriptName`, `parseHardhatScript` and `_dedupeFlags`.
use Prim.Native.Char.{Char, code}
use rayls_sovereign_tests_au.Shared.{
  ℕ, suc, ◌-◌, String, Option, none, some, Bool, true, false, not, ◌&&◌, ◌||◌, List, [], ◌∷◌, ◌++◌,
  length, take, drop, map, ◌≡◌, refl, ◌==◌, if◌then◌else◌,
}
use rayls_sovereign_tests_au.Shared.Text.{◌<>◌, codes, is_prefix, is_space}
use rayls_sovereign_tests_au.Js.{JsError, error, Result, ok, err}
use rayls_sovereign_tests_au.Runner.Queue.{contains_text}
use text.Mathlib.Text.{◌==◌ as str_eq}

-- `parseHardhatScript` goes through the command with /'([^']*)'|"([^"]*)"|(\S+)/g. Behind a character,
-- the search stands between two matches, in a word or in a quotation.
pub data Scan : Type 0 where
  between : Scan
  in_word : Scan
  in_quote : ℕ → Scan

abbrev is_quote : ℕ → Bool
is_quote c = c == b'\'' || c == b'"'

-- The text has the character.
abbrev pub has_code : ℕ → String → Bool
has_code q String.[] = false
has_code q (String.◌∷◌ c s) = code c == q || has_code q s

abbrev pub next_scan : Scan → ℕ → String → Scan
next_scan between c s =
    if is_space c then between else if is_quote c && has_code c s then in_quote c else in_word
next_scan in_word c s = if is_space c then between else in_word
next_scan (in_quote q) c s = if c == q then between else in_quote q

abbrev pub put_first : Char → List String → List String
put_first c [] = String.◌∷◌ c String.[] ∷ []
put_first c (s ∷ ss) = String.◌∷◌ c s ∷ ss

-- What the character does to the words behind it: in a word or a quotation the first of them is the
-- rest of that one.
abbrev pub emit : Scan → Scan → Char → List String → List String
emit between between c rest = rest
emit between (in_quote q) c rest = rest
emit between in_word c rest = put_first c rest
emit in_word between c rest = "" ∷ rest
emit in_word _ c rest = put_first c rest
emit (in_quote q) between c rest = "" ∷ rest
emit (in_quote q) _ c rest = put_first c rest

-- The texts that the search finds; only an empty quotation gives the empty text.
unfoldable pub scan_words : Scan → String → List String
scan_words between String.[] = []
scan_words _ String.[] = "" ∷ []
scan_words at (String.◌∷◌ c s) =
    let next = next_scan at (code c) s in let rest = scan_words next s in emit at next c rest

-- `match[1] || match[2] || match[3]`: an empty quotation gives `undefined`.
abbrev pub token_of : String → Option String
token_of s = if str_eq s "" then none else some s

-- The entries of the array `tokens`; `none` is `undefined`.
unfoldable pub script_tokens : String → List (Option String)
unfolding scan_words
script_tokens command = map token_of (scan_words between command)

script_tokens_example :
    script_tokens "npx hardhat  test '' --grep '@smoke a' x"
    ≡ some "npx"
      ∷ some "hardhat"
      ∷ some "test"
      ∷ none
      ∷ some "--grep"
      ∷ some "@smoke a"
      ∷ some "x"
      ∷ []
unfolding script_tokens scan_words
script_tokens_example = refl

-- `indexOf` of an array, from an index on.
abbrev pub index_of : String → List String → Option ℕ
index_of s [] = none
index_of s (x ∷ xs) =
    let rest = index_of s xs in
    if str_eq x s then some 0 else (elim rest [ none ↦ none | some i ↦ some (suc i) ])

-- `indexOf` of a text among the entries, some of which are `undefined`.
abbrev pub token_index : String → List (Option String) → Option ℕ
token_index s [] = none
token_index s (t ∷ ts) =
    let later : Option ℕ = elim (token_index s ts) [ none ↦ none | some i ↦ some (suc i) ] in
    elim t [ none ↦ later | some x ↦ if str_eq x s then some 0 else later ]

-- What follows the first `test` from `hardhat` on. Without `hardhat` the search starts at index -1,
-- which is the last entry.
abbrev pub search_start : List (Option String) → Option ℕ → ℕ
search_start tokens (some i) = i
search_start tokens none = length tokens - 1

abbrev pub after_test : List (Option String) → Option (List (Option String))
after_test tokens =
    let start = drop (search_start tokens (token_index "hardhat" tokens)) tokens in
    elim (token_index "test" start) [ none ↦ none | some i ↦ some (drop (suc i) start) ]

-- The flags are only joined and compared with texts that are not empty, so `undefined` among them is
-- the empty text, as `join` prints it.
pub record Script : Type 0 where
  pub globs : List String
  pub flags : List String

abbrev with_flag : String → Result Script → Result Script
with_flag a (err e) = err e
with_flag a (ok s) = ok (record s { flags = a ∷ s.flags })

abbrev with_glob : String → Result Script → Result Script
with_glob a (err e) = err e
with_glob a (ok s) = ok (record s { globs = a ∷ s.globs })

abbrev is_flag : String → Bool
is_flag a = is_prefix (codes "-") (codes a)

-- An argument that no `--grep` takes: `startsWith` throws for `undefined`.
abbrev sort_arg : Option String → Result Script → Result Script
sort_arg none rest = err (error "Cannot read properties of undefined (reading 'startsWith')")
sort_arg (some a) rest = if is_flag a then with_flag a rest else with_glob a rest

-- The loop over the arguments; `taken` is set behind a `--grep`, whose pattern is pushed as it is.
unfoldable pub split_args : (taken : Bool) → List (Option String) → Result Script
split_args taken [] = ok (record { globs = []; flags = [] })
split_args taken (none ∷ args) =
    let rest = split_args false args in if taken then with_flag "" rest else sort_arg none rest
split_args taken (some a ∷ args) =
    let rest = split_args (not taken && str_eq a "--grep") args in
    if taken then with_flag a rest else sort_arg (some a) rest

-- `process.exit(1)` behind a printed text.
abbrev pub exit_with : String → JsError
exit_with text = error text

unfoldable pub parse_hardhat_script : String → Result Script
unfolding script_tokens split_args
parse_hardhat_script script_cmd = elim (after_test (script_tokens script_cmd)) [
  | none ↦ err (exit_with ("Script command does not contain 'hardhat test': " <> script_cmd))
  | some args ↦ split_args false args
]

unfoldable pub is_script_name : String → Bool
is_script_name arg = not (has_code b'/' arg) && not (has_code b'*' arg) && not (has_code b'\\' arg)

-- The arguments in front of the first `--`, and those behind it.
unfoldable pub source_args : List String → List String
source_args raw = elim (index_of "--" raw) [ none ↦ raw | some i ↦ take i raw ]

unfoldable pub cli_extra_flags : List String → List String
cli_extra_flags raw = elim (index_of "--" raw) [ none ↦ [] | some i ↦ drop (suc i) raw ]

-- `lastIndexOf`, and the `splice` of two entries there.
abbrev pub last_index_of : String → List String → Option ℕ
last_index_of s [] = none
last_index_of s (x ∷ xs) = elim (last_index_of s xs) [
  | some i ↦ some (suc i)
  | none ↦ if str_eq x s then some 0 else none
]

abbrev pub splice_two : List String → Option ℕ → List String
splice_two xs none = xs
splice_two xs (some i) = take i xs ++ drop (suc (suc i)) xs

abbrev pub push_bail : List String → List String
push_bail out = if contains_text "--bail" out then out else out ++ "--bail" ∷ []

abbrev pub push_grep : List String → List String
push_grep out = splice_two out (last_index_of "--grep" out) ++ "--grep" ∷ []

abbrev pub push_flag : (taken : Bool) (flag : String) → List String → List String
push_flag true flag out = out ++ flag ∷ []
push_flag false flag out =
    if str_eq flag "--bail"
    then push_bail out
    else if str_eq flag "--grep"
    then push_grep out
    else out ++ flag ∷ []

-- The loop; `taken` is set behind a `--grep`.
unfoldable pub dedupe_from : (taken : Bool) (out flags : List String) → List String
dedupe_from taken out [] = out
dedupe_from taken out (flag ∷ flags) =
    dedupe_from (not taken && str_eq flag "--grep") (push_flag taken flag out) flags

unfoldable pub dedupe_flags : List String → List String
unfolding dedupe_from
dedupe_flags = dedupe_from false []
