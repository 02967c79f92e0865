-- ===== src/Shared/Text.antt =====
-- Text, as the source's strings use it: template literals, decimal numbers, `includes` and
-- `toLowerCase`. Texts are native strings; a search goes through their code points.
pub mod Decimal
pub mod Search
pub mod Split
use Prim.Native.Nat.{ℕ, zero, suc, ◌+◌, ◌-◌, ◌*◌, ◌/◌, ◌%◌}
use Prim.Native.Char.{Char, code}
use Prim.Native.String
use Prim.Native.String.{String}
use mathlib.Core.Bool.{Bool, true, false, not, ◌&&◌, ◌||◌}
use mathlib.Core.List.{List, [], ◌∷◌, ◌++◌}
use mathlib.Core.Path.{◌≡◌, refl}
use rayls_sovereign_tests_au.Shared.Tests.{leb, ◌==◌, if◌then◌else◌}

abbrev pub codes : String → List ℕ
codes String.[] = []
codes (String.◌∷◌ c s) = code c ∷ codes s

-- Concatenation inside a template literal.
infixr 66 ◌<>◌
unfoldable pub ◌<>◌ : String → String → String
s <> t = String.◌++◌ s t

abbrev pub digit_text : ℕ → String
digit_text d =
    if d == 0
    then "0"
    else if d == 1
    then "1"
    else if d == 2
    then "2"
    else if d == 3
    then "3"
    else if d == 4
    then "4"
    else if d == 5
    then "5"
    else if d == 6
    then "6"
    else if d == 7
    then "7"
    else if d == 8
    then "8"
    else "9"

pub decimal_from : ℕ → ℕ → String → String
decimal_from zero n done = done
decimal_from (suc fuel) n done =
    let shown = String.◌++◌ (digit_text (n % 10)) done in
    let more = decimal_from fuel (n / 10) shown in if n / 10 == 0 then shown else more

-- A number in a template literal. There are at most as many digits as `n + 1`.
unfoldable pub show : ℕ → String
unfolding decimal_from
show n = decimal_from (suc n) n ""

show_example : show 15000 ≡ "15000"
unfolding show
show_example = refl

-- `toLowerCase`: the ASCII capitals, and the two other code points whose lower case holds an ASCII
-- letter (the Kelvin sign, and the I with a dot, which becomes two code points). No other code point
-- can become ASCII, so a search for an ASCII pattern finds what it finds in the source.
abbrev lower_code : ℕ → List ℕ
lower_code c =
    if leb 65 c && leb c 90
    then (c + 32) ∷ []
    else if c == 0x212a
    then 107 ∷ []
    else if c == 0x130
    then 105 ∷ 0x307 ∷ []
    else c ∷ []

unfoldable pub to_lower : List ℕ → List ℕ
to_lower [] = []
to_lower (c ∷ cs) = lower_code c ++ to_lower cs

abbrev pub is_prefix : List ℕ → List ℕ → Bool
is_prefix [] cs = true
is_prefix (p ∷ ps) [] = false
is_prefix (p ∷ ps) (c ∷ cs) = p == c && is_prefix ps cs

-- `includes` of a string.
unfoldable pub includes : List ℕ → List ℕ → Bool
includes pattern [] = is_prefix pattern []
includes pattern (c ∷ cs) = is_prefix pattern (c ∷ cs) || includes pattern cs

abbrev pub list_eq : List ℕ → List ℕ → Bool
list_eq [] [] = true
list_eq (a ∷ as') (b ∷ bs) = a == b && list_eq as' bs
list_eq _ _ = false

abbrev nth_char : String → ℕ → Char → Char
nth_char String.[] i d = d
nth_char (String.◌∷◌ c s) zero d = c
nth_char (String.◌∷◌ c s) (suc i) d = nth_char s i d

-- `toUpperCase` of the ASCII letters; any other character stands for itself.
abbrev upper_char : Char → Char
upper_char c =
    if leb 97 (code c) && leb (code c) 122
    then nth_char "ABCDEFGHIJKLMNOPQRSTUVWXYZ" (code c - 97) c
    else c

unfoldable pub to_upper : String → String
to_upper String.[] = String.[]
to_upper (String.◌∷◌ c s) = String.◌∷◌ (upper_char c) (to_upper s)

to_upper_example : to_upper "relayer-b" ≡ "RELAYER-B"
unfolding to_upper
to_upper_example = refl

-- `replace(/\/$/, '')`: one slash at the end is dropped.
unfoldable pub strip_slash : String → String
strip_slash String.[] = String.[]
strip_slash (String.◌∷◌ c String.[]) = if code c == b'/' then String.[] else String.◌∷◌ c String.[]
strip_slash (String.◌∷◌ c (String.◌∷◌ d s)) = String.◌∷◌ c (strip_slash (String.◌∷◌ d s))

-- The whole number at the start of a text, as `parseInt(text, 10)` reads it: behind white space and a
-- sign, as many digits as there are; `nan` if there are none.
pub data ParsedInt : Type 0 where
  nan : ParsedInt
  int : (negative : Bool) → ℕ → ParsedInt

abbrev is_digit : ℕ → Bool
is_digit c = leb 48 c && leb c 57

abbrev pub is_space : ℕ → Bool
is_space c =
    c == 32
    || (leb 9 c && leb c 13)
    || c == 160
    || c == 0x1680
    || (leb 0x2000 c && leb c 0x200a)
    || c == 0x2028
    || c == 0x2029
    || c == 0x202f
    || c == 0x205f
    || c == 0x3000
    || c == 0xfeff

pub digits_value : ℕ → List ℕ → ℕ
digits_value n [] = n
digits_value n (c ∷ cs) =
    let rest = digits_value (n * 10 + (c - 48)) cs in if is_digit c then rest else n

parse_digits : Bool → List ℕ → ParsedInt
unfolding digits_value
parse_digits negative [] = nan
parse_digits negative (c ∷ cs) = if is_digit c then int negative (digits_value 0 (c ∷ cs)) else nan

parse_signed : List ℕ → ParsedInt
unfolding parse_digits
parse_signed [] = nan
parse_signed (c ∷ cs) =
    if c == b'-'
    then parse_digits true cs
    else if c == b'+'
    then parse_digits false cs
    else parse_digits false (c ∷ cs)

skip_spaces : List ℕ → List ℕ
skip_spaces [] = []
skip_spaces (c ∷ cs) = let rest = skip_spaces cs in if is_space c then rest else c ∷ cs

unfoldable pub parse_int : String → ParsedInt
unfolding parse_signed skip_spaces
parse_int s = parse_signed (skip_spaces (codes s))

parse_int_example : parse_int " 6661x" ≡ int false 6661
unfolding parse_int
parse_int_example = refl

-- A parsed number in a template literal; `-0` prints as 0.
unfoldable pub show_int : ParsedInt → String
show_int nan = "NaN"
show_int (int negative n) = if negative && not (n == 0) then "-" <> show n else show n

-- The length in UTF-16 units, of which the source counts; a code point above 0xffff has two.
abbrev units : ℕ → ℕ
units c = if leb c 0xffff then 1 else 2

abbrev pub unit_length : List ℕ → ℕ
unit_length [] = 0
unit_length (c ∷ cs) = units c + unit_length cs

unfoldable pub text_take : ℕ → String → String
text_take zero s = String.[]
text_take (suc n) String.[] = String.[]
text_take (suc n) (String.◌∷◌ c s) = String.◌∷◌ c (text_take n s)

text_drop : ℕ → String → String
text_drop zero s = s
text_drop (suc n) String.[] = String.[]
text_drop (suc n) (String.◌∷◌ c s) = text_drop n s

-- `shortHex` of src/utils/formatters.ts with its default window, for texts of ASCII characters.
unfoldable pub short_hex : String → String
unfolding text_take text_drop
short_hex s =
    if not (is_prefix (codes "0x") (codes s))
    then s
    else if leb (unit_length (codes s)) 15
    then s
    else text_take 10 s <> "…" <> text_drop (unit_length (codes s) - 4) s

short_hex_example : short_hex "0x1234567890abcdef1234" ≡ "0x12345678…1234"
unfolding short_hex ◌<>◌
short_hex_example = refl

abbrev pub count_chars : String → ℕ
count_chars String.[] = 0
count_chars (String.◌∷◌ c s) = suc (count_chars s)

abbrev pub code_drop : ℕ → List ℕ → List ℕ
code_drop zero cs = cs
code_drop (suc n) [] = []
code_drop (suc n) (c ∷ cs) = code_drop n cs
