-- ===== src/Shared/Text/Split.antt =====
-- `split` at one character, and `trim`.
use Prim.Native.Nat.{ℕ}
use Prim.Native.Char.{Char, code}
use Prim.Native.String.{String}
use mathlib.Core.List.{List, [], ◌∷◌}
use mathlib.Core.Path.{◌≡◌, refl}
use rayls_sovereign_tests_au.Shared.Tests.{◌==◌, if◌then◌else◌}
use rayls_sovereign_tests_au.Shared.Text.{is_space}

-- Puts a character at the front of the first part.
abbrev put : Char → List String → List String
put c [] = String.◌∷◌ c String.[] ∷ []
put c (s ∷ ss) = String.◌∷◌ c s ∷ ss

unfoldable pub split : ℕ → String → List String
split separator String.[] = String.[] ∷ []
split separator (String.◌∷◌ c s) =
    let rest = split separator s in if code c == separator then String.[] ∷ rest else put c rest

unfoldable pub trim_start : String → String
trim_start String.[] = String.[]
trim_start (String.◌∷◌ c s) =
    let rest = trim_start s in if is_space (code c) then rest else String.◌∷◌ c s

abbrev only_space : Char → String → String
only_space c String.[] = if is_space (code c) then String.[] else String.◌∷◌ c String.[]
only_space c (String.◌∷◌ d s) = String.◌∷◌ c (String.◌∷◌ d s)

unfoldable pub trim_end : String → String
trim_end String.[] = String.[]
trim_end (String.◌∷◌ c s) = only_space c (trim_end s)

unfoldable pub trim : String → String
unfolding trim_start trim_end
trim s = trim_end (trim_start s)

split_example : split b',' "12, 7" ≡ "12" ∷ " 7" ∷ []
unfolding split
split_example = refl

trim_example : trim " 7 1 " ≡ "7 1"
unfolding trim
trim_example = refl
