-- ===== src/Runner/Recovery.antt =====
-- `awaitRelayerRecovery` of scripts/runners/base-parallel-runner.js: before the parallel phase, all
-- relayers have to have been up for a while.
use rayls_sovereign_tests_au.Shared.{
  ℕ, zero, suc, ◌*◌, ◌+◌, ◌-◌, String, Option, none, some, ◌&&◌, leb, ltb, List, [], ◌∷◌, keep,
  ◌==◌, ◌≡◌, refl, if◌then◌else◌,
}
use rayls_sovereign_tests_au.Shared.Text.{codes, is_prefix, includes, code_drop}
use rayls_sovereign_tests_au.Shared.Text.Split.{split, trim}
use rayls_sovereign_tests_au.Js.{Result, ok, err, Exec}

-- `docker ps` with its limit of time, and the pause between two rounds.
pub record Docker (S : Type 0) : Type 0 where
  pub ps : (command : String) (timeout : ℕ) → Exec S String
  pub pause : (ms : ℕ) → S → S

pub record Recent : Type 0 where
  pub name : String
  pub uptime_ms : ℕ

-- The unit that the text begins with, in milliseconds.
abbrev unit_ms : List ℕ → Option ℕ
unit_ms text =
    if is_prefix (codes "second") text
    then some 1000
    else if is_prefix (codes "minute") text
    then some 60000
    else if is_prefix (codes "hour") text
    then some 3600000
    else if is_prefix (codes "day") text
    then some 86400000
    else none

abbrev times : ℕ → Option ℕ → Option ℕ
times n none = none
times n (some ms) = some (n * ms)

-- /(\d+) (second|minute|hour|day)/ at the start, behind at least one digit.
abbrev after_number : ℕ → List ℕ → Option ℕ
after_number n [] = none
after_number n (c ∷ cs) =
    let more = after_number (n * 10 + (c - 48)) cs in
    if leb 48 c && leb c 57 then more else if c == b' ' then times n (unit_ms cs) else none

abbrev starts_number : List ℕ → Option ℕ
starts_number [] = none
starts_number (c ∷ cs) = if leb 48 c && leb c 57 then after_number 0 (c ∷ cs) else none

-- `status.match(/Up (\d+) (second|minute|hour|day)/)`, as milliseconds.
unfoldable pub uptime_of : List ℕ → Option ℕ
uptime_of [] = none
uptime_of (c ∷ cs) =
    let later = uptime_of cs in
    elim (if is_prefix (codes "Up ") (c ∷ cs) then starts_number (code_drop 3 (c ∷ cs)) else none) [
      | some ms ↦ some ms
      | none ↦ later
    ]

uptime_of_minutes : uptime_of (codes "Up 3 minutes (healthy)") ≡ some 180000
unfolding uptime_of
uptime_of_minutes = refl

-- Docker's text for a minute to two has no number, and is not matched.
uptime_of_a_minute : uptime_of (codes "Up About a minute") ≡ none
unfolding uptime_of
uptime_of_a_minute = refl

-- The two fields of a line; a line without a tab has no status.
abbrev status_field : List String → Option String
status_field (name ∷ status ∷ rest) = some status
status_field _ = none

abbrev name_field : List String → String
name_field [] = ""
name_field (name ∷ rest) = name

abbrev pub uptime_in : Option String → Option ℕ
unfolding uptime_of
uptime_in none = none
uptime_in (some status) = uptime_of (codes status)

abbrev recent_with : (min_uptime_ms : ℕ) (name : String) → Option ℕ → Option Recent
recent_with min_uptime_ms name none = none
recent_with min_uptime_ms name (some ms) =
    if ltb ms min_uptime_ms then some (record { name = trim name; uptime_ms = ms }) else none

unfoldable pub recent_of : (min_uptime_ms : ℕ) (line : String) → Option Recent
recent_of min_uptime_ms line =
    let fields = split b'\t' line in
    recent_with min_uptime_ms (name_field fields) (uptime_in (status_field fields))

abbrev pub relayer_lines : String → List String
relayer_lines output = keep (λ line. includes (codes "relayer-") (codes line)) (split b'\n' output)

-- `map` and `filter(Boolean)`.
abbrev pub recent_lines : (min_uptime_ms : ℕ) → List String → List Recent
recent_lines min_uptime_ms [] = []
recent_lines min_uptime_ms (line ∷ lines) =
    let rest = recent_lines min_uptime_ms lines in
    elim (recent_of min_uptime_ms line) [ none ↦ rest | some r ↦ r ∷ rest ]

abbrev recent_from : (min_uptime_ms : ℕ) → Result String → List Recent
recent_from min_uptime_ms (ok output) = recent_lines min_uptime_ms (relayer_lines output)
recent_from min_uptime_ms (err e) = []

module _ {S : Type 0} (docker : Docker S) (min_uptime_ms : ℕ) where
  unfoldable pub get_recent : S → List Recent × S
  unfolding recent_of
  get_recent s =
      let (r, t) = docker.ps "docker ps --format \"{{.Names}}\t{{.Status}}\"" 10000 s in
      (recent_from min_uptime_ms r, t)

  -- The rounds of the `while`; `none` if the fuel is used up. The first listing is that of the caller.
  unfoldable pub recovery_rounds : (fuel : ℕ) → List Recent × S → Option S
  unfolding get_recent
  recovery_rounds fuel ([], s) = some s
  recovery_rounds zero (r ∷ rs, s) = none
  recovery_rounds (suc fuel) (r ∷ rs, s) = recovery_rounds fuel (get_recent (docker.pause 30000 s))

  unfoldable pub await_relayer_recovery : (fuel : ℕ) → S → Option S
  unfolding get_recent recovery_rounds
  await_relayer_recovery fuel s = recovery_rounds fuel (get_recent s)
