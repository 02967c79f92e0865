-- ===== src/Env.antt =====
-- src/config/env-config.ts: the settings of a process, computed from its environment.
use rayls_sovereign_tests_au.Shared.{ℕ, ◌*◌, ltb, leb, if◌then◌else◌}

abbrev pub second : ℕ
second = 1000

abbrev pub minute : ℕ
minute = 60 * second

-- Timeouts are scaled when several workers run in parallel.
abbrev pub timeout_multiplier : ℕ → ℕ
timeout_multiplier workers = if leb 5 workers then 4 else if ltb 1 workers then 2 else 1

abbrev pub default_timeout : ℕ → ℕ
default_timeout workers = 4 * minute * timeout_multiplier workers
