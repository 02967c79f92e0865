-- ===== src/Logging.antt =====
-- src/entities/Logger.ts: the logger of the process, with the loading operations that it tracks, and
-- the world that all asynchronous code changes: this logger and everything outside the process.
-- The time stamp and the colours of a printed line are not modelled, its text is.
pub mod Laws
use rayls_sovereign_tests_au.Shared.{
  ℕ, suc, ◌-◌, ◌/◌, ◌%◌, String, Option, none, some, List, [], ◌∷◌, ◌++◌, Bool, true, false, not,
  ◌==◌, keep, if◌then◌else◌,
}
use rayls_sovereign_tests_au.Shared.Text.{◌<>◌, show}
use rayls_sovereign_tests_au.Js.{JsError, Exec, modify}
use text.Mathlib.Text.{◌==◌ as str_eq}

-- What the process runs on: timers, the clock, and the texts that the language makes of values.
-- `wait ms` is a `setTimeout` of `ms` that has passed; `now` is the clock in milliseconds;
-- `error_string` is `String(err)`, `encode_uri` is `encodeURIComponent`, `json_string` is `JSON.stringify` of
-- a text, and `env` is `process.env`.
pub record Host (X : Type 0) : Type 0 where
  pub wait : ℕ → X → X
  pub now : X → ℕ
  pub error_string : JsError → String
  pub encode_uri : String → String
  pub json_string : String → String
  pub env : String → Option String

pub record Load : Type 0 where
  pub message : String
  pub start_time : ℕ

-- `activeLoads` is an association list by load id, newest first.
pub record Logger : Type 0 where
  pub active_loads : List (ℕ × Load)
  pub next_load_id : ℕ
  pub console : List String

pub record World (X : Type 0) : Type 0 where
  pub logger : Logger
  pub outside : X

abbrev pub print : String → Logger → Logger
print line l = record l { console = l.console ++ line ∷ [] }

unfoldable pub find_load : ℕ → List (ℕ × Load) → Option Load
find_load id [] = none
find_load id ((i, entry) ∷ loads) = if i == id then some entry else find_load id loads

unfoldable pub delete_load : ℕ → List (ℕ × Load) → List (ℕ × Load)
delete_load id loads = keep (λ p. not (p.0 == id)) loads

-- `${ms / 1000}` of a whole number of milliseconds: no trailing zeros.
unfoldable pub show_seconds : ℕ → String
show_seconds ms =
    let whole = show (ms / 1000) in
    let tenths = show (ms / 100 % 10) in
    let hundredths = show (ms / 10 % 10) in
    let rest = ms % 1000 in
    if rest == 0
    then whole
    else if rest % 100 == 0
    then whole <> "." <> tenths
    else if rest % 10 == 0
    then whole <> "." <> tenths <> hundredths
    else whole <> "." <> tenths <> hundredths <> show (ms % 10)

abbrev finish_found : ℕ → String → ℕ → Option Load → Logger → Logger
finish_found id status finished none l = l
finish_found id status finished (some entry) l =
    let duration = show_seconds (finished - entry.start_time) in
    record (print (entry.message <> " — " <> status <> " [" <> duration <> " s]") l) {
      active_loads = delete_load id l.active_loads;
    }

module _ {X : Type 0} where
  -- `log`, `info`, `success`, `error`, `data` and `scenario` print one line.
  unfoldable pub log : String → World X → World X
  log message w = record w { logger = print message w.logger }

module _ {X : Type 0} (host : Host X) where
  -- `delay(ms)` of src/utils/common.ts.
  unfoldable pub delay : ℕ → World X → World X
  delay ms w = record w { outside = host.wait ms w.outside }

  -- The id of the new load, and the world in which it is active.
  unfoldable pub load : String → World X → ℕ × World X
  load message w =
      let l = w.logger in
      let entry : Load = record { message = message; start_time = host.now w.outside } in
      (
        l.next_load_id,
        record w {
          logger = print (message <> " ...") (record l {
            active_loads = (l.next_load_id, entry) ∷ l.active_loads;
            next_load_id = suc l.next_load_id;
          });
        },
      )

  -- Nothing happens to a load that is not active.
  unfoldable pub finish_load : ℕ → String → World X → World X
  unfolding find_load
  finish_load id status w =
      let found = find_load id w.logger.active_loads in
      record w { logger = finish_found id status (host.now w.outside) found w.logger }

  unfoldable pub load_success : ℕ → World X → World X
  load_success id w = finish_load id "SUCCESS" w

  unfoldable pub load_error : ℕ → World X → World X
  load_error id w = finish_load id "ERROR" w

  unfoldable pub optional_log : String → World X → World X
  optional_log message w = elim (host.env "LOG_VERBOSE") [
    | none ↦ w
    | some v ↦ (if str_eq v "true" then log message w else w)
  ]
