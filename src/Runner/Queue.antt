-- ===== src/Runner/Queue.antt =====
-- `runParallelWithQueue` of scripts/runners/base-parallel-runner.js: several slots that take one file
-- at a time from a shared queue. A slot gives up control only where it awaits, so the code between
-- two awaits is one step; the steps of the slots are interleaved in any order.
pub mod Rules
pub mod Dispatch
pub mod Work
pub mod Accounts
pub mod Failures
pub mod Verdict
pub mod Reports
use rayls_sovereign_tests_au.Shared.{
  ℕ, zero, suc, ◌+◌, ◌<◌, String, Option, none, some, Bool, true, false, any, leb, List, [], ◌∷◌,
  ◌++◌, length, get_elem?, ◌≡◌, if◌then◌else◌,
}
use rayls_sovereign_tests_au.Shared.Slots.{set}
use rayls_sovereign_tests_au.Shared.Text.{◌<>◌, show}
use rayls_sovereign_tests_au.Compose.{join_spaces}
use text.Mathlib.Text.{◌==◌ as str_eq}

-- What the phase is given: the sorted files, the flags and the number of slots.
pub record Plan : Type 0 where
  pub files : List String
  pub flags : List String
  pub worker_count : ℕ

-- Where a slot stands: before the end of its delay at the start, at the child process of a file, or
-- behind its loop.
pub data Slot : Type 0 where
  waiting : Slot
  running : (run_index file_index : ℕ) → Slot
  finished : Slot

pub record SlotStats : Type 0 where
  pub files_completed : ℕ
  pub total_ms : ℕ

-- A child process that a slot started.
pub record Child : Type 0 where
  pub slot_id : ℕ
  pub run_index : ℕ
  pub file_index : ℕ
  pub command : String
  pub report_suffix : String

pub record Failure : Type 0 where
  pub file : String
  pub slot_id : ℕ
  pub file_index : ℕ

-- The variables that the slots share, where each slot stands, and what has happened: the children
-- started and the files whose child closed with its code, the newest first. A child that a signal
-- ended has no code.
pub record Queue : Type 0 where
  pub queue_pos : ℕ
  pub failures : List Failure
  pub bail_flag : Bool
  pub slot_stats : ℕ → SlotStats
  pub slots : ℕ → Slot
  pub children : List Child
  pub closed : List (ℕ × Option ℕ)

abbrev pub first_state : Queue
first_state = record {
  queue_pos = 0;
  failures = [];
  bail_flag = false;
  slot_stats = λ i. record { files_completed = 0; total_ms = 0 };
  slots = λ i. waiting;
  children = [];
  closed = [];
}

abbrev pub contains_text : String → List String → Bool
contains_text s = any (str_eq s)

abbrev pub file_at : List String → ℕ → String
file_at files k = elim (get_elem? files k) [ none ↦ "undefined" | some f ↦ f ]

abbrev pub is_success : Option ℕ → Bool
is_success none = false
is_success (some zero) = true
is_success (some (suc n)) = false

module _ (p : Plan) where
  abbrev pub child_of : (slot_id run_index file_index : ℕ) → Child
  child_of i r k = record {
    slot_id = i;
    run_index = r;
    file_index = k;
    command = join_spaces ("npx" ∷ "hardhat" ∷ "test" ∷ file_at p.files k ∷ p.flags);
    report_suffix = show i <> "-" <> show r;
  }

  abbrev pub start_file : (slot_id run_index file_index : ℕ) → Queue → Queue
  start_file i r k q = record q {
    slots = set i (running r k) q.slots;
    children = child_of i r k ∷ q.children;
  }

  abbrev pub leave : (slot_id : ℕ) → Queue → Queue
  leave i q = record q { slots = set i finished q.slots }

  -- `queuePos++` and what follows it, up to the next await.
  abbrev pub dequeue : (slot_id run_index : ℕ) → Queue → Queue
  dequeue i r q =
      let advanced = record q { queue_pos = suc q.queue_pos } in
      if leb (length p.files) q.queue_pos
      then leave i advanced
      else start_file i r q.queue_pos advanced

  -- The head of the loop.
  unfoldable pub pull : (slot_id run_index : ℕ) → Queue → Queue
  pull i r q = if q.bail_flag then leave i q else dequeue i r q

  -- The child of the slot has closed.
  abbrev pub completed : (slot_id file_index : ℕ) (code : Option ℕ) (file_ms : ℕ) → Queue → Queue
  completed i k code ms q = record q {
    slot_stats =
        set i
          (record {
            files_completed = suc ((q.slot_stats i).files_completed);
            total_ms = (q.slot_stats i).total_ms + ms;
          })
          q.slot_stats;
    closed = (k, code) ∷ q.closed;
  }

  abbrev pub failed : (slot_id file_index : ℕ) → Queue → Queue
  failed i k q = record q {
    failures = q.failures ++ record { file = file_at p.files k; slot_id = i; file_index = k } ∷ [];
  }

  -- The rest of the loop's body.
  unfoldable pub close :
      (slot_id run_index file_index : ℕ) (code : Option ℕ) (file_ms : ℕ) → Queue → Queue
  unfolding pull
  close i r k code ms q =
      if is_success code
      then pull i (suc r) (completed i k code ms q)
      else if contains_text "--bail" p.flags
      then leave i (record (failed i k (completed i k code ms q)) { bail_flag = true })
      else pull i (suc r) (failed i k (completed i k code ms q))

  -- A slot below the number of workers goes on: its delay is over, or its child has closed.
  pub data Step (q : Queue) : Queue → Type 0 where
    wake : (i : ℕ) → i < p.worker_count → q.slots i ≡ waiting → Step q (pull i 0 q)
    closes :
        (i r k : ℕ) (code : Option ℕ) (ms : ℕ)
        → i < p.worker_count
        → q.slots i ≡ running r k
        → Step q (close i r k code ms q)

  pub data Reach : Queue → Type 0 where
    start : Reach first_state
    later : {s t : Queue} → Reach s → Step s t → Reach t

  -- `Promise.all` of the slots resolves.
  abbrev pub AllFinished : Queue → Type 0
  AllFinished q = (i : ℕ) → i < p.worker_count → q.slots i ≡ finished
