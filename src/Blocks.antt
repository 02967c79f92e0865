-- ===== src/Blocks.antt =====
-- `waitForNumberOfBlocks` of src/utils/network-utils.ts. The provider's answer to `getBlockNumber` is
-- a parameter.
pub mod Laws
use rayls_sovereign_tests_au.Shared.{ℕ, ◌+◌, Bool, false, leb, some}
use rayls_sovereign_tests_au.Shared.Text.{◌<>◌, show}
use rayls_sovereign_tests_au.Js.{ok, Exec, and_then}
use rayls_sovereign_tests_au.Logging.{Host, World, log}
use rayls_sovereign_tests_au.Polling.{PollOptions, eventually}
use rayls_sovereign_tests_au.Tokens.{is_true, bool_json}

module _ {X : Type 0} where
  abbrev pub block_poll : Exec (World X) ℕ → ℕ → PollOptions (World X) Bool
  block_poll get_block_number target = record {
    check = λ w. and_then (get_block_number w) (λ current v. (ok (leb target current), v));
    interval = some 1000;
    attempts = some 300;
    tolerate_errors = false;
  }

  unfoldable pub wait_for_number_of_blocks :
      Host X → (workers : ℕ) → (number_of_blocks : ℕ) → Exec (World X) ℕ → Exec (World X) Bool
  wait_for_number_of_blocks host workers number_of_blocks get_block_number w =
      and_then (get_block_number w) (λ initial v.
        eventually host workers is_true bool_json
          ("Waiting for block "
            <> show (initial + number_of_blocks)
            <> " (from "
            <> show initial
            <> ")")
          (block_poll get_block_number (initial + number_of_blocks))
          (log ("Waiting for " <> show number_of_blocks <> " blocks to be mined...") v))
