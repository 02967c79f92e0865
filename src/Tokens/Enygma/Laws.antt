-- ===== src/Tokens/Enygma/Laws.antt =====
-- What has been seen when a deposit of an Enygma token in the DvP vault returns.
use rayls_sovereign_tests_au.Shared.{ℕ, String, true, false, List, length, ◌≡◌, ◌⊎◌}
use rayls_sovereign_tests_au.Js.{JsError, ok, err, Exec}
use rayls_sovereign_tests_au.Logging.{Host, World}
use rayls_sovereign_tests_au.Polling.Loads.{Reached}
use rayls_sovereign_tests_au.Tokens.Reads.{read_poll}
use rayls_sovereign_tests_au.Tokens.{is_true}
use rayls_sovereign_tests_au.Tokens.Enygma.{
  Enygma, Merkle, DvpHub, resolve_merkle_contract, read_logs, read_tree, is_complete,
  wait_for_dvp_address_ready, merkle_message, merkle_attempts,
}

module _ {X : Type 0} (hub : DvpHub X) where
  -- The count of events: their number, or 0 where they could not be read.
  abbrev pub Counted : (from_block count : ℕ) → World X → World X → Type 0
  Counted from_block count w u =
      ((logs : List String) × (read_logs hub from_block w ≡ (ok logs, u)) × (count ≡ length logs))
      ⊎ ((e : JsError) × (read_logs hub from_block w ≡ (err e, u)) × (count ≡ 0))

module _ {X : Type 0} (host : Host X) (workers : ℕ) (symbol : String) (hub : DvpHub X) where
  -- In a round of the wait for the Merkle tree that is begun behind `w`, once the DvP address is ready and
  -- the tree's contract is found, its root is valid and the number of events is given.
  abbrev pub TreeHas : (deposits from_block : ℕ) → World X → Type 0
  TreeHas deposits from_block w =
      (merkle : Merkle X) × (query : (from_block to_block : ℕ) → Exec (World X) (List String)) × (s
        x v z t : World X)
      × (logs : List String) × (wait_for_dvp_address_ready host workers symbol hub w ≡ (ok tt, s))
      × (resolve_merkle_contract hub s ≡ (ok merkle, x))
      × (hub.commitments x ≡ (ok query, v))
      × (read_tree hub merkle query from_block z ≡ (ok (true, logs), t))
      × (length logs ≡ deposits)
      × Reached host workers is_true (merkle_message host workers symbol hub deposits)
          (read_poll (read_tree hub merkle query from_block) (is_complete deposits)
            (merkle_attempts host workers symbol hub) false)
          v z
