-- ===== src/Blocks/Laws.antt =====
-- What has been mined when the wait for blocks returns.
use rayls_sovereign_tests_au.Shared.{ℕ, ◌+◌, ◌≤◌, Bool, true, leb, leb→le, ◌≡◌, ◌∙◌}
use rayls_sovereign_tests_au.Shared.Text.{◌<>◌, show}
use rayls_sovereign_tests_au.Js.{Result, ok, Exec, and_then-ok}
use rayls_sovereign_tests_au.Logging.{Host, World, log}
use rayls_sovereign_tests_au.Polling.{eventually}
use rayls_sovereign_tests_au.Polling.Loads.{Reached, eventually-Checked}
use rayls_sovereign_tests_au.Tokens.{is_true, bool_json}
use rayls_sovereign_tests_au.Blocks.{block_poll, wait_for_number_of_blocks}

reached :
    {S : Type 0} (target n : ℕ) (b : Bool) (s t : S)
    → ◌≡◌ {A = Result Bool × S} (ok (leb target n), s) (ok b, t)
    → b ≡ true
    → target ≤ n
reached target n b s t h holds = let same : leb target n ≡ b = cc in leb→le target n (same ∙ holds)

-- Where the wait returns, the provider has reported a number of blocks, and in a state that the wait
-- reached it reports a number that is higher by at least the count that was asked for.
pub wait_for_number_of_blocks-mined :
    {X : Type 0} (host : Host X) (workers count : ℕ) (get_block_number : Exec (World X) ℕ)
    (w u : World X) (b : Bool)
    → wait_for_number_of_blocks host workers count get_block_number w ≡ (ok b, u)
    → (initial reported : ℕ) × (v z t : World X) × (get_block_number w ≡ (ok initial, v))
      × Reached host workers is_true
          ("Waiting for block " <> show (initial + count) <> " (from " <> show initial <> ")")
          (block_poll get_block_number (initial + count))
          (log ("Waiting for " <> show count <> " blocks to be mined...") v)
          z
      × (get_block_number z ≡ (ok reported, t))
      × (initial + count ≤ reported)
unfolding wait_for_number_of_blocks
wait_for_number_of_blocks-mined host workers count get_block_number w u b h =
    let (initial, v, read, waited) =
      and_then-ok (get_block_number w)
        (λ initial v.
          eventually host workers is_true bool_json
            ("Waiting for block " <> show (initial + count) <> " (from " <> show initial <> ")")
            (block_poll get_block_number (initial + count))
            (log ("Waiting for " <> show count <> " blocks to be mined...") v))
        b u h in
    let (z, t, checked, holds, at) =
      eventually-Checked host workers is_true bool_json _ _ _ u b waited in
    let (reported, s, current, judged) = and_then-ok (get_block_number z) _ b t checked in
    (
      initial,
      reported,
      v,
      z,
      s,
      read,
      at,
      current,
      reached (initial + count) reported b s t judged holds,
    )
