-- ===== src/Tokens/Enygma/Db.antt =====
-- src/utils/db-utils.ts: `checkDbBalance`, `cleanEnygmaDb` and `waitForDvpDepositConfirmed`. The tables
-- of the relayer's database are parameters.
use rayls_sovereign_tests_au.Shared.{
  ℕ, zero, suc, ◌+◌, ◌*◌, ◌/◌, ◌%◌, ◌^◌, String, Option, none, some, Bool, false, not, ◌&&◌, ◌||◌,
  ◌==◌, ltb, List, [], ◌∷◌, ◌≡◌, refl, if◌then◌else◌,
}
use rayls_sovereign_tests_au.Shared.Text.{◌<>◌, show}
use rayls_sovereign_tests_au.Js.{JsError, ok, err, Exec, and_then, or_else}
use rayls_sovereign_tests_au.Logging.{Host, World, log}
use rayls_sovereign_tests_au.Tokens.Reads.{await_read}
use text.Mathlib.Text.{◌==◌ as str_eq}

-- `Number(n)` of a whole number: it is kept below 2^53, and from there on rounded to 53 bits, halves to
-- the even number. 256 halvings take an amount of a contract below 2^53.
excess : ℕ → ℕ → ℕ
excess zero n = 0
excess (suc fuel) n = let rest = excess fuel (n / 2) in if ltb n (2 ^ 53) then 0 else rest + 1

abbrev rounded : ℕ → ℕ → ℕ → ℕ
rounded unit q r =
    if ltb unit (2 * r) || (2 * r == unit && q % 2 == 1) then (q + 1) * unit else q * unit

unfoldable pub to_number : ℕ → ℕ
unfolding excess
to_number n =
    if ltb n (2 ^ 53) then n else let unit = 2 ^ excess 256 n in rounded unit (n / unit) (n % unit)

to_number_example : to_number (2 ^ 53 + 3) ≡ 2 ^ 53 + 4
unfolding to_number
to_number_example = refl

pub record EnygmaRow : Type 0 where
  pub finalized_balance : ℕ
  pub finalized_r : ℕ

-- The row of the token's resource id in the node's database, and the two calls of the token's contract
-- on the hub: the finalised balance of the node's chain, and a Pedersen commitment.
pub record EnygmaDb (X : Type 0) : Type 0 where
  pub use_db_checks : Bool
  pub chain_id : String
  pub get_enygma : Exec (World X) (Option EnygmaRow)
  pub get_balance_finalised : Exec (World X) (ℕ × ℕ)
  pub ped_com : ℕ → ℕ → Exec (World X) (ℕ × ℕ)

abbrev pub has_balance : ℕ → Option EnygmaRow → Bool
has_balance expected none = false
has_balance expected (some row) = to_number row.finalized_balance == expected

abbrev pub same_point : ℕ × ℕ → ℕ × ℕ → Bool
same_point (a, b) (c, d) = a == c && b == d

module _ {X : Type 0} (host : Host X) (workers : ℕ) (symbol : String) (db : EnygmaDb X) where
  abbrev compare_commitment : ℕ → ℕ × ℕ → Option EnygmaRow → Exec (World X) Bool
  compare_commitment expected point none w = (ok false, w)
  compare_commitment expected point (some row) w =
      and_then (db.ped_com expected row.finalized_r w)
        (λ commitment v. (ok (same_point point commitment), v))

  abbrev compare_finalised : ℕ → ℕ × ℕ → Exec (World X) Bool
  compare_finalised expected point w =
      if point.0 == 0
      then (ok false, w)
      else and_then (db.get_enygma w) (compare_commitment expected point)

  abbrev pub read_commitment : ℕ → Exec (World X) Bool
  read_commitment expected w = and_then (db.get_balance_finalised w) (compare_finalised expected)

  unfoldable pub check_db_balance : ℕ → Exec (World X) (Unit {0})
  check_db_balance expected w =
      if not db.use_db_checks
      then (ok tt, log "USE_DB_CHECKS not set. Skipping DB checks." w)
      else and_then
          (await_read db.get_enygma (has_balance expected) host workers
            ("Checking " <> symbol <> " R in DB (chain=" <> db.chain_id <> ")") w)
          (λ done.
            await_read (read_commitment expected) (λ b. b) host workers
              ("Checking " <> symbol <> " Pedersen commitments (chain=" <> db.chain_id <> ")"))

  -- `deposit` finds an unspent deposit of the token in the relayer's table, if there is one.
  unfoldable pub wait_for_dvp_deposit_confirmed :
      (deposit : Exec (World X) Bool) → (token_id : String) → Exec (World X) (Unit {0})
  wait_for_dvp_deposit_confirmed deposit token_id =
      await_read deposit (λ found. found) host workers
        ("Waiting for relayer deposit confirmation (token_id=" <> token_id <> ", status=Unspent)")

module _ {X : Type 0} (host : Host X) (connection_of : String → Option String)
    (delete_from : (connection table : String) → Exec (World X) ℕ) where
  abbrev pub clean_table : (connection node table : String) → Exec (World X) (Unit {0})
  clean_table connection node table w = and_then (delete_from connection table w) (λ rows v. (
    ok tt,
    log ("Cleaned " <> show rows <> " rows from " <> table <> " table for Node " <> node) v,
  ))

  -- An error is reported and thrown on.
  abbrev pub report_error : (node : String) → JsError → Exec (World X) (Unit {0})
  report_error node e w =
      (err e, log ("Error cleaning DB for Node " <> node <> ": " <> host.error_string e) w)

  abbrev pub clean_at : (node connection : String) → Exec (World X) (Unit {0})
  clean_at node connection w =
      or_else
        (and_then (clean_table connection node "enygma" w)
          (λ done. clean_table connection node "enygma_history"))
        (report_error node)

  abbrev pub skip_node : (node : String) → Exec (World X) (Unit {0})
  skip_node node w = (
    ok tt,
    log ("Skipping cleaning for Node " <> node <> " because connection string is missing") w,
  )

  abbrev pub clean_node : (node : String) → Option String → Exec (World X) (Unit {0})
  clean_node node none w = skip_node node w
  clean_node node (some connection) w =
      if str_eq connection "" then skip_node node w else clean_at node connection w

  unfoldable pub clean_nodes : List String → Exec (World X) (Unit {0})
  clean_nodes [] w = (ok tt, w)
  clean_nodes (node ∷ nodes) w =
      and_then (clean_node node (connection_of node) w) (λ done. clean_nodes nodes)

  unfoldable pub clean_enygma_db :
      (clean_before_tests : Bool) → (rayls_nodes : List String) → Exec (World X) (Unit {0})
  clean_enygma_db clean_before_tests rayls_nodes w =
      if not clean_before_tests
      then (ok tt, log "CLEAN_ENYGMA_DB_BEFORE_TESTS not set. Skipping DB cleaning." w)
      else clean_nodes rayls_nodes w
