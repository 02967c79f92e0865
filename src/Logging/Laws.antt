-- ===== src/Logging/Laws.antt =====
-- The load table of the logger: ids are fresh, finishing a load removes that load and no other, and a
-- load that is started and finished leaves the table as it was.
use rayls_sovereign_tests_au.Shared.{
  ℕ, suc, ◌<◌, String, none, List, [], ◌∷◌, ◌≡◌, refl, arith, ◌==◌, if◌then◌else◌,
}
use rayls_sovereign_tests_au.Logging.{Host, Load, World, find_load, delete_load, load, finish_load}

-- Every active id is below the next one.
abbrev pub AllBelow : ℕ → List (ℕ × Load) → Type 0
AllBelow n [] = Unit {0}
AllBelow n ((i, entry) ∷ loads) = (i < n) × AllBelow n loads

AllBelow-suc : (n : ℕ) (loads : List (ℕ × Load)) → AllBelow n loads → AllBelow (suc n) loads
AllBelow-suc n [] h = tt
AllBelow-suc n ((i, entry) ∷ loads) (below, h) = (omega arith, AllBelow-suc n loads h)

delete_load-AllBelow :
    (n id : ℕ) (loads : List (ℕ × Load)) → AllBelow n loads → AllBelow n (delete_load id loads)
unfolding delete_load
delete_load-AllBelow n id [] h = tt
delete_load-AllBelow n id ((i, entry) ∷ loads) (below, h) =
    ground (arith, delete_load-AllBelow n id loads h)

delete_load_of_AllBelow :
    (n : ℕ) (loads : List (ℕ × Load)) → AllBelow n loads → delete_load n loads ≡ loads
unfolding delete_load
delete_load_of_AllBelow n [] h = refl
delete_load_of_AllBelow n ((i, entry) ∷ loads) (below, h) =
    ground (arith, delete_load_of_AllBelow n loads h)

find_load-delete_load :
    (id j : ℕ) (loads : List (ℕ × Load))
    → find_load j (delete_load id loads) ≡ (if id == j then none else find_load j loads)
unfolding find_load delete_load
find_load-delete_load id j [] = ground arith
find_load-delete_load id j ((i, entry) ∷ loads) = ground (arith, find_load-delete_load id j loads)

find_load-none→delete_load :
    (id : ℕ) (loads : List (ℕ × Load)) → find_load id loads ≡ none → delete_load id loads ≡ loads
unfolding find_load delete_load
find_load-none→delete_load id [] h = refl
find_load-none→delete_load id ((i, entry) ∷ loads) h =
    ground (arith, find_load-none→delete_load id loads)

-- The invariant of the logger.
abbrev pub IsConsistent : {X : Type 0} → World X → Type 0
IsConsistent w = AllBelow w.logger.next_load_id w.logger.active_loads

module _ {X : Type 0} (host : Host X) where
  pub load-IsConsistent :
      (message : String) (w : World X) → IsConsistent w → IsConsistent (load host message w).1
  unfolding load
  load-IsConsistent message w h =
      (omega arith, AllBelow-suc w.logger.next_load_id w.logger.active_loads h)

  -- Finishing a load is deleting its id, whether or not it was active.
  pub active_loads-finish_load :
      (id : ℕ) (status : String) (w : World X)
      → (finish_load host id status w).logger.active_loads ≡ delete_load id w.logger.active_loads
  unfolding finish_load
  active_loads-finish_load id status w =
      ground (arith, find_load-none→delete_load id w.logger.active_loads)

  pub next_load_id-finish_load :
      (id : ℕ) (status : String) (w : World X)
      → (finish_load host id status w).logger.next_load_id ≡ w.logger.next_load_id
  unfolding finish_load
  next_load_id-finish_load id status w = ground arith

  pub outside-finish_load :
      (id : ℕ) (status : String) (w : World X) → (finish_load host id status w).outside ≡ w.outside
  unfolding finish_load
  outside-finish_load id status w = refl

  pub finish_load-IsConsistent :
      (id : ℕ) (status : String) (w : World X)
      → IsConsistent w
      → IsConsistent (finish_load host id status w)
  finish_load-IsConsistent id status w h =
      rw (active_loads-finish_load id status w, next_load_id-finish_load id status w)
        (delete_load-AllBelow w.logger.next_load_id id w.logger.active_loads h)

  -- After a load is finished it is not active, and any other load is active as before.
  pub find_load-finish_load :
      (id j : ℕ) (status : String) (w : World X)
      → find_load j (finish_load host id status w).logger.active_loads
        ≡ (if id == j then none else find_load j w.logger.active_loads)
  find_load-finish_load id j status w =
      rw (active_loads-finish_load id status w) (find_load-delete_load id j w.logger.active_loads)

  -- A load that is started in a consistent logger, and finished with any status after work that left
  -- the table alone, leaves the table as it was before the load.
  pub load-finish_load_balanced :
      (message status : String) (w v : World X)
      → IsConsistent w
      → v.logger.active_loads ≡ (load host message w).1.logger.active_loads
      → (finish_load host (load host message w).0 status v).logger.active_loads
        ≡ w.logger.active_loads
  unfolding load delete_load
  load-finish_load_balanced message status w v h same =
      rw (active_loads-finish_load (load host message w).0 status v, same)
        (ground (arith, delete_load_of_AllBelow w.logger.next_load_id w.logger.active_loads h))
