-- ===== src/PrivateHub/Laws.antt =====
-- The addresses that the hub has once its deployment is read.
use rayls_sovereign_tests_au.Shared.{
  ℕ, zero, suc, ◌<◌, String, Option, some, Bool, true, false, List, [], ◌∷◌, get_elem?, ◌≡◌, ◌≢◌,
  refl, sym, ap, ◌∙◌, AllOf, subst, arith, if◌then◌else◌,
}
use rayls_sovereign_tests_au.Js.{Result, ok, err, Exec, and_then}
use rayls_sovereign_tests_au.Logging.{World}
use rayls_sovereign_tests_au.Contracts.{Contract}
use rayls_sovereign_tests_au.PrivateHub.{
  Wiring, pnh_contract_wiring, Table, value_of, HubState, new_hub, address_field, beside_hub,
  write_field, events_address, is_present, Deployed, first_of, rest_of, named_from, wire_all,
  wire_events, table_of, wire_deployment, get_proxy_registry_deployment,
}
use text.Mathlib.Text.{◌==◌ as str_eq}
use text.Mathlib.TextEquality.{eq_iff}

not_equal : (b : Bool) → (b ≡ true → ⊥) → b ≡ false
not_equal true h = absurd (h refl)
not_equal false h = refl

value_of-same : (n : String) (v : Option String) (table : Table) → value_of n ((n, v) ∷ table) ≡ v
unfolding value_of
value_of-same n v table = rw ((eq_iff n n).1 refl) refl

value_of-other :
    (m n : String) (v : Option String) (table : Table)
    → m ≢ n
    → value_of n ((m, v) ∷ table) ≡ value_of n table
unfolding value_of
value_of-other m n v table h = rw (not_equal (str_eq m n) (λ e. h ((eq_iff m n).0 e))) refl

rest-get_elem? : (xs : List String) (i : ℕ) → get_elem? (rest_of xs) i ≡ get_elem? xs (suc i)
rest-get_elem? [] i = refl
rest-get_elem? (x ∷ xs) i = refl

first-get_elem? : (xs : List String) → first_of xs ≡ get_elem? xs 0
first-get_elem? [] = refl
first-get_elem? (x ∷ xs) = refl

value_of-absent :
    (n : String) (acc : Table) (names addresses : List String)
    → ((j : ℕ) → get_elem? names j ≢ some n)
    → value_of n (named_from acc names addresses) ≡ value_of n acc
unfolding named_from
value_of-absent n acc [] addresses h = refl
value_of-absent n acc (m ∷ names) addresses h =
    value_of-absent n ((m, first_of addresses) ∷ acc) names (rest_of addresses) (λ j. h (suc j))
    ∙ value_of-other m n (first_of addresses) acc (λ e. h 0 (ap some e))

-- The table gives a name the address at the last index at which the name stands, or `undefined` where
-- the list of addresses is too short for that index.
pub value_of-last :
    (n : String) (acc : Table) (names addresses : List String) (i : ℕ)
    → get_elem? names i ≡ some n
    → ((j : ℕ) → i < j → get_elem? names j ≢ some n)
    → value_of n (named_from acc names addresses) ≡ get_elem? addresses i
unfolding named_from
value_of-last n acc [] addresses i at last = absurd (cc)
value_of-last n acc (m ∷ names) addresses zero at last =
    let same : m ≡ n = cc in
    value_of-absent n ((m, first_of addresses) ∷ acc) names (rest_of addresses)
      (λ j. last (suc j) (omega arith))
    ∙ (subst (λ (k : String). value_of n ((k, first_of addresses) ∷ acc) ≡ first_of addresses)
          (sym same) (value_of-same n (first_of addresses) acc)
        ∙ first-get_elem? addresses)
value_of-last n acc (m ∷ names) addresses (suc i) at last =
    value_of-last n ((m, first_of addresses) ∷ acc) names (rest_of addresses) i at
      (λ j below. last (suc j) (omega arith))
    ∙ rest-get_elem? addresses i

abbrev pub table_from : Deployed → Table
table_from d = named_from [] d.names d.addresses

-- Each field of the wiring table holds what the registry's table has for its contract.
abbrev pub AllWired : Table → HubState → Type 0
AllWired table hub =
    (hub.names_and_addresses ≡ table)
    × AllOf (λ row. address_field row.address_field hub ≡ value_of row.name table)
        pnh_contract_wiring

-- The fields behind the wiring of some rows.
unfoldable pub written : List Wiring → Table → Table → Table
written [] table fields = fields
written (row ∷ rows) table fields =
    written rows table ((row.address_field, value_of row.name table) ∷ fields)

module _ {X : Type 0}
    (get_contract_at : (factory_name : String)
      → (address : Option String) → (key : String) → Exec (World X) Contract) where
  -- The wiring leaves the table alone, however it ends, and writes the fields of all rows if it returns.
  abbrev pub Wires : Table → Table → Result (Unit {0}) × (HubState × World X) → Type 0
  Wires table fields (r, (hub, w)) =
      (hub.names_and_addresses ≡ table) × ((x : Unit {0}) → r ≡ ok x → hub.address_fields ≡ fields)

  abbrev row_done :
      Wiring → HubState → Result Contract × World X → Result (Unit {0}) × (HubState × World X)
  row_done row hub p = and_then (beside_hub hub p) (λ contract s.
      (ok tt, (write_field row.address_field (value_of row.name hub.names_and_addresses) s.0, s.1)))

  row-Wires :
      (row : Wiring) (rows : List Wiring) (hub : HubState) (p : Result Contract × World X)
      → ((h : HubState) (v : World X)
          → Wires h.names_and_addresses
              (written rows h.names_and_addresses h.address_fields)
              (wire_all get_contract_at rows (h, v)))
      → Wires hub.names_and_addresses
          (written rows hub.names_and_addresses
            ((row.address_field, value_of row.name hub.names_and_addresses) ∷ hub.address_fields))
          (and_then (row_done row hub p) (λ done. wire_all get_contract_at rows))
  row-Wires row rows hub (ok c, v) rest =
      rest (write_field row.address_field (value_of row.name hub.names_and_addresses) hub) v
  row-Wires row rows hub (err e, v) rest = (refl, (λ x h. absurd (cc)))

  pub wire_all-Wires :
      (rows : List Wiring) (hub : HubState) (w : World X)
      → Wires hub.names_and_addresses
          (written rows hub.names_and_addresses hub.address_fields)
          (wire_all get_contract_at rows (hub, w))
  unfolding wire_all written
  wire_all-Wires [] hub w = (refl, (λ x e. refl))
  wire_all-Wires (row ∷ rows) hub w =
      row-Wires row rows hub
        (get_contract_at row.factory_name (value_of row.name hub.names_and_addresses) row.cache_key
          w)
        (wire_all-Wires rows)

  written-AllWired :
      (hub : HubState) (table : Table)
      → hub.names_and_addresses ≡ table
      → hub.address_fields ≡ written pnh_contract_wiring table []
      → AllWired table hub
  unfolding address_field written
  written-AllWired hub table same fields =
      rw (fields) (same, (refl, (refl, (refl, (refl, (refl, (refl, (refl, (refl, (refl, tt))))))))))

  unfoldable pub events_done :
      HubState
      → Option String
      → Result Contract × World X
      → Result (Unit {0}) × (HubState × World X)
  events_done hub address p =
      and_then (beside_hub hub p)
        (λ contract s. (ok tt, (write_field "enygmaPNEventsAddress" address s.0, s.1)))

  events-AllWired :
      (table t : Table) (address : Option String) (h hub : HubState) (u v : World X) (b : Bool)
      (p : Result Contract × World X)
      → AllWired table h
      → ◌≡◌ {A = Result Table × (HubState × World X)}
          (and_then
            (if b then events_done h address p else (ok tt, (h, v)))
            (table_of get_contract_at))
          (ok t, (hub, u))
      → (t ≡ table) × AllWired table hub
  unfolding events_done address_field
  events-AllWired table t address h hub u v true (ok c, x) wired e =
      let same : ◌≡◌ {A = HubState} (write_field "enygmaPNEventsAddress" address h) hub = cc in
      let all : AllWired table (write_field "enygmaPNEventsAddress" address h) = wired in
      let given : h.names_and_addresses ≡ t = cc in
      (sym given ∙ wired.0, subst (AllWired table) same all)
  events-AllWired table t address h hub u v true (err x, y) wired e = absurd (cc)
  events-AllWired table t address h hub u v false p wired e =
      let same : h ≡ hub = cc in
      let given : h.names_and_addresses ≡ t = cc in
      (sym given ∙ wired.0, subst (AllWired table) same wired)

  finished-AllWired :
      (table t : Table) (q : Result (Unit {0}) × (HubState × World X)) (hub : HubState)
      (u : World X)
      → Wires table (written pnh_contract_wiring table []) q
      → and_then (and_then q (wire_events get_contract_at)) (table_of get_contract_at)
        ≡ (ok t, (hub, u))
      → (t ≡ table) × AllWired table hub
  unfolding events_done
  finished-AllWired table t (ok x, (h, v)) hub u (same, fields) e =
      events-AllWired table t (events_address h.names_and_addresses) h hub u v
        (is_present (events_address h.names_and_addresses))
        (get_contract_at "EnygmaPNEvents__factory" (events_address h.names_and_addresses)
          "EnygmaPNEvents" v)
        (written-AllWired h table same (fields x refl)) e
  finished-AllWired table t (err e, s) hub u wires h = absurd (cc)

  deployed_of :
      (p : Result Deployed × World X) (t : Table) (hub : HubState) (u : World X)
      → and_then (beside_hub new_hub p) (wire_deployment get_contract_at) ≡ (ok t, (hub, u))
      → (d : Deployed) × (v : World X) × (p ≡ (ok d, v))
        × (wire_deployment get_contract_at d (new_hub, v) ≡ (ok t, (hub, u)))
  deployed_of (ok d, v) t hub u h = (d, v, refl, h)
  deployed_of (err e, v) t hub u h = absurd (cc)

  -- A new hub whose deployment is read returns the table of the names and addresses that the registry
  -- gave, and each of the nine address fields of its wiring holds the table's address of its contract.
  pub get_proxy_registry_deployment-AllWired :
      (get_all_contracts : Exec (World X) Deployed) (w u : World X) (t : Table) (hub : HubState)
      → get_proxy_registry_deployment get_contract_at get_all_contracts (new_hub, w)
        ≡ (ok t, (hub, u))
      → (d : Deployed) × (v : World X) × (get_all_contracts w ≡ (ok d, v))
        × (t ≡ table_from d)
        × AllWired (table_from d) hub
  unfolding get_proxy_registry_deployment
  get_proxy_registry_deployment-AllWired get_all_contracts w u t hub h =
      let (d, v, read, rest) = deployed_of (get_all_contracts w) t hub u h in
      let (same, wired) =
        finished-AllWired (table_from d) t
          (wire_all get_contract_at pnh_contract_wiring
            (record new_hub { names_and_addresses = table_from d }, v))
          hub u
          (wire_all-Wires pnh_contract_wiring
            (record new_hub { names_and_addresses = table_from d }) v)
          rest in
      (d, v, read, same, wired)
