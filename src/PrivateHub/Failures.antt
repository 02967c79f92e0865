-- ===== src/PrivateHub/Failures.antt =====
-- What a second reading of the hub's deployment does behind one whose wiring failed.
use rayls_sovereign_tests_au.Shared.{
  String, Option, Bool, true, false, List, [], ◌∷◌, ◌≡◌, ◌≢◌, refl, sym, ap, ◌∙◌, subst,
  if◌then◌else◌,
}
use rayls_sovereign_tests_au.Js.{JsError, Result, ok, err, Exec, and_then}
use rayls_sovereign_tests_au.Logging.{World}
use rayls_sovereign_tests_au.Contracts.{Contract}
use rayls_sovereign_tests_au.PrivateHub.{
  Table, HubState, new_hub, Deployed, first_of, rest_of, named_from, beside_hub, events_address,
  is_present, wire_all, wire_events, table_of, wire_deployment, deploy_unless, pnh_contract_wiring,
  get_proxy_registry_deployment,
}
use rayls_sovereign_tests_au.PrivateHub.Laws.{
  Wires, written, wire_all-Wires, events_done, table_from,
}

named_from-nonempty :
    (acc : Table) (names addresses : List String) → acc ≢ [] → named_from acc names addresses ≢ []
unfolding named_from
named_from-nonempty acc [] addresses h = h
named_from-nonempty acc (n ∷ names) addresses h =
    named_from-nonempty ((n, first_of addresses) ∷ acc) names (rest_of addresses) (λ e. absurd (cc))

module _ {X : Type 0}
    (get_contract_at : (factory_name : String)
      → (address : Option String) → (key : String) → Exec (World X) Contract) where
  table_from-nonempty : (d : Deployed) → d.names ≢ [] → table_from d ≢ []
  unfolding named_from
  table_from-nonempty d h = nonempty d.names d.addresses h
    where
      nonempty : (names addresses : List String) → names ≢ [] → named_from [] names addresses ≢ []
      nonempty [] addresses h = absurd (h refl)
      nonempty (n ∷ names) addresses h =
          named_from-nonempty ((n, first_of addresses) ∷ []) names (rest_of addresses)
            (λ e. absurd (cc))

  events-names :
      (table : Table) (address : Option String) (h hub : HubState) (u v : World X) (b : Bool)
      (e : JsError) (p : Result Contract × World X)
      → h.names_and_addresses ≡ table
      → ◌≡◌ {A = Result Table × (HubState × World X)}
          (and_then
            (if b then events_done get_contract_at h address p else (ok tt, (h, v)))
            (table_of get_contract_at))
          (err e, (hub, u))
      → hub.names_and_addresses ≡ table
  unfolding events_done
  events-names table address h hub u v true e (ok c, x) same failed = absurd (cc)
  events-names table address h hub u v true e (err x, y) same failed =
      let one : h ≡ hub = cc in ap (λ s. s.names_and_addresses) (sym one) ∙ same
  events-names table address h hub u v false e p same failed = absurd (cc)

  failed-names :
      (table : Table) (q : Result (Unit {0}) × (HubState × World X)) (hub : HubState) (u : World X)
      (e : JsError)
      → Wires get_contract_at table (written pnh_contract_wiring table []) q
      → and_then (and_then q (wire_events get_contract_at)) (table_of get_contract_at)
        ≡ (err e, (hub, u))
      → hub.names_and_addresses ≡ table
  unfolding events_done
  failed-names table (ok x, (h, v)) hub u e (same, fields) failed =
      events-names table (events_address h.names_and_addresses) h hub u v
        (is_present (events_address h.names_and_addresses)) e
        (get_contract_at "EnygmaPNEvents__factory" (events_address h.names_and_addresses)
          "EnygmaPNEvents" v)
        same failed
  failed-names table (err x, (h, v)) hub u e (same, fields) failed =
      let one : h ≡ hub = cc in ap (λ s. s.names_and_addresses) (sym one) ∙ same

  kept_table :
      (t : Table) (get_all_contracts : Exec (World X) Deployed) (s : HubState × World X)
      → t ≢ []
      → deploy_unless get_contract_at t get_all_contracts s ≡ (ok t, s)
  kept_table [] get_all_contracts s h = absurd (h refl)
  kept_table (entry ∷ t) get_all_contracts s h = refl

  -- Where the registry of a new hub named some contract but its wiring threw, the next call on the same
  -- hub succeeds with the registry's table, and connects nothing and changes nothing.
  pub get_proxy_registry_deployment-hides_failure :
      (get_all_contracts : Exec (World X) Deployed) (d : Deployed) (w v u : World X)
      (hub : HubState) (e : JsError)
      → get_all_contracts w ≡ (ok d, v)
      → d.names ≢ []
      → get_proxy_registry_deployment get_contract_at get_all_contracts (new_hub, w)
        ≡ (err e, (hub, u))
      → get_proxy_registry_deployment get_contract_at get_all_contracts (hub, u)
        ≡ (ok (table_from d), (hub, u))
  unfolding get_proxy_registry_deployment
  get_proxy_registry_deployment-hides_failure get_all_contracts d w v u hub e read named failed =
      let failed' : wire_deployment get_contract_at d (new_hub, v) ≡ (err e, (hub, u)) =
        subst
          (λ (p : Result Deployed × World X).
            and_then (beside_hub new_hub p) (wire_deployment get_contract_at) ≡ (err e, (hub, u)))
          read failed in
      let same : hub.names_and_addresses ≡ table_from d =
        failed-names (table_from d)
          (wire_all get_contract_at pnh_contract_wiring
            (record new_hub { names_and_addresses = table_from d }, v))
          hub u e
          (wire_all-Wires get_contract_at pnh_contract_wiring
            (record new_hub { names_and_addresses = table_from d }) v)
          failed' in
      subst
        (λ (t : Table).
          deploy_unless get_contract_at t get_all_contracts (hub, u)
          ≡ (ok (table_from d), (hub, u)))
        (sym same)
        (kept_table (table_from d) get_all_contracts (hub, u) (table_from-nonempty d named))
