-- ===== src/Faults/Services.antt =====
-- src/utils/fault-injector.ts: the services that can inject faults, by role and participant, and the
-- choice of the URL of one.
use rayls_sovereign_tests_au.Shared.{
  ◌≡◌, refl, ℕ, String, Option, none, some, List, [], ◌∷◌, false, if◌then◌else◌,
}
use rayls_sovereign_tests_au.Shared.Text.{
  ◌<>◌, show, to_upper, strip_slash, ParsedInt, int, parse_int, show_int,
}
use rayls_sovereign_tests_au.Js.{error, Result, ok, err}
use text.Mathlib.Text.{◌==◌ as str_eq}

pub record Service : Type 0 where
  pub hostname : String
  pub default_port : ℕ

pub lookup : {V : Type 0} → String → List (String × V) → Option V
lookup key [] = none
lookup key ((k, v) ∷ pairs) = if str_eq k key then some v else lookup key pairs

abbrev service : String → ℕ → Service
service host port = record { hostname = host; default_port = port }

abbrev pub relayer_services : List (String × Service)
relayer_services =
    ("A", service "relayer-a" 6660)
    ∷ ("B", service "relayer-b" 6661)
    ∷ ("C", service "relayer-c" 6662)
    ∷ ("D", service "relayer-d" 6663)
    ∷ ("E", service "relayer-e" 6664)
    ∷ ("F", service "relayer-f" 6665)
    ∷ []

abbrev pub pubrelayer_services : List (String × Service)
pubrelayer_services =
    ("A", service "pubrelayer-a" 6700)
    ∷ ("B", service "pubrelayer-b" 6701)
    ∷ ("C", service "pubrelayer-c" 6702)
    ∷ ("D", service "pubrelayer-d" 6703)
    ∷ ("E", service "pubrelayer-e" 6704)
    ∷ ("F", service "pubrelayer-f" 6705)
    ∷ []

abbrev pub kos_services : List (String × Service)
kos_services =
    ("A", service "cts-a" 6800)
    ∷ ("B", service "cts-b" 6801)
    ∷ ("C", service "cts-c" 6802)
    ∷ ("D", service "cts-d" 6803)
    ∷ ("E", service "cts-e" 6804)
    ∷ ("F", service "cts-f" 6805)
    ∷ []

abbrev pub fi_services : List (String × List (String × Service))
fi_services =
    ("relayer", relayer_services) ∷ ("pubrelayer", pubrelayer_services) ∷ ("kos", kos_services) ∷ []

abbrev join_keys : {V : Type 0} → List (String × V) → String
join_keys [] = ""
join_keys ((k, v) ∷ []) = k
join_keys ((k, v) ∷ rest) = k <> ", " <> join_keys rest

-- An unset variable and an empty one are both passed over.
abbrev env_set : Option String → Option String
env_set none = none
env_set (some s) = if str_eq s "" then none else some s

module _ (env : String → Option String) where
  -- The port: the role's own variable, for a relayer else the older one, else the default.
  abbrev port_from : Option String → Option String → Service → ParsedInt
  port_from (some s) legacy svc = parse_int s
  port_from none (some s) svc = parse_int s
  port_from none none svc = int false svc.default_port

  unfoldable pub port_of : String → String → Service → ParsedInt
  port_of role letter svc =
      port_from (env_set (env ("FAULT_INJECTION_PORT_" <> to_upper role <> "_" <> letter)))
        (if str_eq role "relayer" then env_set (env ("FAULT_INJECTION_PORT_" <> letter)) else none)
        svc

  abbrev host_of : Option String → Service → String
  host_of none svc = svc.hostname
  host_of (some h) svc = h

  -- `new FaultInjector(url)` drops one slash at the end.
  url_for : String → String → Option String → Service → String
  url_for role letter host_override svc =
      strip_slash
        ("http://" <> host_of host_override svc <> ":" <> show_int (port_of role letter svc))

  abbrev from_map :
      String → String → Option String → List (String × Service) → Option Service → Result String
  from_map role participant host_override map none = err (
      error
        ("Unknown " <> role <> " participant '" <> participant <> "'. Valid: " <> join_keys map))
  from_map role participant host_override map (some svc) =
      ok (url_for role (to_upper participant) host_override svc)

  abbrev from_role :
      String → String → Option String → Option (List (String × Service)) → Result String
  from_role role participant host_override none =
      err (error ("Unknown FI role '" <> role <> "'. Valid: " <> join_keys fi_services))
  from_role role participant host_override (some map) =
      from_map role participant host_override map (lookup (to_upper participant) map)

  -- `FaultInjector.forService(...)`: the base URL of the injector.
  unfoldable pub for_service : String → String → Option String → Result String
  unfolding lookup url_for
  for_service role participant host_override =
      from_role role participant host_override (lookup role fi_services)

  unfoldable pub for_relayer : String → Option String → Result String
  for_relayer participant host_override = for_service "relayer" participant host_override

for_service_example :
    for_service (λ _. none) "kos" "c" (some "127.0.0.1") ≡ ok "http://127.0.0.1:6802"
unfolding for_service strip_slash to_upper show show_int ◌<>◌ port_of
for_service_example = refl
