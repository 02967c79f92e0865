-- ===== src/Nodes/Laws.antt =====
-- The transfer scenarios of a set of nodes, and the choice of a backend.
use rayls_sovereign_tests_au.Shared.{
  AllOf, ℕ, suc, ◌+◌, ◌<◌, min, String, Option, none, some, Bool, true, false, leb, leb→le, List,
  [], ◌∷◌, ◌++◌, length, length-append, length-take, take, get_elem?, zero, Bool-cases, inl, inr,
  ◌⊎◌, ◌≡◌, refl, arith, if◌then◌else◌,
}
use rayls_sovereign_tests_au.Js.{JsError, error, ok, err}
use rayls_sovereign_tests_au.Nodes.{
  TransferScenario, push_when, scenario, scenarios_for, get_valid_transfer_scenarios, backend_of,
  backend_index,
}

module _ {A : Type 0} where
  AllOf-snoc : (P : A → Type 0) (xs : List A) (x : A) → AllOf P xs → P x → AllOf P (xs ++ x ∷ [])
  AllOf-snoc P [] x all holds = (holds, tt)
  AllOf-snoc P (y ∷ xs) x all holds = (all.0, AllOf-snoc P xs x all.1 holds)

  AllOf-push_when :
      (P : A → Type 0) (c : Bool) (x : A) (xs : List A)
      → (c ≡ true → P x)
      → AllOf P xs
      → AllOf P (push_when c x xs)
  AllOf-push_when P true x xs holds all = AllOf-snoc P xs x all (holds refl)
  AllOf-push_when P false x xs holds all = all

  length-push_when :
      (c : Bool) (x : A) (xs : List A)
      → length (push_when c x xs) ≡ length xs + (if c then 1 else 0)
  length-push_when true x xs = length-append xs (x ∷ [])
  length-push_when false x xs = omega arith

  length-pushes :
      (a b c d : Bool) (x y z u t : A)
      → length (push_when a x (push_when b y (push_when c z (push_when d u (t ∷ [])))))
        ≡ 1
          + ((if d then 1 else 0)
              + ((if c then 1 else 0) + ((if b then 1 else 0) + (if a then 1 else 0))))
  length-pushes a b c d x y z u t =
      let p₁ = length-push_when d u (t ∷ []) in
      let p₂ = length-push_when c z (push_when d u (t ∷ [])) in
      let p₃ = length-push_when b y (push_when c z (push_when d u (t ∷ []))) in
      let p₄ = length-push_when a x (push_when b y (push_when c z (push_when d u (t ∷ [])))) in
      omega arith

counted :
    (n : ℕ)
    → leb 2 n ≡ true
    → 1
        + (1
            + ((if leb 3 n then 1 else 0)
                + ((if leb 4 n then 1 else 0)
                    + ((if leb 5 n then 1 else 0) + (if leb 6 n then 1 else 0)))))
      ≡ min n 6
counted n h = ground arith

-- One sender, and as many participants as senders and receivers, the first of the nodes.
abbrev pub IsScenario : List String → TransferScenario → Type 0
IsScenario nodes s =
    (s.from ≡ 1)
    × (length s.participants ≡ s.from + s.to)
    × (s.participants ≡ take (s.from + s.to) nodes)

module _ (nodes : List String) where
  scenario-IsScenario :
      (to : ℕ) (tag : String)
      → leb (1 + to) (length nodes) ≡ true
      → IsScenario nodes (scenario nodes to tag (1 + to))
  scenario-IsScenario to tag enough =
      (refl, omega (arith, length-take (1 + to) nodes, leb→le (1 + to) (length nodes) enough), refl)

  scenarios_for-AllOf :
      leb 2 (length nodes) ≡ true → AllOf (IsScenario nodes) (scenarios_for nodes (length nodes))
  scenarios_for-AllOf enough =
      AllOf-push_when _ _ _ _ (scenario-IsScenario 5 "@1to5 @regression @enygma") (
        AllOf-push_when _ _ _ _ (scenario-IsScenario 4 "@1to4 @regression @enygma") (
          AllOf-push_when _ _ _ _ (scenario-IsScenario 3 "@1to3 @regression @enygma") (
            AllOf-push_when _ _ _ _ (scenario-IsScenario 2 "@1to2 @regression @enygma")
              (scenario-IsScenario 1 "@1to1 @smoke @enygma" enough, tt))))

  length-scenarios_for :
      leb 2 (length nodes) ≡ true
      → length (scenarios_for nodes (length nodes)) + 1 ≡ min (length nodes) 6
  length-scenarios_for enough =
      let n = length nodes in
      omega (
        arith,
        counted n enough,
        length-pushes (leb 6 n) (leb 5 n) (leb 4 n) (leb 3 n)
            (scenario nodes 5 "@1to5 @regression @enygma" 6)
            (scenario nodes 4 "@1to4 @regression @enygma" 5)
            (scenario nodes 3 "@1to3 @regression @enygma" 4)
            (scenario nodes 2 "@1to2 @regression @enygma" 3)
            (scenario nodes 1 "@1to1 @smoke @enygma" 2),
      )

  -- Fewer than two nodes are an error. Of n ≥ 2 nodes there are min(n, 6) - 1 scenarios, each with one
  -- sender and as many participants as it has senders and receivers: the first ones of the nodes.
  pub get_valid_transfer_scenarios-AllOf :
      ((length nodes < 2) × (e : JsError) × (get_valid_transfer_scenarios nodes ≡ err e))
      ⊎ ((scenarios : List TransferScenario) × (get_valid_transfer_scenarios nodes ≡ ok scenarios)
          × (length scenarios + 1 ≡ min (length nodes) 6)
          × AllOf (IsScenario nodes) scenarios)
  unfolding get_valid_transfer_scenarios
  get_valid_transfer_scenarios-AllOf = elim (Bool-cases (leb 2 (length nodes))) [
    | inl enough ↦ inr (
      scenarios_for nodes (length nodes),
      rw enough refl,
      length-scenarios_for enough,
      scenarios_for-AllOf enough,
    )
    | inr few ↦
        inl (ground arith, error "At least 2 participants required for transfer tests", rw few refl)
  ]

-- A backend of the list is chosen where there is one, whatever the worker.
chosen : {A : Type 0} (i : ℕ) (xs : List A) → i < length xs → (x : A) × (get_elem? xs i ≡ some x)
chosen i [] h = absurd (omega arith)
chosen zero (x ∷ xs) h = (x, refl)
chosen (suc i) (x ∷ xs) h = chosen i xs (omega arith)

backend_index-below : (worker : Option ℕ) (n : ℕ) → 0 < n → backend_index worker n < n
backend_index-below none n h = h
backend_index-below (some w) n h = omega arith

-- The choice of a backend is defined for every worker and any set of configured backends, and a
-- backend that is chosen is one of the configured ones, or "A" where there is none.
pub backend_of-chosen :
    (backends : List String) (worker : Option ℕ)
    → (b : String) × (backend_of backends worker ≡ some b)
      × (((backends ≡ []) × (b ≡ "A"))
          ⊎ ((i : ℕ) × (i < length backends) × (get_elem? backends i ≡ some b)))
unfolding backend_of
backend_of-chosen [] worker = ("A", refl, inl (refl, refl))
backend_of-chosen (b ∷ bs) worker =
    let below = backend_index-below worker (length (b ∷ bs)) (omega arith) in
    let (x, found) = chosen (backend_index worker (length (b ∷ bs))) (b ∷ bs) below in
    (x, found, inr (backend_index worker (length (b ∷ bs)), below, found))
