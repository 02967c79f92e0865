-- ===== src/PrivacyNode/Laws.antt =====
-- What the look-ups and grants of src/entities/PrivacyNode.ts have established when they return.
use rayls_sovereign_tests_au.Shared.{
  ℕ, String, Option, Bool, true, false, List, [], ◌∷◌, AllOf, ◌≡◌, inl, inr, arith, Bool-cases, ap,
  subst,
}
use rayls_sovereign_tests_au.Js.{Result, ok, Exec, and_then, and_then-ok}
use rayls_sovereign_tests_au.Logging.{Host, World, log, delay}
use rayls_sovereign_tests_au.Retry.{RetryOptions}
use rayls_sovereign_tests_au.Retry.Runs.{Outcome, succeeded}
use rayls_sovereign_tests_au.Retry.Laws.{retry_iff_Outcome}
use rayls_sovereign_tests_au.Transactions.{Response, Receipt}
use rayls_sovereign_tests_au.PrivacyNode.{
  granted_line, NodeCalls, NodeSettings, zero_address, is_unset, code_options, code_of, with_code,
  registered_at, resolve_from_registry, get_access_manager, grant_and_settle, grant_unless,
  grant_each, grant_endpoint_sender,
}
use text.Mathlib.Text.{◌==◌ as str_eq}

-- A value that the operation itself has given.
Outcome-Returned :
    {S A : Type 0} (wait : ℕ → S → S) (opts : RetryOptions S) (fn : Exec S A) (n i : ℕ) (s t : S)
    (a : A)
    → Outcome wait opts fn n i s (ok a, t)
    → (u : S) × (fn u ≡ (ok a, t))
Outcome-Returned wait opts fn n i s t a (succeeded {v = u} run h f) = (u, f)

module _ {X : Type 0} (host : Host X) (calls : NodeCalls X) (node : NodeSettings) where
  -- The registry gave the address under the name, it is not the zero address, and its code, read at
  -- last, is neither empty nor `0x`.
  abbrev pub Resolved : (name address : String) → World X → Type 0
  Resolved name a t =
      (u v : World X) × (calls.get_contract node.deployment_proxy_registry_address name u
        ≡ (ok a, v))
      × (is_unset a ≡ false)
      × (str_eq a zero_address ≡ false)
      × (z : World X) × (code : String) × (calls.get_code a z ≡ (ok code, t))
      × (is_unset code ≡ false)
      × (str_eq code "0x" ≡ false)

  with_code-ok :
      (name address code a : String) (z t : World X)
      → with_code host calls node name address code z ≡ (ok a, t)
      → (is_unset code ≡ false) × (str_eq code "0x" ≡ false) × (address ≡ a) × (z ≡ t)
  with_code-ok name address code a z t h = elim (Bool-cases (is_unset code)) [
    | inl empty ↦ absurd (let h' = rw empty at h in cc)
    | inr full ↦ (elim (Bool-cases (str_eq code "0x")) [
      | inl bare ↦ absurd (let h' = rw (full, bare) at h in cc)
      | inr some_code ↦
          (let h' : ◌≡◌ {A = Result String × World X} (ok address, z) (ok a, t) =
              rw (full, some_code) at h in
            (full, some_code, same_value address a z t h', same_state address a z t h'))
    ])
  ]
    where
      same_value :
          (x y : String) (z t : World X)
          → ◌≡◌ {A = Result String × World X} (ok x, z) (ok y, t)
          → x ≡ y
      same_value x y z t h = cc

      same_state :
          (x y : String) (z t : World X)
          → ◌≡◌ {A = Result String × World X} (ok x, z) (ok y, t)
          → z ≡ t
      same_state x y z t h = cc

  code_of-Returned :
      (name address code : String) (v z : World X)
      → code_of host calls node name address v ≡ (ok code, z)
      → (u : World X) × (calls.get_code address u ≡ (ok code, z))
  code_of-Returned name address code v z h =
      Outcome-Returned (delay host) (code_options host calls node name) (calls.get_code address) 5 1
        v z code
        ((retry_iff_Outcome (delay host) (code_options host calls node name)
            (calls.get_code address) v (ok code, z) (omega arith)).0
          h)

  registered_at-Resolved :
      (name address a : String) (u v t : World X)
      → calls.get_contract node.deployment_proxy_registry_address name u ≡ (ok address, v)
      → registered_at host calls node name address v ≡ (ok a, t)
      → Resolved name a t
  registered_at-Resolved name address a u v t asked h = elim (Bool-cases (is_unset address)) [
    | inl empty ↦ absurd (let h' = rw empty at h in cc)
    | inr full ↦ (elim (Bool-cases (str_eq address zero_address)) [
      | inl at_zero ↦ absurd (let h' = rw (full, at_zero) at h in cc)
      | inr there ↦
          (let (code, z, read, rest) =
              and_then-ok (code_of host calls node name address v)
                (with_code host calls node name address) a t (rw (full, there) at h) in
            let (coded, not_bare, same, ended) = with_code-ok name address code a z t rest in
            let (w, got) = code_of-Returned name address code v z read in
            subst (λ s. Resolved name a s) ended
              (subst (λ x. Resolved name x z) same
                (u, v, asked, full, there, w, code, got, coded, not_bare)))
    ])
  ]

  -- An address that `resolveFromRegistry` returns is the one that the node's registry gave for the
  -- name; it is not the zero address, and its code, as read last, is neither empty nor `0x`.
  pub resolve_from_registry-Resolved :
      (name a : String) (w t : World X)
      → resolve_from_registry host calls node name w ≡ (ok a, t)
      → Resolved name a t
  unfolding resolve_from_registry
  resolve_from_registry-Resolved name a w t h =
      elim (Bool-cases (is_unset node.deployment_proxy_registry_address)) [
        | inl empty ↦ absurd (let h' = rw empty at h in cc)
        | inr set ↦
            (let (address, v, asked, rest) =
                and_then-ok (calls.get_contract node.deployment_proxy_registry_address name w)
                  (registered_at host calls node name) a t (rw set at h) in
              registered_at-Resolved name address a w v t asked rest)
      ]

  -- The accounts hold the named role of the access manager that the registry gave.
  abbrev pub AllGranted :
      (Held : (manager role account : String) → X → Type 0) (role_name : String)
      → List String
      → World X
      → Type 0
  AllGranted Held role_name accounts t =
      (manager role : String) × (u v : World X) × Resolved "RaylsAccessManager" manager u
      × (calls.get_role_id_by_name manager role_name u ≡ (ok role, v))
      × AllOf (λ a. Held manager role a t.outside) accounts

  -- The access manager's contract: it says truly who holds a role, a settled grant gives the role, and
  -- no call takes it away.
  module _ (Held : (manager role account : String) → X → Type 0)
      (has_told : (m r a : String) (w t : World X)
        → calls.has_role m r a w ≡ (ok true, t)
        → Held m r a t.outside)
      (has_keeps : (m r a b : String) (has : Bool) (w t : World X)
        → calls.has_role m r a w ≡ (ok has, t)
        → Held m r b w.outside
        → Held m r b t.outside)
      (grant_gives : (g m r a : String) (response : Response X) (receipt : Option Receipt)
          (w u t : World X)
        → calls.grant_role g m r a w ≡ (ok response, u)
        → calls.settle response u ≡ (ok receipt, t)
        → Held m r a t.outside)
      (grant_keeps : (g m r a b : String) (response : Response X) (receipt : Option Receipt)
          (w u t : World X)
        → calls.grant_role g m r a w ≡ (ok response, u)
        → calls.settle response u ≡ (ok receipt, t)
        → Held m r b w.outside
        → Held m r b t.outside) where
    grant_unless-ends :
        (m r a : String) (u t : World X)
        → grant_unless host calls node false m r a u ≡ (ok tt, t)
        → (response : Response X) × (receipt : Option Receipt) × (v : World X) × (calls.grant_role
              node.admin_wallet m r a u
            ≡ (ok response, v))
          × (calls.settle response v ≡ (ok receipt, t))
    grant_unless-ends m r a u t h =
        let (receipt, s, settled, rest) =
          and_then-ok (grant_and_settle host calls node node.admin_wallet m r a u)
            (λ receipt t. (ok tt, t)) tt t h in
        let (response, v, sent, awaited) =
          and_then-ok (calls.grant_role node.admin_wallet m r a u) calls.settle receipt s settled in
        (
          response,
          receipt,
          v,
          sent,
          subst (λ x. calls.settle response v ≡ (ok receipt, x)) (same_state s t rest) awaited,
        )
      where
        same_state :
            (s t : World X) → ◌≡◌ {A = Result (Unit {0}) × World X} (ok tt, s) (ok tt, t) → s ≡ t
        same_state s t h = cc

    grant_unless-Held :
        (has : Bool) (m r a : String) (w u t : World X)
        → calls.has_role m r a w ≡ (ok has, u)
        → grant_unless host calls node has m r a u ≡ (ok tt, t)
        → Held m r a t.outside
    grant_unless-Held true m r a w u t e h =
        let same : u ≡ t = cc in subst (λ s. Held m r a s.outside) same (has_told m r a w u e)
    grant_unless-Held false m r a w u t e h =
        let (response, receipt, v, sent, settled) = grant_unless-ends m r a u t h in
        grant_gives node.admin_wallet m r a response receipt u v t sent settled

    grant_unless-keeps :
        (has : Bool) (m r a b : String) (u t : World X)
        → grant_unless host calls node has m r a u ≡ (ok tt, t)
        → Held m r b u.outside
        → Held m r b t.outside
    grant_unless-keeps true m r a b u t h held =
        let same : u ≡ t = cc in subst (λ s. Held m r b s.outside) same held
    grant_unless-keeps false m r a b u t h held =
        let (response, receipt, v, sent, settled) = grant_unless-ends m r a u t h in
        grant_keeps node.admin_wallet m r a b response receipt u v t sent settled held

    -- One round of the loop.
    abbrev GrantRound : (m r a : String) → World X → World X → Type 0
    GrantRound m r a w t =
        (has : Bool) × (u : World X) × (calls.has_role m r a w ≡ (ok has, u))
        × (grant_unless host calls node has m r a u ≡ (ok tt, t))

    grant_each-round :
        (m r a : String) (as' : List String) (w t : World X)
        → grant_each host calls node m r (a ∷ as') w ≡ (ok tt, t)
        → (v : World X) × GrantRound m r a w v × (grant_each host calls node m r as' v ≡ (ok tt, t))
    unfolding grant_each
    grant_each-round m r a as' w t h =
        let (has, u, told, rest) =
          and_then-ok (calls.has_role m r a w)
            (λ has u.
              and_then (grant_unless host calls node has m r a u)
                (λ done. grant_each host calls node m r as'))
            tt t h in
        let (done, v, granted, others) =
          and_then-ok (grant_unless host calls node has m r a u)
            (λ done. grant_each host calls node m r as') tt t rest in
        (v, (has, u, told, granted), others)

    grant_each-keeps :
        (m r b : String) (as' : List String) (w t : World X)
        → grant_each host calls node m r as' w ≡ (ok tt, t)
        → Held m r b w.outside
        → Held m r b t.outside
    unfolding grant_each
    grant_each-keeps m r b [] w t h held =
        let same : w ≡ t = cc in subst (λ s. Held m r b s.outside) same held
    grant_each-keeps m r b (a ∷ as') w t h held =
        let (v, (has, u, told, granted), others) = grant_each-round m r a as' w t h in
        grant_each-keeps m r b as' v t others
          (grant_unless-keeps has m r a b u v granted (has_keeps m r a b has w u told held))

    grant_each-Held :
        (m r : String) (as' : List String) (w t : World X)
        → grant_each host calls node m r as' w ≡ (ok tt, t)
        → AllOf (λ a. Held m r a t.outside) as'
    grant_each-Held m r [] w t h = tt
    grant_each-Held m r (a ∷ as') w t h =
        let (v, (has, u, told, granted), others) = grant_each-round m r a as' w t h in
        (
          grant_each-keeps m r a as' v t others (grant_unless-Held has m r a w u v told granted),
          grant_each-Held m r as' v t others,
        )

    -- If the access manager says truly who holds a role, a settled grant gives it and no call takes it
    -- away, then after a `grantEndpointSender` that returned, each of the given accounts holds the role
    -- ENDPOINT_SENDER of the access manager that the node's registry gave, which has code.
    pub grant_endpoint_sender-AllGranted :
        (accounts : List String) (w t : World X)
        → grant_endpoint_sender host calls node accounts w ≡ (ok tt, t)
        → AllGranted Held "ENDPOINT_SENDER" accounts t
    unfolding grant_endpoint_sender log
    grant_endpoint_sender-AllGranted accounts w t h =
        let (manager, u, found, rest) =
          and_then-ok (get_access_manager host calls node w)
            (λ manager u.
              and_then (calls.get_role_id_by_name manager "ENDPOINT_SENDER" u) (λ role v.
                and_then (grant_each host calls node manager role accounts v)
                  (λ done t. (ok tt, log (granted_line "ENDPOINT_SENDER" accounts) t))))
            tt t h in
        let (role, v, named, rest') =
          and_then-ok (calls.get_role_id_by_name manager "ENDPOINT_SENDER" u)
            (λ role v.
              and_then (grant_each host calls node manager role accounts v)
                (λ done t. (ok tt, log (granted_line "ENDPOINT_SENDER" accounts) t)))
            tt t rest in
        let (done, z, granted, ended) =
          and_then-ok (grant_each host calls node manager role accounts v)
            (λ done t. (ok tt, log (granted_line "ENDPOINT_SENDER" accounts) t)) tt t rest' in
        (
          manager,
          role,
          u,
          v,
          resolve_from_registry-Resolved "RaylsAccessManager" manager w u found,
          named,
          subst (λ s. AllOf (λ a. Held manager role a s) accounts) (same_outside z t ended)
              (grant_each-Held manager role accounts v z granted),
        )
      where
        same_outside :
            (z t : World X)
            → ◌≡◌ {A = Result (Unit {0}) × World X}
                (ok tt, log (granted_line "ENDPOINT_SENDER" accounts) z)
                (ok tt, t)
            → z.outside ≡ t.outside
        same_outside z t h = ap (λ (p : Result (Unit {0}) × World X). p.1.outside) h
