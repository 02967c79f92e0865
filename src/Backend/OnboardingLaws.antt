-- ===== src/Backend/OnboardingLaws.antt =====
-- What onboarding guarantees about the pair that it returns.
use rayls_sovereign_tests_au.Shared.{true, ◌≡◌}
use rayls_sovereign_tests_au.Backend.{AddressPair}
use rayls_sovereign_tests_au.Backend.Onboarding.{same_pair}

-- An approved pair of the caller's list that matches `pair`.
abbrev pub Approved : AddressPair → AddressPair → Type 0
Approved pair p = (p.status ≡ 1) × (same_pair pair p ≡ true)
