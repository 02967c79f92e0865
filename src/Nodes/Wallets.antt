-- ===== src/Nodes/Wallets.antt =====
-- src/utils/wallet-factory.ts: which wallet a role has in this process. A derived wallet is named by
-- the indices of its path below the derivation base; a random index is an argument.
use rayls_sovereign_tests_au.Shared.{
  ◌≢◌, ◌≡◌, arith, refl, ℕ, ◌+◌, List, [], ◌∷◌, ◌≢◌, arith, Option, none, some, ◌≡◌, arith, refl,
}

pub data RoleKey : Type 0 where
  admin : RoleKey
  operator : RoleKey
  bank_employee : RoleKey
  user : RoleKey
  compliance : RoleKey

abbrev pub role_slot : RoleKey → ℕ
role_slot admin = 0
role_slot operator = 1
role_slot bank_employee = 2
role_slot user = 3
role_slot compliance = 4

abbrev pub worker_slot_base : ℕ
worker_slot_base = 1000000000

-- The key of the system itself, or a child of the master node.
pub data Wallet : Type 0 where
  system_key : Wallet
  child : List ℕ → Wallet

unfoldable pub create_user_operator : (random_index : ℕ) → Wallet
create_user_operator random_index = child (random_index ∷ [])

unfoldable pub derive_worker_wallet : RoleKey → ℕ → Wallet
derive_worker_wallet role worker = child ((worker_slot_base + worker) ∷ role_slot role ∷ [])

-- The wallet without workers: the system's for the administrator, a random child for the others.
abbrev sequential_wallet : RoleKey → ℕ → Wallet
sequential_wallet admin random_index = system_key
sequential_wallet role random_index = create_user_operator random_index

-- `adminWallet`, `userWallet`, `operatorWallet`, `bankEmployeeWallet` and `complianceWallet`.
unfoldable pub role_wallet : Option ℕ → RoleKey → (random_index : ℕ) → Wallet
role_wallet none role random_index = sequential_wallet role random_index
role_wallet (some worker) role random_index = derive_worker_wallet role worker

role_slot-injective : (r s : RoleKey) → role_slot r ≡ role_slot s → r ≡ s
role_slot-injective admin admin h = refl
role_slot-injective operator operator h = refl
role_slot-injective bank_employee bank_employee h = refl
role_slot-injective user user h = refl
role_slot-injective compliance compliance h = refl
role_slot-injective r s h = ground arith

child-indices : (xs ys : List ℕ) → child xs ≡ child ys → xs ≡ ys
child-indices xs ys h = cc

tail-apart : (a b c : ℕ) → a ∷ b ∷ [] ≢ c ∷ []
tail-apart a b c h = absurd (cc)

worker-apart :
    (r s : RoleKey) (v j : ℕ)
    → child ((worker_slot_base + v) ∷ role_slot r ∷ []) ≢ sequential_wallet s j
unfolding create_user_operator
worker-apart r admin v j h = absurd (cc)
worker-apart r operator v j h = tail-apart _ _ _ (child-indices _ _ h)
worker-apart r bank_employee v j h = tail-apart _ _ _ (child-indices _ _ h)
worker-apart r user v j h = tail-apart _ _ _ (child-indices _ _ h)
worker-apart r compliance v j h = tail-apart _ _ _ (child-indices _ _ h)

-- Two workers' wallets are the same only for the same role of the same worker; and no worker's wallet
-- is the system's or one made from a random index, whatever the index.
pub role_wallet-injective :
    (r s : RoleKey) (v w i j : ℕ)
    → ((role_wallet (some v) r i ≡ role_wallet (some w) s j) → (r ≡ s) × (v ≡ w))
      × (role_wallet (some v) r i ≢ role_wallet none s j)
unfolding role_wallet derive_worker_wallet
role_wallet-injective r s v w i j = (
  (λ h.
      let slots : worker_slot_base + v ≡ worker_slot_base + w = cc in
      let roles : role_slot r ≡ role_slot s = cc in (role_slot-injective r s roles, omega arith)),
  worker-apart r s v j,
)
