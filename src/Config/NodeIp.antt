-- ===== src/Config/NodeIp.antt =====
-- The node's address where none is configured.
use krustlet.Prelude.{◌≡◌, Bool, true, false, List, ◌∷◌, ◌++◌, nat_eq, string_eq, All}
use krustlet.Config.{Config}

-- The first item that passes a test: those before it do not.
abbrev pub IsFirst {ℓ} : {A : Type ℓ} → (A → Bool) → List A → A → Type ℓ
IsFirst {A = A} p xs x =
    (before : List A) × (after : List A) × (xs ≡ (before ++ x ∷ after))
    × (p x ≡ true)
    × All (λ y. p y ≡ false) before
