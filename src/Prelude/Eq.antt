-- ===== src/Prelude/Eq.antt =====
-- Structural equality (`==`, `reflect.DeepEqual`) as an interface.
use mathlib.Core.Path.{◌≡◌, refl}
use mathlib.Core.Logic.{◌↔◌}
use mathlib.Core.Bool.{Bool, true, false}

pub record Eq {ℓ} (A : Type ℓ) : Type ℓ where
  pub beq : A → A → Bool
  pub beq_iff : (a b : A) → (beq a b ≡ true) ↔ (a ≡ b)

-- A decision, as a test.
abbrev decided {ℓ} : {P : Type ℓ} → Dec P → Bool
decided (yes p) = true
decided (no h) = false

decided_iff {ℓ} : {P : Type ℓ} (d : Dec P) → (decided d ≡ true) ↔ P
decided_iff (yes p) = (λ _. p, λ _. refl)
decided_iff (no h) = (λ e. absurd cc, λ p. absurd (h p))

pub discrete_Eq {ℓ} : {A : Type ℓ} → Discrete A → Eq A
discrete_Eq d = record { beq = λ a b. decided (d a b); beq_iff = λ a b. decided_iff (d a b) }
