-- ===== src/Base/Reads.antt =====
-- What a Boolean test says of its parts.
use mathlib.Core.Path.{◌≡◌, refl}
use mathlib.Core.Logic.{◌↔◌, ◌⊎◌, inl, inr}
use mathlib.Core.Bool.{Bool, true, false, not, ◌&&◌, ◌||◌}
use native.Mathlib.Omega.{arith}
use mcp_debugger.Base.Tests.{if◌then◌else◌}

-- A test is true exactly when a statement holds.
abbrev pub Reads : Bool → Type 0 → Type 0
Reads b P = (b ≡ true) ↔ P

pub Reads-or : {P Q : Type 0} → (a b : Bool) → Reads a P → Reads b Q → Reads (a || b) (P ⊎ Q)
Reads-or true b p q = (λ h. inl (p.0 refl), λ e. refl)
Reads-or false b p q =
    (λ h. inr (q.0 h), λ e. elim e [ inl x ↦ let apart = p.1 x in absurd cc | inr y ↦ q.1 y ])

pub Reads-and : {P Q : Type 0} → (a b : Bool) → Reads a P → Reads b Q → Reads (a && b) (P × Q)
Reads-and true b p q = (λ h. (p.0 refl, q.0 h), λ e. q.1 e.1)
Reads-and false b p q = (λ h. absurd cc, λ e. p.1 e.0)

pub Reads-not : {P : Type 0} → (b : Bool) → Reads b P → Reads (not b) (¬ P)
Reads-not true p = (λ h. absurd cc, λ n. absurd (n (p.0 refl)))
Reads-not false p = (λ h x. let apart = p.1 x in absurd cc, λ n. refl)

pub Reads-false : (b : Bool) → Reads (not b) (b ≡ false)
Reads-false true = (λ h. absurd cc, λ h. absurd cc)
Reads-false false = (λ h. refl, λ h. refl)

pub Reads-true : (b : Bool) → Reads b (b ≡ true)
Reads-true b = (λ h. h, λ h. h)

pub Reads-neither : (a b : Bool) → Reads (not (a || b)) ((a ≡ false) × (b ≡ false))
Reads-neither true b = (λ h. absurd cc, λ e. absurd (ground (arith, e.0)))
Reads-neither false b = (λ h. (refl, (Reads-false b).0 h), λ e. (Reads-false b).1 e.1)

-- A conditional, by what its test reads.
pub by_reading {ℓ} :
    {A : Type ℓ} {P : Type 0} (C : A → Type 0) (b : Bool) (x y : A)
    → Reads b P
    → (P → C x)
    → ((¬ P) → C y)
    → C (if b then x else y)
by_reading C true x y r h k = h (r.0 refl)
by_reading C false x y r h k = k (λ p. let apart = r.1 p in absurd cc)
