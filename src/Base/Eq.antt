-- ===== src/Base/Eq.antt =====
-- Decidable equality by a Boolean test, as an interface.
use far_mail.Base.{ℕ, ◌≡◌, ◌↔◌, refl, Bool, true, false, ◌&&◌, List, [], ◌∷◌, arith, ◌==◌, ==_iff}

pub record Eq {ℓ} (A : Type ℓ) : Type ℓ where
  pub beq : A → A → Bool
  pub beq_iff : (a b : A) → (beq a b ≡ true) ↔ (a ≡ b)

infix 50 ◌=?◌
abbrev pub ◌=?◌ {ℓ} : {A : Type ℓ} ⦃e : Eq A⦄ → A → A → Bool
◌=?◌ ⦃e⦄ = e.beq

pub beq_refl {ℓ} : {A : Type ℓ} ⦃e : Eq A⦄ (a : A) → (a =? a) ≡ true
beq_refl ⦃e⦄ a = (e.beq_iff a a).1 refl

abbrev pub nat_beq : ℕ → ℕ → Bool
nat_beq a b = a == b

instance abbrev pub nat_eq : Eq ℕ
nat_eq = record { beq = nat_beq; beq_iff = ==_iff }

-- Equality of two texts, byte by byte.
abbrev pub bytes_beq : List ℕ → List ℕ → Bool
bytes_beq [] [] = true
bytes_beq (x ∷ xs) (y ∷ ys) = x == y && bytes_beq xs ys
bytes_beq _ _ = false

pub bytes_beq_iff : (a b : List ℕ) → (bytes_beq a b ≡ true) ↔ (a ≡ b)
bytes_beq_iff [] b = ground arith
bytes_beq_iff (x ∷ xs) [] = ground arith
bytes_beq_iff (x ∷ xs) (y ∷ ys) = ground (arith, bytes_beq_iff xs ys)

instance abbrev pub bytes_eq : Eq (List ℕ)
bytes_eq = record { beq = bytes_beq; beq_iff = bytes_beq_iff }
