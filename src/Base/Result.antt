-- ===== src/Base/Result.antt =====
-- An error or a value, and the chain that stops at the first error.

use far_mail.Base.{◌≡◌, refl, arith}

pub data Result {ℓ κ} (E : Type ℓ) (A : Type κ) : Type (ℓ ⊔ κ) where
  failed : E → Result E A
  done : A → Result E A

abbrev pub and_then {ℓ κ μ} :
    {E : Type ℓ} {A : Type κ} {B : Type μ} → Result E A → (A → Result E B) → Result E B
and_then (failed e) f = failed e
and_then (done a) f = f a

-- A chain that ends well, taken apart.
pub and_then-done {ℓ κ μ} :
    {E : Type ℓ} {A : Type κ} {B : Type μ} (r : Result E A) (f : A → Result E B) (b : B)
    → and_then r f ≡ done b
    → (a : A) × (r ≡ done a) × (f a ≡ done b)
and_then-done (failed e) f b h = elim (failed-done h) [ ]
  where
    failed-done : failed e ≡ done b → ⊥
    failed-done same = ground (arith, same)
and_then-done (done a) f b h = (a, refl, h)
