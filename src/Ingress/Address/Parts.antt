-- ===== src/Ingress/Address/Parts.antt =====
-- What `splitAddress` guarantees of the two parts that it returns.
use far_mail.Base.{
  ℕ, zero, suc, ◌≡◌, ◌≢◌, refl, Bool, true, false, not, [], ◌∷◌, some, arith, take, drop, all,
  Option-cases, inl, inr,
}
use far_mail.Text.{
  Bytes, codes, is_space, is_dot, within, to_lower, trim, trim_space, contains, last_index,
}
use far_mail.Text.Search.{free_of, last_index-LastSplit}
use far_mail.Text.Trim.{StartsOut, EndsOut, trim-StartsOut, trim-EndsOut, all-trim}
use far_mail.Ingress.Address.{is_angle, checked_parts, split_at, split_address}

-- A domain as the snapshot is asked for it.
pub record IsDomainName (domain : Bytes) : Type 0 where
  pub not_empty : domain ≢ []
  pub no_dot_before : StartsOut is_dot domain
  pub no_dot_behind : EndsOut is_dot domain
  pub no_empty_label : contains (codes "..") domain ≡ false
  pub no_at : free_of b'@' domain ≡ true
  pub lower : all (λ c. not (within b'A' b'Z' c)) domain ≡ true

all-drop : (p : ℕ → Bool) (n : ℕ) (s : Bytes) → all p s ≡ true → all p (drop n s) ≡ true
all-drop p zero s h = h
all-drop p (suc n) [] h = refl
all-drop p (suc n) (c ∷ s) h = all-drop p n s (ground arith)

all-to_lower : (s : Bytes) → all (λ c. not (within b'A' b'Z' c)) (to_lower s) ≡ true
all-to_lower [] = refl
all-to_lower (c ∷ s) = ground (arith, all-to_lower s)

checked_parts_sound :
    (l d local domain : Bytes)
    → checked_parts l d ≡ some (local, domain)
    → (local ≡ l) × (domain ≡ d) × (l ≢ []) × (d ≢ []) × (contains (codes "..") d ≡ false)
checked_parts_sound [] d local domain h = absurd (ground arith)
checked_parts_sound (c ∷ l) [] local domain h = absurd (ground arith)
checked_parts_sound (c ∷ l) (b ∷ d) local domain h = ground arith

split_at-IsDomainName :
    (address : Bytes) (at : ℕ) (local domain : Bytes)
    → all (λ c. not (within b'A' b'Z' c)) address ≡ true
    → free_of b'@' (drop (suc at) address) ≡ true
    → split_at address at ≡ some (local, domain)
    → IsDomainName domain
split_at-IsDomainName address at local domain lower free h =
    let rest = drop (suc at) address in
    let name = trim is_dot (trim_space rest) in
    let parts : checked_parts (trim_space (take at address)) name ≡ some (local, domain) =
      ground arith in
    let s = checked_parts_sound (trim_space (take at address)) name local domain parts in
    rw s.1 (record {
      not_empty = s.3;
      no_dot_before = trim-StartsOut is_dot (trim_space rest);
      no_dot_behind = trim-EndsOut is_dot (trim_space rest);
      no_empty_label = s.4;
      no_at = all-trim _ is_dot (trim_space rest) (all-trim _ is_space rest free);
      lower =
          all-trim _ is_dot (trim_space rest)
            (all-trim _ is_space rest (all-drop _ (suc at) address lower));
    })

-- The domain that `splitAddress` returns is not empty, in lower case, holds no `@` and no empty
-- label, and has no dot at either end.
pub split_address-IsDomainName :
    (raw : Bytes) {local domain : Bytes}
    → split_address raw ≡ some (local, domain)
    → IsDomainName domain
unfolding split_address
split_address-IsDomainName raw {local} {domain} h =
    let address = trim is_angle (to_lower (trim_space raw)) in
    elim (Option-cases (last_index b'@' address)) [
      | inl e ↦ absurd (ground arith)
      | inr (at, e) ↦
          split_at-IsDomainName address at local domain
            (all-trim _ is_angle (to_lower (trim_space raw)) (all-to_lower (trim_space raw)))
            (last_index-LastSplit b'@' address e).1 (ground arith)
    ]
