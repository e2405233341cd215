-- ===== src/Base/Table.antt =====
-- A database table: its rows in a list, with a numeric primary key. A key names one row, so a
-- statement `WHERE id = k` reads or writes the first row that has it.
use mathlib.Core.Option
use far_mail.Base.{
  ℕ, ◌≡◌, Bool, false, List, [], ◌∷◌, ◌++◌, Option, none, some, ◌==◌, ==_iff, if◌then◌else◌, arith,
  Bool-cases, ap, refl, inl, inr, map, keep,
}

module _ {ℓ} {A : Type ℓ} (key : A → ℕ) where
  abbrev pub find : ℕ → List A → Option A
  find k [] = none
  find k (r ∷ rows) = if key r == k then some r else find k rows

  abbrev pub update : ℕ → (A → A) → List A → List A
  update k f [] = []
  update k f (r ∷ rows) = if key r == k then f r ∷ rows else r ∷ update k f rows

  -- Reading after a write that keeps the row's key.
  pub find-update :
      (j k : ℕ) (f : A → A) (rows : List A)
      → ((r : A) → key (f r) ≡ key r)
      → find j (update k f rows) ≡ (if k == j then Option.map f (find k rows) else find j rows)
  find-update j k f [] keeps = ground arith
  find-update j k f (r ∷ rows) keeps = ground (arith, keeps r, find-update j k f rows keeps)

  pub find-key : (k : ℕ) (rows : List A) (r : A) → find k rows ≡ some r → key r ≡ k
  find-key k [] r h = ground (arith, h)
  find-key k (q ∷ rows) r h = ground (arith, h, find-key k rows r)

  pub find-append :
      (k : ℕ) (rows : List A) (r : A)
      → find k rows ≡ none
      → find k (rows ++ r ∷ []) ≡ (if key r == k then some r else none)
  find-append k [] r h = refl
  find-append k (q ∷ rows) r h = ground (arith, h, find-append k rows r)

  pub find-append_other :
      (k : ℕ) (rows : List A) (r : A) → (key r == k) ≡ false → find k (rows ++ r ∷ []) ≡ find k rows
  find-append_other k [] r h = ground (arith, h)
  find-append_other k (q ∷ rows) r h = ground (arith, h, find-append_other k rows r)

  pub find-map :
      (k : ℕ) (f : A → A) (rows : List A)
      → ((r : A) → key (f r) ≡ key r)
      → find k (map f rows) ≡ Option.map f (find k rows)
  find-map k f [] keeps = refl
  find-map k f (r ∷ rows) keeps = ground (arith, keeps r, find-map k f rows keeps)

  pub find-keep :
      (k : ℕ) (q : ℕ → Bool) (rows : List A)
      → find k (keep (λ r. q (key r)) rows) ≡ (if q k then find k rows else none)
  find-keep k q [] = ground arith
  find-keep k q (r ∷ rows) = elim (Bool-cases (key r == k)) [
    | inl here ↦
        let same : key r ≡ k = (==_iff (key r) k).0 here in
        ground (arith, here, find-keep k q rows, ap q same)
    | inr there ↦ ground (arith, there, find-keep k q rows)
  ]

  -- Reading after a row is replaced by one with its key.
  pub find-replace :
      (j k : ℕ) (new : A) (rows : List A)
      → key new ≡ k
      → find j (update k (λ r. new) rows)
        ≡ (if k == j then Option.map (λ r. new) (find k rows) else find j rows)
  find-replace j k new [] same = ground arith
  find-replace j k new (r ∷ rows) same = ground (arith, same, find-replace j k new rows same)
