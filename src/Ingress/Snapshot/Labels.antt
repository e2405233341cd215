-- ===== src/Ingress/Snapshot/Labels.antt =====
-- When a domain name lies under a root, and the names that the walk goes through.
use far_mail.Base.{
  ℕ, suc, ◌≤◌, ◌<◌, ◌≡◌, refl, sym, ap, ◌⊎◌, inl, inr, [], ◌∷◌, ◌++◌, some, arith, ◌==◌, length,
  length-append, length-drop, take, drop, Bool-cases, Option-cases,
}
use mathlib.Core.List.{append_assoc}
use far_mail.Text.{Bytes, index_byte}
use far_mail.Text.Search.{index_byte-FirstSplit}
use far_mail.Ingress.Snapshot.{parent_name}

-- `name` is `root`, or a subdomain of it.
abbrev pub LiesUnder : Bytes → Bytes → Type 0
LiesUnder root name = (name ≡ root) ⊎ ((front : Bytes) × (name ≡ front ++ (b'.' ∷ root)))

pub LiesUnder-length : (root name : Bytes) → LiesUnder root name → length root ≤ length name
LiesUnder-length root name (inl e) = rw e (omega arith)
LiesUnder-length root name (inr (front, e)) =
    rw e (omega (arith, length-append front (b'.' ∷ root)))

-- A strict subdomain of `root` lies under `root` without its first label too.
subdomain-parent :
    (front root : Bytes)
    → (i : ℕ) × (index_byte b'.' (front ++ (b'.' ∷ root)) ≡ some i)
      × LiesUnder root (drop (suc i) (front ++ (b'.' ∷ root)))
subdomain-parent [] root = (0, refl, inl refl)
subdomain-parent (c ∷ front) root =
    let (i, e, under) = subdomain-parent front root in
    elim (Bool-cases (c == b'.')) [
      | inl dot ↦ (0, rw dot refl, inr (front, refl))
      | inr other ↦ (suc i, rw other (rw (e, index_byte) refl), under)
    ]

parent_name-at :
    (name : Bytes) (i : ℕ)
    → index_byte b'.' name ≡ some i
    → 0 < length (drop (suc i) name)
    → parent_name name ≡ some (drop (suc i) name)
parent_name-at name i e pos =
    let size = length-drop (suc i) name in rw (e, parent_name) (ground arith)

subdomain-parent_name :
    (front root : Bytes)
    → 0 < length root
    → (next : Bytes) × (parent_name (front ++ (b'.' ∷ root)) ≡ some next) × LiesUnder root next
subdomain-parent_name front root pos =
    let (i, e, under) = subdomain-parent front root in
    let next = drop (suc i) (front ++ (b'.' ∷ root)) in
    (
      next,
      parent_name-at (front ++ (b'.' ∷ root)) i e (omega (arith, LiesUnder-length root next under)),
      under,
    )

-- What lies under a root, and is not the root, has a parent that lies under it.
pub LiesUnder-parent :
    (root name : Bytes)
    → 0 < length root
    → LiesUnder root name
    → (name ≡ root) ⊎ ((next : Bytes) × (parent_name name ≡ some next) × LiesUnder root next)
LiesUnder-parent root name pos (inl e) = inl e
LiesUnder-parent root name pos (inr (front, e)) = inr (rw e (subdomain-parent_name front root pos))

under-append :
    (front mid name root : Bytes)
    → name ≡ front ++ (b'.' ∷ mid)
    → LiesUnder root mid
    → LiesUnder root name
under-append front mid name root e (inl same) = inr (front, rw (← same) e)
under-append front mid name root e (inr (part, same)) =
    inr (
      front ++ (b'.' ∷ part),
      rw e (rw same (sym (append_assoc front (b'.' ∷ part) (b'.' ∷ root)))),
    )

-- A parent is shorter, and what it lies under its children lie under too.
pub parent_name-under :
    (name next : Bytes)
    → parent_name name ≡ some next
    → (length next < length name) × ((root : Bytes) → LiesUnder root next → LiesUnder root name)
parent_name-under name next h = elim (Option-cases (index_byte b'.' name)) [
  | inl e ↦ absurd (ground arith)
  | inr (i, e) ↦
      let split = index_byte-FirstSplit b'.' name i e in
      let is_next : drop (suc i) name ≡ next = ground arith in
      (
        omega (arith, ap length is_next, length-drop (suc i) name, split.2),
        λ root under.
            under-append (take i name) (drop (suc i) name) name root split.0 (rw is_next under),
      )
]
