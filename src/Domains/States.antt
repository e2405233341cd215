-- ===== src/Domains/States.antt =====
-- A domain is active exactly if its status is, after any sequence of statements on the domains.
use far_mail.Base.{
  ℕ, ◌≡◌, refl, subst, Bool, true, false, not, List, [], ◌∷◌, ◌++◌, Option, none, some, arith, ◌==◌,
  if_elim, All, All-append, keep, inl, inr, Option-cases,
}
use far_mail.Base.Table.{update}
use far_mail.Text.{Bytes, to_lower}
use far_mail.Donations.{Domain, domain_id, domain_active, domain_pending}
use far_mail.Donations.Create.{find_domain}
use far_mail.Donations.Transactions.{enable_domain, disable_domain}
use far_mail.Domains.{
  is_active_status, manual_domain, add_active, add_pending, pend, promote, touch, disable, toggle,
  delete,
}

-- The two columns agree.
abbrev pub IsCoherent : Domain → Type 0
IsCoherent d = d.is_active ≡ is_active_status d.status

module _ (P : Domain → Type 0) where
  All-update :
      (id : ℕ) (f : Domain → Domain) (ds : List Domain)
      → ((d : Domain) → P d → P (f d))
      → All P ds
      → All P (update domain_id id f ds)
  All-update id f [] k h = tt
  All-update id f (d ∷ ds) k h =
      if_elim (All P) (domain_id d == id) _ _ (λ _. (k d h.0, h.1))
        (λ _. (h.0, All-update id f ds k h.1))

  All-keep : (p : Domain → Bool) (ds : List Domain) → All P ds → All P (keep p ds)
  All-keep p [] h = tt
  All-keep p (d ∷ ds) h =
      if_elim (All P) (p d) _ _ (λ _. (h.0, All-keep p ds h.1)) (λ _. All-keep p ds h.1)

-- A statement of the console, of the checks of MX records, or of a donation's verification.
pub data DomainStatement : Type 0 where
  insert_active : ℕ → ℕ → Bytes → DomainStatement
  insert_pending : ℕ → Bytes → DomainStatement
  activate : ℕ → ℕ → DomainStatement
  check : ℕ → ℕ → DomainStatement
  deactivate : ℕ → ℕ → DomainStatement
  switch : ℕ → Bool → DomainStatement
  remove : (ℕ → Bool) → ℕ → DomainStatement

abbrev or_same : List Domain → Option (List Domain) → List Domain
or_same ds none = ds
or_same ds (some after) = after

unfoldable pub execute : DomainStatement → List Domain → List Domain
execute (insert_active now id name) ds = or_same ds (add_active now id name ds)
execute (insert_pending id name) ds = add_pending id name ds
execute (activate now id) ds = promote now id ds
execute (check now id) ds = touch now id ds
execute (deactivate now id) ds = disable now id ds
execute (switch id active) ds = toggle id active ds
execute (remove is_referenced id) ds = or_same ds (delete is_referenced id ds)

-- The statements, the last one first, on no domains.
unfoldable pub execute_all : List DomainStatement → List Domain
execute_all [] = []
execute_all (s ∷ before) = execute s (execute_all before)

or_same-IsCoherent :
    (ds : List Domain) (o : Option (List Domain))
    → All IsCoherent ds
    → ((after : List Domain) → o ≡ some after → All IsCoherent after)
    → All IsCoherent (or_same ds o)
or_same-IsCoherent ds none h k = h
or_same-IsCoherent ds (some after) h k = k after refl

inserted-IsCoherent :
    (ds : List Domain) (d : Domain)
    → IsCoherent d
    → All IsCoherent ds
    → All IsCoherent (ds ++ d ∷ [])
inserted-IsCoherent ds d own h = All-append IsCoherent ds (d ∷ []) h (own, tt)

pend-IsCoherent : (d : Domain) → IsCoherent (pend d)
pend-IsCoherent d = ground arith

add_active-IsCoherent :
    (now id : ℕ) (name : Bytes) (ds after : List Domain)
    → All IsCoherent ds
    → add_active now id name ds ≡ some after
    → All IsCoherent after
unfolding add_active
add_active-IsCoherent now id name ds after h ok =
    subst (All IsCoherent) (ground (arith, ok)) (
      inserted-IsCoherent ds (manual_domain id (to_lower name) true domain_active (some now)) refl
        h)

delete-IsCoherent :
    (is_referenced : ℕ → Bool) (id : ℕ) (ds after : List Domain)
    → All IsCoherent ds
    → delete is_referenced id ds ≡ some after
    → All IsCoherent after
unfolding delete
delete-IsCoherent is_referenced id ds after h ok =
    subst (All IsCoherent) (ground (arith, ok)) (All-keep IsCoherent (λ d. not (d.id == id)) ds h)

add_pending-IsCoherent :
    (id : ℕ) (name : Bytes) (ds : List Domain)
    → All IsCoherent ds
    → All IsCoherent (add_pending id name ds)
unfolding add_pending
add_pending-IsCoherent id name ds h = elim (Option-cases (find_domain (to_lower name) ds)) [
  | inl absent ↦
      subst (All IsCoherent) {x = ds ++ new ∷ []} (ground (arith, absent))
        (inserted-IsCoherent ds new refl h)
  | inr (d, found) ↦
      subst (All IsCoherent) {x = update domain_id d.id pend ds} (ground (arith, found))
        (All-update IsCoherent d.id pend ds (λ e _. pend-IsCoherent e) h)
]
  where
    new : Domain
    new = manual_domain id (to_lower name) false domain_pending none

execute-IsCoherent :
    (s : DomainStatement) (ds : List Domain) → All IsCoherent ds → All IsCoherent (execute s ds)
unfolding execute promote touch disable toggle
execute-IsCoherent (insert_active now id name) ds h =
    or_same-IsCoherent ds _ h (λ after. add_active-IsCoherent now id name ds after h)
execute-IsCoherent (insert_pending id name) ds h = add_pending-IsCoherent id name ds h
execute-IsCoherent (activate now id) ds h =
    All-update IsCoherent id (enable_domain now) ds (λ d _. refl) h
execute-IsCoherent (check now id) ds h = All-update IsCoherent id _ ds (λ d k. k) h
execute-IsCoherent (deactivate now id) ds h =
    All-update IsCoherent id (disable_domain now) ds (λ d _. refl) h
execute-IsCoherent (switch id active) ds h = All-update IsCoherent id _ ds (λ d _. ground arith) h
execute-IsCoherent (remove is_referenced id) ds h =
    or_same-IsCoherent ds _ h (λ after. delete-IsCoherent is_referenced id ds after h)

-- After any sequence of statements on the domains, every domain is active exactly if its status
-- says so.
pub execute_all-IsCoherent :
    (statements : List DomainStatement) → All IsCoherent (execute_all statements)
unfolding execute_all
execute_all-IsCoherent [] = tt
execute_all-IsCoherent (s ∷ before) =
    execute-IsCoherent s (execute_all before) (execute_all-IsCoherent before)
