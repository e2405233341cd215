-- ===== src/Tests/Domains.antt =====
-- The domains on concrete inputs.
use far_mail.Base.{
  ◌≡◌, refl, sym, ap, subst, inl, inr, true, false, List, [], ◌∷◌, none, some, arith, All, Elem,
}
use far_mail.Text.{codes, trim}
use far_mail.Ingress.Address.{split_address}
use far_mail.Ingress.Snapshot.{
  IngressSnapshot, ResolvedRecipient, resolve_recipient, refresh_snapshot,
}
use far_mail.Donations.{Domain, domain_active, domain_disabled}
use far_mail.Domains.{
  add_active, add_pending, promote, toggle, delete, active_domains, resolve_mailbox_domain,
  domain_by_name, best_domain, consider, load_domains,
}
use far_mail.Base.{ℕ, ◌+◌, ◌<◌}
use far_mail.Domains.Cache.{
  active_domains_cache_ttl, get_cached_domains, cache_domains, invalidate_domains,
}
use far_mail.Domains.Cache.Fresh.{
  CacheStep, stored, asked, cleared, run_all, IsLastStored, cached_answer,
}
use far_mail.Domains.States.{
  DomainStatement, insert_active, insert_pending, activate, switch, remove, execute, execute_all,
  IsCoherent, execute_all-IsCoherent,
}
use far_mail.Domains.Routed.{IsCanonical}
use far_mail.Domains.Routed.Agreed.{mailbox_is_routed}

abbrev site : Domain
site = record {
  id = 1;
  domain = codes "example.com";
  is_active = true;
  status = domain_active;
  is_donated = false;
  is_public = true;
  verified_at = some 5;
  mx_checked_at = none;
}

abbrev mail : Domain
mail = record site { id = 2; domain = codes "mail.example.com" }

abbrev paused : Domain
paused = record site {
  id = 3;
  domain = codes "box.mail.example.com";
  is_active = false;
  status = domain_disabled;
}

abbrev domains : List Domain
domains = site ∷ mail ∷ paused ∷ []

abbrev loaded : IngressSnapshot
loaded = record {
  domains =
      (record { id = 1; domain = codes "example.com" })
      ∷ (record { id = 2; domain = codes "mail.example.com" })
      ∷ [];
  default_account_id = 7;
  mailbox_ttl_minutes = 30;
}

resolve_box :
    resolve_mailbox_domain (codes " Box.Mail.Example.com. ") (active_domains domains)
    ≡ some (mail, codes "box.mail.example.com")
unfolding resolve_mailbox_domain active_domains domain_by_name best_domain consider trim
resolve_box = refl

load_both : loaded.domains ≡ load_domains domains
unfolding load_domains active_domains trim
load_both = refl

split_box :
    split_address (codes "Ann@Box.mail.example.com")
    ≡ some (codes "ann", codes "box.mail.example.com")
unfolding split_address trim
split_box = refl

site-IsCanonical : IsCanonical site
unfolding trim
site-IsCanonical = record {
  no_space = refl;
  no_dot = refl;
  lower = refl;
  named = λ e. ground (arith, e);
  positive = omega arith;
}

mail-IsCanonical : IsCanonical mail
unfolding trim
mail-IsCanonical = record {
  no_space = refl;
  no_dot = refl;
  lower = refl;
  named = λ e. ground (arith, e);
  positive = omega arith;
}

all-IsCanonical : (x : Domain) → Elem x (active_domains domains) → IsCanonical x
unfolding active_domains
all-IsCanonical x (inl e) = subst IsCanonical (sym e) site-IsCanonical
all-IsCanonical x (inr (inl e)) = subst IsCanonical (sym e) mail-IsCanonical
all-IsCanonical x (inr (inr at)) = absurd at

all_unique :
    (x y : Domain)
    → Elem x (active_domains domains)
    → Elem y (active_domains domains)
    → x.domain ≡ y.domain
    → x.id ≡ y.id
unfolding active_domains
all_unique x y (inl a) (inl b) e = ground (arith, a, b)
all_unique x y (inr (inl a)) (inr (inl b)) e = ground (arith, a, b)
all_unique x y (inl a) (inr (inl b)) e =
    ground (arith, a, b, e, ap (λ (d : Domain). d.domain) a, ap (λ (d : Domain). d.domain) b)
all_unique x y (inr (inl a)) (inl b) e =
    ground (arith, a, b, e, ap (λ (d : Domain). d.domain) a, ap (λ (d : Domain). d.domain) b)
all_unique x y (inl a) (inr (inr b)) e = absurd b
all_unique x y (inr (inl a)) (inr (inr b)) e = absurd b
all_unique x y (inr (inr a)) b e = absurd a

mailbox_is_routed_example :
    (r : ResolvedRecipient) × (resolve_recipient
        (refresh_snapshot loaded)
        (codes "Ann@Box.mail.example.com")
      ≡ some r)
    × (r.domain_id ≡ 2)
    × (r.domain_name ≡ codes "box.mail.example.com")
mailbox_is_routed_example =
    mailbox_is_routed domains loaded load_both all-IsCanonical all_unique
      (codes " Box.Mail.Example.com. ") (codes "box.mail.example.com")
      (codes "Ann@Box.mail.example.com") mail resolve_box split_box

abbrev statements : List DomainStatement
statements =
    remove (λ id. false) 1
    ∷ switch 2 false
    ∷ activate 9 2
    ∷ insert_pending 3 (codes "New.org")
    ∷ insert_pending 2 (codes "New.org")
    ∷ insert_active 5 1 (codes "Example.com")
    ∷ []

one_left :
    execute_all statements
    ≡ record {
      id = 2;
      domain = codes "new.org";
      is_active = false;
      status = domain_disabled;
      is_donated = false;
      is_public = true;
      verified_at = some 9;
      mx_checked_at = some 9;
    }
      ∷ []
unfolding execute_all execute add_active add_pending promote toggle delete
one_left = refl

execute_all-IsCoherent_example : All IsCoherent (execute_all statements)
execute_all-IsCoherent_example = execute_all-IsCoherent statements

abbrev steps : List CacheStep
steps = asked 7 ∷ stored 6 (mail ∷ []) ∷ cleared ∷ stored 5 (site ∷ []) ∷ []

answered_mail : (get_cached_domains 9 (run_all steps)).0 ≡ some (mail ∷ [])
unfolding get_cached_domains run_all cache_domains invalidate_domains
answered_mail = refl

cached_answer_example :
    (at : ℕ) × IsLastStored at (mail ∷ []) steps × (9 < at + active_domains_cache_ttl)
cached_answer_example = cached_answer steps 9 (mail ∷ []) answered_mail
