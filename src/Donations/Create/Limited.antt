-- ===== src/Donations/Create/Limited.antt =====
-- What a request of api/store/donations.go that succeeds has made.
use far_mail.Base.{
  ℕ, ◌+◌, ◌≤◌, ◌≡◌, refl, sym, ◌∙◌, ap, subst, Bool, false, ◌||◌, List, [], ◌∷◌, ◌++◌, Option, none,
  some, arith, ◌==◌, leb,
}
use far_mail.Base.Result.{done, and_then, and_then-done}
use far_mail.Text.{Bytes, trim_space}
use far_mail.Donations.{Donation, Tables, DonationPolicy}
use far_mail.Donations.Create.{
  Fresh, Created, Claimed, count_claims, is_claimed, claim_token, claim_domain, insert_donation,
  claim_and_insert, create_donation, donated_name,
}

-- The results of the two claims leave the donations.
claim_token-donations :
    (hash_token : Bytes → Bytes) (account : ℕ) (fresh : Fresh) (existing : Bytes) (db : Tables)
    (claimed : Claimed)
    → claim_token hash_token account fresh existing db ≡ done claimed
    → claimed.tables.donations ≡ db.donations
unfolding claim_token
claim_token-donations hash_token account fresh existing db claimed ok = ground (arith, ok)

claim_domain-donations :
    (fresh : Fresh) (name : Bytes) (db : Tables) (at : Tables × ℕ)
    → claim_domain fresh name db ≡ done at
    → at.0.donations ≡ db.donations
unfolding claim_domain
claim_domain-donations fresh name db at ok = ground (arith, ok)

count_claims-append :
    (token : ℕ) (ds : List Donation) (d : Donation)
    → count_claims token (ds ++ d ∷ []) ≤ count_claims token ds + 1
unfolding count_claims
count_claims-append token [] d = ground arith
count_claims-append token (x ∷ ds) d = ground (arith, count_claims-append token ds d)

-- Every domain has at most one donation.
unfoldable pub ClaimedOnce : List Donation → Type 0
ClaimedOnce [] = Unit
ClaimedOnce (d ∷ ds) = (is_claimed d.domain_id ds ≡ false) × ClaimedOnce ds

is_claimed-append :
    (dom : ℕ) (ds : List Donation) (d : Donation)
    → is_claimed dom (ds ++ d ∷ []) ≡ (is_claimed dom ds || d.domain_id == dom)
unfolding is_claimed
is_claimed-append dom [] d = ground arith
is_claimed-append dom (x ∷ ds) d = ground (arith, is_claimed-append dom ds d)

ClaimedOnce-append :
    (ds : List Donation) (d : Donation)
    → is_claimed d.domain_id ds ≡ false
    → ClaimedOnce ds
    → ClaimedOnce (ds ++ d ∷ [])
unfolding ClaimedOnce is_claimed
ClaimedOnce-append [] d fresh once = (refl, tt)
ClaimedOnce-append (x ∷ ds) d fresh once = (
  ground (arith, is_claimed-append x.domain_id ds d, once.0, fresh),
  ClaimedOnce-append ds d (ground (arith, fresh)) once.1,
)

-- What the steps of a request that succeeds were.
record Steps (hash_token : Bytes → Bytes) (policy : DonationPolicy) (fresh : Fresh) (name : Bytes)
    (include_subdomains : Bool) (db : Tables) (created : Created) : Type 0 where
  claimed : Claimed
  at : Tables × ℕ
  same_donations : at.0.donations ≡ db.donations
  below : leb policy.max_domains_per_token (count_claims claimed.token_id db.donations) ≡ false
  inserted :
      insert_donation hash_token policy fresh claimed.raw_token claimed.token_id include_subdomains
        at
      ≡ done created

claim_and_insert-done :
    (hash_token : Bytes → Bytes) (policy : DonationPolicy) (fresh : Fresh) (name : Bytes)
    (include_subdomains : Bool) (claimed : Claimed) (created : Created)
    → claim_and_insert hash_token policy fresh name include_subdomains claimed ≡ done created
    → (leb policy.max_domains_per_token (count_claims claimed.token_id claimed.tables.donations)
        ≡ false)
      × (and_then (claim_domain fresh name claimed.tables) (
            insert_donation hash_token policy fresh claimed.raw_token claimed.token_id
              include_subdomains)
          ≡ done created)
unfolding claim_and_insert
claim_and_insert-done hash_token policy fresh name include_subdomains claimed created ok =
    (ground (arith, ok), ground (arith, ok))

create_donation-Steps :
    (hash_token : Bytes → Bytes) (policy : DonationPolicy) (account : Option ℕ) (fresh : Fresh)
    (domain : Bytes) (include_subdomains : Bool) (existing : Bytes) (db : Tables)
    (created : Created)
    → create_donation hash_token policy account fresh domain include_subdomains existing db
      ≡ done created
    → Steps hash_token policy fresh (donated_name domain) include_subdomains db created
unfolding create_donation
create_donation-Steps hash_token policy none fresh domain include_subdomains existing db created
      ok =
    let impossible : ⊥ = ground (arith, ok) in elim impossible [ ]
create_donation-Steps hash_token policy (some account) fresh domain include_subdomains existing db
      created ok =
    let (claimed, first, rest) =
      and_then-done (claim_token hash_token account fresh (trim_space existing) db)
        (claim_and_insert hash_token policy fresh (donated_name domain) include_subdomains) created
        (ground (arith, ok)) in
    claimed_steps claimed
      (claim_token-donations hash_token account fresh (trim_space existing) db claimed first) rest
  where
    claimed_steps :
        (claimed : Claimed)
        → claimed.tables.donations ≡ db.donations
        → claim_and_insert hash_token policy fresh (donated_name domain) include_subdomains claimed
          ≡ done created
        → Steps hash_token policy fresh (donated_name domain) include_subdomains db created
    claimed_steps claimed same run =
        let (below, rest) =
          claim_and_insert-done hash_token policy fresh (donated_name domain) include_subdomains
            claimed created run in
        let (at, second, last) =
          and_then-done (claim_domain fresh (donated_name domain) claimed.tables)
            (insert_donation hash_token policy fresh claimed.raw_token claimed.token_id
              include_subdomains)
            created rest in
        record {
          claimed = claimed;
          at = at;
          same_donations =
              claim_domain-donations fresh (donated_name domain) claimed.tables at second ∙ same;
          below =
              ap (λ ds. leb policy.max_domains_per_token (count_claims claimed.token_id ds))
                (sym same)
              ∙ below;
          inserted = last;
        }

insert_donation-done :
    (hash_token : Bytes → Bytes) (policy : DonationPolicy) (fresh : Fresh) (raw_token : Bytes)
    (token : ℕ) (include_subdomains : Bool) (at : Tables × ℕ) (created : Created)
    → insert_donation hash_token policy fresh raw_token token include_subdomains at ≡ done created
    → (created.tables.donations ≡ at.0.donations ++ created.donation ∷ [])
      × (created.donation.token_id ≡ token)
      × (is_claimed created.donation.domain_id at.0.donations ≡ false)
unfolding insert_donation
insert_donation-done hash_token policy fresh raw_token token include_subdomains at created ok =
    (ground (arith, ok), ground (arith, ok), ground (arith, ok))

-- If every domain has at most one donation, then this still holds after a request that succeeds, and
-- the reward token of the new donation has at most the number of donations that are not revoked
-- that the policy allows, the new one included.
pub create_donation-limited :
    (hash_token : Bytes → Bytes) (policy : DonationPolicy) (account : Option ℕ) (fresh : Fresh)
    (domain : Bytes) (include_subdomains : Bool) (existing : Bytes) (db : Tables)
    (created : Created)
    → ClaimedOnce db.donations
    → create_donation hash_token policy account fresh domain include_subdomains existing db
      ≡ done created
    → ClaimedOnce created.tables.donations
      × (count_claims created.donation.token_id created.tables.donations
          ≤ policy.max_domains_per_token)
create_donation-limited hash_token policy account fresh domain include_subdomains existing db
      created once ok =
    let steps =
      create_donation-Steps hash_token policy account fresh domain include_subdomains existing db
        created ok in
    let (rows, of_token, unclaimed) =
      insert_donation-done hash_token policy fresh steps.claimed.raw_token steps.claimed.token_id
        include_subdomains steps.at created steps.inserted in
    let all_rows : db.donations ++ created.donation ∷ [] ≡ created.tables.donations =
      sym (rows ∙ ap (λ ds. ds ++ created.donation ∷ []) steps.same_donations) in
    (
      subst ClaimedOnce all_rows (
          ClaimedOnce-append db.donations created.donation
            (ap (is_claimed created.donation.domain_id) (sym steps.same_donations) ∙ unclaimed)
            once),
      subst (λ ds. count_claims created.donation.token_id ds ≤ policy.max_domains_per_token)
          all_rows (within created.donation.token_id of_token steps.below),
    )
  where
    within :
        {token : ℕ} (of : ℕ)
        → of ≡ token
        → leb policy.max_domains_per_token (count_claims token db.donations) ≡ false
        → count_claims of (db.donations ++ created.donation ∷ []) ≤ policy.max_domains_per_token
    within of same below = ground (
      arith,
      same,
      below,
      ap (λ k. count_claims k db.donations) same,
      count_claims-append of db.donations created.donation,
    )
