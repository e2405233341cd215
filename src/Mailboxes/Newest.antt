-- ===== src/Mailboxes/Newest.antt =====
-- The newest message of a mailbox and the number of its messages, when rows are deleted.
use far_mail.Base.{
  ℕ, ◌+◌, ◌≡◌, refl, inl, inr, Bool, true, false, not, List, [], ◌∷◌, none, some, arith, keep,
  Option-cases,
}
use far_mail.Mailboxes.{Email}
use far_mail.Mailboxes.Deletion.{count_emails, comes_after, newest, has_id}

module _ (p : Email → Bool) where
  pub count_keep_split :
      (mailbox : ℕ) (es : List Email)
      → count_emails mailbox (keep p es) + count_emails mailbox (keep (λ e. not (p e)) es)
        ≡ count_emails mailbox es
  unfolding count_emails
  count_keep_split mailbox [] = refl
  count_keep_split mailbox (e ∷ es) = ground (arith, count_keep_split mailbox es)

  -- A newest message that is among some rows is found there by its id.
  pub has_id-newest :
      (mailbox : ℕ) (es : List Email) (f : Email)
      → newest mailbox es ≡ some f
      → p f ≡ true
      → has_id f.id (keep p es) ≡ true
  unfolding newest
  has_id-newest mailbox [] f h k = ground (arith, h)
  has_id-newest mailbox (e ∷ es) f h k = elim (Option-cases (newest mailbox es)) [
    | inl before ↦ ground (arith, h, k, before)
    | inr (a, at) ↦ ground (arith, h, k, at, has_id-newest mailbox es a at)
  ]

  -- Rows of other mailboxes do not matter.
  pub newest-keep_others :
      (mailbox : ℕ) (es : List Email)
      → count_emails mailbox (keep p es) ≡ 0
      → newest mailbox (keep (λ e. not (p e)) es) ≡ newest mailbox es
  unfolding newest count_emails
  newest-keep_others mailbox [] h = refl
  newest-keep_others mailbox (e ∷ es) h = ground (arith, h, newest-keep_others mailbox es)

  newest-keep-none :
      (mailbox : ℕ) (es : List Email) → newest mailbox es ≡ none → newest mailbox (keep p es) ≡ none
  unfolding newest
  newest-keep-none mailbox [] h = refl
  newest-keep-none mailbox (e ∷ es) h = ground (arith, h, newest-keep-none mailbox es)

  -- Rows that are left out do not come after the newest.
  newest-keep-le :
      (mailbox : ℕ) (es : List Email) (f g : Email)
      → newest mailbox es ≡ some f
      → newest mailbox (keep p es) ≡ some g
      → comes_after g f ≡ false
  unfolding newest
  newest-keep-le mailbox [] f g h k = ground (arith, h)
  newest-keep-le mailbox (e ∷ es) f g h k = elim (Option-cases (newest mailbox es)) [
    | inl before ↦ ground (arith, h, k, before, newest-keep-none mailbox es before)
    | inr (a, at) ↦ elim (Option-cases (newest mailbox (keep p es))) [
      | inl gone ↦ ground (arith, h, k, at, gone)
      | inr (b, kept) ↦ ground (arith, h, k, at, kept, newest-keep-le mailbox es a b at kept)
    ]
  ]

  -- The newest message stays the newest if it is kept.
  pub newest-keep :
      (mailbox : ℕ) (es : List Email) (f : Email)
      → newest mailbox es ≡ some f
      → p f ≡ true
      → newest mailbox (keep p es) ≡ some f
  unfolding newest
  newest-keep mailbox [] f h k = ground (arith, h)
  newest-keep mailbox (e ∷ es) f h k = elim (Option-cases (newest mailbox es)) [
    | inl before ↦ ground (arith, h, k, before, newest-keep-none mailbox es before)
    | inr (a, at) ↦ elim (Option-cases (newest mailbox (keep p es))) [
      | inl gone ↦ ground (arith, h, k, at, gone, newest-keep mailbox es f)
      | inr (b, kept) ↦ ground (
        arith,
        h,
        k,
        at,
        kept,
        newest-keep-le mailbox es a b at kept,
        newest-keep mailbox es a at,
      )
    ]
  ]

pub newest-none :
    (mailbox : ℕ) (es : List Email) → count_emails mailbox es ≡ 0 → newest mailbox es ≡ none
unfolding newest count_emails
newest-none mailbox [] h = refl
newest-none mailbox (e ∷ es) h = ground (arith, h, newest-none mailbox es)
