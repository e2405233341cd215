-- ===== src/Quota/Admitted.antt =====
-- The total limits of the tokens under `APIAuth` of api/middleware/auth.go, and what a refusal leaves.
use mathlib.Core.Option
use far_mail.Base.{
  ℕ, ◌+◌, ◌≤◌, ◌<◌, ◌≡◌, refl, sym, subst, inl, inr, true, List, some, arith, ◌==◌, ==_iff,
  if◌then◌else◌, Bool-cases, Option-cases, ◌⊎◌,
}
use far_mail.Base.Table.{find, update, find-update}
use far_mail.Text.{Bytes}
use far_mail.Store.{Token}
use far_mail.Quota.{
  Counters, increment_usage, may_use, used_once_more, token_id, Refusal, refused, Moment,
  Surroundings, bearer, charge, count_request, api_auth,
}

-- A request that `APIAuth` itself refuses, for whatever reason, is not counted in the row of any
-- token.
pub refused_not_charged :
    (world : Surroundings) (at : Moment) (header : Bytes) (counters : Counters)
    (tokens : List Token) (why : Refusal)
    → (api_auth world at header counters tokens).2 ≡ refused why
    → (api_auth world at header counters tokens).1 ≡ tokens
unfolding api_auth count_request charge
refused_not_charged world at header counters tokens why h = ground (arith, h)

may_use-below :
    (now : ℕ) (t : Token)
    → may_use now t ≡ true
    → (t.total_request_limit ≡ 0) ⊎ (t.request_count_total < t.total_request_limit)
may_use-below now t h = ground (arith, h, ==_iff t.total_request_limit 0)

-- No row has used more than its total limit, where it has one.
unfoldable pub WithinTotal : List Token → Type 0
WithinTotal tokens =
    (id : ℕ) (t : Token)
    → find token_id id tokens ≡ some t
    → (t.total_request_limit ≡ 0) ⊎ (t.request_count_total ≤ t.total_request_limit)

used_once_more-WithinTotal :
    (now id : ℕ) (t : Token) (tokens : List Token)
    → find token_id id tokens ≡ some t
    → may_use now t ≡ true
    → WithinTotal tokens
    → WithinTotal (update token_id id used_once_more tokens)
unfolding WithinTotal
used_once_more-WithinTotal now id t tokens found may h other row at =
    elim (Bool-cases (id == other)) [
      | inl same ↦
          let here : used_once_more t ≡ row = ground (arith, read_back, same, found, at) in
          subst
            (λ (r : Token).
              (r.total_request_limit ≡ 0) ⊎ (r.request_count_total ≤ r.total_request_limit))
            here (once_more (may_use-below now t may))
      | inr distinct ↦ h other row (ground (arith, read_back, distinct, at))
    ]
  where
    read_back : find token_id other (update token_id id used_once_more tokens) ≡ (
        if id == other
        then Option.map used_once_more (find token_id id tokens)
        else find token_id other tokens)
    read_back = find-update token_id other id used_once_more tokens (λ r. refl)

    once_more :
        (t.total_request_limit ≡ 0) ⊎ (t.request_count_total < t.total_request_limit)
        → (t.total_request_limit ≡ 0) ⊎ (t.request_count_total + 1 ≤ t.total_request_limit)
    once_more (inl none_set) = inl none_set
    once_more (inr below) = inr (omega (arith, below))

-- A request leaves the rows, or counts once in the row of one token that may be used.
rows_after :
    (world : Surroundings) (at : Moment) (header : Bytes) (counters : Counters)
    (tokens : List Token)
    → ((api_auth world at header counters tokens).1 ≡ tokens)
      ⊎ ((id : ℕ) × (t : Token) × (find token_id id tokens ≡ some t)
          × (may_use at.now t ≡ true)
          × ((api_auth world at header counters tokens).1
              ≡ update token_id id used_once_more tokens))
unfolding api_auth count_request charge increment_usage
rows_after world at header counters tokens = elim (Option-cases (world.known (bearer header))) [
  | inl unknown ↦ inl (ground (arith, unknown))
  | inr known ↦ elim (Option-cases (find token_id known.0.id tokens)) [
    | inl absent ↦ inl (ground (arith, known.1, absent))
    | inr row ↦ elim (Bool-cases (may_use at.now row.0)) [
      | inl may ↦
          let either : ((api_auth world at header counters tokens).1 ≡ tokens)
              ⊎ ((api_auth world at header counters tokens).1
                  ≡ update token_id known.0.id used_once_more tokens) =
            ground (arith, known.1, row.1, may) in
          elim either [
            | inl kept ↦ inl kept
            | inr counted ↦ inr (known.0.id, row.0, row.1, may, counted)
          ]
      | inr barred ↦ inl (ground (arith, known.1, row.1, barred))
    ]
  ]
]

-- If no token has used more than its total limit, where it has one, then none has after a request,
-- whatever the cached row says that the request was admitted on.
pub api_auth-WithinTotal :
    (world : Surroundings) (at : Moment) (header : Bytes) (counters : Counters)
    (tokens : List Token)
    → WithinTotal tokens
    → WithinTotal (api_auth world at header counters tokens).1
api_auth-WithinTotal world at header counters tokens h =
    elim (rows_after world at header counters tokens) [
      | inl kept ↦ subst WithinTotal (sym kept) h
      | inr (id, t, found, may, counted) ↦
          subst WithinTotal (sym counted)
            (used_once_more-WithinTotal at.now id t tokens found may h)
    ]
