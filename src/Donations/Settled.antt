-- ===== src/Donations/Settled.antt =====
-- Every reward token carries the limits that it is entitled to, after each transaction of
-- api/store/donations.go on one donation or one token.
use mathlib.Core.Option
use far_mail.Base.{
  subst, ℕ, ◌≡◌, ◌≢◌, refl, sym, ◌∙◌, ap, ◌⊎◌, inl, inr, true, List, [], ◌∷◌, ◌++◌, some, arith,
  ◌==◌, ==_iff, if◌then◌else◌, Bool-cases, Option-cases,
}
use far_mail.Base.Int.{ℤ, ◌+ℤ◌}
use far_mail.Base.Table.{find, update, find-update}
use far_mail.Base.Result.{done}
use far_mail.Store.{Token}
use far_mail.Donations.{
  Donation, RewardEvent, Tables, TokenLimits, active_sum, manual_sum, entitled, put_limits,
  is_donation_token, token_id, donation_id, recalculate,
}

abbrev pub limits_of : Token → TokenLimits
limits_of t = record {
  rpm = t.rate_limit_per_minute;
  daily = t.daily_request_limit;
  total = t.total_request_limit;
}

-- The row of a reward token carries the limits that the tables entitle it to.
unfoldable pub SettledAt : ℤ → Tables → ℕ → Type 0
SettledAt rate_cap db token =
    (t : Token)
    → find token_id token db.tokens ≡ some t
    → is_donation_token t ≡ true
    → limits_of t ≡ entitled rate_cap token db

unfoldable pub IsSettled : ℤ → Tables → Type 0
IsSettled rate_cap db = (token : ℕ) → SettledAt rate_cap db token

unfoldable pub IsSettledBut : ℕ → ℤ → Tables → Type 0
IsSettledBut token rate_cap db = (other : ℕ) → other ≢ token → SettledAt rate_cap db other

-- Two states of the tables with the same grants and adjustments for a token.
pub record SameSums (token : ℕ) (a b : Tables) : Type 0 where
  pub active : (r : Donation → ℕ) → active_sum r token a.donations ≡ active_sum r token b.donations
  pub manual : (δ : RewardEvent → ℤ) → manual_sum δ token a.events ≡ manual_sum δ token b.events

pub entitled_cong :
    (rate_cap : ℤ) (token : ℕ) (a b : Tables)
    → SameSums token a b
    → entitled rate_cap token a ≡ entitled rate_cap token b
unfolding entitled
entitled_cong rate_cap token a b h = ground (
  arith,
  h.active (λ d. d.reward_rpm),
  h.active (λ d. d.reward_daily),
  h.active (λ d. d.reward_total),
  h.manual (λ e. e.rpm_delta),
  h.manual (λ e. e.daily_delta),
  h.manual (λ e. e.total_delta),
)

pub active_sum-update :
    (r : Donation → ℕ) (token id : ℕ) (f : Donation → Donation) (d : Donation) (ds : List Donation)
    → find donation_id id ds ≡ some d
    → token ≢ d.token_id
    → (f d).token_id ≡ d.token_id
    → active_sum r token (update donation_id id f ds) ≡ active_sum r token ds
unfolding active_sum
active_sum-update r token id f d [] found other keeps = refl
active_sum-update r token id f d (x ∷ ds) found other keeps =
    ground (arith, active_sum-update r token id f d ds)

pub manual_sum-append :
    (δ : RewardEvent → ℤ) (token : ℕ) (e : RewardEvent) (es : List RewardEvent)
    → token ≢ e.token_id
    → manual_sum δ token (es ++ e ∷ []) ≡ manual_sum δ token es
unfolding manual_sum ◌+ℤ◌
manual_sum-append δ token e [] other = ground arith
manual_sum-append δ token e (x ∷ es) other = ground (arith, manual_sum-append δ token e es other)

abbrev pub with_limits : ℤ → ℕ → Tables → Tables
with_limits rate_cap token db = record db {
  tokens = update token_id token (put_limits (entitled rate_cap token db)) db.tokens;
}

pub recalculate-done :
    (rate_cap : ℤ) (token : ℕ) (db after : Tables)
    → recalculate rate_cap token db ≡ done after
    → with_limits rate_cap token db ≡ after
unfolding recalculate
recalculate-done rate_cap token db after h = ground (arith, h)

put_limits-id : (limits : TokenLimits) (t : Token) → token_id (put_limits limits t) ≡ token_id t
unfolding put_limits
put_limits-id limits t = ground arith

limits_of-put_limits :
    (limits : TokenLimits) (t : Token)
    → is_donation_token (put_limits limits t) ≡ true
    → limits_of (put_limits limits t) ≡ limits
unfolding put_limits
limits_of-put_limits limits t h = ground (arith, h)

find-with_limits :
    (limits : TokenLimits) (token other : ℕ) (tokens : List Token)
    → find token_id other (update token_id token (put_limits limits) tokens) ≡ (
        if token == other
        then Option.map (put_limits limits) (find token_id token tokens)
        else find token_id other tokens)
find-with_limits limits token other tokens =
    find-update token_id other token (put_limits limits) tokens (put_limits-id limits)

-- The row of the token that is written carries the limits that are written, and any other row is
-- the one it was.
written_row :
    (limits : TokenLimits) (token other : ℕ) (tokens : List Token) (t : Token)
    → find token_id other (update token_id token (put_limits limits) tokens) ≡ some t
    → is_donation_token t ≡ true
    → (token ≡ other) × (limits_of t ≡ limits)
      ⊎ (other ≢ token) × (find token_id other tokens ≡ some t)
written_row limits token other tokens t found kind = elim (Bool-cases (token == other)) [
  | inl same ↦ elim (Option-cases (find token_id token tokens)) [
    | inl absent ↦
        let impossible : ⊥ = ground (arith, read_back, same, absent, found) in elim impossible [ ]
    | inr row ↦
        let written : put_limits limits row.0 ≡ t = ground (arith, read_back, same, row.1, found) in
        inl (
          (==_iff token other).0 same,
          subst (λ (q : Token). limits_of q ≡ limits) written
              (limits_of-put_limits limits row.0 (ap is_donation_token written ∙ kind)),
        )
  ]
  | inr distinct ↦ inr (
    (λ e. ground (arith, e, distinct, ==_iff token other)),
    ground (arith, read_back, distinct, found),
  )
]
  where
    read_back : find token_id other (update token_id token (put_limits limits) tokens) ≡ (
        if token == other
        then Option.map (put_limits limits) (find token_id token tokens)
        else find token_id other tokens)
    read_back = find-with_limits limits token other tokens

entitled-tokens :
    (rate_cap : ℤ) (token other : ℕ) (db : Tables)
    → entitled rate_cap other (with_limits rate_cap token db) ≡ entitled rate_cap other db
unfolding entitled
entitled-tokens rate_cap token other db = refl

pub with_limits-settles-at :
    (rate_cap : ℤ) (token other : ℕ) (db : Tables)
    → (other ≢ token → SettledAt rate_cap db other)
    → SettledAt rate_cap (with_limits rate_cap token db) other
unfolding SettledAt
with_limits-settles-at rate_cap token other db h t found kind =
    elim (written_row (entitled rate_cap token db) token other db.tokens t found kind) [
      | inl written ↦
          written.1
          ∙ ap (λ k. entitled rate_cap k db) written.0
          ∙ sym (entitled-tokens rate_cap token other db)
      | inr kept ↦ h kept.0 t kept.1 kind ∙ sym (entitled-tokens rate_cap token other db)
    ]

pub with_limits-settles :
    (rate_cap : ℤ) (token : ℕ) (db : Tables)
    → IsSettledBut token rate_cap db
    → IsSettled rate_cap (with_limits rate_cap token db)
unfolding IsSettledBut IsSettled
with_limits-settles rate_cap token db h other =
    with_limits-settles-at rate_cap token other db (h other)
