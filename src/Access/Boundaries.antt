-- ===== src/Access/Boundaries.antt =====
-- The boundaries between the credentials of api/middleware/auth.go.
use far_mail.Base.{ℕ, ◌≡◌, refl, Bool, true, false, Option, some, arith}
use far_mail.Base.Result.{Result, done}
use far_mail.Text.{Bytes}
use far_mail.Store.{Token}
use far_mail.Donations.{is_donation_token}
use far_mail.Quota.{Outcome, refused, admitted}
use far_mail.Access.{
  Account, Context, AccessRefusal, admin_auth, donation_auth, api_context, admin_only,
  expires_later, not_revoked,
}

-- How a caller presents itself, with what the store knows at that moment.
pub data Caller : Type 0 where
  owner : (Bytes → Option (Account × Token)) → Bytes → Caller
  client : Account → Outcome → Caller
  donor : (Bytes → Option (Account × Token)) → ℕ → Bytes → Caller

unfoldable pub authenticate : Caller → Result AccessRefusal Context
authenticate (owner known header) = admin_auth known header
authenticate (client account outcome) = api_context account outcome
authenticate (donor known now header) = donation_auth known now header

abbrev pub is_owner : Caller → Bool
is_owner (owner known header) = true
is_owner _ = false

-- Only a caller that presented an admin key passes the guard of the console: a client's or a
-- donor's token does not, whatever its scope and its account.
pub admin_only-authenticate :
    (caller : Caller) (c : Context)
    → authenticate caller ≡ done c
    → admin_only (some c) ≡ true
    → is_owner caller ≡ true
unfolding authenticate admin_only api_context donation_auth
admin_only-authenticate (owner known header) c ok passes = refl
admin_only-authenticate (client account (refused why)) c ok passes = ground (arith, ok)
admin_only-authenticate (client account (admitted token)) c ok passes = ground (arith, ok, passes)
admin_only-authenticate (donor known now header) c ok passes = ground (arith, ok, passes)

-- A donor is admitted only with a reward token that is not revoked and not expired.
pub donation_auth_sound :
    (known : Bytes → Option (Account × Token)) (now : ℕ) (header : Bytes) (c : Context)
    → donation_auth known now header ≡ done c
    → (is_donation_token c.token ≡ true)
      × (not_revoked c.token.revoked_at ≡ true)
      × (expires_later now c.token.expires_at ≡ true)
unfolding donation_auth
donation_auth_sound known now header c ok =
    (ground (arith, ok), ground (arith, ok), ground (arith, ok))
