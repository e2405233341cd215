-- ===== src/Access.antt =====
-- The authentication of the three kinds of callers in api/middleware/auth.go: `AdminAuth`,
-- `DonationAuth`, the context that `APIAuth` sets, and the guards `AdminOnly` and
-- `RequireAnyScope`. What the store answers to a credential is a parameter.
pub mod Boundaries
use far_mail.Base.{
  ℕ, Bool, true, false, not, ◌&&◌, ◌||◌, List, [], ◌∷◌, Option, none, some, ltb, if◌then◌else◌,
  length, take, drop,
}
use far_mail.Base.Eq.{bytes_beq}
use far_mail.Base.Result.{Result, failed, done}
use far_mail.Text.{Bytes, codes, equal_fold, to_lower, trim_space}
use far_mail.Ingress.Address.{is_empty}
use far_mail.Store.{Token}
use far_mail.Donations.{is_donation_token}
use far_mail.Quota.{Outcome, refused, admitted}

pub data AuthMode : Type 0 where
  admin_console api_token donation_token : AuthMode

pub record Account : Type 0 where
  pub id : ℕ
  pub is_admin : Bool

-- What a middleware leaves for the handlers.
pub record Context : Type 0 where
  pub account : Account
  pub token : Token
  pub mode : AuthMode

pub data AccessRefusal : Type 0 where
  unauthorized forbidden : AccessRefusal

-- `AdminAuth`, on the header `X-Admin-Key`, with the answer of `GetAccountByAdminAuthKey`.
unfoldable pub admin_auth :
    (Bytes → Option (Account × Token)) → Bytes → Result AccessRefusal Context
admin_auth known header =
    if is_empty (trim_space header) then failed unauthorized else elim (known (trim_space header)) [
      | none ↦ failed unauthorized
      | some (account, token) ↦
          done (record { account = account; token = token; mode = admin_console })
    ]

-- A token that has an expiry must expire later.
abbrev pub expires_later : ℕ → Option ℕ → Bool
expires_later now none = true
expires_later now (some at) = ltb now at

abbrev pub not_revoked : Option ℕ → Bool
not_revoked none = true
not_revoked (some at) = false

-- `DonationAuth`, on the header `Authorization`.
unfoldable pub donation_auth :
    (Bytes → Option (Account × Token)) → ℕ → Bytes → Result AccessRefusal Context
donation_auth known now header =
    let raw = trim_space header in
    if ltb (length raw) 7 || not (equal_fold (take 7 raw) (codes "Bearer "))
    then failed unauthorized
    else elim (known (trim_space (drop 7 raw))) [
      | none ↦ failed unauthorized
      | some (account, token) ↦
          if is_donation_token token
            && not_revoked token.revoked_at
            && expires_later now token.expires_at
          then done (record { account = account; token = token; mode = donation_token })
          else failed unauthorized
    ]

-- The context that `APIAuth` sets for the account of the admitted token.
unfoldable pub api_context : Account → Outcome → Result AccessRefusal Context
api_context account (refused why) = failed unauthorized
api_context account (admitted token) =
    done (record { account = account; token = token; mode = api_token })

-- `AdminOnly`; a missing context is `none`.
unfoldable pub admin_only : Option Context → Bool
admin_only none = false
admin_only (some c) =
    c.account.is_admin
    && bytes_beq c.token.scope (codes "owner")
    && (elim c.mode [ admin_console ↦ true | _ ↦ false ])

unfoldable pub scope_allowed : List Bytes → Bytes → Bool
scope_allowed [] scope = false
scope_allowed (s ∷ scopes) scope =
    bytes_beq (to_lower (trim_space s)) scope || scope_allowed scopes scope

-- `RequireAnyScope`: `none` where the request goes on.
unfoldable pub require_any_scope : List Bytes → Option Context → Option AccessRefusal
require_any_scope scopes none = some unauthorized
require_any_scope scopes (some c) =
    if scope_allowed scopes c.token.scope then none else some forbidden
