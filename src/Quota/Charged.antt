-- ===== src/Quota/Charged.antt =====
-- What a request costs in the rows of the tokens, by `APIAuth` of api/middleware/auth.go.
use far_mail.Base.{ℕ, not, ◌&&◌, List, none, some, ◌==◌, if◌then◌else◌}
use far_mail.Base.Table.{find}
use far_mail.Store.{Token}
use far_mail.Quota.{token_id, Outcome, refused, admitted}

-- The requests that the row of a token counts; 0 for a token without a row.
abbrev pub used : ℕ → List Token → ℕ
used id tokens = elim (find token_id id tokens) [ none ↦ 0 | some t ↦ t.request_count_total ]

-- One request for the token that was admitted, if it has a total limit.
abbrev pub cost : ℕ → Outcome → ℕ
cost id (refused why) = 0
cost id (admitted client) =
    if client.id == id && not (client.total_request_limit == 0) then 1 else 0
