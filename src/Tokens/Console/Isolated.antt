-- ===== src/Tokens/Console/Isolated.antt =====
-- The owner's operations of api/store/tokens.go leave reward tokens alone, and the cache forgets the
-- token they are on.
use far_mail.Base.{
  ℕ, ◌≡◌, ◌≢◌, refl, sym, ◌∙◌, ap, subst, ◌⊎◌, All, if_elim, inl, inr, Bool, true, false, not, List,
  [], ◌∷◌, Option, some, arith, ◌==◌, ==_iff, keep, ◌&&◌, Bool-cases, Option-cases,
}
use far_mail.Base.Int.{ℤ, pos_part}
use far_mail.Base.Table.{find, update, find-update, find-keep}
use far_mail.Text.{Bytes}
use far_mail.Store.{
  Token, TokenKind, CacheEntry, standard, donation, TokenCache, delete_tokens, invalidate_tokens,
  mem_ℕ,
}
use far_mail.Quota.{token_id}
use far_mail.Donations.{fits_int4}
use far_mail.Tokens.Console.{
  Tables, is_standard, get_token, write, any_row, not_revoked, edited, update_token, rotate_token,
  disable_token, enable_token, delete_token,
}

pub data Operation : Type 0 where
  edit : Bytes → ℤ → ℤ → ℤ → Option ℕ → Operation
  rotate : (Bytes → Bytes) → Bytes → Operation
  switch_off : ℕ → Operation
  switch_on remove : Operation

-- An operation on the token with an id, of an account.
unfoldable pub operate : Operation → ℕ → ℕ → Tables → Option Tables
operate (edit scope rpm daily total expires_at) id account =
    update_token id account scope rpm daily total expires_at
operate (rotate hash raw) id account = rotate_token hash raw id account
operate (switch_off now) id account = disable_token now id account
operate switch_on id account = enable_token id account
operate remove id account = delete_token id account

-- The token was a standard one, the rows of other ids are the same, and the cache is invalidated.
record IsIsolated (id : ℕ) (db after : Tables) : Type 0 where
  was_standard : (t : Token) → find token_id id db.tokens ≡ some t → t.kind ≡ standard
  others : (k : ℕ) → (id == k) ≡ false → find token_id k after.tokens ≡ find token_id k db.tokens
  forgotten : after.cache ≡ invalidate_tokens (id ∷ []) db.cache

kind-standard : (t : Token) → is_standard t.kind ≡ true → t.kind ≡ standard
kind-standard t h = named t.kind h
  where
    named : (k : TokenKind) → is_standard k ≡ true → k ≡ standard
    named standard h = refl
    named donation h = absurd (ground (arith, h))

get_token-standard :
    (id account : ℕ) (tokens : List Token) (t r : Token)
    → get_token id account tokens ≡ some t
    → find token_id id tokens ≡ some r
    → r.kind ≡ standard
unfolding get_token
get_token-standard id account tokens t r h found = kind-standard r (ground (arith, h, found))

write-IsIsolated :
    (id account : ℕ) (chosen : Token → Bool) (f : Token → Token) (db after : Tables)
    → ((t : Token) → token_id (f t) ≡ token_id t)
    → write id account chosen f db ≡ some after
    → IsIsolated id db after
unfolding write
write-IsIsolated id account chosen f db after keeps h =
    elim (Option-cases (get_token id account db.tokens)) [
      | inl absent ↦ absurd (ground (arith, h, absent))
      | inr (t, mine) ↦ elim (Bool-cases (chosen t)) [
        | inr unchosen ↦ absurd (ground (arith, h, mine, unchosen))
        | inl on ↦
            subst (IsIsolated id db)
              {x = record {
                tokens = update token_id id f db.tokens;
                cache = invalidate_tokens (id ∷ []) db.cache;
              }}
              {y = after} (ground (arith, h, mine, on))
              (record {
                was_standard = λ r found. get_token-standard id account db.tokens t r mine found;
                others =
                    λ k other. ground (arith, other, find-update token_id k id f db.tokens keeps);
                forgotten = refl;
              })
      ]
    ]

flipped : (a b : ℕ) → (a == b) ≡ false → (b == a) ≡ false
flipped a b h = ground (arith, h)

delete_token-IsIsolated :
    (id account : ℕ) (db after : Tables)
    → delete_token id account db ≡ some after
    → IsIsolated id db after
unfolding delete_token
delete_token-IsIsolated id account db after h =
    elim (Option-cases (get_token id account db.tokens)) [
      | inl absent ↦ absurd (ground (arith, h, absent))
      | inr (t, mine) ↦
          subst (IsIsolated id db)
            {x = record {
              tokens = keep (λ r. not (token_id r == id)) db.tokens;
              cache = invalidate_tokens (id ∷ []) db.cache;
            }}
            {y = after} (ground (arith, h, mine))
            (record {
              was_standard = λ r found. get_token-standard id account db.tokens t r mine found;
              others = λ k other.
                  find-keep token_id k (λ j. not (j == id)) db.tokens
                  ∙ ground (arith, other, flipped id k other);
              forgotten = refl;
            })
    ]

operate-IsIsolated :
    (o : Operation) (id account : ℕ) (db after : Tables)
    → operate o id account db ≡ some after
    → IsIsolated id db after
unfolding operate update_token rotate_token disable_token enable_token
operate-IsIsolated (edit scope rpm daily total expires_at) id account db after h =
    elim (Bool-cases (fits_int4 (pos_part rpm) && fits_int4 (pos_part daily))) [
      | inl fits ↦
          write-IsIsolated id account any_row (edited scope rpm daily total expires_at) db after
            (λ t. refl) (ground (arith, h, fits))
      | inr too_large ↦ absurd (ground (arith, h, too_large))
    ]
operate-IsIsolated (rotate hash raw) id account db after h =
    write-IsIsolated id account any_row _ db after (λ t. refl) h
operate-IsIsolated (switch_off now) id account db after h =
    write-IsIsolated id account not_revoked _ db after (λ t. refl) h
operate-IsIsolated switch_on id account db after h =
    write-IsIsolated id account any_row _ db after (λ t. refl) h
operate-IsIsolated remove id account db after h = delete_token-IsIsolated id account db after h

IsFree : ℕ → List (Bytes × CacheEntry) → Type 0
IsFree id = All (λ p. (p.1.token.id == id) ≡ false)

delete_tokens-IsFree :
    (id : ℕ) (m : List (Bytes × CacheEntry)) → IsFree id (delete_tokens (id ∷ []) m)
unfolding delete_tokens IsFree
delete_tokens-IsFree id [] = tt
delete_tokens-IsFree id ((hash, entry) ∷ m) =
    if_elim (IsFree id) (mem_ℕ entry.token.id (id ∷ [])) _ _ (λ _. delete_tokens-IsFree id m)
      (λ other. (ground (arith, other), delete_tokens-IsFree id m))

invalidate_tokens-IsFree :
    (id : ℕ) (cache : TokenCache) → IsFree id (invalidate_tokens (id ∷ []) cache).entries
unfolding invalidate_tokens
invalidate_tokens-IsFree id cache = delete_tokens-IsFree id cache.entries

-- After an operation of the owner on a token that succeeds, be it an edit, a rotation, a disabling,
-- an enabling or a deletion: a reward token, and every token with another id, has the row that it
-- had, and the cache has no entry of the token that the operation is on.
pub operate-isolated :
    (o : Operation) (id account : ℕ) (db after : Tables) (k : ℕ) (t : Token)
    → operate o id account db ≡ some after
    → find token_id k db.tokens ≡ some t
    → (t.kind ≡ donation) ⊎ (k ≢ id)
    → (find token_id k after.tokens ≡ some t)
      × All (λ p. (p.1.token.id == id) ≡ false) after.cache.entries
unfolding IsFree
operate-isolated o id account db after k t h found apart =
    let isolated = operate-IsIsolated o id account db after h in
    let other : (id == k) ≡ false = elim (Bool-cases (id == k)) [
      | inr differs ↦ differs
      | inl same ↦
          let id_k : id ≡ k = (==_iff id k).0 same in
          let mine = isolated.was_standard t (ap (λ j. find token_id j db.tokens) id_k ∙ found) in
          elim apart [
            | inl reward ↦ absurd (standard-apart (sym mine ∙ reward))
            | inr differs ↦ absurd (differs (sym id_k))
          ]
    ] in
    (
      isolated.others k other ∙ found,
      subst (λ (c : TokenCache). IsFree id c.entries) (sym isolated.forgotten)
          (invalidate_tokens-IsFree id db.cache),
    )
  where
    standard-apart : standard ≢ donation
    standard-apart e = ground (arith, ap is_standard e)
