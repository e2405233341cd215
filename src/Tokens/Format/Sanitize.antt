-- ===== src/Tokens/Format/Sanitize.antt =====
-- What `sanitizeTokenSecretPrefix` leaves.
use far_mail.Base.{
  ℕ, ◌≤◌, ◌<◌, ◌≡◌, refl, Bool, true, false, [], ◌∷◌, ◌++◌, arith, length, length-append, all,
  if_elim,
}
use far_mail.Text.{Bytes, trim, trim_space, to_lower}
use far_mail.Text.Trim.{all-trim, length-trim-le}
use far_mail.Tokens.Format.{
  is_prefix_byte, Builder, write_byte, write_bytes, start, is_edge, or_mail,
  sanitize_token_secret_prefix,
}

all-append : (p : ℕ → Bool) (s t : Bytes) → all p s ≡ true → all p t ≡ true → all p (s ++ t) ≡ true
all-append p [] t h k = k
all-append p (c ∷ s) t h k = ground (arith, all-append p s t)

-- Until it breaks off the builder holds at most 24 bytes, 24 only behind a dash.
record Inv (b : Builder) : Type 0 where
  allowed : all is_prefix_byte b.out ≡ true
  short : b.full ≡ false → length b.out ≤ 24
  room : b.full ≡ false → b.last_dash ≡ false → length b.out ≤ 23
  long : length b.out ≤ 25

write_byte-Inv : (b : Builder) (r : ℕ) → b.full ≡ false → Inv b → Inv (write_byte b r)
unfolding write_byte
write_byte-Inv b r going v = ground (
  arith,
  all-append is_prefix_byte b.out (r ∷ []),
  all-append is_prefix_byte b.out (b'-' ∷ []),
  length-append b.out (r ∷ []),
  length-append b.out (b'-' ∷ []),
  v.short going,
  v.room going,
)

write_bytes-Inv : (rs : Bytes) (b : Builder) → b.full ≡ false → Inv b → Inv (write_bytes rs b)
unfolding write_bytes
write_bytes-Inv [] b going v = v
write_bytes-Inv (r ∷ rs) b going v =
    let next = write_byte b r in
    if_elim Inv next.full next (write_bytes rs next) (λ _. write_byte-Inv b r going v)
      (λ more. write_bytes-Inv rs next more (write_byte-Inv b r going v))

written : (rs : Bytes) → Inv (write_bytes rs start)
written rs = write_bytes-Inv rs start refl (record {
  allowed = refl;
  short = λ _. omega arith;
  room = λ _ _. omega arith;
  long = omega arith;
})

all-or_mail : (s : Bytes) → all is_prefix_byte s ≡ true → all is_prefix_byte (or_mail s) ≡ true
all-or_mail [] h = refl
all-or_mail (c ∷ s) h = h

length-or_mail : (s : Bytes) → length s ≤ 25 → (0 < length (or_mail s)) × (length (or_mail s) ≤ 25)
length-or_mail [] h = omega arith
length-or_mail (c ∷ s) h = omega arith

pub all-sanitize : (raw : Bytes) → all is_prefix_byte (sanitize_token_secret_prefix raw) ≡ true
unfolding sanitize_token_secret_prefix
all-sanitize raw =
    let out = (write_bytes (to_lower (trim_space raw)) start).out in
    all-or_mail (trim is_edge out)
      (all-trim is_prefix_byte is_edge out (written (to_lower (trim_space raw))).allowed)

pub length-sanitize :
    (raw : Bytes)
    → (0 < length (sanitize_token_secret_prefix raw))
      × (length (sanitize_token_secret_prefix raw) ≤ 25)
unfolding sanitize_token_secret_prefix
length-sanitize raw =
    let out = (write_bytes (to_lower (trim_space raw)) start).out in
    length-or_mail (trim is_edge out)
      (omega (arith, length-trim-le is_edge out, (written (to_lower (trim_space raw))).long))
