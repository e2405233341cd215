-- ===== src/Ingress/Message/Bounded.antt =====
-- The parsing of a message in api/ingress/mime.go ends, and keeps its bodies within their limit.
use far_mail.Base.{
  ℕ, zero, suc, ◌+◌, ◌-◌, ◌≤◌, ◌<◌, ◌≡◌, refl, inl, inr, ◌&&◌, ◌||◌, List, [], ◌∷◌, ◌++◌, Option,
  some, arith, ltb, leb, if_elim, length, take, Bool-cases, Option-cases, Elem, length-append,
  length-take,
}
use far_mail.Base.Int.{ℤ}
use far_mail.Base.Eq.{bytes_beq}
use far_mail.Text.{Bytes, codes, has_prefix, trim_space}
use far_mail.Ingress.Address.{is_empty}
use far_mail.Ingress.Message.{
  Library, ParsedMessage, Part, clamp_bytes, append_body, decode_transfer, media_of, noted,
  collect_leaf, each_part, collect_body_parts, body_limit, parse_message, start, unreadable,
}

abbrev pub IsWithin : ℕ → ParsedMessage → Type 0
IsWithin limit m = (length m.body_text ≤ limit) × (length m.body_html ≤ limit)

module _ (lib : Library) (shrinks : (s : Bytes) → length (lib.to_valid s) ≤ length s)
    (inside : (boundary body : Bytes) (part : Part)
      → Elem part (lib.parts boundary body)
      → length part.body < length body) where
  length-clamp_bytes :
      (value : Bytes) (limit : ℕ) → 0 < limit → length (clamp_bytes lib value limit) ≤ limit
  unfolding clamp_bytes
  length-clamp_bytes value limit pos =
      if_elim (λ v. length (lib.to_valid v) ≤ limit) (ltb 0 limit && ltb limit (length value)) _ _
        (λ long. omega (arith, shrinks (take limit value), length-take limit value))
        (λ short. ground (arith, shrinks value, short, pos))

  length-append_body :
      (target value : Bytes) (limit : ℕ)
      → 0 < limit
      → length target ≤ limit
      → length (append_body lib target value limit) ≤ limit
  unfolding append_body
  length-append_body target value limit pos fits =
      let text = trim_space value in
      let joined = target ++ 10 ∷ [] in
      let one_more = length-append target (10 ∷ []) in
      let Fits = λ (s : Bytes). length s ≤ limit in
      if_elim Fits (is_empty text || leb limit (length target)) _ _ (λ _. fits)
        (λ open_yet.
          if_elim Fits (is_empty target) _ _ (λ _. length-clamp_bytes text limit pos)
            (λ _.
              if_elim Fits (leb limit (length joined)) _ _ (λ _. ground (arith, open_yet, one_more))
                (λ left.
                  let room : 0 < limit - length joined = ground (arith, left) in
                  let added = length-clamp_bytes text (limit - length joined) room in
                  omega (
                    arith,
                    room,
                    added,
                    length-append joined (clamp_bytes lib text (limit - length joined)),
                  ))))

  collect_leaf-IsWithin :
      (media decoded : Bytes) (limit : ℕ) (m : ParsedMessage)
      → 0 < limit
      → IsWithin limit m
      → IsWithin limit (collect_leaf lib media decoded limit m)
  unfolding collect_leaf
  collect_leaf-IsWithin media decoded limit m pos (text, html) =
      let with_text = record m { body_text = append_body lib m.body_text decoded limit } in
      let text_within : IsWithin limit with_text =
        (length-append_body m.body_text decoded limit pos text, html) in
      if_elim (IsWithin limit) (bytes_beq media (codes "text/plain")) _ _ (λ _. text_within)
        (λ _.
          if_elim (IsWithin limit) (bytes_beq media (codes "text/html")) _ _
            (λ _. (text, length-append_body m.body_html decoded limit pos html))
            (λ _. if_elim (IsWithin limit) _ _ _ (λ _. text_within) (λ _. (text, html))))

  -- What is collected from a list of parts, if each of them is collected.
  each_part-IsWithin :
      (collect : Part → ParsedMessage → Option ParsedMessage) (limit : ℕ) (parts : List Part)
      (m : ParsedMessage)
      → ((part : Part) (before : ParsedMessage)
          → Elem part parts
          → IsWithin limit before
          → (after : ParsedMessage) × (collect part before ≡ some after) × IsWithin limit after)
      → IsWithin limit m
      → (after : ParsedMessage) × (each_part lib collect limit parts m ≡ some after)
        × IsWithin limit after
  unfolding each_part
  each_part-IsWithin collect limit [] m step within = (m, refl, within)
  each_part-IsWithin collect limit (part ∷ parts) m step within =
      let (middle, got, middle_within) = step part (noted lib part m) (inl refl) within in
      let (after, rest, after_within) =
        each_part-IsWithin collect limit parts middle (λ p b at. step p b (inr at)) middle_within in
      elim (Bool-cases
        (leb limit (length middle.body_text) && leb limit (length middle.body_html))) [
          | inl full ↦ (middle, ground (arith, got, full), middle_within)
          | inr room ↦ (after, ground (arith, got, room, rest), after_within)
        ]

  collect_body_parts-IsWithin :
      (rounds : ℕ) (content_type transfer_encoding body : Bytes) (limit : ℕ) (m : ParsedMessage)
      → 0 < limit
      → length body < rounds
      → IsWithin limit m
      → (after : ParsedMessage) × (collect_body_parts rounds lib content_type transfer_encoding body
            limit m
          ≡ some after)
        × IsWithin limit after
  unfolding collect_body_parts
  collect_body_parts-IsWithin zero content_type transfer_encoding body limit m pos enough within =
      absurd (omega (arith, enough))
  collect_body_parts-IsWithin (suc rounds) content_type transfer_encoding body limit m pos enough
        within =
      let media = (media_of lib content_type).0 in
      let boundary = (media_of lib content_type).1 in
      let (nested, is_nested, nested_within) =
        each_part-IsWithin
          (λ part next.
            collect_body_parts rounds lib part.content_type part.transfer_encoding
              (take (limit + 1) part.body) limit next)
          limit (lib.parts boundary body) m
          (λ part before at before_within.
            collect_body_parts-IsWithin rounds part.content_type part.transfer_encoding
              (take (limit + 1) part.body) limit before pos
              (omega
                (arith, enough, inside boundary body part at, length-take (limit + 1) part.body))
              before_within)
          within in
      elim (Bool-cases (has_prefix (codes "multipart/") media)) [
        | inr single ↦ (
          collect_leaf lib media (decode_transfer lib body transfer_encoding limit) limit m,
          ground (arith, single),
          collect_leaf-IsWithin media (decode_transfer lib body transfer_encoding limit) limit m pos
              within,
        )
        | inl multi ↦ elim (Bool-cases (is_empty boundary)) [
          | inl missing ↦ (m, ground (arith, multi, missing), within)
          | inr given ↦ (nested, ground (arith, multi, given, is_nested), nested_within)
        ]
      ]

  -- The removal of invalid bytes lengthens nothing, and a part of a multipart body is shorter than
  -- the body. Then the parsing of any message ends, and each of its two bodies has at most the
  -- configured number of bytes, or 262144 where none is configured.
  pub parse_message-IsWithin :
      (raw envelope_sender : Bytes) (max_body_bytes : ℤ)
      → (m : ParsedMessage) × (parse_message lib raw envelope_sender max_body_bytes ≡ some m)
        × IsWithin (body_limit max_body_bytes) m
  unfolding parse_message
  parse_message-IsWithin raw envelope_sender max_body_bytes =
      let limit = body_limit max_body_bytes in
      let pos : 0 < limit = ground arith in
      elim (Option-cases (lib.read_message raw)) [
        | inl unread ↦ (
          unreadable lib raw envelope_sender limit,
          ground (arith, unread),
          (length-clamp_bytes raw limit pos, omega arith),
        )
        | inr (mail, read) ↦
            let body = take (limit + 1) mail.body in
            let (m, is, within) =
              collect_body_parts-IsWithin (length body + 1) mail.content_type mail.transfer_encoding
                body limit (start lib envelope_sender mail) pos (omega arith)
                (omega arith, omega arith) in
            (m, ground (arith, read, is), within)
      ]
