-- ===== src/Extraction.antt =====
-- The extraction of verification codes and links from a message in api/store/postgres.go:
-- `ExtractCode`, `ExtractLink` and their helpers. Texts are the bytes of UTF-8; letters and white
-- space are told apart in ASCII. The HTML unescaping and the regular expressions are those of Go's
-- library, and parameters.
pub mod Scan
pub mod Hints
pub mod Found
pub mod Links
use far_mail.Base.{
  ℕ, zero, suc, ◌+◌, ◌-◌, Bool, true, false, not, ◌&&◌, ◌||◌, List, [], ◌∷◌, Option, none, some,
  ◌==◌, ltb, leb, if◌then◌else◌, length, take, drop,
}
use far_mail.Base.Int.{ℤ, pos, negsuc, ◌+ℤ◌, ltb_ℤ}
use far_mail.Base.Eq.{bytes_beq}
use far_mail.Text.{
  Bytes, codes, within, is_space, to_lower, to_upper, trim, trim_right, has_prefix, contains,
  any_byte,
}
use far_mail.Ingress.Address.{is_empty}

-- html.UnescapeString, the three replacements by regular expressions, and the matches of the
-- expression for links.
pub record Markup : Type 0 where
  pub unescape : Bytes → Bytes
  pub blank_styles : Bytes → Bytes
  pub blank_scripts : Bytes → Bytes
  pub blank_tags : Bytes → Bytes
  pub find_links : Bytes → List Bytes

-- Each no-break space, the two bytes 194 and 160, becomes a space; whether a byte 194 was read.
abbrev pub blank_no_break : Bool → Bytes → Bytes
blank_no_break half [] = if half then 194 ∷ [] else []
blank_no_break true (c ∷ s) =
    if c == 160
    then 32 ∷ blank_no_break false s
    else 194 ∷ (if c == 194 then blank_no_break true s else c ∷ blank_no_break false s)
blank_no_break false (c ∷ s) =
    if c == 194 then blank_no_break true s else c ∷ blank_no_break false s

-- strings.ReplaceAll of one byte by a space
abbrev pub blank : ℕ → Bytes → Bytes
blank b [] = []
blank b (c ∷ s) = (if c == b then 32 else c) ∷ blank b s

-- The loop that writes one space between words: whether a space is due, and whether anything has
-- been written.
unfoldable pub squeeze : Bool → Bool → Bytes → Bytes
squeeze pending wrote [] = []
squeeze pending wrote (c ∷ s) =
    if is_space c
    then squeeze (wrote || pending) wrote s
    else (if pending then 32 ∷ c ∷ squeeze false true s else c ∷ squeeze false true s)

-- The scan for white space to normalize, and whether the text ends in a space: whether the value
-- can be returned as it is.
unfoldable pub is_normalized : Bool → Bytes → Bool
is_normalized previous_space [] = not previous_space
is_normalized previous_space (c ∷ s) =
    if is_space c && (not (c == 32) || previous_space) then false else is_normalized (is_space c) s

-- `collapseExtractionWhitespace`
unfoldable pub collapse_whitespace : Bytes → Bytes
collapse_whitespace value = if is_normalized true value then value else squeeze false false value

-- `normalizeExtractionText`
unfoldable pub normalize_text : Markup → Bytes → Bytes
normalize_text markup source =
    let text = markup.unescape source in
    let plain =
      if contains (codes "<") text
      then markup.blank_tags (markup.blank_scripts (markup.blank_styles text))
      else text in
    collapse_whitespace (blank b'\n' (blank b'\r' (blank_no_break false plain)))

abbrev pub is_digit : ℕ → Bool
is_digit = within b'0' b'9'

abbrev pub is_upper : ℕ → Bool
is_upper = within b'A' b'Z'

abbrev all_bytes : (ℕ → Bool) → Bytes → Bool
all_bytes p s = not (any_byte (λ c. not (p c)) s)

abbrev member : Bytes → List Bytes → Bool
member w [] = false
member w (v ∷ vs) = bytes_beq w v || member w vs

-- Words of templates that are no codes.
abbrev common_words : List Bytes
common_words =
    codes "HTML"
    ∷ codes "BODY"
    ∷ codes "HEAD"
    ∷ codes "META"
    ∷ codes "STYLE"
    ∷ codes "SCRIPT"
    ∷ codes "TITLE"
    ∷ codes "TABLE"
    ∷ codes "TR"
    ∷ codes "TD"
    ∷ codes "SPAN"
    ∷ codes "DIV"
    ∷ codes "FONT"
    ∷ codes "CLASS"
    ∷ codes "WIDTH"
    ∷ codes "HEIGHT"
    ∷ codes "OPENAI"
    ∷ codes "TEMPORARY"
    ∷ codes "VERIFICATION"
    ∷ codes "VERIFY"
    ∷ codes "CODE"
    ∷ codes "CONTINUE"
    ∷ codes "PLEASE"
    ∷ codes "IGNORE"
    ∷ codes "ACCOUNT"
    ∷ codes "CREATE"
    ∷ codes "CREATING"
    ∷ codes "TEAM"
    ∷ codes "BEST"
    ∷ codes "HELLO"
    ∷ codes "WELCOME"
    ∷ codes "LOGIN"
    ∷ codes "SIGNIN"
    ∷ codes "BUTTON"
    ∷ codes "EMAIL"
    ∷ codes "MAIL"
    ∷ codes "NOREPLY"
    ∷ codes "SECURITY"
    ∷ []

-- `isLikelyVerificationCodeUpper`
unfoldable pub is_likely_code : Bytes → Bool
is_likely_code code =
    not (ltb (length code) 4)
    && not (ltb 10 (length code))
    && all_bytes (λ c. is_digit c || is_upper c) code
    && not (is_empty (trim (λ c. c == b'0') code))
    && (if all_bytes is_digit code
        then leb (length code) 8
        else not (all_bytes is_upper code && member code common_words))

-- `codeByteMatches` and `isASCIIWordByte`
abbrev pub code_byte_matches : Bool → ℕ → Bool
code_byte_matches digits_only c = is_digit c || not digits_only && is_upper c

abbrev pub is_word_byte : ℕ → Bool
is_word_byte c = c == b'_' || is_digit c || is_upper c || within b'a' b'z' c

-- The run of matching bytes at the front of a text, and what follows it.
unfoldable pub run_of : (ℕ → Bool) → Bytes → Bytes
run_of p [] = []
run_of p (c ∷ s) = if p c then c ∷ run_of p s else []

unfoldable pub after_run : (ℕ → Bool) → Bytes → Bytes
after_run p [] = []
after_run p (c ∷ s) = if p c then after_run p s else c ∷ s

abbrev pub head_is : (ℕ → Bool) → Bytes → Bool
head_is p [] = false
head_is p (c ∷ s) = p c

abbrev pub has_code_length : Bool → Bytes → Bool
has_code_length true candidate = leb 4 (length candidate) && leb (length candidate) 8
has_code_length false candidate = leb 6 (length candidate) && leb (length candidate) 10

-- A run is taken if no word byte touches it: `touched` tells whether one stands before it.
unfoldable pub accept : Bool → Bool → Bytes → Bytes → Bool
accept digits_only touched candidate rest =
    not touched
    && not (head_is is_word_byte rest)
    && has_code_length digits_only candidate
    && is_likely_code candidate

-- The rounds of `firstLikelyCode`: a byte that does not match, or a run, is passed in each.
unfoldable pub scan_codes : ℕ → Bool → Bool → Bytes → Option Bytes
scan_codes zero digits_only touched source = none
scan_codes (suc rounds) digits_only touched [] = none
scan_codes (suc rounds) digits_only touched (c ∷ s) =
    let candidate = run_of (code_byte_matches digits_only) (c ∷ s) in
    let rest = after_run (code_byte_matches digits_only) (c ∷ s) in
    let passed = scan_codes rounds digits_only (is_word_byte c) s in
    let beyond = scan_codes rounds digits_only true rest in
    if code_byte_matches digits_only c
    then (if accept digits_only touched candidate rest then some candidate else beyond)
    else passed

-- `firstLikelyCode`: `none` for the empty text.
unfoldable pub first_likely_code : Bool → Bytes → Option Bytes
first_likely_code digits_only source = scan_codes (length source) digits_only false source

abbrev pub code_hints : List Bytes
code_hints =
    codes "TEMPORARY VERIFICATION CODE"
    ∷ codes "VERIFICATION CODE"
    ∷ codes "VERIFY CODE"
    ∷ (233 ∷ 170 ∷ 140 ∷ 232 ∷ 175 ∷ 129 ∷ 231 ∷ 160 ∷ 129 ∷ [])
    ∷ (230 ∷ 160 ∷ 161 ∷ 233 ∷ 170 ∷ 140 ∷ 231 ∷ 160 ∷ 129 ∷ [])
    ∷ (229 ∷ 138 ∷ 168 ∷ 230 ∷ 128 ∷ 129 ∷ 231 ∷ 160 ∷ 129 ∷ [])
    ∷ codes "PASSCODE"
    ∷ codes "ONE-TIME"
    ∷ codes "ONE TIME"
    ∷ codes "OTP"
    ∷ codes "CODE"
    ∷ []

-- strings.Index
abbrev pub index : Bytes → Bytes → Option ℕ
index needle [] = if is_empty needle then some 0 else none
index needle (c ∷ s) =
    if has_prefix needle (c ∷ s)
    then some 0
    else elim (index needle s) [ none ↦ none | some i ↦ some (suc i) ]

-- The hint that starts first, of those the longest, as its start and end.
abbrev pub better_hint : ℕ × ℕ → Option (ℕ × ℕ) → ℕ × ℕ
better_hint found none = found
better_hint (start, end) (some (best_start, best_end)) =
    if ltb start best_start || start == best_start && ltb best_end end
    then (start, end)
    else (best_start, best_end)

unfoldable pub next_hint : List Bytes → Bytes → Option (ℕ × ℕ) → Option (ℕ × ℕ)
next_hint [] source best = best
next_hint (hint ∷ hints) source best = elim (index hint source) [
  | none ↦ next_hint hints source best
  | some start ↦ next_hint hints source (some (better_hint (start, start + length hint) best))
]

abbrev pub or_else : Option Bytes → Option Bytes → Option Bytes
or_else none other = other
or_else (some code) other = some code

-- The digits of a text, or else its letters and digits.
abbrev pub code_in : Bytes → Option Bytes
code_in text = or_else (first_likely_code true text) (first_likely_code false text)

-- The rounds of the loop over the hints, on the text that is left to search.
unfoldable pub after_hints : ℕ → Bytes → Option Bytes
after_hints zero source = none
after_hints (suc rounds) source = elim (next_hint code_hints source none) [
  | none ↦ none
  | some (start, end) ↦
      or_else (code_in (take 260 (drop end source))) (after_hints rounds (drop end source))
]

pub data CodeSource : Type 0 where
  keyword digits token : CodeSource

-- `ExtractCode`, on the upper case of the normalized text: `none` for two empty texts.
unfoldable pub code_of : Bytes → Option (Bytes × CodeSource)
code_of flat = elim (after_hints (length flat) flat) [
  | some code ↦ some (code, keyword)
  | none ↦ elim (first_likely_code true flat) [
    | some code ↦ some (code, digits)
    | none ↦ elim (first_likely_code false flat) [ some code ↦ some (code, token) | none ↦ none ]
  ]
]

unfoldable pub extract_code : Markup → Bytes → Option (Bytes × CodeSource)
extract_code markup source = code_of (to_upper (normalize_text markup source))

-- strings.HasSuffix
abbrev pub has_suffix : Bytes → Bytes → Bool
has_suffix suffix s =
    leb (length suffix) (length s) && bytes_beq (drop (length s - length suffix) s) suffix

unfoldable pub has_any_suffix : Bytes → List Bytes → Bool
has_any_suffix value [] = false
has_any_suffix value (suffix ∷ suffixes) = has_suffix suffix value || has_any_suffix value suffixes

abbrev pub contains_any : Bytes → List Bytes → Bool
contains_any value [] = false
contains_any value (word ∷ words) = contains word value || contains_any value words

abbrev asset_suffixes : List Bytes
asset_suffixes =
    codes ".css"
    ∷ codes ".js"
    ∷ codes ".png"
    ∷ codes ".jpg"
    ∷ codes ".jpeg"
    ∷ codes ".gif"
    ∷ codes ".svg"
    ∷ codes ".webp"
    ∷ codes ".ico"
    ∷ codes ".woff"
    ∷ codes ".woff2"
    ∷ codes ".ttf"
    ∷ codes ".eot"
    ∷ []

abbrev action_words : List Bytes
action_words =
    codes "verify"
    ∷ codes "verification"
    ∷ codes "confirm"
    ∷ codes "activate"
    ∷ codes "reset"
    ∷ codes "magic"
    ∷ codes "signin"
    ∷ codes "login"
    ∷ codes "auth"
    ∷ codes "token"
    ∷ codes "invite"
    ∷ []

abbrev asset_words : List Bytes
asset_words = codes "cdn." ∷ codes "/static/" ∷ codes "/assets/" ∷ []

-- A match without the punctuation behind it.
abbrev pub bare_link : Bytes → Bytes
bare_link = trim_right (λ c. c == b')' || c == b'.' || c == b',' || c == b'!' || c == b'?')

-- Links to assets, and empty ones, are no candidates.
unfoldable pub is_candidate : Bytes → Bool
is_candidate link = not (is_empty link) && not (has_any_suffix (to_lower link) asset_suffixes)

unfoldable pub link_score : Bytes → ℤ
link_score link =
    let lower = to_lower link in
    (if contains_any lower action_words then pos 10 else pos 0)
    +ℤ (if contains_any lower asset_words then negsuc 9 else pos 0)

-- The loop of `ExtractLink`: a later link must score higher. `none` has the score -2^30.
unfoldable pub best_link : Option Bytes → List Bytes → Option Bytes
best_link best [] = best
best_link best (matched ∷ others) =
    let link = bare_link matched in
    best_link
      (if is_candidate link
        then elim best [
          | none ↦ some link
          | some current ↦
              if ltb_ℤ (link_score current) (link_score link) then some link else some current
        ]
        else best)
      others

unfoldable pub extract_link : Markup → Bytes → Option Bytes
extract_link markup source = best_link none (markup.find_links source)
