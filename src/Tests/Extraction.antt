-- ===== src/Tests/Extraction.antt =====
-- The extraction of codes and links on concrete inputs.
use far_mail.Base.{◌≡◌, refl, inl, inr, true, false, List, [], ◌∷◌, none, some, Elem}
use far_mail.Base.Int.{◌+ℤ◌, ltb_ℤ}
use far_mail.Text.{Bytes, codes, trim, to_upper}
use far_mail.Extraction.{
  Markup, squeeze, collapse_whitespace, is_normalized, normalize_text, is_likely_code, run_of,
  after_run, accept, scan_codes, first_likely_code, next_hint, after_hints, code_of, extract_code,
  keyword, has_any_suffix, is_candidate, link_score, best_link, extract_link, bare_link,
}
use far_mail.Extraction.Scan.{Occurs}
use far_mail.Extraction.Found.{IsFoundAs, extract_code-IsFoundAs, extract_code-none}
use far_mail.Extraction.Links.{extract_link-highest}

abbrev links : List Bytes
links =
    codes "http://a.io/logo.png" ∷ codes "http://a.io/x." ∷ codes "http://a.io/verify?t=1)." ∷ []

abbrev plain : Markup
plain = record {
  unescape = λ s. s;
  blank_styles = λ s. s;
  blank_scripts = λ s. s;
  blank_tags = λ s. s;
  find_links = λ s. links;
}

abbrev message : Bytes
message = codes "Order 20261 your  code is: 482913 (ok)"

code_found : extract_code plain message ≡ some (codes "482913", keyword)
unfolding extract_code normalize_text collapse_whitespace is_normalized squeeze code_of after_hints
    next_hint first_likely_code scan_codes run_of after_run accept is_likely_code trim
code_found = refl

extract_code-IsFoundAs_example :
    IsFoundAs keyword (codes "482913") (to_upper (normalize_text plain message))
extract_code-IsFoundAs_example =
    extract_code-IsFoundAs plain message (codes "482913") keyword code_found

no_code : extract_code plain (codes "A12345678901 of 2x4 CODE") ≡ none
unfolding extract_code normalize_text collapse_whitespace is_normalized squeeze code_of after_hints
    next_hint first_likely_code scan_codes run_of after_run accept is_likely_code trim
no_code = refl

extract_code-none_example :
    ¬ Occurs true false
      (codes "345678")
      (to_upper (normalize_text plain (codes "A12345678901 of 2x4 CODE")))
extract_code-none_example =
    extract_code-none plain (codes "A12345678901 of 2x4 CODE") no_code true (codes "345678")

link_found : extract_link plain [] ≡ some (codes "http://a.io/verify?t=1")
unfolding extract_link best_link is_candidate link_score has_any_suffix trim ◌+ℤ◌
link_found = refl

plain_link : is_candidate (bare_link (codes "http://a.io/x.")) ≡ true
unfolding is_candidate has_any_suffix trim
plain_link = refl

extract_link-highest_example :
    ((x : Bytes) × Elem x links
      × (bare_link x ≡ codes "http://a.io/verify?t=1")
      × (is_candidate (codes "http://a.io/verify?t=1") ≡ true))
    × (ltb_ℤ
          (link_score (codes "http://a.io/verify?t=1"))
          (link_score (bare_link (codes "http://a.io/x.")))
        ≡ false)
extract_link-highest_example =
    extract_link-highest plain [] (codes "http://a.io/verify?t=1") (codes "http://a.io/x.")
      link_found (inr (inl refl)) plain_link
