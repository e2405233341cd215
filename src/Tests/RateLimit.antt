-- ===== src/Tests/RateLimit.antt =====
-- The fixed windows on concrete inputs.
use far_mail.Base.{◌≤◌, ◌≡◌, refl, true, List, [], ◌∷◌}
use far_mail.Base.Eq.{bytes_eq}
use far_mail.Base.Assoc.{lookup, insert}
use far_mail.Text.{codes}
use far_mail.RateLimit.{Request, fixed_window_key, hits, rate_limit}
use far_mail.RateLimit.Windows.{windows_after, passed_in, passed_in-bounded}

abbrev request : Request
request = record {
  path = codes "/public/donations";
  authorization = [];
  client_ip = codes "192.0.2.9";
  now = 125;
  redis_up = true;
}

-- Four requests, of which the first is in the window before.
abbrev requests : List Request
requests = request ∷ request ∷ request ∷ record request { now = 119 } ∷ []

two_pass : passed_in (λ s. s) 2 60 (fixed_window_key (λ s. s) 60 request) requests ≡ 2
unfolding passed_in windows_after rate_limit hits lookup insert
two_pass = refl

passed_in-bounded_example :
    passed_in (λ s. s) 2 60 (fixed_window_key (λ s. s) 60 request) requests ≤ 2
passed_in-bounded_example =
    passed_in-bounded (λ s. s) 2 60 (fixed_window_key (λ s. s) 60 request) requests
