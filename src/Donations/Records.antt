-- ===== src/Donations/Records.antt =====
-- `CheckDonationRecords` of api/store/donation_dns.go: the verdict on a donated domain from its TXT
-- and MX records. The resolver is a parameter: an answer, or an error that is transient (a timeout
-- or a temporary failure) or not.
pub mod Passed
pub mod Outage
use far_mail.Base.{
  ℕ, Bool, true, false, not, ◌&&◌, ◌||◌, List, [], ◌∷◌, ◌++◌, Option, none, some, ◌==◌,
  if◌then◌else◌,
}
use far_mail.Base.Eq.{bytes_beq}
use far_mail.Text.{Bytes, codes, to_lower, trim_space, put_before, is_dot}
use far_mail.Ingress.Address.{is_empty}
use far_mail.Donations.Transactions.{DonationVerification}

pub data Answer (A : Type 0) : Type 0 where
  answered : A → Answer A
  failed : Bool → Answer A

pub record Resolver : Type 0 where
  pub lookup_txt : Bytes → Answer (List Bytes)
  pub lookup_mx : Bytes → Answer (List Bytes)
  pub lookup_host : Bytes → Answer (List Bytes)

-- strings.TrimSuffix by a dot
abbrev pub trim_dot : Bytes → Bytes
trim_dot [] = []
trim_dot (c ∷ []) = if is_dot c then [] else c ∷ []
trim_dot (c ∷ d ∷ s) = c ∷ trim_dot (d ∷ s)

abbrev pub clean_name : Bytes → Bytes
clean_name name = trim_dot (to_lower (trim_space name))

abbrev pub txt_names : Bytes → List Bytes
txt_names domain = (codes "_far-mail-donate." ++ domain) ∷ []

-- A value of the record is the expected one.
unfoldable pub has_value : Bytes → List Bytes → Bool
has_value expected [] = false
has_value expected (value ∷ values) =
    bytes_beq (trim_space value) (trim_space expected) || has_value expected values

-- What the lookups of the proof found.
pub record TxtResult : Type 0 where
  pub found : Bool
  pub resolved : Bool
  pub outage : Bool

-- The loop over the names of the record.
unfoldable pub check_txt : Resolver → Bytes → List Bytes → TxtResult → TxtResult
check_txt dns expected [] seen = seen
check_txt dns expected (name ∷ names) seen = elim (dns.lookup_txt name) [
  | failed transient ↦
      check_txt dns expected names (record seen { outage = seen.outage || transient })
  | answered values ↦
      let rest = check_txt dns expected names (record seen { resolved = true }) in
      if has_value expected values then record seen { found = true; resolved = true } else rest
]

-- What the loop over the mail hosts found: one that is the server, or whether a lookup failed for
-- the moment.
pub data MxResult : Type 0 where
  pointed : MxResult
  elsewhere : Bool → MxResult

abbrev pub has_address : Bytes → List Bytes → Bool
has_address ip [] = false
has_address ip (addr ∷ addrs) = bytes_beq addr ip || has_address ip addrs

unfoldable pub check_hosts : Resolver → Bytes → Bytes → Bool → List Bytes → MxResult
check_hosts dns ip hostname outage [] = elsewhere outage
check_hosts dns ip hostname outage (mx ∷ mxs) =
    let host = trim_dot (to_lower mx) in
    if not (is_empty hostname) && bytes_beq host hostname
    then pointed
    else (if is_empty ip
        then check_hosts dns ip hostname outage mxs
        else elim (dns.lookup_host host) [
          | failed transient ↦ check_hosts dns ip hostname (outage || transient) mxs
          | answered addrs ↦
              if has_address ip addrs then pointed else check_hosts dns ip hostname outage mxs
        ])

abbrev pub verdict : Bool → Bool → Bytes → DonationVerification
verdict valid transient status = record { valid = valid; transient = transient; status = status }

-- `firstNonEmpty` of the two names
abbrev first_of : Bytes → Bytes → Bytes
first_of hostname ip =
    if is_empty (trim_space hostname)
    then (if is_empty (trim_space ip) then codes "the site mail server" else trim_space ip)
    else trim_space hostname

-- The answer once the hosts of the MX record are known.
unfoldable pub judge_hosts : Resolver → Bytes → Bytes → List Bytes → DonationVerification
judge_hosts dns ip hostname mxs =
    if is_empty ip && is_empty hostname
    then verdict false true (codes "The site mail server is not configured")
    else elim (check_hosts dns ip hostname false mxs) [
      | pointed ↦ verdict true false (codes "MX and TXT verification passed")
      | elsewhere outage ↦
          if outage
          then verdict false true (codes "MX target resolution is temporarily unavailable")
          else verdict false false (codes "MX does not point to " ++ first_of hostname ip)
    ]

-- The answer once the proof is found.
unfoldable pub judge_mx : Resolver → Bytes → Bytes → Bytes → DonationVerification
judge_mx dns domain ip hostname = elim (dns.lookup_mx domain) [
  | failed transient ↦ verdict false transient (codes "MX lookup is temporarily unavailable")
  | answered [] ↦ verdict false false (codes "No MX record found")
  | answered (mx ∷ mxs) ↦ judge_hosts dns ip hostname (mx ∷ mxs)
]

unfoldable pub check_records : Resolver → Bytes → Bytes → Bytes → Bytes → DonationVerification
check_records dns domain server_ip server_hostname expected =
    let name = clean_name domain in
    let txt =
      check_txt dns expected (txt_names name)
        (record { found = false; resolved = false; outage = false }) in
    if txt.found
    then judge_mx dns name (trim_space server_ip) (clean_name server_hostname)
    else (if txt.resolved
        then verdict false false (codes "TXT verification record does not match")
        else verdict false txt.outage (codes "TXT verification record is not ready"))
