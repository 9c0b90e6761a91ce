-- ===== src/Providers/Classifier.antt =====
-- pkg/providers/error_classifier.go: the reason of a failed call. Go's regular expressions and the
-- case folding of package strings enter as a record of functions; the patterns and their order are
-- the code's.
pub mod Facts
use moon_hub.Base.{
  ℕ, suc, ◌+◌, ◌-◌, ◌*◌, String, Bool, true, false, ◌&&◌, ◌||◌, Option, none, some, List, [], ◌∷◌,
  ltb, leb, ◌==◌, if◌then◌else◌,
}
use moon_hub.Providers.Types.{
  FailoverReason, auth, rate_limit, billing, timeout, format, GoError, canceled, deadline_exceeded,
  message, FailoverError,
}

pub record TextOps : Type 0 where
  pub to_lower : String → String
  -- `strings.Contains(msg, substring)`.
  pub contains : String → String → Bool
  -- `regexp.MustCompile(pattern).MatchString(msg)`.
  pub regex_match : String → String → Bool
  -- The first group of `FindStringSubmatch`, as code points; `none` where nothing matches.
  pub find_submatch : String → String → Option (List ℕ)

pub data ErrorPattern : Type 0 where
  substr : String → ErrorPattern
  -- Matched with the flag `(?i)`.
  rxp : String → ErrorPattern

abbrev pub http_status_patterns : List String
http_status_patterns =
    "status[:\\s]+(\\d{3})" ∷ "http[/\\s]+\\d*\\.?\\d*\\s+(\\d{3})" ∷ "\\b([3-5]\\d{2})\\b" ∷ []

abbrev pub rate_limit_patterns : List ErrorPattern
rate_limit_patterns =
    rxp "rate[_ ]limit"
    ∷ substr "too many requests"
    ∷ substr "429"
    ∷ substr "exceeded your current quota"
    ∷ rxp "exceeded.*quota"
    ∷ rxp "resource has been exhausted"
    ∷ rxp "resource.*exhausted"
    ∷ substr "resource_exhausted"
    ∷ substr "quota exceeded"
    ∷ substr "usage limit"
    ∷ []

abbrev pub overloaded_patterns : List ErrorPattern
overloaded_patterns =
    rxp "overloaded_error" ∷ rxp "\"type\"\\s*:\\s*\"overloaded_error\"" ∷ substr "overloaded" ∷ []

abbrev pub timeout_patterns : List ErrorPattern
timeout_patterns =
    substr "timeout"
    ∷ substr "timed out"
    ∷ substr "deadline exceeded"
    ∷ substr "context deadline exceeded"
    ∷ []

abbrev pub billing_patterns : List ErrorPattern
billing_patterns =
    rxp "\\b402\\b"
    ∷ substr "payment required"
    ∷ substr "insufficient credits"
    ∷ substr "credit balance"
    ∷ substr "plans & billing"
    ∷ substr "insufficient balance"
    ∷ []

abbrev pub auth_patterns : List ErrorPattern
auth_patterns =
    rxp "invalid[_ ]?api[_ ]?key"
    ∷ substr "incorrect api key"
    ∷ substr "invalid token"
    ∷ substr "authentication"
    ∷ substr "re-authenticate"
    ∷ substr "oauth token refresh failed"
    ∷ substr "unauthorized"
    ∷ substr "forbidden"
    ∷ substr "access denied"
    ∷ substr "expired"
    ∷ substr "token has expired"
    ∷ rxp "\\b401\\b"
    ∷ rxp "\\b403\\b"
    ∷ substr "no credentials found"
    ∷ substr "no api key found"
    ∷ []

abbrev pub format_patterns : List ErrorPattern
format_patterns =
    substr "string should match pattern"
    ∷ substr "tool_use.id"
    ∷ substr "tool_use_id"
    ∷ substr "messages.1.content.1.tool_use.id"
    ∷ substr "invalid request format"
    ∷ []

abbrev pub image_dimension_patterns : List ErrorPattern
image_dimension_patterns = rxp "image dimensions exceed max" ∷ []

abbrev pub image_size_patterns : List ErrorPattern
image_size_patterns = rxp "image exceeds.*mb" ∷ []

abbrev pub transient_status_codes : ℕ → Bool
transient_status_codes s =
    s == 500 || s == 502 || s == 503 || s == 521 || s == 522 || s == 523 || s == 524 || s == 529

unfoldable pub classify_by_status : ℕ → Option FailoverReason
classify_by_status s =
    if s == 401 || s == 403
    then some auth
    else if s == 402
    then some billing
    else if s == 408
    then some timeout
    else if s == 429
    then some rate_limit
    else if s == 400
    then some format
    else if transient_status_codes s
    then some timeout
    else none

unfoldable pub parse_digits_from : ℕ → List ℕ → ℕ
parse_digits_from n [] = n
parse_digits_from n (c ∷ cs) =
    parse_digits_from (if leb b'0' c && leb c b'9' then n * 10 + (c - b'0') else n) cs

unfoldable pub parse_digits : List ℕ → ℕ
unfolding parse_digits_from
parse_digits s = parse_digits_from 0 s

abbrev pub with_status : ℕ → Option FailoverReason → Option (FailoverReason × ℕ)
with_status s none = none
with_status s (some r) = some (r, s)

abbrev pub status_reason : ℕ → Option (FailoverReason × ℕ)
status_reason s = if ltb 0 s then with_status s (classify_by_status s) else none

abbrev pub or_else {ℓ} : {A : Type ℓ} → Option A → Option A → Option A
or_else none o = o
or_else (some a) o = some a

module _ (ops : TextOps) where
  open ops use {to_lower, contains, regex_match, find_submatch}

  unfoldable pub matches_pattern : String → ErrorPattern → Bool
  matches_pattern msg (substr s) = contains msg s
  matches_pattern msg (rxp r) = regex_match r msg

  unfoldable pub matches_any : String → List ErrorPattern → Bool
  matches_any msg [] = false
  matches_any msg (p ∷ ps) = matches_pattern msg p || matches_any msg ps

  unfoldable pub is_image_dimension_error : String → Bool
  is_image_dimension_error msg = matches_any msg image_dimension_patterns

  unfoldable pub is_image_size_error : String → Bool
  is_image_size_error msg = matches_any msg image_size_patterns

  unfoldable pub classify_by_message : String → Option FailoverReason
  classify_by_message msg =
      if matches_any msg rate_limit_patterns
      then some rate_limit
      else if matches_any msg overloaded_patterns
      then some rate_limit
      else if matches_any msg billing_patterns
      then some billing
      else if matches_any msg timeout_patterns
      then some timeout
      else if matches_any msg auth_patterns
      then some auth
      else if matches_any msg format_patterns
      then some format
      else none

  unfoldable pub extract_from : List String → String → ℕ
  extract_from [] msg = 0
  extract_from (p ∷ ps) msg =
      let rest = extract_from ps msg in
      elim (find_submatch p msg) [ none ↦ rest | some digits ↦ parse_digits digits ]

  unfoldable pub extract_http_status : String → ℕ
  extract_http_status msg = extract_from http_status_patterns msg

  -- The reason and the status that the text of an error gives.
  unfoldable pub classify_text : String → Option (FailoverReason × ℕ)
  classify_text msg =
      if is_image_dimension_error msg || is_image_size_error msg
      then some (format, 0)
      else or_else (status_reason (extract_http_status msg))
          (with_status 0 (classify_by_message msg))

  unfoldable pub classify_error : GoError → String → String → Option FailoverError
  classify_error canceled provider model = none
  classify_error deadline_exceeded provider model = some (record {
    reason = timeout;
    provider = provider;
    model = model;
    status = 0;
    wrapped = deadline_exceeded;
  })
  classify_error (message text) provider model = elim (classify_text (to_lower text)) [
    | none ↦ none
    | some (r, s) ↦ some (record {
      reason = r;
      provider = provider;
      model = model;
      status = s;
      wrapped = message text;
    })
  ]
