-- ===== src/Providers/Types.antt =====
-- pkg/providers/types.go: the reasons of a failover and the classified error.
use moon_hub.Base.{ℕ, String, Bool, true, false, not}

pub data FailoverReason : Type 0 where
  auth rate_limit billing timeout format overloaded unknown : FailoverReason

abbrev pub is_billing : FailoverReason → Bool
is_billing billing = true
is_billing _ = false

abbrev pub is_format : FailoverReason → Bool
is_format format = true
is_format _ = false

abbrev pub reason_eq : FailoverReason → FailoverReason → Bool
reason_eq auth auth = true
reason_eq rate_limit rate_limit = true
reason_eq billing billing = true
reason_eq timeout timeout = true
reason_eq format format = true
reason_eq overloaded overloaded = true
reason_eq unknown unknown = true
reason_eq _ _ = false

-- An error value of Go: the two sentinels of package context, or an error with its text.
pub data GoError : Type 0 where
  canceled : GoError
  deadline_exceeded : GoError
  message : String → GoError

pub record FailoverError : Type 0 where
  pub reason : FailoverReason
  pub provider : String
  pub model : String
  pub status : ℕ
  pub wrapped : GoError

-- Format errors (bad request structure, image limits) are not retried.
unfoldable pub is_retriable : FailoverError → Bool
is_retriable e = not (is_format e.reason)
