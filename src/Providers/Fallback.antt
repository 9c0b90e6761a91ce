-- ===== src/Providers/Fallback.antt =====
-- pkg/providers/fallback.go: the chain that tries one model after the other.
pub mod Execute
pub mod Success
pub mod Exhausted
pub mod Frame
pub mod Steady
pub mod Lost
pub mod Candidates
pub mod Image
use moon_hub.Base.{ℕ, String, Bool, Option, List}
use moon_hub.Providers.Types.{FailoverReason, GoError, FailoverError}

pub record FallbackCandidate : Type 0 where
  pub provider : String
  pub model : String

-- The error that an attempt records.
pub data AttemptError : Type 0 where
  in_cooldown : ℕ → AttemptError
  plain : GoError → AttemptError
  failover : FailoverError → AttemptError

pub record FallbackAttempt : Type 0 where
  pub provider : String
  pub model : String
  pub error : AttemptError
  pub reason : Option FailoverReason
  pub duration : ℕ
  pub skipped : Bool

pub record FallbackResult (R : Type 0) : Type 0 where
  pub response : R
  pub provider : String
  pub model : String
  pub attempts : List FallbackAttempt

pub data ChainError : Type 0 where
  no_candidates : ChainError
  context_canceled : ChainError
  unclassified : String → String → GoError → ChainError
  aborted : FailoverError → ChainError
  exhausted : List FallbackAttempt → ChainError

pub data Outcome (R : Type 0) : Type 0 where
  ok : FallbackResult R → Outcome R
  err : ChainError → Outcome R

pub data Reply (R : Type 0) : Type 0 where
  response : R → Reply R
  failure : GoError → Reply R

-- What the surroundings of one round of the loop give: whether the context is cancelled before and
-- after the call, the clock at each reading, and the reply of `run`, should it be called.
pub record Turn (R : Type 0) : Type 0 where
  pub canceled_before : Bool
  pub now : ℕ
  pub remaining_now : ℕ
  pub reply : Reply R
  pub elapsed : ℕ
  pub canceled_after : Bool
  pub failure_now : ℕ

-- What one round does: end the loop, or leave an attempt behind.
pub data Verdict (R : Type 0) : Type 0 where
  won : R → Verdict R
  stopped : ChainError → Verdict R
  passed : FallbackAttempt → Verdict R
  retry : FallbackAttempt → Verdict R

-- Provider and model of a candidate or an attempt.
abbrev pub candidate_id : FallbackCandidate → String × String
candidate_id c = (c.provider, c.model)

abbrev pub attempt_id : FallbackAttempt → String × String
attempt_id a = (a.provider, a.model)
