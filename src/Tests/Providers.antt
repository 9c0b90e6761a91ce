-- ===== src/Tests/Providers.antt =====
-- The fallback chain, the cooldown tracker and the classifier of pkg/providers at concrete inputs.
use moon_hub.Base.{
  ℕ, ◌+◌, ◌*◌, ◌≤◌, ◌≡◌, ◌≢◌, ◌↔◌, refl, String, true, false, List, [], ◌∷◌, map, Option, none,
  some, arith, lookup, insert, str_eq, ◌==◌, if◌then◌else◌, eq_iff, AllValues,
}
use moon_hub.Providers.Types.{
  rate_limit, billing, format, GoError, message, FailoverError, is_retriable,
}
use moon_hub.Providers.Classifier.{
  TextOps, classify_error, is_image_dimension_error, is_image_size_error, matches_any,
  classify_text, matches_pattern, extract_http_status, extract_from, classify_by_message,
}
use moon_hub.Providers.Classifier.Facts.{Explains, classify_error-Explains, classify_error-image}
use moon_hub.Providers.Cooldown.{
  CooldownTracker, hour, new_cooldown_tracker, mark_failure, mark_success, is_available,
  cooldown_remaining, error_count, calculate_standard_cooldown, fail_entry, empty_entry,
}
use moon_hub.Providers.Cooldown.Facts.{is_available-cooldown_remaining, mark_failure-blocks}
use moon_hub.Providers.Cooldown.Counts.{
  calculate_standard_cooldown_bounds, IsCounted, Event, failure, replay, replay-IsCounted,
  error_count-replay,
}
use moon_hub.Providers.Fallback.{
  FallbackCandidate, FallbackAttempt, FallbackResult, Outcome, ok, err, exhausted, Reply, response,
  Turn, candidate_id, attempt_id,
}
use moon_hub.Providers.Fallback
use moon_hub.Providers.Fallback.Execute.{execute, execute_from, visit}
use moon_hub.Providers.Fallback.Success.{Wins, execute-Wins}
use moon_hub.Providers.Fallback.Exhausted.{execute-exhausted}
use moon_hub.Providers.Fallback.Frame.{mark_success-clean, execute-frame}

-- Two rate limits a minute apart, then a billing error of another provider.
abbrev minute : ℕ
minute = 60000000000

abbrev rough_day : List Event
rough_day =
    record { provider = "openai"; now = 5 * minute; call = failure billing }
    ∷ record { provider = "zai"; now = 3 * minute; call = failure rate_limit }
    ∷ record { provider = "zai"; now = 2 * minute; call = failure rate_limit }
    ∷ []

abbrev hurt : CooldownTracker
hurt = replay rough_day

error_count-replay_example : error_count "zai" (replay rough_day) ≡ 2
error_count-replay_example = error_count-replay "zai" rough_day

replay-IsCounted-run : AllValues IsCounted (replay rough_day).entries
replay-IsCounted-run = replay-IsCounted rough_day

calculate_standard_cooldown_bounds-four :
    (60000000000 ≤ calculate_standard_cooldown 3)
    × (calculate_standard_cooldown 3 ≤ hour)
    × (calculate_standard_cooldown 3 ≤ calculate_standard_cooldown (3 + 1))
    × (calculate_standard_cooldown (3 + 4) ≡ hour)
calculate_standard_cooldown_bounds-four = calculate_standard_cooldown_bounds 3

is_available-cooldown_remaining-run :
    (is_available (4 * minute) "zai" hurt ≡ true) ↔ (cooldown_remaining (4 * minute) "zai" hurt ≡ 0)
is_available-cooldown_remaining-run = is_available-cooldown_remaining (4 * minute) "zai" hurt

-- A first rate limit keeps the provider out for the next minute.
mark_failure-blocks_example :
    is_available
      (2 * minute)
      "zai"
      (mark_failure (minute + 1) "zai" rate_limit new_cooldown_tracker)
    ≡ false
unfolding mark_failure new_cooldown_tracker error_count lookup insert calculate_standard_cooldown
    fail_entry empty_entry
mark_failure-blocks_example =
    mark_failure-blocks (minute + 1) (2 * minute) "zai" rate_limit new_cooldown_tracker
      (omega arith)

mark_success-hurt :
    (error_count "zai" (mark_success "zai" hurt) ≡ 0)
    × (is_available (4 * minute) "zai" (mark_success "zai" hurt) ≡ true)
mark_success-hurt = mark_success-clean "zai" hurt (4 * minute)

-- A toy of the text functions: equality for containment, and no regular expression matches but one.
abbrev toy_ops : TextOps
toy_ops = record {
  to_lower = λ s. s;
  contains = λ s p. str_eq s p;
  regex_match = λ r s. str_eq r s;
  find_submatch = λ r s. none;
}

abbrev overflow_error : FailoverError
overflow_error = record {
  reason = rate_limit;
  provider = "zai";
  model = "glm";
  status = 0;
  wrapped = message "usage limit";
}

classify_error-Explains_example :
    Explains toy_ops (message "usage limit") "zai" "glm" overflow_error
unfolding classify_error classify_text is_image_dimension_error matches_any matches_pattern
    is_image_size_error extract_http_status extract_from classify_by_message
classify_error-Explains_example =
    classify_error-Explains toy_ops (message "usage limit") "zai" "glm" overflow_error refl

classify_error-image_example :
    (f : FailoverError) × (classify_error toy_ops
        (message "image dimensions exceed max")
        "zai"
        "glm"
      ≡ some f)
    × (f.reason ≡ format)
    × (is_retriable f ≡ false)
unfolding is_image_dimension_error is_image_size_error matches_any matches_pattern
classify_error-image_example =
    classify_error-image toy_ops "image dimensions exceed max" "zai" "glm" refl

abbrev classify : GoError → String → String → Option FailoverError
classify = classify_error toy_ops

abbrev candidates : List FallbackCandidate
candidates =
    record { provider = "zai"; model = "glm" } ∷ record { provider = "openai"; model = "gpt" } ∷ []

abbrev turn_with : Reply ℕ → Turn ℕ
turn_with r = record {
  canceled_before = false;
  now = minute;
  remaining_now = minute;
  reply = r;
  elapsed = 7;
  canceled_after = false;
  failure_now = minute;
}

-- The first call meets a limit, the second is answered.
abbrev answered_second : ℕ → Turn ℕ
answered_second i =
    turn_with (if◌then◌else◌ (i == 0) (Reply.failure (message "usage limit")) (response 42))

abbrev first_attempt : FallbackAttempt
first_attempt = record {
  provider = "zai";
  model = "glm";
  error = Fallback.failover overflow_error;
  reason = some rate_limit;
  duration = 7;
  skipped = false;
}

execute-Wins_example :
    Wins answered_second
      (("zai", "glm") ∷ ("openai", "gpt") ∷ [])
      (record { response = 42; provider = "openai"; model = "gpt"; attempts = first_attempt ∷ [] })
unfolding execute execute_from visit new_cooldown_tracker mark_failure is_available is_retriable
    lookup insert classify_error classify_text is_image_dimension_error matches_any matches_pattern
    is_image_size_error extract_http_status extract_from classify_by_message
execute-Wins_example =
    execute-Wins classify answered_second candidates new_cooldown_tracker
      (record { response = 42; provider = "openai"; model = "gpt"; attempts = first_attempt ∷ [] })
      refl

-- Every call meets a limit.
abbrev always_full : ℕ → Turn ℕ
always_full i = turn_with (Reply.failure (message "usage limit"))

abbrev second_attempt : FallbackAttempt
second_attempt = record first_attempt {
  provider = "openai";
  model = "gpt";
  error = Fallback.failover (record overflow_error { provider = "openai"; model = "gpt" });
}

execute-exhausted_example :
    map attempt_id (first_attempt ∷ second_attempt ∷ []) ≡ map candidate_id candidates
unfolding execute execute_from visit new_cooldown_tracker mark_failure is_available is_retriable
    lookup insert classify_error classify_text is_image_dimension_error matches_any matches_pattern
    is_image_size_error extract_http_status extract_from classify_by_message
execute-exhausted_example =
    execute-exhausted classify always_full candidates new_cooldown_tracker
      (first_attempt ∷ second_attempt ∷ []) refl

zai_other : ◌≢◌ {A = String} "zai" "groq"
zai_other = ground (arith, eq_iff "zai" "groq")

openai_other : ◌≢◌ {A = String} "openai" "groq"
openai_other = ground (arith, eq_iff "openai" "groq")

execute-frame-run :
    lookup "groq" (execute classify always_full candidates new_cooldown_tracker).1.entries
    ≡ lookup "groq" new_cooldown_tracker.entries
execute-frame-run =
    execute-frame classify always_full candidates new_cooldown_tracker "groq"
      (zai_other, (openai_other, tt))
