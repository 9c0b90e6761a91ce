-- ===== src/Tests/Fallback.antt =====
-- pkg/providers/fallback.go at concrete inputs: image requests and the list of candidates.
use moon_hub.Base.{
  Option, some, String, ℕ, ◌≡◌, refl, false, none, List, [], ◌∷◌, ◌==◌, if◌then◌else◌, str_eq,
  lookup, insert,
}
use moon_hub.Providers.Types.{GoError, message, rate_limit, FailoverError, is_retriable}
use moon_hub.Providers.Cooldown.{new_cooldown_tracker}
use moon_hub.Providers.Fallback.Execute.{execute}
use moon_hub.Providers.Fallback.Steady.{Steady}
use moon_hub.Providers.Fallback.Lost.{Settles, execute-Settles}
use moon_hub.Providers.Classifier.{
  TextOps, is_image_dimension_error, is_image_size_error, matches_any, matches_pattern,
}
use moon_hub.Providers.Fallback.{FallbackCandidate, FallbackAttempt, plain, Reply, response, Turn}
use moon_hub.Providers.Fallback.Success.{Wins}
use moon_hub.Providers.Fallback.Image.{
  AllPassedOver, execute_image, execute_image_from, visit_image, image_error, execute_image-Wins,
}
use moon_hub.Providers.Fallback.Candidates.{
  ModelConfig, RefText, resolve_candidates, resolve_candidates_with_lookup, add_all,
  parse_model_ref, normalize_provider, model_key,
}
use moon_hub.Providers.Fallback.Candidates.Keys.{key_count, is_named, key_count-resolve_candidates}

-- A toy of the text functions: equality for containment, and no regular expression matches but one.
abbrev toy_text : TextOps
toy_text = record {
  to_lower = λ s. s;
  contains = λ s p. str_eq s p;
  regex_match = λ r s. str_eq r s;
  find_submatch = λ r s. none;
}

abbrev image_candidates : List FallbackCandidate
image_candidates =
    record { provider = "zai"; model = "glm" } ∷ record { provider = "openai"; model = "gpt" } ∷ []

-- The first call fails, the second is answered.
abbrev image_turn : ℕ → Turn ℕ
image_turn i = record {
  canceled_before = false;
  now = 1;
  remaining_now = 1;
  reply = if◌then◌else◌ (i == 0) (Reply.failure (message "busy")) (response 42);
  elapsed = 7;
  canceled_after = false;
  failure_now = 1;
}

abbrev busy_attempt : FallbackAttempt
busy_attempt = record {
  provider = "zai";
  model = "glm";
  error = plain (message "busy");
  reason = none;
  duration = 7;
  skipped = false;
}

execute_image-Wins_example :
    Wins image_turn
      (("zai", "glm") ∷ ("openai", "gpt") ∷ [])
      (record { response = 42; provider = "openai"; model = "gpt"; attempts = busy_attempt ∷ [] })
    × AllPassedOver toy_text image_turn (busy_attempt ∷ [])
unfolding execute_image execute_image_from visit_image image_error is_image_dimension_error
    is_image_size_error matches_any matches_pattern
execute_image-Wins_example =
    execute_image-Wins toy_text image_turn image_candidates
      (record { response = 42; provider = "openai"; model = "gpt"; attempts = busy_attempt ∷ [] })
      refl

-- Texts without a slash, in lower case and without spaces.
abbrev plain_text : RefText
plain_text = record { to_lower = λ s. s; trim_space = λ s. s; cut_slash = λ _. none }

abbrev repeated : ModelConfig
repeated = record { primary = "gpt-5"; fallbacks = "glm-5" ∷ "gpt-5" ∷ [] }

resolve_candidates-repeated :
    resolve_candidates plain_text repeated "gpt"
    ≡ record { provider = "openai"; model = "gpt-5" }
      ∷ record { provider = "openai"; model = "glm-5" }
      ∷ []
unfolding resolve_candidates resolve_candidates_with_lookup add_all parse_model_ref
    normalize_provider model_key lookup insert
resolve_candidates-repeated = refl

key_count-resolve_candidates_example :
    key_count plain_text "openai/gpt-5"
      (resolve_candidates_with_lookup plain_text repeated "gpt" (λ _. none))
    ≡ (if is_named plain_text "openai/gpt-5" (λ _. none) "gpt" ("gpt-5" ∷ "glm-5" ∷ "gpt-5" ∷ [])
        then 1
        else 0)
key_count-resolve_candidates_example =
    key_count-resolve_candidates plain_text "openai/gpt-5" repeated "gpt" (λ _. none)

-- Every error is a rate limit.
abbrev all_limits : GoError → String → String → Option FailoverError
all_limits e p m =
    some (record { reason = rate_limit; provider = p; model = m; status = 429; wrapped = e })

image_turn-Steady : Steady all_limits image_turn
unfolding is_retriable
image_turn-Steady = record { before = λ i. refl; after = λ i. refl; retried = λ i e p m h. refl }

execute-Settles_example :
    Settles all_limits image_turn
      (("zai", "glm") ∷ ("openai", "gpt") ∷ [])
      new_cooldown_tracker
      (execute all_limits image_turn
        (record { provider = "zai"; model = "glm" }
          ∷ record { provider = "openai"; model = "gpt" }
          ∷ [])
        new_cooldown_tracker).0
execute-Settles_example =
    execute-Settles all_limits image_turn (record { provider = "zai"; model = "glm" })
      (record { provider = "openai"; model = "gpt" } ∷ []) new_cooldown_tracker image_turn-Steady
