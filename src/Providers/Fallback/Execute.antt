-- ===== src/Providers/Fallback/Execute.antt =====
-- pkg/providers/fallback.go: `Execute`.
use moon_hub.Base.{
  ℕ, suc, ◌-◌, String, true, false, Option, none, some, List, [], ◌∷◌, ◌++◌, ◌==◌, if◌then◌else◌,
  length,
}
use moon_hub.Providers.Types.{rate_limit, GoError, FailoverError, is_retriable}
use moon_hub.Providers.Cooldown.{
  CooldownTracker, is_available, cooldown_remaining, mark_success, mark_failure,
}
use moon_hub.Providers.Fallback.{
  FallbackCandidate, in_cooldown, failover, FallbackAttempt, no_candidates, context_canceled,
  unclassified, aborted, exhausted, Outcome, ok, err, Reply, response, failure, Turn, Verdict, won,
  stopped, passed, retry,
}

module _ {R : Type 0} (classify : GoError → String → String → Option FailoverError) where
  abbrev pub skip_attempt : FallbackCandidate → Turn R → CooldownTracker → FallbackAttempt
  skip_attempt c t ct = record {
    provider = c.provider;
    model = c.model;
    error = in_cooldown (cooldown_remaining t.remaining_now c.provider ct);
    reason = some rate_limit;
    duration = 0;
    skipped = true;
  }

  -- After a classified error.
  unfoldable pub on_classified :
      FallbackCandidate → Turn R → CooldownTracker → FailoverError → Verdict R × CooldownTracker
  on_classified c t ct e =
      if is_retriable e
      then (
        retry (record {
          provider = c.provider;
          model = c.model;
          error = failover e;
          reason = some e.reason;
          duration = t.elapsed;
          skipped = false;
        }),
        mark_failure t.failure_now c.provider e.reason ct,
      )
      else (stopped (aborted e), ct)

  -- After the call of `run`.
  unfoldable pub on_reply :
      FallbackCandidate → Turn R → CooldownTracker → Reply R → Verdict R × CooldownTracker
  unfolding on_classified
  on_reply c t ct (response r) = (won r, mark_success c.provider ct)
  on_reply c t ct (failure e) =
      if t.canceled_after
      then (stopped context_canceled, ct)
      else elim (classify e c.provider c.model) [
        | none ↦ (stopped (unclassified c.provider c.model e), ct)
        | some f ↦ on_classified c t ct f
      ]

  -- One round of the loop.
  unfoldable pub visit : FallbackCandidate → Turn R → CooldownTracker → Verdict R × CooldownTracker
  unfolding on_reply
  visit c t ct =
      if t.canceled_before
      then (stopped context_canceled, ct)
      else if is_available t.now c.provider ct
      then on_reply c t ct t.reply
      else (passed (skip_attempt c t ct), ct)

  -- The loop from round `i` of `n`, with the attempts so far.
  unfoldable pub execute_from :
      (ℕ → Turn R)
      → ℕ
      → ℕ
      → List FallbackAttempt
      → List FallbackCandidate
      → CooldownTracker
      → Outcome R × CooldownTracker
  execute_from turn n i attempts [] ct = (err (exhausted attempts), ct)
  execute_from turn n i attempts (c ∷ cs) ct =
      let step = visit c (turn i) ct in
      elim step.0 [
        | won r ↦ (
          ok (record { response = r; provider = c.provider; model = c.model; attempts = attempts }),
          step.1,
        )
        | stopped e ↦ (err e, step.1)
        | passed a ↦ execute_from turn n (suc i) (attempts ++ a ∷ []) cs step.1
        | retry a ↦
            let rest = execute_from turn n (suc i) (attempts ++ a ∷ []) cs step.1 in
            if i == n - 1 then (err (exhausted (attempts ++ a ∷ [])), step.1) else rest
      ]

  unfoldable pub execute :
      (ℕ → Turn R) → List FallbackCandidate → CooldownTracker → Outcome R × CooldownTracker
  execute turn [] ct = (err no_candidates, ct)
  execute turn (c ∷ cs) ct = execute_from turn (length (c ∷ cs)) 0 [] (c ∷ cs) ct
