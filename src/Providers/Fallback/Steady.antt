-- ===== src/Providers/Fallback/Steady.antt =====
-- pkg/providers/fallback.go: a chain that nothing stops from outside.
use moon_hub.Base.{
  ℕ, suc, ◌-◌, ◌≡◌, refl, String, Bool, true, false, Option, none, some, List, [], ◌∷◌, ◌++◌, ◌==◌,
  length, inl, inr, Bool-cases, arith,
}
use moon_hub.Providers.Types.{GoError, FailoverError, is_retriable}
use moon_hub.Providers.Cooldown.{CooldownTracker}
use moon_hub.Providers.Fallback.{
  FallbackCandidate, FallbackAttempt, exhausted, Outcome, ok, err, Reply, response, failure, Turn,
  Verdict, stopped,
}
use moon_hub.Providers.Fallback.Execute.{on_reply, visit, execute_from, execute}
use moon_hub.Providers.Fallback.Success.{Verdict-cases}

-- The chain has a result, or the report of all attempts.
abbrev pub is_final : {R : Type 0} → Outcome R → Bool
is_final (ok _) = true
is_final (err (exhausted _)) = true
is_final _ = false

-- A classified error that the chain may retry.
abbrev pub retries : Option FailoverError → Bool
retries none = false
retries (some f) = is_retriable f

-- The context is never cancelled, and every failure is classified as one to retry.
pub record Steady {R : Type 0} (classify : GoError → String → String → Option FailoverError)
    (turn : ℕ → Turn R) : Type 0 where
  pub before : (i : ℕ) → (turn i).canceled_before ≡ false
  pub after : (i : ℕ) → (turn i).canceled_after ≡ false
  pub retried :
      (i : ℕ) (e : GoError) (provider model : String)
      → (turn i).reply ≡ failure e
      → retries (classify e provider model) ≡ true

abbrev is_stopped : {R : Type 0} → Verdict R → Bool
is_stopped (stopped _) = true
is_stopped _ = false

module _ {R : Type 0} (classify : GoError → String → String → Option FailoverError) where
  on_reply-goes_on :
      (c : FallbackCandidate) (t : Turn R) (ct : CooldownTracker) (r : Reply R)
      → t.canceled_after ≡ false
      → ((e : GoError) → r ≡ failure e → retries (classify e c.provider c.model) ≡ true)
      → is_stopped (on_reply classify c t ct r).0 ≡ false
  unfolding on_reply
  on_reply-goes_on c t ct (response v) a h = refl
  on_reply-goes_on c t ct (failure e) a h = ground (arith, h e refl)

  visit-goes_on :
      (turn : ℕ → Turn R) (i : ℕ) (c : FallbackCandidate) (ct : CooldownTracker)
      → Steady classify turn
      → is_stopped (visit classify c (turn i) ct).0 ≡ false
  unfolding visit
  visit-goes_on turn i c ct s = ground (
    arith,
    s.before i,
    on_reply-goes_on c (turn i) ct (turn i).reply (s.after i)
        (λ e. s.retried i e c.provider c.model),
  )

  execute_from-is_final :
      (turn : ℕ → Turn R) (n i : ℕ) (ts : List FallbackAttempt) (cs : List FallbackCandidate)
      (ct : CooldownTracker)
      → Steady classify turn
      → is_final (execute_from classify turn n i ts cs ct).0 ≡ true
  unfolding execute_from
  execute_from-is_final turn n i ts [] ct s = refl
  execute_from-is_final turn n i ts (c ∷ cs) ct s =
      let ct' = (visit classify c (turn i) ct).1 in
      let go_on =
        λ (a : FallbackAttempt). execute_from-is_final turn n (suc i) (ts ++ a ∷ []) cs ct' s in
      elim (Verdict-cases (visit classify c (turn i) ct).0) [
        | inl (r, e) ↦ rw (e, execute_from) refl
        | inr (inl (x, e)) ↦ cc (rw e at (visit-goes_on turn i c ct s))
        | inr (inr (a, inl e)) ↦ rw (e, execute_from) (go_on a)
        | inr (inr (a, inr e)) ↦ elim (Bool-cases (i == n - 1)) [
          | inl last ↦ rw (e, execute_from, last) refl
          | inr more ↦ rw (e, execute_from, more) (go_on a)
        ]
      ]

  -- A chain with a candidate, whose context is never cancelled and whose failures are all to be
  -- retried, ends with a result or with the report of all attempts.
  pub execute-is_final :
      (turn : ℕ → Turn R) (c : FallbackCandidate) (cs : List FallbackCandidate)
      (ct : CooldownTracker)
      → Steady classify turn
      → is_final (execute classify turn (c ∷ cs) ct).0 ≡ true
  unfolding execute
  execute-is_final turn c cs ct s = execute_from-is_final turn (length (c ∷ cs)) 0 [] (c ∷ cs) ct s
