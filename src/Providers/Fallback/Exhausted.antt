-- ===== src/Providers/Fallback/Exhausted.antt =====
-- pkg/providers/fallback.go: what the error that reports all attempts says of the candidates.
use moon_hub.Base.{
  ℕ, suc, ◌+◌, ◌-◌, String, Option, List, [], ◌∷◌, ◌++◌, map, ◌==◌, ◌≡◌, ap, ◌∙◌, length, arith,
  inl, inr, append-nil, Bool-cases,
}
use moon_hub.Providers.Types.{GoError, FailoverError}
use moon_hub.Providers.Cooldown.{CooldownTracker}
use moon_hub.Providers.Fallback.{
  FallbackCandidate, FallbackAttempt, exhausted, Outcome, err, Turn, stopped, candidate_id,
  attempt_id,
}
use moon_hub.Providers.Fallback.Execute.{visit, execute_from, execute}
use moon_hub.Providers.Fallback.Success.{Verdict-cases, map-snoc, length-snoc, visit-passed}

module _ {R : Type 0} (classify : GoError → String → String → Option FailoverError) where
  pub not_exhausted :
      (c : FallbackCandidate) (t : Turn R) (ct : CooldownTracker) (l : List FallbackAttempt)
      → (visit classify c t ct).0 ≡ stopped (exhausted l)
      → ⊥
  unfolding visit
  not_exhausted c t ct l h = ground arith

  -- In the last round the loop stops where it would have run out of candidates.
  finished :
      (turn : ℕ → Turn R) (n i : ℕ) (ts : List FallbackAttempt) (cs : List FallbackCandidate)
      (ct : CooldownTracker) (l : List FallbackAttempt)
      → length cs ≡ 0
      → (let o : Outcome R = err (exhausted ts) in o) ≡ err (exhausted l)
      → (execute_from classify turn n i ts cs ct).0 ≡ err (exhausted l)
  unfolding execute_from
  finished turn n i ts [] ct l k h = h
  finished turn n i ts (c ∷ cs) ct l k h = absurd (omega arith)

  execute_from-exhausted :
      (turn : ℕ → Turn R) (n : ℕ) (ts : List FallbackAttempt) (cs : List FallbackCandidate)
      (ct : CooldownTracker) (l : List FallbackAttempt)
      → n ≡ length ts + length cs
      → (execute_from classify turn n (length ts) ts cs ct).0 ≡ err (exhausted l)
      → map attempt_id l ≡ map attempt_id ts ++ map candidate_id cs
  unfolding execute_from
  execute_from-exhausted turn n ts [] ct l k h =
      let e : ts ≡ l = ground arith in rw (append-nil (map attempt_id ts), e)
  execute_from-exhausted turn n ts (c ∷ cs) ct l k h =
      let t = turn (length ts) in
      let ct' = (visit classify c t ct).1 in
      let go_on =
        λ (a : FallbackAttempt) (e : attempt_id a ≡ candidate_id c)
            (h' : (execute_from classify turn n (suc (length ts)) (ts ++ a ∷ []) cs ct').0
              ≡ err (exhausted l)).
          execute_from-exhausted turn n (ts ++ a ∷ []) cs ct' l (omega (arith, k, length-snoc ts a))
            (rw (length-snoc ts a) h')
          ∙ map-snoc ts a (map candidate_id cs)
          ∙ ap (λ i. map attempt_id ts ++ (i ∷ map candidate_id cs)) e in
      elim (Verdict-cases (visit classify c t ct).0) [
        | inl (r, e) ↦ cc (rw (e, execute_from) at h)
        | inr (inl (x, e)) ↦ absurd (not_exhausted c t ct l (e ∙ ap stopped (ground arith)))
        | inr (inr (a, inl e)) ↦
            go_on a (visit-passed classify c t ct a (inl e)).0 (rw (e, execute_from) at h)
        | inr (inr (a, inr e)) ↦ elim (Bool-cases (length ts == n - 1)) [
          | inl last ↦ go_on a (visit-passed classify c t ct a (inr e)).0 (
              finished turn n (suc (length ts)) (ts ++ a ∷ []) cs ct' l (ground (arith, k, last))
                (rw last at (rw (e, execute_from) at h)))
          | inr more ↦
              go_on a (visit-passed classify c t ct a (inr e)).0
                (rw more at (rw (e, execute_from) at h))
        ]
      ]

  -- When the chain reports that all candidates failed, its attempts are the candidates, in order.
  pub execute-exhausted :
      (turn : ℕ → Turn R) (cs : List FallbackCandidate) (ct : CooldownTracker)
      (l : List FallbackAttempt)
      → (execute classify turn cs ct).0 ≡ err (exhausted l)
      → map attempt_id l ≡ map candidate_id cs
  unfolding execute
  execute-exhausted turn [] ct l h = cc
  execute-exhausted turn (c ∷ cs) ct l h =
      execute_from-exhausted turn (length (c ∷ cs)) [] (c ∷ cs) ct l (omega arith) h
