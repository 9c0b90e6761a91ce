-- ===== src/Providers/Fallback/Frame.antt =====
-- pkg/providers/fallback.go: what the chain does to the cooldown tracker.
use moon_hub.Base.{
  ℕ, suc, ◌-◌, String, true, Option, List, [], ◌∷◌, ◌++◌, ◌==◌, ◌≡◌, ◌≢◌, refl, ◌∙◌, eq_iff, lookup,
  lookup-insert, lookup-insert_ne, length, arith, inl, inr, Bool-cases, All, Option-cases,
}
use moon_hub.Providers.Types.{FailoverReason, GoError, FailoverError}
use moon_hub.Providers.Cooldown.{
  CooldownTracker, mark_failure, mark_success, clear_entry, error_count, is_available,
}
use moon_hub.Providers.Fallback.{FallbackCandidate, FallbackAttempt, Turn}
use moon_hub.Providers.Fallback.Execute.{visit, execute_from, execute}
use moon_hub.Providers.Fallback.Success.{Verdict-cases}

lookup-mark_failure_ne :
    (now : ℕ) (p q : String) (r : FailoverReason) (ct : CooldownTracker)
    → p ≢ q
    → lookup q (mark_failure now p r ct).entries ≡ lookup q ct.entries
unfolding mark_failure
lookup-mark_failure_ne now p q r ct h = lookup-insert_ne p q _ ct.entries h

lookup-mark_success_ne :
    (p q : String) (ct : CooldownTracker)
    → p ≢ q
    → lookup q (mark_success p ct).entries ≡ lookup q ct.entries
unfolding mark_success
lookup-mark_success_ne p q ct h = elim (Option-cases (lookup p ct.entries)) [
  | inl e ↦ rw (e, mark_success)
  | inr (v, e) ↦
      rw (e, mark_success)
        (ground (arith, eq_iff p q, lookup-insert p q (clear_entry v) ct.entries))
]

-- A provider that has just succeeded is clean: no errors, and available at every time.
pub mark_success-clean :
    (p : String) (ct : CooldownTracker) (now : ℕ)
    → (error_count p (mark_success p ct) ≡ 0) × (is_available now p (mark_success p ct) ≡ true)
unfolding mark_success clear_entry error_count is_available
mark_success-clean p ct now = elim (Option-cases (lookup p ct.entries)) [
  | inl e ↦ ground arith
  | inr (v, e) ↦ ground (arith, eq_iff p p, lookup-insert p p (clear_entry v) ct.entries)
]

module _ {R : Type 0} (classify : GoError → String → String → Option FailoverError) where
  lookup-visit :
      (c : FallbackCandidate) (t : Turn R) (ct : CooldownTracker) (p : String)
      → c.provider ≢ p
      → lookup p (visit classify c t ct).1.entries ≡ lookup p ct.entries
  unfolding visit
  lookup-visit c t ct p h = grind (arith, lookup-mark_success_ne, lookup-mark_failure_ne)

  execute_from-frame :
      (turn : ℕ → Turn R) (n i : ℕ) (ts : List FallbackAttempt) (cs : List FallbackCandidate)
      (ct : CooldownTracker) (p : String)
      → All (λ c. c.provider ≢ p) cs
      → lookup p (execute_from classify turn n i ts cs ct).1.entries ≡ lookup p ct.entries
  unfolding execute_from
  execute_from-frame turn n i ts [] ct p h = refl
  execute_from-frame turn n i ts (c ∷ cs) ct p h =
      let ct' = (visit classify c (turn i) ct).1 in
      let here = lookup-visit c (turn i) ct p h.0 in
      elim (Verdict-cases (visit classify c (turn i) ct).0) [
        | inl (r, e) ↦ rw (e, execute_from) here
        | inr (inl (x, e)) ↦ rw (e, execute_from) here
        | inr (inr (a, inl e)) ↦
            rw (e, execute_from)
              (execute_from-frame turn n (suc i) (ts ++ a ∷ []) cs ct' p h.1 ∙ here)
        | inr (inr (a, inr e)) ↦
            let rest = execute_from-frame turn n (suc i) (ts ++ a ∷ []) cs ct' p h.1 ∙ here in
            elim (Bool-cases (i == n - 1)) [
              | inl last ↦ rw (e, execute_from) (rw last here)
              | inr more ↦ rw (e, execute_from) (rw more rest)
            ]
      ]

  -- The chain leaves the entry of a provider that is no candidate as it was.
  pub execute-frame :
      (turn : ℕ → Turn R) (cs : List FallbackCandidate) (ct : CooldownTracker) (p : String)
      → All (λ c. c.provider ≢ p) cs
      → lookup p (execute classify turn cs ct).1.entries ≡ lookup p ct.entries
  unfolding execute
  execute-frame turn [] ct p h = refl
  execute-frame turn (c ∷ cs) ct p h =
      execute_from-frame turn (length (c ∷ cs)) 0 [] (c ∷ cs) ct p h
