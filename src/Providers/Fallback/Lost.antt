-- ===== src/Providers/Fallback/Lost.antt =====
-- pkg/providers/fallback.go: why each attempt of an exhausted chain was lost, and what becomes of a
-- chain that nothing stops from outside.
use moon_hub.Base.{
  ℕ, suc, ◌+◌, ◌-◌, ◌≡◌, ◌≢◌, refl, subst, sym, ap, ◌∙◌, String, true, false, Option, none, some,
  List, [], ◌∷◌, ◌++◌, map, ◌==◌, length, inl, inr, ◌⊎◌, Bool-cases, arith,
}
use moon_hub.Providers.Types.{GoError, FailoverError, is_retriable}
use moon_hub.Providers.Cooldown.{CooldownTracker, is_available, cooldown_remaining, mark_failure}
use moon_hub.Providers.Fallback.{
  FallbackCandidate, FallbackAttempt, AttemptError, in_cooldown, failover, plain, exhausted,
  no_candidates, context_canceled, aborted, ChainError, unclassified, Outcome, ok, err, Reply,
  response, failure, Turn, Verdict, retry, passed, stopped, candidate_id, attempt_id,
}
use moon_hub.Providers.Fallback.Execute.{
  skip_attempt, on_classified, on_reply, visit, execute_from, execute,
}
use moon_hub.Providers.Fallback.Success.{Verdict-cases, Wins, length-snoc, execute-Wins}
use moon_hub.Providers.Fallback.Exhausted.{not_exhausted, execute-exhausted}
use moon_hub.Providers.Fallback.Steady.{is_final, Steady, execute-is_final}

module _ {R : Type 0} (classify : GoError → String → String → Option FailoverError) where
  -- Why a call is not the winner's: it is skipped for the cooldown of its provider, or it fails with
  -- the error that the attempt records, one to retry.
  abbrev pub LostFor : Turn R → CooldownTracker → FallbackAttempt → Reply R → AttemptError → Type 0
  LostFor t ct a r (in_cooldown remaining) =
      (is_available t.now a.provider ct ≡ false)
      × (remaining ≡ cooldown_remaining t.remaining_now a.provider ct)
  LostFor t ct a (failure e) (failover f) =
      (is_available t.now a.provider ct ≡ true)
      × (classify e a.provider a.model ≡ some f)
      × (is_retriable f ≡ true)
  LostFor t ct a _ _ = ⊥

  abbrev pub Lost : Turn R → CooldownTracker → FallbackAttempt → Type 0
  Lost t ct a = LostFor t ct a t.reply a.error

  -- The tracker after an attempt: the failure of its provider is marked.
  abbrev pub marked : Turn R → CooldownTracker → FallbackAttempt → CooldownTracker
  marked t ct a = elim a.error [
    | failover f ↦ mark_failure t.failure_now a.provider f.reason ct
    | in_cooldown remaining ↦ ct
    | plain e ↦ ct
  ]

  unfoldable pub marked_all :
      (ℕ → Turn R) → ℕ → CooldownTracker → List FallbackAttempt → CooldownTracker
  marked_all turn i ct [] = ct
  marked_all turn i ct (a ∷ ts) = marked_all turn (suc i) (marked (turn i) ct a) ts

  -- Each attempt from round `i` on was lost, the failures before it being marked.
  unfoldable pub AllLost : (ℕ → Turn R) → ℕ → CooldownTracker → List FallbackAttempt → Type 0
  AllLost turn i ct [] = Unit
  AllLost turn i ct (a ∷ ts) = Lost (turn i) ct a × AllLost turn (suc i) (marked (turn i) ct a) ts

  AllLost-snoc :
      (turn : ℕ → Turn R) (i k : ℕ) (ct : CooldownTracker) (ts : List FallbackAttempt)
      (a : FallbackAttempt)
      → k ≡ i + length ts
      → AllLost turn i ct ts
      → Lost (turn k) (marked_all turn i ct ts) a
      → AllLost turn i ct (ts ++ a ∷ [])
  unfolding AllLost marked_all
  AllLost-snoc turn i k ct [] a e all p =
      (subst (λ j. Lost (turn j) ct a) {x = k} {y = i} (omega (arith, e)) p, tt)
  AllLost-snoc turn i k ct (b ∷ ts) a e all p =
      (all.0, AllLost-snoc turn (suc i) k (marked (turn i) ct b) ts a (omega (arith, e)) all.1 p)

  marked_all-snoc :
      (turn : ℕ → Turn R) (i k : ℕ) (ct : CooldownTracker) (ts : List FallbackAttempt)
      (a : FallbackAttempt)
      → k ≡ i + length ts
      → marked_all turn i ct (ts ++ a ∷ []) ≡ marked (turn k) (marked_all turn i ct ts) a
  unfolding marked_all
  marked_all-snoc turn i k ct [] a e =
      ap (λ j. marked (turn j) ct a) {x = i} {y = k} (omega (arith, e))
  marked_all-snoc turn i k ct (b ∷ ts) a e =
      marked_all-snoc turn (suc i) k (marked (turn i) ct b) ts a (omega (arith, e))

  -- Why an attempt was lost, and the tracker that its round leaves.
  abbrev Explained : Turn R → CooldownTracker → Reply R → CooldownTracker → FallbackAttempt → Type 0
  Explained t ct r ct' a = LostFor t ct a r a.error × (ct' ≡ marked t ct a)

  on_classified-Lost :
      (c : FallbackCandidate) (t : Turn R) (ct : CooldownTracker) (e : GoError) (f : FailoverError)
      (a : FallbackAttempt)
      → is_available t.now c.provider ct ≡ true
      → classify e c.provider c.model ≡ some f
      → (on_classified classify c t ct f).0 ≡ retry a
      → Explained t ct (failure e) (on_classified classify c t ct f).1 a
  unfolding on_classified
  on_classified-Lost c t ct e f a free known h =
      let again : is_retriable f ≡ true = ground arith in
      let left : (record {
        provider = c.provider;
        model = c.model;
        error = failover f;
        reason = some f.reason;
        duration = t.elapsed;
        skipped = false;
      })
          ≡ a =
        ground arith in
      let kept : (on_classified classify c t ct f).1
          ≡ mark_failure t.failure_now c.provider f.reason ct =
        ground arith in
      subst (Explained t ct (failure e) (on_classified classify c t ct f).1) left
        ((free, known, again), kept)

  -- What a failed call comes to that the context does not cancel.
  abbrev on_found :
      FallbackCandidate
      → Turn R
      → CooldownTracker
      → GoError
      → Option FailoverError
      → Verdict R × CooldownTracker
  on_found c t ct e found = elim found [
    | none ↦ (stopped (unclassified c.provider c.model e), ct)
    | some f ↦ on_classified classify c t ct f
  ]

  classified-Lost :
      (c : FallbackCandidate) (t : Turn R) (ct : CooldownTracker) (e : GoError)
      (a : FallbackAttempt) (found : Option FailoverError)
      → is_available t.now c.provider ct ≡ true
      → classify e c.provider c.model ≡ found
      → (on_found c t ct e found).0 ≡ retry a
      → Explained t ct (failure e) (on_found c t ct e found).1 a
  classified-Lost c t ct e a none free known h = cc
  classified-Lost c t ct e a (some f) free known h = on_classified-Lost c t ct e f a free known h

  on_reply-Lost :
      (c : FallbackCandidate) (t : Turn R) (ct : CooldownTracker) (r : Reply R)
      (a : FallbackAttempt)
      → is_available t.now c.provider ct ≡ true
      → (on_reply classify c t ct r).0 ≡ retry a
      → Explained t ct r (on_reply classify c t ct r).1 a
  unfolding on_reply
  on_reply-Lost c t ct (response v) a free h = cc
  on_reply-Lost c t ct (failure e) a free h = elim (Bool-cases t.canceled_after) [
    | inl gone ↦ cc (rw gone at h)
    | inr lives ↦
        rw lives
          (classified-Lost c t ct e a (classify e c.provider c.model) free refl (rw lives at h))
  ]

  on_reply-not_passed :
      (c : FallbackCandidate) (t : Turn R) (ct : CooldownTracker) (r : Reply R)
      (a : FallbackAttempt)
      → (on_reply classify c t ct r).0 ≢ passed a
  unfolding on_reply on_classified
  on_reply-not_passed c t ct r a h = ground arith

  visit-Lost :
      (c : FallbackCandidate) (t : Turn R) (ct : CooldownTracker) (a : FallbackAttempt)
      → ((visit classify c t ct).0 ≡ passed a) ⊎ ((visit classify c t ct).0 ≡ retry a)
      → Explained t ct t.reply (visit classify c t ct).1 a
  unfolding visit
  visit-Lost c t ct a h = elim (Bool-cases t.canceled_before) [
    | inl gone ↦ ground (arith, gone)
    | inr lives ↦ elim (Bool-cases (is_available t.now c.provider ct)) [
      | inl free ↦ elim h [
        | inl p ↦ absurd (on_reply-not_passed c t ct t.reply a (rw (lives, free) at p))
        | inr r ↦ rw (lives, free) (on_reply-Lost c t ct t.reply a free (rw (lives, free) at r))
      ]
      | inr busy ↦
          let left : skip_attempt classify c t ct ≡ a = ground arith in
          let kept : (visit classify c t ct).1 ≡ ct = ground arith in
          subst (Explained t ct t.reply (visit classify c t ct).1) left ((busy, refl), kept)
    ]
  ]

  -- The attempts that an outcome reports.
  abbrev pub attempts_of : Outcome R → List FallbackAttempt
  attempts_of (ok res) = res.attempts
  attempts_of (err (exhausted l)) = l
  attempts_of _ = []

  stopped-unreported :
      (turn : ℕ → Turn R) (c : FallbackCandidate) (t : Turn R) (ct start : CooldownTracker)
      (x : ChainError)
      → (visit classify c t ct).0 ≡ stopped x
      → AllLost turn 0 start (attempts_of (err x))
  unfolding AllLost
  stopped-unreported turn c t ct start (exhausted l) h = absurd (not_exhausted classify c t ct l h)
  stopped-unreported turn c t ct start no_candidates h = tt
  stopped-unreported turn c t ct start context_canceled h = tt
  stopped-unreported turn c t ct start (unclassified _ _ _) h = tt
  stopped-unreported turn c t ct start (aborted _) h = tt

  -- One attempt more is lost, and the tracker is the marked one.
  extended :
      (turn : ℕ → Turn R) (ts : List FallbackAttempt) (c : FallbackCandidate)
      (ct start : CooldownTracker) (a : FallbackAttempt)
      → ct ≡ marked_all turn 0 start ts
      → AllLost turn 0 start ts
      → ((visit classify c (turn (length ts)) ct).0 ≡ passed a)
        ⊎ ((visit classify c (turn (length ts)) ct).0 ≡ retry a)
      → ((visit classify c (turn (length ts)) ct).1 ≡ marked_all turn 0 start (ts ++ a ∷ []))
        × AllLost turn 0 start (ts ++ a ∷ [])
  extended turn ts c ct start a k p h =
      let (lost, left) = visit-Lost c (turn (length ts)) ct a h in
      (
        left
            ∙ ap (λ ct. marked (turn (length ts)) ct a) k
            ∙ sym (marked_all-snoc turn 0 (length ts) start ts a (omega arith)),
        AllLost-snoc turn 0 (length ts) start ts a (omega arith) p
            (subst (λ ct. Lost (turn (length ts)) ct a) k lost),
      )

  execute_from-AllLost :
      (turn : ℕ → Turn R) (n : ℕ) (ts : List FallbackAttempt) (cs : List FallbackCandidate)
      (ct start : CooldownTracker)
      → ct ≡ marked_all turn 0 start ts
      → AllLost turn 0 start ts
      → AllLost turn 0 start (attempts_of (execute_from classify turn n (length ts) ts cs ct).0)
  unfolding execute_from
  execute_from-AllLost turn n ts [] ct start k p = p
  execute_from-AllLost turn n ts (c ∷ cs) ct start k p =
      let t = turn (length ts) in
      let go_on =
        λ (a : FallbackAttempt)
            (s : ((visit classify c t ct).0 ≡ passed a) ⊎ ((visit classify c t ct).0 ≡ retry a)).
          let (k', p') = extended turn ts c ct start a k p s in
          rw (length-snoc ts a) at
            (execute_from-AllLost turn n (ts ++ a ∷ []) cs (visit classify c t ct).1 start k' p') in
      elim (Verdict-cases (visit classify c t ct).0) [
        | inl (r, e) ↦ rw (e, execute_from) p
        | inr (inl (x, e)) ↦ rw (e, execute_from) (stopped-unreported turn c t ct start x e)
        | inr (inr (a, inl e)) ↦ rw (e, execute_from) (go_on a (inl e))
        | inr (inr (a, inr e)) ↦ elim (Bool-cases (length ts == n - 1)) [
          | inl last ↦ rw (e, execute_from, last) (extended turn ts c ct start a k p (inr e)).1
          | inr more ↦ rw (e, execute_from, more) (go_on a (inr e))
        ]
      ]

  execute-AllLost :
      (turn : ℕ → Turn R) (cs : List FallbackCandidate) (ct : CooldownTracker)
      → AllLost turn 0 ct (attempts_of (execute classify turn cs ct).0)
  unfolding execute AllLost marked_all
  execute-AllLost turn [] ct = tt
  execute-AllLost turn (c ∷ cs) ct =
      execute_from-AllLost turn (length (c ∷ cs)) [] (c ∷ cs) ct ct refl tt

  -- A result, or the report of every candidate; each attempt was lost for a reason of its own.
  abbrev pub Settles : (ℕ → Turn R) → List (String × String) → CooldownTracker → Outcome R → Type 0
  Settles turn ids ct (ok res) = Wins turn ids res × AllLost turn 0 ct res.attempts
  Settles turn ids ct (err (exhausted l)) = (map attempt_id l ≡ ids) × AllLost turn 0 ct l
  Settles turn ids ct _ = ⊥

  lost :
      (turn : ℕ → Turn R) (cs : List FallbackCandidate) (ct : CooldownTracker) (o : Outcome R)
      → (execute classify turn cs ct).0 ≡ o
      → AllLost turn 0 ct (attempts_of o)
  lost turn cs ct o e =
      subst (λ o. AllLost turn 0 ct (attempts_of o)) e (execute-AllLost turn cs ct)

  settled :
      (turn : ℕ → Turn R) (cs : List FallbackCandidate) (ct : CooldownTracker) (o : Outcome R)
      → (execute classify turn cs ct).0 ≡ o
      → is_final o ≡ true
      → Settles turn (map candidate_id cs) ct o
  settled turn cs ct (ok res) e f =
      (execute-Wins classify turn cs ct res e, lost turn cs ct (ok res) e)
  settled turn cs ct (err (exhausted l)) e f =
      (execute-exhausted classify turn cs ct l e, lost turn cs ct (err (exhausted l)) e)
  settled turn cs ct (err no_candidates) e f = ground arith
  settled turn cs ct (err context_canceled) e f = ground arith
  settled turn cs ct (err (unclassified _ _ _)) e f = ground arith
  settled turn cs ct (err (aborted _)) e f = ground arith

  -- A chain with a candidate, whose context is never cancelled and whose failures are all to be
  -- retried, ends in one of two ways. It has a result: the attempts are the candidates before the
  -- winner, in order, and the response is the reply of the round of the winner. Or it reports an
  -- attempt for every candidate, in order. In both, the provider of each attempt is unavailable, the
  -- failures before it being marked, and the attempt records what remains of its cooldown; or it is
  -- available, and the attempt records the error, one to retry, as which the failure of the call of
  -- its own round is classified.
  pub execute-Settles :
      (turn : ℕ → Turn R) (c : FallbackCandidate) (cs : List FallbackCandidate)
      (ct : CooldownTracker)
      → Steady classify turn
      → Settles turn (map candidate_id (c ∷ cs)) ct (execute classify turn (c ∷ cs) ct).0
  execute-Settles turn c cs ct s =
      settled turn (c ∷ cs) ct _ refl (execute-is_final classify turn c cs ct s)
