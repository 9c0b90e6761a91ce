-- ===== src/Providers/Fallback/Image.antt =====
-- pkg/providers/fallback.go: `ExecuteImage`, the chain for image requests. `image_error` says whether
-- the text of an error is one of an image's dimensions or size. The attempts of a call that ends in
-- another error than exhaustion are lost with the result, as in the code.
use moon_hub.Base.{
  ℕ, suc, ◌-◌, ◌≡◌, ◌≢◌, refl, subst, String, Bool, true, false, none, some, List, [], ◌∷◌, ◌++◌,
  map, ◌==◌, ◌||◌, if◌then◌else◌, length, All, All-append, AllFrom, AllFrom-snoc, arith, inl, inr,
}
use moon_hub.Providers.Types.{format, GoError, canceled, deadline_exceeded, message, FailoverError}
use moon_hub.Providers.Classifier.{TextOps, is_image_dimension_error, is_image_size_error}
use moon_hub.Providers.Fallback.{
  AttemptError, FallbackCandidate, FallbackAttempt, FallbackResult, plain, no_candidates,
  context_canceled, aborted, exhausted, ChainError, Outcome, ok, err, Reply, response, failure,
  Turn, Verdict, won, stopped, retry, passed, candidate_id, attempt_id,
}
use moon_hub.Providers.Fallback.Success.{Verdict-cases, Wins, Left, length-snoc, Wins-continue}

-- The error's text: that of the two sentinels is Go's.
abbrev pub error_text : GoError → String
error_text canceled = "context canceled"
error_text deadline_exceeded = "context deadline exceeded"
error_text (message text) = text

abbrev pub format_error : FallbackCandidate → GoError → FailoverError
format_error c e = record {
  reason = format;
  provider = c.provider;
  model = c.model;
  status = 0;
  wrapped = e;
}

unfoldable pub image_error : TextOps → GoError → Bool
image_error ops e =
    let msg = ops.to_lower (error_text e) in
    is_image_dimension_error ops msg || is_image_size_error ops msg

module _ {R : Type 0} (ops : TextOps) where
  abbrev pub image_attempt : FallbackCandidate → Turn R → GoError → FallbackAttempt
  image_attempt c t e = record {
    provider = c.provider;
    model = c.model;
    error = plain e;
    reason = none;
    duration = t.elapsed;
    skipped = false;
  }

  -- After the call of `run`.
  abbrev pub on_image_reply : FallbackCandidate → Turn R → Reply R → Verdict R
  on_image_reply c t (response r) = won r
  on_image_reply c t (failure e) =
      if t.canceled_after
      then stopped context_canceled
      else if image_error ops e
      then stopped (aborted (format_error c e))
      else retry (image_attempt c t e)

  -- One round of the loop.
  unfoldable pub visit_image : FallbackCandidate → Turn R → Verdict R
  visit_image c t =
      if t.canceled_before then stopped context_canceled else on_image_reply c t t.reply

  -- The loop from round `i` of `n`, with the attempts so far.
  unfoldable pub execute_image_from :
      (ℕ → Turn R) → ℕ → ℕ → List FallbackAttempt → List FallbackCandidate → Outcome R
  execute_image_from turn n i attempts [] = err (exhausted attempts)
  execute_image_from turn n i attempts (c ∷ cs) = elim (visit_image c (turn i)) [
    | won r ↦
        ok (record { response = r; provider = c.provider; model = c.model; attempts = attempts })
    | stopped e ↦ err e
    | passed a ↦ err (exhausted attempts)
    | retry a ↦
        let rest = execute_image_from turn n (suc i) (attempts ++ a ∷ []) cs in
        if i == n - 1 then err (exhausted (attempts ++ a ∷ [])) else rest
  ]

  unfoldable pub execute_image : (ℕ → Turn R) → List FallbackCandidate → Outcome R
  execute_image turn [] = err no_candidates
  execute_image turn (c ∷ cs) = execute_image_from turn (length (c ∷ cs)) 0 [] (c ∷ cs)

  -- The error of an attempt is the failure of its call, and no error of an image.
  abbrev pub PassedOver : Reply R → AttemptError → Type 0
  PassedOver (failure e) (plain e') = (e ≡ e') × (image_error ops e ≡ false)
  PassedOver _ _ = ⊥

  -- Each attempt was passed over for the failure of the call of its own round.
  abbrev pub AllPassedOver : (ℕ → Turn R) → List FallbackAttempt → Type 0
  AllPassedOver turn ts = AllFrom (λ i a. PassedOver (turn i).reply a.error) 0 ts

  on_image_reply-PassedOver :
      (c : FallbackCandidate) (t : Turn R) (r : Reply R) (a : FallbackAttempt)
      → on_image_reply c t r ≡ retry a
      → PassedOver r a.error
  on_image_reply-PassedOver c t (response v) a h = cc
  on_image_reply-PassedOver c t (failure e) a h =
      let left : image_attempt c t e ≡ a = ground arith in
      let solid : image_error ops e ≡ false = ground arith in
      subst (λ b. PassedOver (failure e) b.error) left (refl, solid)

  visit_image-PassedOver :
      (c : FallbackCandidate) (t : Turn R) (a : FallbackAttempt)
      → visit_image c t ≡ retry a
      → PassedOver t.reply a.error
  unfolding visit_image
  visit_image-PassedOver c t a h = on_image_reply-PassedOver c t t.reply a (ground arith)

  visit_image-retry :
      (c : FallbackCandidate) (t : Turn R) (a : FallbackAttempt)
      → visit_image c t ≡ retry a
      → Left c a
  unfolding visit_image
  visit_image-retry c t a h = ground arith

  visit_image-won :
      (c : FallbackCandidate) (t : Turn R) (r : R) → visit_image c t ≡ won r → t.reply ≡ response r
  unfolding visit_image
  visit_image-won c t r h = ground arith

  not_last :
      {res : FallbackResult R} (e : ChainError) (last : Bool) (o : Outcome R)
      → (if last then err e else o) ≡ ok res
      → o ≡ ok res
  not_last e true o h = cc
  not_last e false o h = h

  execute_image_from-Wins :
      (turn : ℕ → Turn R) (n : ℕ) (ts : List FallbackAttempt) (cs : List FallbackCandidate)
      (res : FallbackResult R)
      → All (λ a. a.reason ≢ some format) ts
      → AllPassedOver turn ts
      → execute_image_from turn n (length ts) ts cs ≡ ok res
      → Wins turn (map attempt_id ts ++ map candidate_id cs) res × AllPassedOver turn res.attempts
  unfolding execute_image_from
  execute_image_from-Wins turn n ts [] res g p h = cc
  execute_image_from-Wins turn n ts (c ∷ cs) res g p h =
      elim (Verdict-cases (visit_image c (turn (length ts)))) [
        | inl (r, e) ↦
            subst
              (λ res.
                Wins turn (map attempt_id ts ++ map candidate_id (c ∷ cs)) res
                × AllPassedOver turn res.attempts)
              {x = record { response = r; provider = c.provider; model = c.model; attempts = ts }}
              {y = res} (cc (rw (e, execute_image_from) at h))
              (
                record {
                  rest = map candidate_id cs;
                  ordered = refl;
                  replied = visit_image-won c (turn (length ts)) r e;
                  retriable = g;
                },
                p,
              )
        | inr (inl (x, e)) ↦ cc (rw (e, execute_image_from) at h)
        | inr (inr (a, inl e)) ↦ cc (rw (e, execute_image_from) at h)
        | inr (inr (a, inr e)) ↦
            let l = visit_image-retry c (turn (length ts)) a e in
            let over =
              AllFrom-snoc _ 0 (length ts) ts a (omega arith) p
                (visit_image-PassedOver c (turn (length ts)) a e) in
            let later =
              execute_image_from-Wins turn n (ts ++ a ∷ []) cs res
                (All-append _ ts (a ∷ []) g (l.1, tt)) over
                (rw (length-snoc ts a)
                  (not_last _ (length ts == n - 1) _ (rw (e, execute_image_from) at h))) in
            (Wins-continue turn ts c a cs res l later.0, later.1)
      ]

  -- When the image chain succeeds, its attempts are the candidates before the winner, in order, each
  -- passed over for the failure of the call of its own round, which is no error of an image's
  -- dimensions or size, and the response is the reply of the winner's own round.
  pub execute_image-Wins :
      (turn : ℕ → Turn R) (cs : List FallbackCandidate) (res : FallbackResult R)
      → execute_image turn cs ≡ ok res
      → Wins turn (map candidate_id cs) res × AllPassedOver turn res.attempts
  unfolding execute_image AllFrom
  execute_image-Wins turn [] res h = cc
  execute_image-Wins turn (c ∷ cs) res h =
      execute_image_from-Wins turn (length (c ∷ cs)) [] (c ∷ cs) res tt tt h
