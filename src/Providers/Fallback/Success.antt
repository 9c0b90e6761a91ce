-- ===== src/Providers/Fallback/Success.antt =====
-- What a successful run of the chain says of its candidates.
use moon_hub.Base.{
  ℕ, suc, ◌-◌, String, Bool, true, false, Option, some, List, [], ◌∷◌, ◌++◌, map, ◌==◌, ◌≡◌, ◌≢◌,
  refl, ap, ◌∙◌, subst, if◌then◌else◌, length, All, All-append, arith, ◌⊎◌, inl, inr,
}
use moon_hub.Providers.Types.{format, GoError, FailoverError, is_retriable}
use moon_hub.Providers.Cooldown.{CooldownTracker}
use moon_hub.Providers.Fallback.{
  FallbackCandidate, FallbackAttempt, FallbackResult, ChainError, Outcome, ok, err, response, Turn,
  Verdict, won, stopped, passed, retry, candidate_id, attempt_id,
}
use moon_hub.Providers.Fallback.Execute.{visit, execute_from, execute}

pub Verdict-cases :
    {R : Type 0} (v : Verdict R)
    → ((r : R) × (v ≡ won r))
      ⊎ ((e : ChainError) × (v ≡ stopped e))
      ⊎ ((a : FallbackAttempt) × ((v ≡ passed a) ⊎ (v ≡ retry a)))
Verdict-cases (won r) = inl (r, refl)
Verdict-cases (stopped e) = inr (inl (e, refl))
Verdict-cases (passed a) = inr (inr (a, inl refl))
Verdict-cases (retry a) = inr (inr (a, inr refl))

-- An attempt left behind names its candidate, and was skipped or failed for a retriable reason.
abbrev pub Left : FallbackCandidate → FallbackAttempt → Type 0
Left c a = (attempt_id a ≡ candidate_id c) × (a.reason ≢ some format)

-- What a success says: the attempts are the candidates before the winner, in order and each skipped
-- or failed for a retriable reason, and the response is the reply of the winner's own round.
pub record Wins {R : Type 0} (turn : ℕ → Turn R) (ids : List (String × String))
    (res : FallbackResult R) : Type 0 where
  pub rest : List (String × String)
  pub ordered : ids ≡ map attempt_id res.attempts ++ ((res.provider, res.model) ∷ rest)
  pub replied : (turn (length res.attempts)).reply ≡ response res.response
  pub retriable : All (λ a. a.reason ≢ some format) res.attempts

pub map-snoc :
    (ts : List FallbackAttempt) (a : FallbackAttempt) (ids : List (String × String))
    → map attempt_id (ts ++ a ∷ []) ++ ids ≡ map attempt_id ts ++ (attempt_id a ∷ ids)
map-snoc [] a ids = refl
map-snoc (x ∷ ts) a ids = ap (λ l. attempt_id x ∷ l) (map-snoc ts a ids)

pub length-snoc {ℓ} : {A : Type ℓ} (ts : List A) (a : A) → length (ts ++ a ∷ []) ≡ suc (length ts)
length-snoc [] a = refl
length-snoc (x ∷ ts) a = ap suc (length-snoc ts a)

-- The loop went on, so this was not its last round.
if_not_last :
    {R : Type 0} {res : FallbackResult R} (x : ChainError) (ct : CooldownTracker) (last : Bool)
    (o : Outcome R × CooldownTracker)
    → (if last then (err x, ct) else o).0 ≡ ok res
    → o.0 ≡ ok res
if_not_last x ct true o h = cc
if_not_last x ct false o h = h

-- One more attempt, and the claim for the rest of the loop.
pub Wins-continue :
    {R : Type 0} (turn : ℕ → Turn R) (ts : List FallbackAttempt) (c : FallbackCandidate)
    (a : FallbackAttempt) (cs : List FallbackCandidate) (res : FallbackResult R)
    → Left c a
    → Wins turn (map attempt_id (ts ++ a ∷ []) ++ map candidate_id cs) res
    → Wins turn (map attempt_id ts ++ map candidate_id (c ∷ cs)) res
Wins-continue turn ts c a cs res l w =
    subst (λ ids. Wins turn ids res)
      (map-snoc ts a (map candidate_id cs)
        ∙ ap (λ i. map attempt_id ts ++ (i ∷ map candidate_id cs)) l.0)
      w

module _ {R : Type 0} (classify : GoError → String → String → Option FailoverError) where
  pub visit-passed :
      (c : FallbackCandidate) (t : Turn R) (ct : CooldownTracker) (a : FallbackAttempt)
      → ((visit classify c t ct).0 ≡ passed a) ⊎ ((visit classify c t ct).0 ≡ retry a)
      → Left c a
  unfolding visit is_retriable
  visit-passed c t ct a h = ground arith

  visit-won :
      (c : FallbackCandidate) (t : Turn R) (ct : CooldownTracker) (r : R)
      → (visit classify c t ct).0 ≡ won r
      → t.reply ≡ response r
  unfolding visit is_retriable
  visit-won c t ct r h = ground arith

  execute_from-Wins :
      (turn : ℕ → Turn R) (n : ℕ) (ts : List FallbackAttempt) (cs : List FallbackCandidate)
      (ct : CooldownTracker) (res : FallbackResult R)
      → All (λ a. a.reason ≢ some format) ts
      → (execute_from classify turn n (length ts) ts cs ct).0 ≡ ok res
      → Wins turn (map attempt_id ts ++ map candidate_id cs) res
  unfolding execute_from
  execute_from-Wins turn n ts [] ct res g h = cc
  execute_from-Wins turn n ts (c ∷ cs) ct res g h =
      elim (Verdict-cases (visit classify c (turn (length ts)) ct).0) [
        | inl (r, e) ↦
            subst (Wins turn (map attempt_id ts ++ map candidate_id (c ∷ cs)))
              {x = record { response = r; provider = c.provider; model = c.model; attempts = ts }}
              {y = res} (cc (rw (e, execute_from) at h))
              (record {
                rest = map candidate_id cs;
                ordered = refl;
                replied = visit-won c (turn (length ts)) ct r e;
                retriable = g;
              })
        | inr (inl (x, e)) ↦ cc (rw (e, execute_from) at h)
        | inr (inr (a, inl e)) ↦
            let l = visit-passed c (turn (length ts)) ct a (inl e) in
            Wins-continue turn ts c a cs res l (
              execute_from-Wins turn n (ts ++ a ∷ []) cs (visit classify c (turn (length ts)) ct).1
                res (All-append _ ts (a ∷ []) g (l.1, tt))
                (rw (length-snoc ts a) (rw (e, execute_from) at h)))
        | inr (inr (a, inr e)) ↦
            let l = visit-passed c (turn (length ts)) ct a (inr e) in
            Wins-continue turn ts c a cs res l (
              execute_from-Wins turn n (ts ++ a ∷ []) cs (visit classify c (turn (length ts)) ct).1
                res (All-append _ ts (a ∷ []) g (l.1, tt))
                (rw (length-snoc ts a)
                  (if_not_last _ _ (length ts == n - 1) _ (rw (e, execute_from) at h))))
      ]

  -- When the chain succeeds, its attempts are the candidates before the winner, in order, none of
  -- them for a format error, and the response is the reply of the winner's own round.
  pub execute-Wins :
      (turn : ℕ → Turn R) (cs : List FallbackCandidate) (ct : CooldownTracker)
      (res : FallbackResult R)
      → (execute classify turn cs ct).0 ≡ ok res
      → Wins turn (map candidate_id cs) res
  unfolding execute
  execute-Wins turn [] ct res h = cc
  execute-Wins turn (c ∷ cs) ct res h =
      execute_from-Wins turn (length (c ∷ cs)) [] (c ∷ cs) ct res tt h
