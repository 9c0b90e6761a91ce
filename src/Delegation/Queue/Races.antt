-- ===== src/Delegation/Queue/Races.antt =====
-- pkg/delegation/queue.go: interleavings of `Submit`, `Clear` and a worker.
use moon_hub.Base.{
  ℕ, zero, suc, ◌+◌, ◌≡◌, refl, ap, ◌∙◌, String, true, false, none, some, List, [], ◌∷◌, ◌++◌,
  arith, length, get_elem?, set,
}
use moon_hub.Delegation.Queue.{
  new_queue, Thread, submitting, starting, looping, checking, stopped, TaskResult, SessionQueue,
  submit, move, advance, clear, get_queue_length, Event, submits, advances, step, run,
}
use moon_hub.Delegation.Queue.Serial.{workers, workers-append, workers-set, one}

module _ {ℓ} {A : Type ℓ} where
  get_elem?-set_self :
      (xs : List A) (i : ℕ) (x y : A) → get_elem? xs i ≡ some x → get_elem? (set xs i y) i ≡ some y
  get_elem?-set_self [] i x y h = cc
  get_elem?-set_self (z ∷ xs) zero x y h = refl
  get_elem?-set_self (z ∷ xs) (suc i) x y h = get_elem?-set_self xs i x y h

  get_elem?-append :
      (xs ys : List A) (i : ℕ) (x : A) → get_elem? xs i ≡ some x → get_elem? (xs ++ ys) i ≡ some x
  get_elem?-append [] ys i x h = cc
  get_elem?-append (z ∷ xs) ys zero x h = h
  get_elem?-append (z ∷ xs) ys (suc i) x h = get_elem?-append xs ys i x h

  get_elem?-snoc : (xs : List A) (y : A) → get_elem? (xs ++ y ∷ []) (length xs) ≡ some y
  get_elem?-snoc [] y = refl
  get_elem?-snoc (z ∷ xs) y = get_elem?-snoc xs y

  set-append :
      (xs ys : List A) (i : ℕ) (x y : A)
      → get_elem? xs i ≡ some x
      → set (xs ++ ys) i y ≡ set xs i y ++ ys
  set-append [] ys i x y h = cc
  set-append (z ∷ xs) ys zero x y h = refl
  set-append (z ∷ xs) ys (suc i) x y h = ap (λ l. z ∷ l) (set-append xs ys i x y h)

  length-set : (xs : List A) (i : ℕ) (y : A) → length (set xs i y) ≡ length xs
  length-set [] i y = refl
  length-set (z ∷ xs) zero y = refl
  length-set (z ∷ xs) (suc i) y = ap suc (length-set xs i y)

advance-at :
    (i : ℕ) (s : SessionQueue) (u : Thread)
    → get_elem? s.threads i ≡ some u
    → advance i s ≡ move i u s
unfolding advance
advance-at i s u e = rw (e, advance)

module _ (threads : List Thread) (i : ℕ) (d : List (String × TaskResult)) (t : String)
    (at : get_elem? threads i ≡ some (looping 0)) where
  abbrev asked : List Thread
  asked = set threads i (checking 0)

  abbrev ended : List Thread
  ended = set asked i stopped

  abbrev late : List Event
  late = advances i ∷ submits t ∷ advances i ∷ advances (length threads) ∷ []

  asked_at : get_elem? asked i ≡ some (checking 0)
  asked_at = get_elem?-set_self threads i (looping 0) (checking 0) at

  finds_empty : advance i (one true [] threads d) ≡ one true [] asked d
  unfolding move
  finds_empty = advance-at i (one true [] threads d) (looping 0) at

  stops :
      advance i (one true [] (asked ++ submitting 0 t ∷ []) d)
      ≡ one false [] (ended ++ submitting 0 t ∷ []) d
  unfolding move
  stops =
      advance-at i (one true [] (asked ++ submitting 0 t ∷ []) d) (checking 0)
        (get_elem?-append asked (submitting 0 t ∷ []) i (checking 0) asked_at)
      ∙ ap (λ l. one false [] l d)
          (set-append asked (submitting 0 t ∷ []) i (checking 0) stopped asked_at)

  length-ended : length ended ≡ length threads
  length-ended = length-set asked i stopped ∙ length-set threads i (checking 0)

  sends :
      advance (length threads) (one false [] (ended ++ submitting 0 t ∷ []) d)
      ≡ one false (t ∷ []) (set (ended ++ submitting 0 t ∷ []) (length threads) stopped) d
  unfolding move
  sends =
      advance-at (length threads) (one false [] (ended ++ submitting 0 t ∷ []) d) (submitting 0 t)
        (rw (← length-ended) (get_elem?-snoc ended (submitting 0 t)))

  late_lem :
      run late (one true [] threads d)
      ≡ one false (t ∷ []) (set (ended ++ submitting 0 t ∷ []) (length threads) stopped) d
  unfolding run submit
  late_lem =
      ap (λ s. advance (length threads) (advance i (submit t s))) finds_empty
      ∙ ap (λ s. advance (length threads) s) stops
      ∙ sends

  waiting :
      workers (set (ended ++ submitting 0 t ∷ []) (length threads) stopped) + 1 ≡ workers threads
  waiting = omega (
    arith,
    workers-set threads i (looping 0) (checking 0) at,
    workers-set asked i (checking 0) stopped asked_at,
    workers-append ended (submitting 0 t ∷ []),
    workers-set (ended ++ submitting 0 t ∷ []) (length threads) (submitting 0 t) stopped
        (rw (← length-ended) (get_elem?-snoc ended (submitting 0 t))),
  )

  -- A lost wake-up: a task that is submitted while the only worker is about to stop, and is sent
  -- after it has stopped, lies in the queue with no worker and with `running` false.
  pub submit-lost :
      workers threads ≡ 1
      → let s =
          run
            (advances i ∷ submits t ∷ advances i ∷ advances (length threads) ∷ [])
            (one true [] threads d) in
        (get_queue_length s ≡ 1)
        × (workers s.threads ≡ 0)
        × (s.objects ≡ record { tasks = t ∷ []; running = false } ∷ [])
  unfolding get_queue_length
  submit-lost w = rw late_lem (refl, omega (arith, w, waiting), refl)

-- A mutex that was left locked stays locked.
step-locked : (e : Event) (s : SessionQueue) → s.locked ≡ true → (step e s).locked ≡ true
unfolding step
step-locked e s h = ground arith

run-locked : (es : List Event) (s : SessionQueue) → s.locked ≡ true → (run es s).locked ≡ true
unfolding run
run-locked [] s h = h
run-locked (e ∷ es) s h = run-locked es (step e s) (step-locked e s h)

submit-locked : (t : String) (s : SessionQueue) → s.locked ≡ true → submit t s ≡ s
unfolding submit
submit-locked t s h = ground arith

begin_unset :
    (i : ℕ) (s : SessionQueue)
    → get_elem? s.threads i ≡ some starting
    → s.locked ≡ false
    → (advance i (clear s)).locked ≡ true
unfolding advance move clear
begin_unset i s at h = ground arith

-- A deadlock: a `Clear` between the unlock of `Submit` and the start of its worker leaves the mutex
-- locked, and then no `Submit` at any later time goes through.
pub clear-deadlocks :
    (i : ℕ) (s : SessionQueue) (es : List Event) (t : String)
    → get_elem? s.threads i ≡ some starting
    → s.locked ≡ false
    → let s' = run es (advance i (clear s)) in submit t s' ≡ s'
clear-deadlocks i s es t at h =
    submit-locked t (run es (advance i (clear s)))
      (run-locked es (advance i (clear s)) (begin_unset i s at h))

clear_lem :
    (s : SessionQueue)
    → s.locked ≡ false
    → ((clear s).current ≡ none) × ((clear s).threads ≡ s.threads) × ((clear s).locked ≡ false)
unfolding clear
clear_lem s h = (ground arith, ground arith, ground arith)

submit_unset :
    (t : String) (s : SessionQueue)
    → s.locked ≡ false
    → s.current ≡ none
    → workers (submit t s).threads ≡ workers s.threads + 1
unfolding submit
submit_unset t s h e = ground (
  arith,
  get_elem?-snoc s.objects new_queue,
  workers-append (s.threads ++ starting ∷ []) (submitting (length s.objects) t ∷ []),
  workers-append s.threads (starting ∷ []),
)

-- A second worker: after a `Clear` the next `Submit` starts a worker beside those that still run.
pub clear-submit-workers :
    (s : SessionQueue) (t : String)
    → s.locked ≡ false
    → workers (submit t (clear s)).threads ≡ workers s.threads + 1
clear-submit-workers s t h =
    let c = clear_lem s h in submit_unset t (clear s) c.2 c.0 ∙ ap (λ l. workers l + 1) c.1
