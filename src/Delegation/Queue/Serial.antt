-- ===== src/Delegation/Queue/Serial.antt =====
-- pkg/delegation/queue.go: the workers and the running tasks of an agent in schedules without `Clear`.
use moon_hub.Base.{
  ℕ, zero, suc, ◌+◌, ◌≤◌, ◌≡◌, refl, subst, String, Bool, true, false, none, some, List, [], ◌∷◌,
  ◌++◌, inl, inr, arith, ltb, ltb→lt, length, length-append, get_elem?, set, All, All-append,
  Option-cases, Bool-cases,
}
use moon_hub.Delegation.Queue.{
  capacity, Thread, submitting, starting, looping, executing, checking, stopped, executed,
  queue_full, TaskResult, SessionQueue, new_session_queue, submit, move, advance, Event, submits,
  advances, clears, run,
}

abbrev pub is_worker : Thread → ℕ
is_worker (submitting p t) = 0
is_worker stopped = 0
is_worker _ = 1

abbrev pub workers : List Thread → ℕ
workers [] = 0
workers (t ∷ ts) = is_worker t + workers ts

abbrev pub bit : Bool → ℕ
bit true = 1
bit false = 0

pub workers-append : (ts us : List Thread) → workers (ts ++ us) ≡ workers ts + workers us
workers-append [] us = omega arith
workers-append (t ∷ ts) us = omega (arith, workers-append ts us)

pub workers-set :
    (ts : List Thread) (i : ℕ) (t u : Thread)
    → get_elem? ts i ≡ some t
    → workers (set ts i u) + is_worker t ≡ workers ts + is_worker u
workers-set [] i t u h = cc
workers-set (x ∷ ts) zero t u h = ground arith
workers-set (x ∷ ts) (suc i) t u h = omega (arith, workers-set ts i t u h)

-- The pointer of a thread, if it has one, is the first object.
abbrev AtZero : Thread → Type 0
AtZero (submitting p t) = p ≡ 0
AtZero starting = Unit {0}
AtZero (looping p) = p ≡ 0
AtZero (executing p t) = p ≡ 0
AtZero (checking p) = p ≡ 0
AtZero stopped = Unit {0}

All-set {ℓ κ} :
    {A : Type ℓ} (P : A → Type κ) (xs : List A) (i : ℕ) (v : A)
    → All P xs
    → P v
    → All P (set xs i v)
All-set P [] i v h p = tt
All-set P (x ∷ xs) zero v h p = (p, h.1)
All-set P (x ∷ xs) (suc i) v h p = (h.0, All-set P xs i v h.1 p)

All-get_elem? {ℓ κ} :
    {A : Type ℓ} (P : A → Type κ) (xs : List A) (i : ℕ) {v : A}
    → All P xs
    → get_elem? xs i ≡ some v
    → P v
All-get_elem? P [] i h e = cc
All-get_elem? P (x ∷ xs) zero {v} h e = subst P {x = x} {y = v} (ground arith) h.0
All-get_elem? P (x ∷ xs) (suc i) h e = All-get_elem? P xs i h.1 e

abbrev pub one : Bool → List String → List Thread → List (String × TaskResult) → SessionQueue
one r ts threads d = record {
  current = some 0;
  objects = record { tasks = ts; running = r } ∷ [];
  threads = threads;
  locked = false;
  done = d;
}

abbrev pub untouched : List (String × TaskResult) → SessionQueue
untouched d = record { current = none; objects = []; threads = []; locked = false; done = d }

-- Nothing was submitted yet, or there is one queue object, with as many workers as its `running`
-- flag says and no more tasks than its channel holds.
pub data Inv : SessionQueue → Type 0 where
  fresh : (d : List (String × TaskResult)) → Inv (untouched d)
  single :
      (r : Bool) (ts : List String) (threads : List Thread) (d : List (String × TaskResult))
      → workers threads ≡ bit r
      → length ts ≤ capacity
      → All AtZero threads
      → Inv (one r ts threads d)

submit-Inv : (t : String) (s : SessionQueue) → Inv s → Inv (submit t s)
unfolding submit
submit-Inv t s (fresh d) =
    single true [] (starting ∷ submitting 0 t ∷ []) d (omega arith) (omega arith) (tt, (refl, tt))
submit-Inv t s (single true ts threads d w b a) =
    single true ts (threads ++ submitting 0 t ∷ []) d
      (omega (arith, w, workers-append threads (submitting 0 t ∷ []))) b
      (All-append AtZero threads (submitting 0 t ∷ []) a (refl, tt))
submit-Inv t s (single false ts threads d w b a) =
    single true ts ((threads ++ starting ∷ []) ++ submitting 0 t ∷ []) d
      (omega (
        arith,
        w,
        workers-append (threads ++ starting ∷ []) (submitting 0 t ∷ []),
        workers-append threads (starting ∷ []),
      ))
      b
      (All-append AtZero (threads ++ starting ∷ []) (submitting 0 t ∷ [])
        (All-append AtZero threads (starting ∷ []) a (tt, tt)) (refl, tt))

-- The thread `i` goes from `t` to `u`, and `running` with it.
module _ (threads : List Thread) (i : ℕ) (t : Thread) (at : get_elem? threads i ≡ some t) where
  become-Inv :
      (u : Thread) (r r' : Bool) (ts : List String) (d : List (String × TaskResult))
      → workers threads ≡ bit r
      → is_worker u + bit r ≡ is_worker t + bit r'
      → length ts ≤ capacity
      → All AtZero threads
      → AtZero u
      → Inv (one r' ts (set threads i u) d)
  become-Inv u r r' ts d w k b a z =
      single r' ts (set threads i u) d (omega (arith, w, k, workers-set threads i t u at)) b
        (All-set AtZero threads i u a z)

move-Inv :
    (r : Bool) (ts : List String) (threads : List Thread) (d : List (String × TaskResult)) (i : ℕ)
    (t : Thread)
    → get_elem? threads i ≡ some t
    → AtZero t
    → workers threads ≡ bit r
    → length ts ≤ capacity
    → All AtZero threads
    → Inv (move i t (one r ts threads d))
unfolding move
move-Inv r ts threads d i (submitting (suc p) t) at z w b a = absurd (omega arith)
move-Inv r ts threads d i (submitting zero t) at z w b a =
    elim (Bool-cases (ltb (length ts) capacity)) [
      | inl room ↦ rw room (
          become-Inv threads i (submitting 0 t) at stopped r r (ts ++ t ∷ []) d w refl
            (omega (arith, length-append ts (t ∷ []), ltb→lt (length ts) capacity room)) a tt)
      | inr full ↦ rw full (
          become-Inv threads i (submitting 0 t) at stopped r r ts ((t, queue_full) ∷ d) w refl b a
            tt)
    ]
move-Inv r ts threads d i starting at z w b a =
    become-Inv threads i starting at (looping 0) r r ts d w refl b a refl
move-Inv r ts threads d i (looping (suc p)) at z w b a = absurd (omega arith)
move-Inv r [] threads d i (looping zero) at z w b a =
    become-Inv threads i (looping 0) at (checking 0) r r [] d w refl b a refl
move-Inv r (t ∷ ts) threads d i (looping zero) at z w b a =
    become-Inv threads i (looping 0) at (executing 0 t) r r ts d w refl (omega arith) a refl
move-Inv r ts threads d i (executing p t) at z w b a =
    become-Inv threads i (executing p t) at (looping p) r r ts ((t, executed) ∷ d) w refl b a z
move-Inv r ts threads d i (checking (suc p)) at z w b a = absurd (omega arith)
move-Inv r (t ∷ ts) threads d i (checking zero) at z w b a =
    become-Inv threads i (checking 0) at (looping 0) r r (t ∷ ts) d w refl b a refl
move-Inv true [] threads d i (checking zero) at z w b a =
    become-Inv threads i (checking 0) at stopped true false [] d w refl b a tt
move-Inv false [] threads d i (checking zero) at z w b a =
    absurd (omega (arith, w, workers-set threads i (checking 0) stopped at))
move-Inv r ts threads d i stopped at z w b a = single r ts threads d w b a

advance-Inv : (i : ℕ) (s : SessionQueue) → Inv s → Inv (advance i s)
unfolding advance
advance-Inv i s (fresh d) = fresh d
advance-Inv i s (single r ts threads d w b a) = elim (Option-cases (get_elem? threads i)) [
  | inl e ↦ rw e (single r ts threads d w b a)
  | inr (t, e) ↦ rw e (move-Inv r ts threads d i t e (All-get_elem? AtZero threads i a e) w b a)
]

-- The schedule has no `Clear`.
abbrev pub NotClear : Event → Type 0
NotClear clears = ⊥
NotClear _ = Unit {0}

run-Inv : (es : List Event) (s : SessionQueue) → All NotClear es → Inv s → Inv (run es s)
unfolding run
run-Inv [] s h v = v
run-Inv (submits t ∷ es) s h v = run-Inv es (submit t s) h.1 (submit-Inv t s v)
run-Inv (advances i ∷ es) s h v = run-Inv es (advance i s) h.1 (advance-Inv i s v)
run-Inv (clears ∷ es) s h v = absurd h.0

abbrev pub is_executing : Thread → ℕ
is_executing (executing p t) = 1
is_executing _ = 0

abbrev pub executions : List Thread → ℕ
executions [] = 0
executions (t ∷ ts) = is_executing t + executions ts

executions-le-workers : (ts : List Thread) → executions ts ≤ workers ts
executions-le-workers [] = omega arith
executions-le-workers (t ∷ ts) = ground (arith, executions-le-workers ts)

Inv-serial : (s : SessionQueue) → Inv s → (workers s.threads ≤ 1) × (s.locked ≡ false)
Inv-serial s (fresh d) = (omega arith, refl)
Inv-serial s (single r ts threads d w b a) = ground arith

-- In every schedule without `Clear`, an agent has at most one worker and runs at most one task at a
-- time, and the mutex is never left locked.
pub run-serial :
    (es : List Event)
    → All NotClear es
    → (executions (run es new_session_queue).threads ≤ 1)
      × (workers (run es new_session_queue).threads ≤ 1)
      × ((run es new_session_queue).locked ≡ false)
unfolding new_session_queue
run-serial es h =
    let s = run es new_session_queue in
    let v = Inv-serial s (run-Inv es new_session_queue h (fresh [])) in
    (omega (arith, v, executions-le-workers s.threads), v.0, v.1)
