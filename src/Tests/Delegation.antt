-- ===== src/Tests/Delegation.antt =====
-- Schedules of the session queue of pkg/delegation/queue.go.
use moon_hub.Base.{◌+◌, ◌≤◌, ◌≡◌, refl, true, false, List, [], ◌∷◌, arith}
use moon_hub.Delegation.Queue.{
  starting, looping, executing, Thread, SessionQueue, new_session_queue, submit, advance, clear,
  get_queue_length, Event, submits, advances, run,
}
use moon_hub.Delegation.Queue.Serial.{executions, workers, one, run-serial}
use moon_hub.Delegation.Queue.Races.{submit-lost, clear-deadlocks, clear-submit-workers}

-- Two tasks; the first runs while the second is queued.
abbrev two_tasks : List Event
two_tasks = submits "a" ∷ advances 1 ∷ advances 0 ∷ advances 0 ∷ submits "b" ∷ advances 2 ∷ []

run-two_tasks :
    ((run two_tasks new_session_queue).threads
      ≡ executing 0 "a" ∷ Thread.stopped ∷ Thread.stopped ∷ [])
    × (get_queue_length (run two_tasks new_session_queue) ≡ 1)
unfolding run new_session_queue get_queue_length
run-two_tasks = (refl, refl)

run-serial_example :
    (executions (run two_tasks new_session_queue).threads ≤ 1)
    × (workers (run two_tasks new_session_queue).threads ≤ 1)
    × ((run two_tasks new_session_queue).locked ≡ false)
run-serial_example = run-serial two_tasks (omega arith)

submit-lost_example :
    let s =
      run
        (advances 0 ∷ submits "b" ∷ advances 0 ∷ advances 1 ∷ [])
        (one true [] (looping 0 ∷ []) []) in
    (get_queue_length s ≡ 1)
    × (workers s.threads ≡ 0)
    × (s.objects ≡ record { tasks = "b" ∷ []; running = false } ∷ [])
submit-lost_example = submit-lost (looping 0 ∷ []) 0 [] "b" refl refl

-- One submission, and its worker has not started.
abbrev unstarted : SessionQueue
unstarted = one true [] (starting ∷ Thread.submitting 0 "a" ∷ []) []

clear-deadlocks_example :
    let s' = run (advances 1 ∷ []) (advance 0 (clear unstarted)) in submit "b" s' ≡ s'
clear-deadlocks_example = clear-deadlocks 0 unstarted (advances 1 ∷ []) "b" refl refl

second_worker-run :
    workers (submit "b" (clear (one true [] (executing 0 "a" ∷ []) []))).threads ≡ 1 + 1
second_worker-run = clear-submit-workers (one true [] (executing 0 "a" ∷ []) []) "b" refl
