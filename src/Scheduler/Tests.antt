-- ===== src/Scheduler/Tests.antt =====
-- The scheduler and the scoped locks on fixed inputs, and their theorems applied at inputs.
use cpp_wb_server.Common.{
  ℕ, suc, ◌+◌, ◌≡◌, refl, inl, true, false, List, [], ◌∷◌, Option, none, some, arith, All, ◌⊎◌,
  ◌||◌, ◌++◌,
}
use cpp_wb_server.Log.World.{ok}
use cpp_wb_server.Fiber.{Fiber, term, done, throws, say, yield_to_ready, is_exec, is_over, is_term}
use cpp_wb_server.Mutex.{lock_call, unlock_call, new, calls, destroy}
use cpp_wb_server.Mutex.Balance.{pairs, destroy-pairs}
use cpp_wb_server.Common.{◌+◌}
use cpp_wb_server.Scheduler.Work.{work}
use cpp_wb_server.Scheduler.Returns.{Returns, run-Returns}
use cpp_wb_server.Scheduler.{
  Target, of_fiber, of_cb, Task, Scheduler, Locals, round, run, loop, idle_task, run_target,
  other_thread, is_running,
}
use cpp_wb_server.Scheduler.Branches.{IsSafe, Goes}
use cpp_wb_server.Scheduler.Loop.{round-Goes}
use cpp_wb_server.Scheduler.Rounds.{OnContinue}
use cpp_wb_server.Scheduler.Order.{IsPassed, any_other, with_rest, round-first}
use cpp_wb_server.Scheduler.Leftover.{loop-leaves}

abbrev over : Fiber
over = record { state = term; cb = none; has_stack = true }

abbrev task : Target → Task
task t = record { target = t; thread = none }

abbrev with_queue : List Task → Scheduler
with_queue ts = record {
  fibers = λ f. over;
  next = 1;
  queue = ts;
  thread_count = 0;
  active_thread_count = 0;
  idle_thread_count = 0;
  stoping = false;
  auto_stop = false;
  said = [];
  tickles = 0;
}

-- Callbacks run in turn, and one that yields to ready goes on behind the others.
run-turns :
    (s : Scheduler) × (run 9 1 (
        with_queue
          (task (of_cb (say 1 (yield_to_ready (say 2 done)))) ∷ task (of_cb (say 3 throws)) ∷ []))
      ≡ ok s)
    × (s.said ≡ 1 ∷ 3 ∷ 2 ∷ [])
    × (s.queue ≡ [])
unfolding run
run-turns = (_, refl, refl, refl)

idle-IsSafe :
    IsSafe
      (record { idle_fiber = 0; cb_fiber = none })
      (with_queue (task (of_cb (say 1 done)) ∷ []))
unfolding is_exec
idle-IsSafe = record {
  calm = λ f. (refl, refl);
  cb_free = inl refl;
  idle_below = omega arith;
  idle_ok = inl (unfold is_term in refl);
}

round-Goes_example :
    (r : Option (Locals × Scheduler)) × (round 1
        (record { idle_fiber = 0; cb_fiber = none })
        (with_queue (task (of_cb (say 1 done)) ∷ []))
      ≡ ok r)
    × OnContinue (Goes (with_queue (task (of_cb (say 1 done)) ∷ []))) r
round-Goes_example =
    round-Goes 1 (record { idle_fiber = 0; cb_fiber = none })
      (with_queue (task (of_cb (say 1 done)) ∷ [])) idle-IsSafe

-- The task in front is for thread 2.
abbrev two_threads : Scheduler
two_threads =
    with_queue (record { target = of_cb done; thread = some 2 } ∷ task (of_cb throws) ∷ [])

round-first_example :
    (passed : List Task) × All (IsPassed 1 two_threads.fibers) passed
    × (((two_threads.queue ≡ passed)
          × (round 1 (record { idle_fiber = 0; cb_fiber = none }) two_threads
              ≡ idle_task
                  (record { idle_fiber = 0; cb_fiber = none })
                  (with_rest two_threads passed (any_other 1 passed))))
        ⊎ ((t : Task) × (after : List Task) × ((other_thread 1 t.thread
                || is_running two_threads.fibers t.target)
              ≡ false)
            × (two_threads.queue ≡ passed ++ t ∷ after)
            × (round 1 (record { idle_fiber = 0; cb_fiber = none }) two_threads
                ≡ run_target t.target
                    (record { idle_fiber = 0; cb_fiber = none })
                    (with_rest two_threads (passed ++ after) (any_other 1 passed)))))
round-first_example = round-first 1 (record { idle_fiber = 0; cb_fiber = none }) two_threads

loop-leaves_example :
    loop 3 1
      (record { idle_fiber = 0; cb_fiber = none })
      (with_queue (task (of_fiber 4) ∷ task (of_cb (say 1 done)) ∷ []))
    ≡ ok (with_queue (task (of_cb (say 1 done)) ∷ []))
loop-leaves_example =
    loop-leaves 2 1 4 (record { idle_fiber = 0; cb_fiber = none })
      (with_queue (task (of_fiber 4) ∷ task (of_cb (say 1 done)) ∷ []))
      (task (of_cb (say 1 done)) ∷ []) refl (unfold is_over in refl) (unfold is_term in refl)

destroy-pairs_example :
    (n : ℕ) × (destroy
        (λ m. m + 1)
        suc
        (calls (λ m. m + 1) suc (unlock_call ∷ lock_call ∷ lock_call ∷ []) (new (λ m. m + 1) suc 0))
      ≡ pairs (λ m. m + 1) suc (suc n) 0)
destroy-pairs_example = destroy-pairs (λ m. m + 1) suc (unlock_call ∷ lock_call ∷ lock_call ∷ []) 0

run-Returns_example : Returns (with_queue (task (of_cb (yield_to_ready done)) ∷ [])) (
    run
      (work (with_queue (task (of_cb (yield_to_ready done)) ∷ [])) + 2)
      1
      (with_queue (task (of_cb (yield_to_ready done)) ∷ [])))
run-Returns_example =
    run-Returns 1 (with_queue (task (of_cb (yield_to_ready done)) ∷ []))
      (λ f. (unfold is_exec in refl, refl)) (λ k h. unfold is_over in refl)
