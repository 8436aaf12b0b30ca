-- ===== src/Scheduler/Leftover.antt =====
-- The `break` of the loop of `Scheduler::run` (wb_server/scheduler.cc).
use cpp_wb_server.Common.{ap, ℕ, suc, ◌≡◌, ◌∙◌, true, false, List, ◌∷◌, none, some, arith}
use cpp_wb_server.Log.World.{ok}
use cpp_wb_server.Fiber.{is_over, is_term, is_exec}
use cpp_wb_server.Scheduler.{
  of_fiber, Task, Scheduler, Locals, pick, round, run_task, run_target, idle_task, run_idle,
  with_locals, after_pick, loop,
}

over-still :
    (s : Scheduler) (f : ℕ) → is_over (s.fibers f).state ≡ true → is_exec (s.fibers f).state ≡ false
unfolding is_over is_exec
over-still s f h = ground (arith, h)

-- When the first task is a fiber that is over, for any thread, and the idle fiber has ended before,
-- the loop ends with that task dropped, and every task behind it stays in the queue.
pub loop-leaves :
    (fuel me f : ℕ) (l : Locals) (s : Scheduler) (ts : List Task)
    → s.queue ≡ record { target = of_fiber f; thread = none } ∷ ts
    → is_over (s.fibers f).state ≡ true
    → is_term (s.fibers l.idle_fiber).state ≡ true
    → loop (suc fuel) me l s ≡ ok (record s { queue = ts })
unfolding loop round run_task run_target idle_task run_idle with_locals after_pick
loop-leaves fuel me f l s ts q o t =
    let chosen : pick me s.fibers s.queue ≡ record {
      task = some (record { target = of_fiber f; thread = none });
      rest = ts;
      tickle_me = false;
    } =
      ap (pick me s.fibers) q ∙ unfold pick in rw (over-still s f o) in
    rw (chosen, o, t) (ap (λ p. ok (after_pick p s)) chosen)
