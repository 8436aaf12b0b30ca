-- ===== src/Scheduler/Loop.antt =====
-- The loop of `Scheduler::run` (wb_server/scheduler.cc), round by round.
use cpp_wb_server.Common.{ℕ, ◌≡◌, refl, ◌∙◌, ap, inl, inr, Option, none, some, Bool-cases}
use cpp_wb_server.Log.World.{ok, ◌>>=◌}
use cpp_wb_server.Fiber.{is_over}
use cpp_wb_server.Common.{if_cases, ℕ, false}
use cpp_wb_server.Scheduler.{
  Picked, after_pick, idle_task, run_target, with_locals, Target, of_fiber, of_cb, Task, Scheduler,
  Locals, run_task, round, pick, run_fiber,
}
use cpp_wb_server.Scheduler.Rounds.{OnContinue}
use cpp_wb_server.Scheduler.Branches.{IsSafe, Goes, run_fiber-Goes, run_idle-Goes, run_cb-Goes}

idle_task-Goes :
    (l : Locals) (s : Scheduler)
    → IsSafe l s
    → (r : Option (Locals × Scheduler)) × (idle_task l s ≡ ok r) × OnContinue (Goes s) r
unfolding idle_task with_locals
idle_task-Goes l s i = let (r, e, g) = run_idle-Goes l s i in (with_locals l r, rw e, goes r g)
  where
    goes :
        (r : Option Scheduler)
        → OnContinue (λ s'. Goes s (l, s')) r
        → OnContinue (Goes s) (with_locals l r)
    goes none g = tt
    goes (some s') g = unfold with_locals in g

pub run_target-run_fiber :
    (f : ℕ) (l : Locals) (s : Scheduler)
    → is_over (s.fibers f).state ≡ false
    → run_target (of_fiber f) l s ≡ (run_fiber f s >>= λ s'. ok (some (l, s')))
unfolding run_target
run_target-run_fiber f l s o = rw o

run_target-Goes :
    (t : Target) (l : Locals) (s : Scheduler)
    → IsSafe l s
    → (r : Option (Locals × Scheduler)) × (run_target t l s ≡ ok r) × OnContinue (Goes s) r
unfolding run_target
run_target-Goes (of_cb c) l s i =
    let (r, e, g) = run_cb-Goes c l s i in (some (record l { cb_fiber = r.0 }, r.1), rw e, g)
run_target-Goes (of_fiber f) l s i = elim (Bool-cases (is_over (s.fibers f).state)) [
  | inl o ↦ rw o (idle_task-Goes l s i)
  | inr o ↦
      let (s', e, g) = run_fiber-Goes f l s i o in
      (some (l, s'), run_target-run_fiber f l s o ∙ ap (λ r. r >>= λ s''. ok (some (l, s''))) e, g)
]

run_task-Goes :
    (t : Option Task) (l : Locals) (s : Scheduler)
    → IsSafe l s
    → (r : Option (Locals × Scheduler)) × (run_task t l s ≡ ok r) × OnContinue (Goes s) r
unfolding run_task
run_task-Goes none l s i = idle_task-Goes l s i
run_task-Goes (some t) l s i = run_target-Goes t.target l s i

pub after_pick-IsSafe :
    (p : Picked) (l : Locals) (s : Scheduler)
    → IsSafe l s
    → IsSafe l (after_pick p s) × ((after_pick p s).active_thread_count ≡ s.active_thread_count)
unfolding after_pick
after_pick-IsSafe p l s i =
    let k : IsSafe l (record s { queue = p.rest }) = record {
      calm = i.calm;
      cb_free = i.cb_free;
      idle_below = i.idle_below;
      idle_ok = i.idle_ok;
    } in
    if_cases (λ (s' : Scheduler). IsSafe l s' × (s'.active_thread_count ≡ s.active_thread_count))
      p.tickle_me
      (
        record {
          calm = i.calm;
          cb_free = i.cb_free;
          idle_below = i.idle_below;
          idle_ok = i.idle_ok;
        },
        refl,
      )
      (k, refl)

-- In a safe state a round meets no failed assertion, and breaks or leaves a safe state: no fiber is
-- left in EXEC, `cb_fiber` can be reset, and the count of running threads is what it was.
pub round-Goes :
    (me : ℕ) (l : Locals) (s : Scheduler)
    → IsSafe l s
    → (r : Option (Locals × Scheduler)) × (round me l s ≡ ok r) × OnContinue (Goes s) r
unfolding round
round-Goes me l s i =
    let p : Picked = pick me s.fibers s.queue in
    let (k, a) = after_pick-IsSafe p l s i in
    let (r, e, g) = run_task-Goes p.task l (after_pick p s) k in (r, e, goes (after_pick p s) a r g)
  where
    goes :
        (s₁ : Scheduler)
        → s₁.active_thread_count ≡ s.active_thread_count
        → (r : Option (Locals × Scheduler)) → OnContinue (Goes s₁) r
        → OnContinue (Goes s) r
    goes s₁ a none g = tt
    goes s₁ a (some (l', s')) g = (g.0, g.1 ∙ a)
