-- ===== src/Scheduler/Returns.antt =====
-- `Scheduler::run` (wb_server/scheduler.cc) as a whole: enough rounds bring it to its `break`.
use cpp_wb_server.Common.{
  ℕ, zero, suc, ◌+◌, ◌≡◌, ◌≤◌, ◌<◌, refl, sym, ap, subst, ◌∙◌, inl, inr, true, Option, none, some,
  if_cases, update_self, update_ne, update_cases, arith, Bool-cases,
}
use cpp_wb_server.Log.World.{Result, ok, ◌>>=◌}
use cpp_wb_server.Fiber
use cpp_wb_server.Fiber.{Fiber, Code, done, is_exec, is_over}
use cpp_wb_server.Scheduler.{
  Target, of_fiber, of_cb, Task, Scheduler, Locals, Picked, new_fiber, idle_task, with_locals,
  run_target, run_task, pick, after_pick, round, loop, run,
}
use cpp_wb_server.Scheduler.Safety.{IsCalm}
use cpp_wb_server.Scheduler.Rounds.{OnContinue}
use cpp_wb_server.Scheduler.Branches.{IsSafe, Goes, ok-inj}
use cpp_wb_server.Scheduler.Loop.{run_target-run_fiber, after_pick-IsSafe, round-Goes}
use cpp_wb_server.Scheduler.Work.{
  work, cb_size, queue_size, target_size, task_size, pick-size, total, total_above,
}
use cpp_wb_server.Scheduler.Ends.{IsEnding, run_fiber-Lowers}
use cpp_wb_server.Scheduler.Finish.{run_cb-Lowers, run_idle-Lowers}

-- The round goes on in such a state, with less work than `n`.
abbrev pub Below : ℕ → Locals × Scheduler → Type 0
Below n (l, s) = IsEnding l s × (work s + 1 ≤ n)

OnContinue-Below :
    (m n : ℕ) (r : Option (Locals × Scheduler))
    → m ≤ n
    → OnContinue (Below m) r
    → OnContinue (Below n) r
OnContinue-Below m n none h b = tt
OnContinue-Below m n (some (l, s)) h b = (b.0, omega (arith, b.1, h))

idle_task-Below :
    (l : Locals) (s : Scheduler)
    → IsEnding l s
    → (r : Option (Locals × Scheduler)) × (idle_task l s ≡ ok r) × OnContinue (Below (work s)) r
unfolding idle_task
idle_task-Below l s i = let (r, e, b) = run_idle-Lowers l s i in (with_locals l r, rw e, go r b)
  where
    go :
        (r : Option Scheduler)
        → OnContinue (λ s'. IsEnding l s' × (work s' + 1 ≤ work s)) r
        → OnContinue (Below (work s)) (with_locals l r)
    go none b = unfold with_locals in tt
    go (some s') b = unfold with_locals in b

run_target-Below :
    (t : Target) (l : Locals) (s : Scheduler)
    → IsEnding l s
    → (r : Option (Locals × Scheduler)) × (run_target t l s ≡ ok r)
      × OnContinue (Below (work s + target_size t)) r
unfolding run_target
run_target-Below (of_cb c) l s i =
    let (r, e, b) = run_cb-Lowers c l s i in
    (some (record l { cb_fiber = r.0 }, r.1), rw e, (b.0, omega (arith, b.1)))
run_target-Below (of_fiber f) l s i = elim (Bool-cases (is_over (s.fibers f).state)) [
  | inl o ↦
      let (r, e, b) = idle_task-Below l s i in
      (r, rw o e, OnContinue-Below (work s) (work s + 1) r (omega arith) b)
  | inr o ↦
      let (s', e, b) = run_fiber-Lowers f l s i o in
      (
        some (l, s'),
        run_target-run_fiber f l s o ∙ ap (λ r. r >>= λ s''. ok (some (l, s''))) e,
        (b.0, omega (arith, b.1)),
      )
]

run_task-Below :
    (t : Option Task) (l : Locals) (s : Scheduler)
    → IsEnding l s
    → (r : Option (Locals × Scheduler)) × (run_task t l s ≡ ok r)
      × OnContinue (Below (work s + task_size t)) r
unfolding run_task
run_task-Below none l s i =
    let (r, e, b) = idle_task-Below l s i in
    (r, e, OnContinue-Below (work s) (work s + 0) r (omega arith) b)
run_task-Below (some t) l s i = run_target-Below t.target l s i

after_pick-IsEnding :
    (p : Picked) (l : Locals) (s : Scheduler)
    → IsEnding l s
    → IsEnding l (after_pick p s)
      × (work (after_pick p s) ≡ queue_size p.rest + total s.next s.fibers)
unfolding after_pick
after_pick-IsEnding p l s i =
    let q : Scheduler = record s { queue = p.rest } in
    let j : IsSafe l q = record {
      calm = i.safe.calm;
      cb_free = i.safe.cb_free;
      idle_below = i.safe.idle_below;
      idle_ok = i.safe.idle_ok;
    } in
    if_cases
      (λ (s' : Scheduler). IsEnding l s' × (work s' ≡ queue_size p.rest + total s.next s.fibers))
      p.tickle_me
      (
        record {
          safe = record {
            calm = i.safe.calm;
            cb_free = i.safe.cb_free;
            idle_below = i.safe.idle_below;
            idle_ok = i.safe.idle_ok;
          };
          cb_below = i.cb_below;
          blank = i.blank;
        },
        refl,
      )
      (record { safe = j; cb_below = i.cb_below; blank = i.blank }, refl)

round-Below :
    (me : ℕ) (l : Locals) (s : Scheduler)
    → IsEnding l s
    → (r : Option (Locals × Scheduler)) × (round me l s ≡ ok r) × OnContinue (Below (work s)) r
unfolding round
round-Below me l s i =
    let p : Picked = pick me s.fibers s.queue in
    let (j, w) = after_pick-IsEnding p l s i in
    let (r, e, b) = run_task-Below p.task l (after_pick p s) j in
    (
      r,
      e,
      OnContinue-Below (work (after_pick p s) + task_size p.task) (work s) r
          (omega (arith, w, pick-size me s.fibers s.queue)) b,
    )

-- The call comes back with every fiber calm, and with the count of running threads as in `s`.
abbrev pub Returns : Scheduler → Result Scheduler → Type 0
Returns s r =
    (s' : Scheduler) × (r ≡ ok s')
    × ((f : ℕ) → IsCalm (s'.fibers f))
    × (s'.active_thread_count ≡ s.active_thread_count)

loop-Returns-round :
    (fuel me : ℕ) (l : Locals) (s : Scheduler) (r : Option (Locals × Scheduler))
    → round me l s ≡ ok r
    → IsEnding l s
    → ((l' : Locals) (s' : Scheduler) → r ≡ some (l', s') → Returns s (loop fuel me l' s'))
    → Returns s (loop (suc fuel) me l s)
unfolding loop
loop-Returns-round fuel me l s none e i rest =
    let p : Picked = pick me s.fibers s.queue in
    let (j, a) = after_pick-IsSafe p l s i.safe in (after_pick p s, rw e, j.calm, a)
loop-Returns-round fuel me l s (some (l', s')) e i rest = rw e (rest l' s' refl)

loop-Returns :
    (fuel me : ℕ) (l : Locals) (s : Scheduler)
    → work s < fuel
    → IsEnding l s
    → Returns s (loop fuel me l s)
loop-Returns zero me l s h i = absurd (omega (arith, h))
loop-Returns (suc fuel) me l s h i =
    let (r, e, b) = round-Below me l s i in
    let (r', e', g) = round-Goes me l s i.safe in
    loop-Returns-round fuel me l s r e i (λ l' s' q.
      let (j, w) : Below (work s) (l', s') = subst (OnContinue (Below (work s))) q b in
      let (_, a) : Goes s (l', s') = subst (OnContinue (Goes s)) (ok-inj (sym e' ∙ e) ∙ q) g in
      let (s'', e'', c, k) = loop-Returns fuel me l' s' (omega (arith, w, h)) j in
      (s'', e'', c, k ∙ a))

-- From a state in which no fiber runs, each has its stack, and the addresses that are not given out
-- yet hold fibers that are over: whatever finite functions the fibers and the queue hold, `run`
-- meets no failed assertion and returns, after at most two rounds more than there is work, which is
-- the steps of all functions and the tasks in the queue. No fiber is left running, and the
-- count of running threads is what it was.
pub run-Returns :
    (me : ℕ) (s : Scheduler)
    → ((f : ℕ) → IsCalm (s.fibers f))
    → ((k : ℕ) → s.next ≤ k → is_over (s.fibers k).state ≡ true)
    → Returns s (run (work s + 2) me s)
unfolding run new_fiber
run-Returns me s calm blank =
    let x : Fiber = Fiber.new done in
    let s₁ : Scheduler = new_fiber done s in
    let same = update_self s.fibers s.next x in
    loop-Returns (work s + 2) me (record { idle_fiber = s.next; cb_fiber = none }) s₁
      (omega (
        arith,
        total_above s.next s.next s.fibers x (omega arith),
        ap (λ (y : Fiber). cb_size y.cb) same,
      ))
      (record {
        safe = record {
          calm = λ g.
              update_cases IsCalm s.fibers s.next g x (λ e. (unfold is_exec in refl, refl))
                (λ ne. calm g);
          cb_free = inl refl;
          idle_below = omega arith;
          idle_ok = inr (
            ap (λ (y : Fiber). y.cb) same,
            ap (λ (y : Fiber). is_over y.state) same ∙ unfold is_over in refl,
          );
        };
        cb_below = λ f h. absurd (ground (arith, h));
        blank = λ k h.
            ap (λ (y : Fiber). is_over y.state)
              (update_ne s.fibers s.next k x (λ e. absurd (omega (arith, e, h))))
            ∙ blank k (omega (arith, h));
      })
