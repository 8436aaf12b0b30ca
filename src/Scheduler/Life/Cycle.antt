-- ===== src/Scheduler/Life/Cycle.antt =====
-- A scheduler on its caller's thread (wb_server/scheduler.cc), from its constructor to its destructor.
use cpp_wb_server.Common.{
  ℕ, ◌+◌, ◌≡◌, ◌≤◌, refl, ap, sym, subst, ◌∙◌, true, false, List, [], ◌∷◌, some, arith,
  update_cases, update_ne,
}
use cpp_wb_server.Log.World.{ok, fault}
use cpp_wb_server.Fiber.{Fiber, State, initial, term, is_over, is_exec, is_term, is_initial}
use cpp_wb_server.Fiber
use cpp_wb_server.Scheduler.{Scheduler, scheduler, new_fiber, is_nil, stopping}
use cpp_wb_server.Scheduler.Safety.{IsCalm, SameFibers, scheduler-SameFibers}
use cpp_wb_server.Scheduler.Work.{work}
use cpp_wb_server.Scheduler.Returns.{run-Returns}
use cpp_wb_server.Scheduler.Life.{
  nobody, this_one, Life, members, construct, start, stop, destruct, Call, makes, schedules, calls,
  with_calls,
}
use cpp_wb_server.Scheduler.Life.Threads.{calls-SameSetting}
use cpp_wb_server.Scheduler.Life.Stopping.{stop-Stopped}
use cpp_wb_server.Scheduler.Life.Starting.{start-alone, call_root-initial, start-over}

-- No fiber runs, and the addresses that are not given out hold fibers that are over.
record IsReady (s : Scheduler) : Type 0 where
  calm : (f : ℕ) → IsCalm (s.fibers f)
  blank : (k : ℕ) → s.next ≤ k → is_over (s.fibers k).state ≡ true

scheduler-IsReady : {s s' : Scheduler} → SameFibers s s' → IsReady s → IsReady s'
scheduler-IsReady {s} {s'} k i = record {
  calm = λ f. subst (λ fs. IsCalm (fs f)) (sym k.fibers_same) (i.calm f);
  blank = λ j h. ap (λ fs. is_over (fs j).state) k.fibers_same ∙ i.blank j (rw (sym k.next_same) h);
}

calls-IsReady : (cs : List Call) (s : Scheduler) → IsReady s → IsReady (calls cs s)
unfolding calls new_fiber
calls-IsReady [] s i = i
calls-IsReady (schedules t n ∷ cs) s i =
    calls-IsReady cs (scheduler t n s) (scheduler-IsReady (scheduler-SameFibers t n s) i)
calls-IsReady (makes c ∷ cs) s i = calls-IsReady cs (new_fiber c s) (record {
  calm = λ f.
      update_cases IsCalm s.fibers s.next f (Fiber.new c) (λ e. (unfold is_exec in refl, refl))
        (λ ne. i.calm f);
  blank = λ k h.
      ap (λ (x : Fiber). is_over x.state)
        (update_ne s.fibers s.next k (Fiber.new c) (λ e. absurd (omega (arith, e, h))))
      ∙ i.blank k (omega (arith, h));
})

members-IsReady : (n : ℕ) → IsReady (members n)
unfolding is_over is_exec
members-IsReady n = record { calm = λ f. (refl, refl); blank = λ k h. refl }

-- The scheduler that is constructed for its caller alone.
abbrev pub alone : ℕ → Life
alone me = record {
  inner = members 0;
  threads = [];
  thread_ids = me ∷ [];
  root = some initial;
  root_thread = some me;
  current = this_one;
}

-- A scheduler for its caller's thread alone: whatever fibers and callbacks it is given, all finite,
-- `start` with fuel for their work returns, with the root fiber in TERM and no other one running;
-- `stop` returns then, with `m_stoping` and `m_auto_stop` set and the queue as it was, and
-- `stopping` answers whether the queue is empty; the destructor passes its assertion and leaves
-- `t_scheduler` null. A second `start` fails.
pub construct-cycle :
    (me : ℕ) (id : ℕ → ℕ) (cs : List Call)
    → (l₀ l₁ l₂ : Life) × (construct 1 true me nobody ≡ ok l₀)
      × (start (work (calls cs l₀.inner) + 2) me id (with_calls cs l₀) ≡ ok l₁)
      × (stop l₁ ≡ ok l₂)
      × (l₁.root ≡ some term)
      × ((f : ℕ) → IsCalm (l₁.inner.fibers f))
      × (l₂.inner.stoping ≡ true)
      × (l₂.inner.auto_stop ≡ true)
      × (l₂.inner.queue ≡ l₁.inner.queue)
      × (stopping l₂.inner ≡ is_nil l₂.inner.queue)
      × (destruct l₂ ≡ ok nobody)
      × ((fuel : ℕ) → start fuel me id l₂ ≡ fault)
unfolding construct
construct-cycle me id cs =
    let l₀ : Life = alone me in
    let l : Life = with_calls cs l₀ in
    let k = calls-SameSetting cs l₀.inner in
    let i : IsReady l.inner = calls-IsReady cs (members 0) (members-IsReady 0) in
    let (s, e, c, a) = run-Returns me (record l.inner { stoping = false }) i.calm i.blank in
    let l₁ : Life = record l { inner = s; root = some term; current = this_one } in
    let (l₂, q, p) = stop-Stopped me l₁ refl refl in
    (
      l₀,
      l₁,
      l₂,
      refl,
      start-alone (work (calls cs l₀.inner) + 2) me id l k.stoping_same refl k.threads_same
          ∙ call_root-initial (work (calls cs l₀.inner) + 2) me
              (record l { inner = record l.inner { stoping = false } }) s refl e,
      q,
      refl,
      c,
      p.stopped,
      p.auto,
      p.queue_kept,
      stopping-Stopped l₂ p.stopped p.auto (p.active_kept ∙ a ∙ k.active_same),
      destruct-Stopped l₂ p.stopped p.current_kept,
      λ fuel.
          start-over fuel me l₂.inner.thread_count id l₂ p.stopped p.threads_kept p.root_kept refl,
    )
  where
    stopping-Stopped :
        (l : Life)
        → l.inner.stoping ≡ true
        → l.inner.auto_stop ≡ true
        → l.inner.active_thread_count ≡ 0
        → stopping l.inner ≡ is_nil l.inner.queue
    stopping-Stopped l st au ac = unfold stopping in ground (arith, st, au, ac)

    destruct-Stopped :
        (l : Life) → l.inner.stoping ≡ true → l.current ≡ this_one → destruct l ≡ ok nobody
    destruct-Stopped l st c = unfold destruct in ground (arith, st, c)
