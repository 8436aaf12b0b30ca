-- ===== src/Scheduler/Life/Stopping.antt =====
-- `Scheduler::stop` of wb_server/scheduler.cc on the thread of the scheduler.
use cpp_wb_server.Common.{
  ℕ, zero, suc, ◌≡◌, refl, ap, ◌∙◌, true, Option, none, some, Bool-cases, inl, inr, ◌==◌, ◌&&◌,
}
use cpp_wb_server.Log.World.{ok}
use cpp_wb_server.Fiber.{State}
use cpp_wb_server.Scheduler.{Scheduler, tickel, stopping}
use cpp_wb_server.Scheduler.Life.{
  this_one, is_this, is_caller, tickel_root, Life, tickel_times, stop_rest, stop, root_rests,
}

-- What `stop` leaves of the life `l`.
pub record Stopped (l l' : Life) : Type 0 where
  pub stopped : l'.inner.stoping ≡ true
  pub auto : l'.inner.auto_stop ≡ true
  pub root_kept : l'.root ≡ l.root
  pub threads_kept : l'.threads ≡ l.threads
  pub current_kept : l'.current ≡ l.current
  pub queue_kept : l'.inner.queue ≡ l.inner.queue
  pub active_kept : l'.inner.active_thread_count ≡ l.inner.active_thread_count

record Ticked (s s' : Scheduler) : Type 0 where
  stoping_same : s'.stoping ≡ s.stoping
  auto_same : s'.auto_stop ≡ s.auto_stop
  queue_same : s'.queue ≡ s.queue
  active_same : s'.active_thread_count ≡ s.active_thread_count

tickel_times-Ticked : (n : ℕ) (s : Scheduler) → Ticked s (tickel_times n s)
unfolding tickel_times
tickel_times-Ticked zero s = record {
  stoping_same = refl;
  auto_same = refl;
  queue_same = refl;
  active_same = refl;
}
tickel_times-Ticked (suc n) s =
    let i = tickel_times-Ticked n (tickel s) in
    record {
      stoping_same = i.stoping_same;
      auto_same = i.auto_same;
      queue_same = i.queue_same;
      active_same = i.active_same;
    }

tickel_root-Ticked : (o : Option State) (s : Scheduler) → Ticked s (tickel_root o s)
tickel_root-Ticked none s = record {
  stoping_same = refl;
  auto_same = refl;
  queue_same = refl;
  active_same = refl;
}
tickel_root-Ticked (some st) s = record {
  stoping_same = refl;
  auto_same = refl;
  queue_same = refl;
  active_same = refl;
}

stop_rest-Stopped :
    (me : ℕ) (l : Life)
    → l.root_thread ≡ some me
    → l.current ≡ this_one
    → l.inner.auto_stop ≡ true
    → (l' : Life) × (stop_rest l ≡ ok l') × Stopped l l'
unfolding stop_rest
stop_rest-Stopped me l r c a =
    let s : Scheduler = record l.inner { stoping = true } in
    let s' : Scheduler = tickel_times s.thread_count s in
    let t = tickel_times-Ticked s.thread_count s in
    let u = tickel_root-Ticked l.root s' in
    let g : is_caller l.root_thread l.current ≡ true =
      ap (λ o. is_caller o l.current) r ∙ ap is_this c in
    (
      record l { inner = tickel_root l.root s' },
      rw g,
      record {
        stopped = u.stoping_same ∙ t.stoping_same;
        auto = u.auto_same ∙ t.auto_same ∙ a;
        root_kept = refl;
        threads_kept = refl;
        current_kept = refl;
        queue_kept = u.queue_same ∙ t.queue_same;
        active_kept = u.active_same ∙ t.active_same;
      },
    )

pub stop-Stopped :
    (me : ℕ) (l : Life)
    → l.root_thread ≡ some me
    → l.current ≡ this_one
    → (l' : Life) × (stop l ≡ ok l') × Stopped l l'
unfolding stop
stop-Stopped me l r c =
    let s : Scheduler = record l.inner { auto_stop = true } in
    let l₁ : Life = record l { inner = record s { stoping = true } } in
    elim (Bool-cases (root_rests l.root && s.thread_count == 0)) [
      | inl h ↦ elim (Bool-cases (stopping l₁.inner)) [
        | inl e ↦ (
          l₁,
          rw (h, e),
          record {
            stopped = refl;
            auto = refl;
            root_kept = refl;
            threads_kept = refl;
            current_kept = refl;
            queue_kept = refl;
            active_kept = refl;
          },
        )
        | inr e ↦
            let (l', q, k) = stop_rest-Stopped me l₁ r c refl in
            (
              l',
              rw (h, e) q,
              record {
                stopped = k.stopped;
                auto = k.auto;
                root_kept = k.root_kept;
                threads_kept = k.threads_kept;
                current_kept = k.current_kept;
                queue_kept = k.queue_kept;
                active_kept = k.active_kept;
              },
            )
      ]
      | inr h ↦
          let (l', q, k) = stop_rest-Stopped me (record l { inner = s }) r c refl in
          (
            l',
            rw h q,
            record {
              stopped = k.stopped;
              auto = k.auto;
              root_kept = k.root_kept;
              threads_kept = k.threads_kept;
              current_kept = k.current_kept;
              queue_kept = k.queue_kept;
              active_kept = k.active_kept;
            },
          )
    ]
