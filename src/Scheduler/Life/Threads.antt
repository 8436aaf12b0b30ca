-- ===== src/Scheduler/Life/Threads.antt =====
-- `start` of a scheduler (wb_server/scheduler.cc) that wants threads of its own.
use cpp_wb_server.Common.{
  ℕ, zero, suc, ◌≡◌, ◌<◌, refl, ap, Bool, true, false, List, [], ◌∷◌, arith, length,
}
use cpp_wb_server.Log.World.{ok, fault}
use cpp_wb_server.Scheduler.{Scheduler, scheduler, new_fiber}
use cpp_wb_server.Scheduler.Life.{
  Current, Life, construct, start_threads, start, Call, makes, schedules, calls, with_calls,
}

-- What a call leaves of the members that `start` and `stop` read.
pub record SameSetting (s s' : Scheduler) : Type 0 where
  pub stoping_same : s'.stoping ≡ s.stoping
  pub threads_same : s'.thread_count ≡ s.thread_count
  pub auto_same : s'.auto_stop ≡ s.auto_stop
  pub active_same : s'.active_thread_count ≡ s.active_thread_count

pub calls-SameSetting : (cs : List Call) (s : Scheduler) → SameSetting s (calls cs s)
unfolding calls scheduler new_fiber
calls-SameSetting [] s = record {
  stoping_same = refl;
  threads_same = refl;
  auto_same = refl;
  active_same = refl;
}
calls-SameSetting (makes c ∷ cs) s =
    let i = calls-SameSetting cs (new_fiber c s) in
    record {
      stoping_same = i.stoping_same;
      threads_same = i.threads_same;
      auto_same = i.auto_same;
      active_same = i.active_same;
    }
calls-SameSetting (schedules t n ∷ cs) s = ground (arith, calls-SameSetting cs (scheduler t n s))

construct-threads :
    (n : ℕ) (use_caller : Bool) (me : ℕ) (c : Current) (l : Life)
    → construct n use_caller me c ≡ ok l
    → (l.threads ≡ []) × (l.inner.stoping ≡ true)
unfolding construct
construct-threads zero b me c l h = absurd (ground (arith, h))
construct-threads (suc n) true me c l h = ground (arith, h)
construct-threads (suc n) false me c l h = ground (arith, h)

pub start_threads-fault :
    (id : ℕ → ℕ) (n : ℕ) (l : Life) → 0 < n → l.threads ≡ [] → start_threads id 0 n l ≡ fault
unfolding start_threads
start_threads-fault id zero l h e = absurd (omega (arith, h))
start_threads-fault id (suc n) l h e = ground (arith, ap length e)

-- A scheduler that is constructed for threads of its own, more than the caller's: whatever fibers and
-- callbacks it is given, `start` indexes the empty `m_threads`.
pub start-construct :
    (fuel n : ℕ) (use_caller : Bool) (me : ℕ) (c : Current) (id : ℕ → ℕ) (cs : List Call) (l : Life)
    → construct n use_caller me c ≡ ok l
    → 0 < l.inner.thread_count
    → start fuel me id (with_calls cs l) ≡ fault
unfolding start
start-construct fuel n b me c id cs l h p =
    let (t, s) = construct-threads n b me c l h in
    let k = calls-SameSetting cs l.inner in
    let l₁ : Life = record (with_calls cs l) {
      inner = record (calls cs l.inner) { stoping = false };
    } in
    let f : start_threads id 0 (calls cs l.inner).thread_count l₁ ≡ fault =
      start_threads-fault id (calls cs l.inner).thread_count l₁ (omega (arith, p, k.threads_same))
        t in
    ground (arith, k.stoping_same, s, t, f)
