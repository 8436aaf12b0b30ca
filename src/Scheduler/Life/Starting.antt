-- ===== src/Scheduler/Life/Starting.antt =====
-- `Scheduler::start` of wb_server/scheduler.cc, and the root fiber it calls.
use cpp_wb_server.Common.{
  ℕ, zero, suc, ◌≡◌, ap, ◌∙◌, Bool, true, false, List, [], none, some, arith, not, if◌then◌else◌,
}
use cpp_wb_server.Log.World.{Result, ok, fault, ◌>>=◌}
use cpp_wb_server.Fiber.{initial, term, is_initial}
use cpp_wb_server.Scheduler.{Scheduler, run}
use cpp_wb_server.Scheduler.Life
use cpp_wb_server.Scheduler.Life.{
  Current, nobody, this_one, is_this, is_caller, tickel_root, Life, members, construct,
  start_threads, call_root, start, tickel_times, stop_rest, stop, destruct, Call, makes, schedules,
  calls, with_calls, root_rests,
}
use cpp_wb_server.Scheduler.Life.Threads.{start_threads-fault}

-- `start` on a life with no threads of its own that has stopped.
start-opens :
    (fuel me n : ℕ) (id : ℕ → ℕ) (l : Life)
    → l.inner.stoping ≡ true
    → l.threads ≡ []
    → l.inner.thread_count ≡ n
    → start fuel me id l ≡ (
        start_threads id 0 n (record l { inner = record l.inner { stoping = false } })
        >>= call_root fuel me)
unfolding start
start-opens fuel me n id l st th tc =
    ap (λ b. begin b l.threads l.inner.thread_count) st
    ∙ ap (λ ts. begin true ts l.inner.thread_count) th
    ∙ ap (λ k. begin true [] k) tc
  where
    begin : Bool → List ℕ → ℕ → Result Life
    begin b ts k =
        if not b
        then ok l
        else if Life.is_nil ts
        then (start_threads id 0 k (record l { inner = record l.inner { stoping = false } })
            >>= call_root fuel me)
        else fault

pub start-alone :
    (fuel me : ℕ) (id : ℕ → ℕ) (l : Life)
    → l.inner.stoping ≡ true
    → l.threads ≡ []
    → l.inner.thread_count ≡ 0
    → start fuel me id l
      ≡ call_root fuel me (record l { inner = record l.inner { stoping = false } })
unfolding start_threads
start-alone fuel me id l st th tc = start-opens fuel me 0 id l st th tc

pub call_root-initial :
    (fuel me : ℕ) (l : Life) (s : Scheduler)
    → l.root ≡ some initial
    → run fuel me l.inner ≡ ok s
    → call_root fuel me l ≡ ok (record l { inner = s; root = some term; current = this_one })
unfolding call_root
call_root-initial fuel me l s r e =
    ap
      (λ o. elim o as (λ x. Result Life) [
        | none ↦ ok l
        | some st ↦
            if is_initial st
            then (run fuel me l.inner >>= λ s'.
                ok (record l { inner = s'; root = some term; current = this_one }))
            else fault
      ])
      r
    ∙ ap (λ o. o >>= λ s'. ok (record l { inner = s'; root = some term; current = this_one })) e

call_root-term : (fuel me : ℕ) (l : Life) → l.root ≡ some term → call_root fuel me l ≡ fault
unfolding call_root
call_root-term fuel me l r = ground (arith, r)

pub start-over :
    (fuel me n : ℕ) (id : ℕ → ℕ) (l : Life)
    → l.inner.stoping ≡ true
    → l.threads ≡ []
    → l.root ≡ some term
    → l.inner.thread_count ≡ n
    → start fuel me id l ≡ fault
start-over fuel me zero id l st th r tc =
    start-alone fuel me id l st th tc
    ∙ call_root-term fuel me (record l { inner = record l.inner { stoping = false } }) r
start-over fuel me (suc n) id l st th r tc =
    start-opens fuel me (suc n) id l st th tc
    ∙ ap (λ o. o >>= call_root fuel me)
        (start_threads-fault id (suc n) (record l { inner = record l.inner { stoping = false } })
          (omega arith) th)
