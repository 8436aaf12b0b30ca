-- ===== src/Scheduler/Life/Tests.antt =====
-- The life of a scheduler at inputs.
use cpp_wb_server.Common.{ℕ, ◌+◌, ◌≡◌, refl, true, false, List, [], ◌∷◌, some, none, arith}
use cpp_wb_server.Log.World.{ok, fault}
use cpp_wb_server.Fiber.{term, done, throws, say, yield_to_ready}
use cpp_wb_server.Scheduler.{of_cb, is_nil, stopping}
use cpp_wb_server.Scheduler.Safety.{IsCalm}
use cpp_wb_server.Scheduler.Work.{work}
use cpp_wb_server.Scheduler.Life.{
  nobody, Life, members, construct, start, stop, destruct, Call, schedules, calls, with_calls,
}
use cpp_wb_server.Scheduler.Life.Threads.{start-construct}
use cpp_wb_server.Scheduler.Life.Cycle.{construct-cycle}

abbrev two_calls : List Call
two_calls =
    schedules (of_cb (say 1 (yield_to_ready (say 2 done)))) none
    ∷ schedules (of_cb throws) none
    ∷ []

construct-cycle_example :
    (l₀ l₁ l₂ : Life) × (construct 1 true 7 nobody ≡ ok l₀)
    × (start (work (calls two_calls l₀.inner) + 2) 7 (λ i. i) (with_calls two_calls l₀) ≡ ok l₁)
    × (stop l₁ ≡ ok l₂)
    × (l₁.root ≡ some term)
    × ((f : ℕ) → IsCalm (l₁.inner.fibers f))
    × (l₂.inner.stoping ≡ true)
    × (l₂.inner.auto_stop ≡ true)
    × (l₂.inner.queue ≡ l₁.inner.queue)
    × (stopping l₂.inner ≡ is_nil l₂.inner.queue)
    × (destruct l₂ ≡ ok nobody)
    × ((fuel : ℕ) → start fuel 7 (λ i. i) l₂ ≡ fault)
construct-cycle_example = construct-cycle 7 (λ i. i) two_calls

abbrev with_threads : Life
with_threads = record {
  inner = members 3;
  threads = [];
  thread_ids = [];
  root = none;
  root_thread = none;
  current = nobody;
}

start-construct_example : start 9 7 (λ i. i) (with_calls two_calls with_threads) ≡ fault
unfolding construct
start-construct_example =
    start-construct 9 3 false 7 nobody (λ i. i) two_calls with_threads refl (omega arith)
