-- ===== src/Scheduler/Idle.antt =====
-- The fiber of `Scheduler::idle` in wb_server/scheduler.cc: it ends at its first switch.
use cpp_wb_server.Common.{
  ℕ, ◌+◌, ◌-◌, ◌≡◌, refl, ap, ◌∙◌, ◌⊎◌, inl, inr, true, false, Option, none, some, update_self,
  arith, Bool-cases,
}
use cpp_wb_server.Log.World.{ok}
use cpp_wb_server.Fiber.{Fiber, State, exec, term, done, is_exec, is_over, is_term, is_ready}
use cpp_wb_server.Scheduler.{
  Scheduler, put_fiber, set_state, call_cb, run_code, swap_in, swap_active, run_fiber, run_idle,
}
use cpp_wb_server.Scheduler.Rounds.{OnContinue}

-- It has ended, or it is to run `Scheduler::idle`.
abbrev pub IsIdle : Fiber → Type 0
IsIdle x = (is_term x.state ≡ true) ⊎ ((x.cb ≡ some done) × (is_over x.state ≡ false))

pub term-over : (st : State) → is_term st ≡ true → (is_over st ≡ true) × (is_ready st ≡ false)
unfolding is_term is_over is_ready
term-over st h = ground (arith, h)

pub swap_in-done :
    (f : ℕ) (s : Scheduler)
    → is_exec (s.fibers f).state ≡ false
    → is_over (s.fibers f).state ≡ false
    → (s.fibers f).cb ≡ some done
    → (s' : Scheduler) × (swap_in f s ≡ ok s') × (is_term (s'.fibers f).state ≡ true)
unfolding swap_in call_cb run_code
swap_in-done f s e o h =
    let s₁ : Scheduler = set_state f exec s in
    let x : Fiber = record (s₁.fibers f) { cb = none; state = term } in
    (
      put_fiber f x s₁,
      rw (e, o) (ap (λ cb. ok (call_cb f cb s)) h),
      ap (λ (y : Fiber). is_term y.state) (update_self s₁.fibers f x) ∙ unfold is_term in refl,
    )

pub run_fiber-done :
    (f : ℕ) (s : Scheduler)
    → is_exec (s.fibers f).state ≡ false
    → is_over (s.fibers f).state ≡ false
    → (s.fibers f).cb ≡ some done
    → (s' : Scheduler) × (run_fiber f s ≡ ok s') × (is_term (s'.fibers f).state ≡ true)
unfolding run_fiber swap_active
run_fiber-done f s e n h =
    let (s₁, q, t) =
      swap_in-done f (record s { active_thread_count = s.active_thread_count + 1 }) e n h in
    let (o, r) = term-over (s₁.fibers f).state t in
    (record s₁ { active_thread_count = s₁.active_thread_count - 1 }, rw (q, r, o), t)

pub run_idle-done :
    (f : ℕ) (s : Scheduler)
    → is_exec (s.fibers f).state ≡ false
    → IsIdle (s.fibers f)
    → (r : Option Scheduler) × (run_idle f s ≡ ok r)
      × OnContinue (λ s'. is_term (s'.fibers f).state ≡ true) r
unfolding run_idle
run_idle-done f s e (inl t) = (none, rw t, tt)
run_idle-done f s e (inr (h, n)) = elim (Bool-cases (is_term (s.fibers f).state)) [
  | inl t ↦ (none, rw t, tt)
  | inr t ↦
      let (s₁, q, o) =
        swap_in-done f (record s { idle_thread_count = s.idle_thread_count + 1 }) e n h in
      (
        some (record s₁ { idle_thread_count = s₁.idle_thread_count - 1 }),
        rw (t, q, (term-over _ o).0),
        o,
      )
]
