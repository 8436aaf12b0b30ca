-- ===== src/Scheduler/Work.antt =====
-- The work that the fibers and the queue of wb_server/scheduler.cc hold, and what a switch does of it.
use cpp_wb_server.Common.{==_iff, ◌==◌}
use cpp_wb_server.Scheduler.Safety.{scheduler-SameFibers}
use cpp_wb_server.Common.{
  ℕ, zero, suc, ◌+◌, ◌≡◌, ◌≢◌, ◌≤◌, ◌<◌, refl, sym, ap, subst, inl, inr, false, List, [], ◌∷◌, ◌++◌,
  Option, none, some, if_cases, update, update_self, update_ne, arith, Bool-cases,
}
use cpp_wb_server.Log.World.{ok}
use cpp_wb_server.Fiber.{
  is_over, Fiber, exec, failed, Code, done, throws, say, yield_to_ready, yield_to_hold,
  schedule_fiber, schedule_cb, is_exec,
}
use cpp_wb_server.Scheduler.{
  Target, of_fiber, of_cb, Task, Scheduler, Picked, put_fiber, is_nil, scheduler, run_code, call_cb,
  swap_in, pick, other_thread, is_running,
}

-- The steps of a function, with those of the callbacks that it schedules.
abbrev pub size : Code → ℕ
size done = 1
size throws = 1
size (say n c) = size c + 1
size (yield_to_ready c) = size c + 1
size (yield_to_hold c) = size c + 1
size (schedule_fiber g t c) = size c + 2
size (schedule_cb d t c) = size d + size c + 2

abbrev pub cb_size : Option Code → ℕ
cb_size none = 0
cb_size (some c) = size c

abbrev pub target_size : Target → ℕ
target_size (of_fiber f) = 1
target_size (of_cb c) = size c + 1

abbrev pub queue_size : List Task → ℕ
queue_size [] = 0
queue_size (t ∷ ts) = target_size t.target + queue_size ts

-- What the first `n` fibers have to do.
abbrev pub total : ℕ → (ℕ → Fiber) → ℕ
total zero fs = 0
total (suc n) fs = cb_size (fs n).cb + total n fs

abbrev pub work : Scheduler → ℕ
work s = queue_size s.queue + total s.next s.fibers

queue_size-snoc :
    (q : List Task) (t : Task) → queue_size (q ++ t ∷ []) ≡ queue_size q + target_size t.target
queue_size-snoc [] t = omega arith
queue_size-snoc (u ∷ q) t = omega (arith, queue_size-snoc q t)

pub total_above :
    (n f : ℕ) (fs : ℕ → Fiber) (x : Fiber) → n ≤ f → total n (update fs f x) ≡ total n fs
total_above zero f fs x h = refl
total_above (suc n) f fs x h =
    let rest = total_above n f fs x (omega (arith, h)) in
    let same = update_ne fs f n x (λ e. absurd (omega (arith, e, h))) in
    omega (arith, rest, ap (λ (y : Fiber). cb_size y.cb) same)

pub total_at :
    (n f : ℕ) (fs : ℕ → Fiber) (x : Fiber)
    → f < n
    → total n (update fs f x) + cb_size (fs f).cb ≡ total n fs + cb_size x.cb
total_at zero f fs x h = absurd (omega (arith, h))
total_at (suc n) f fs x h = elim (Bool-cases (f == n)) [
  | inl e ↦
      let same : f ≡ n = (==_iff f n).0 e in
      subst
        (λ k. total (suc n) (update fs k x) + cb_size (fs k).cb ≡ total (suc n) fs + cb_size x.cb)
        (sym same)
        (omega (
          arith,
          total_above n n fs x (omega arith),
          ap (λ (y : Fiber). cb_size y.cb) (update_self fs n x),
        ))
  | inr e ↦
      let apart : f ≢ n = λ q. absurd (ground (arith, e, (==_iff f n).1 q)) in
      omega (
        arith,
        total_at n f fs x (omega (arith, h, apart)),
        ap (λ (y : Fiber). cb_size y.cb) (update_ne fs f n x apart),
      )
]

pub put_fiber-work :
    (f : ℕ) (x : Fiber) (s : Scheduler)
    → f < s.next
    → work (put_fiber f x s) + cb_size (s.fibers f).cb ≡ work s + cb_size x.cb
put_fiber-work f x s h = omega (arith, total_at s.next f s.fibers x h)

pub scheduler-work :
    (t : Target) (n : Option ℕ) (s : Scheduler) → work (scheduler t n s) ≡ work s + target_size t
unfolding scheduler
scheduler-work t n s =
    let q = queue_size-snoc s.queue (record { target = t; thread = n }) in
    if_cases (λ (s' : Scheduler). work s' ≡ work s + target_size t) (is_nil s.queue)
      (omega (arith, q)) (omega (arith, q))

scheduler-at :
    (t : Target) (n : Option ℕ) (s : Scheduler)
    → ((scheduler t n s).fibers ≡ s.fibers) × ((scheduler t n s).next ≡ s.next)
scheduler-at t n s = let k = scheduler-SameFibers t n s in (k.fibers_same, k.next_same)

run_code-work :
    (f : ℕ) (c : Code) (s : Scheduler)
    → f < s.next
    → work (run_code f c s) + cb_size (s.fibers f).cb + 1 ≤ work s + size c
unfolding run_code
run_code-work f done s h = omega (arith, put_fiber-work f _ s h)
run_code-work f throws s h = omega (arith, put_fiber-work f _ s h)
run_code-work f (say n c) s h =
    omega (arith, run_code-work f c (record s { said = s.said ++ n ∷ [] }) h)
run_code-work f (yield_to_ready c) s h = omega (arith, put_fiber-work f _ s h)
run_code-work f (yield_to_hold c) s h = omega (arith, put_fiber-work f _ s h)
run_code-work f (schedule_fiber g t c) s h =
    let (fs, n) = scheduler-at (of_fiber g) t s in
    let rest = run_code-work f c (scheduler (of_fiber g) t s) (rw n h) in
    omega
      (arith, rest, scheduler-work (of_fiber g) t s, ap (λ (k : ℕ → Fiber). cb_size (k f).cb) fs)
run_code-work f (schedule_cb d t c) s h =
    let (fs, n) = scheduler-at (of_cb d) t s in
    let rest = run_code-work f c (scheduler (of_cb d) t s) (rw n h) in
    omega (arith, rest, scheduler-work (of_cb d) t s, ap (λ (k : ℕ → Fiber). cb_size (k f).cb) fs)

-- One step if there is a function.
abbrev pub hit : Option Code → ℕ
hit none = 0
hit (some c) = 1

call_cb-work :
    (f : ℕ) (cb : Option Code) (s : Scheduler)
    → f < s.next
    → (s.fibers f).cb ≡ cb
    → work (call_cb f cb s) + hit cb ≤ work s
unfolding call_cb
call_cb-work f none s h e =
    omega (arith, put_fiber-work f (record (s.fibers f) { state = failed }) s h)
call_cb-work f (some c) s h e =
    let x : Fiber = record (s.fibers f) { state = exec } in
    let run = run_code-work f c (put_fiber f x s) h in
    let put = put_fiber-work f x s h in
    let old = ap cb_size e in
    let new = ap (λ (y : Fiber). cb_size y.cb) (update_self s.fibers f x) in
    omega (arith, run, put, old, new)

-- A switch does one step at least, if there is a function to run.
pub swap_in-work :
    (f : ℕ) (s : Scheduler)
    → f < s.next
    → is_exec (s.fibers f).state ≡ false
    → is_over (s.fibers f).state ≡ false
    → (s' : Scheduler) × (swap_in f s ≡ ok s') × (work s' + hit (s.fibers f).cb ≤ work s)
unfolding swap_in
swap_in-work f s h e o =
    (call_cb f (s.fibers f).cb s, rw (e, o), call_cb-work f (s.fibers f).cb s h refl)

abbrev pub task_size : Option Task → ℕ
task_size none = 0
task_size (some t) = target_size t.target

pub pick-size :
    (me : ℕ) (fs : ℕ → Fiber) (q : List Task)
    → queue_size (pick me fs q).rest + task_size (pick me fs q).task ≡ queue_size q
unfolding pick
pick-size me fs [] = refl
pick-size me fs (t ∷ ts) =
    let rest = pick-size me fs ts in
    if_cases (λ (p : Picked). queue_size p.rest + task_size p.task ≡ queue_size (t ∷ ts))
      (other_thread me t.thread) (omega (arith, rest))
      (if_cases (λ (p : Picked). queue_size p.rest + task_size p.task ≡ queue_size (t ∷ ts))
        (is_running fs t.target) (omega (arith, rest)) (omega arith))
