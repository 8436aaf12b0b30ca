-- ===== src/Scheduler.antt =====
-- `Scheduler` of wb_server/scheduler.h and wb_server/scheduler.cc, as one thread runs it.
pub mod Safety
pub mod Rounds
pub mod Loop
pub mod Idle
pub mod Branches
pub mod Order
pub mod Work
pub mod Ends
pub mod Returns
pub mod Finish
pub mod Ending
pub mod Life
mod Tests
pub mod Leftover
use cpp_wb_server.Common.{
  ◌&&◌, ℕ, zero, suc, ◌+◌, ◌-◌, Bool, true, false, not, ◌||◌, List, [], ◌∷◌, ◌++◌, Option, none,
  some, ◌==◌, if◌then◌else◌, update,
}
use cpp_wb_server.Log.World.{Result, ok, fault, no_fuel, ◌>>=◌}
use cpp_wb_server.Fiber
use cpp_wb_server.Fiber.{
  Fiber, State, initial, hold, exec, term, ready, failed, Code, done, throws, say, yield_to_ready,
  yield_to_hold, schedule_fiber, schedule_cb, is_exec, is_over, is_initial, is_term, is_ready,
  reset,
}

-- `FiberAndThread`.
pub data Target : Type 0 where
  of_fiber : ℕ → Target
  of_cb : Code → Target

pub record Task : Type 0 where
  pub target : Target
  pub thread : Option ℕ

-- The members, with the fibers at addresses, what the functions on them have said, and the number of
-- calls of `tickel`.
pub record Scheduler : Type 0 where
  pub fibers : ℕ → Fiber
  pub next : ℕ
  pub queue : List Task
  pub thread_count : ℕ
  pub active_thread_count : ℕ
  pub idle_thread_count : ℕ
  pub stoping : Bool
  pub auto_stop : Bool
  pub said : List ℕ
  pub tickles : ℕ

abbrev pub put_fiber : ℕ → Fiber → Scheduler → Scheduler
put_fiber f x s = record s { fibers = update s.fibers f x }

abbrev pub set_state : ℕ → State → Scheduler → Scheduler
set_state f st s = put_fiber f (record (s.fibers f) { state = st }) s

-- `new Fiber`, at `s.next`.
unfoldable pub new_fiber : Code → Scheduler → Scheduler
new_fiber cb s = record s { fibers = update s.fibers s.next (Fiber.new cb); next = suc s.next }

-- `Scheduler::tickel`.
abbrev pub tickel : Scheduler → Scheduler
tickel s = record s { tickles = suc s.tickles }

abbrev pub is_nil : List Task → Bool
is_nil [] = true
is_nil (t ∷ ts) = false

-- `scheduler_nolock`, with what it returns; a target is never null, so that test is left out.
abbrev pub scheduler_nolock : Target → Option ℕ → Scheduler → Scheduler × Bool
scheduler_nolock target thread s = (
  record s { queue = s.queue ++ record { target = target; thread = thread } ∷ [] },
  is_nil s.queue,
)

-- `Scheduler::scheduler`.
unfoldable pub scheduler : Target → Option ℕ → Scheduler → Scheduler
scheduler target thread s =
    let (s', need_tickle) = scheduler_nolock target thread s in
    if need_tickle then tickel s' else s'

-- What happens on the fiber until it is switched from: `MainFunc`, `YieldToReady`, `YeidToHold`.
unfoldable pub run_code : ℕ → Code → Scheduler → Scheduler
unfolding scheduler
run_code f done s = put_fiber f (record (s.fibers f) { cb = none; state = term }) s
run_code f throws s = put_fiber f (record (s.fibers f) { cb = none; state = failed }) s
run_code f (say n c) s = run_code f c (record s { said = s.said ++ n ∷ [] })
run_code f (yield_to_ready c) s = put_fiber f (record (s.fibers f) { cb = some c; state = ready }) s
run_code f (yield_to_hold c) s = put_fiber f (record (s.fibers f) { cb = some c; state = hold }) s
run_code f (schedule_fiber g t c) s = run_code f c (scheduler (of_fiber g) t s)
run_code f (schedule_cb d t c) s = run_code f c (scheduler (of_cb d) t s)

-- The call of `m_cb`; a null function throws.
unfoldable pub call_cb : ℕ → Option Code → Scheduler → Scheduler
unfolding run_code
call_cb f none s = set_state f failed s
call_cb f (some c) s = run_code f c (set_state f exec s)

-- `Fiber::swap_in` with its assertion, up to the switch back. On a fiber that is over the switch
-- leads behind the end of `MainFunc`, to an assertion that fails.
unfoldable pub swap_in : ℕ → Scheduler → Result Scheduler
unfolding call_cb is_exec is_over
swap_in f s =
    if is_exec (s.fibers f).state || is_over (s.fibers f).state
    then fault
    else ok (call_cb f (s.fibers f).cb s)

-- The task that the loop over the queue takes, what stays, and `tickle_me`.
pub record Picked : Type 0 where
  pub task : Option Task
  pub rest : List Task
  pub tickle_me : Bool

abbrev pub other_thread : ℕ → Option ℕ → Bool
other_thread me none = false
other_thread me (some t) = not (t == me)

abbrev pub is_running : (ℕ → Fiber) → Target → Bool
is_running fibers (of_fiber f) = is_exec (fibers f).state
is_running fibers (of_cb c) = false

unfoldable pub pick : ℕ → (ℕ → Fiber) → List Task → Picked
pick me fibers [] = record { task = none; rest = []; tickle_me = false }
pick me fibers (t ∷ ts) =
    let p = pick me fibers ts in
    if other_thread me t.thread
    then record p { rest = t ∷ p.rest; tickle_me = true }
    else if is_running fibers t.target
    then record p { rest = t ∷ p.rest }
    else record { task = some t; rest = ts; tickle_me = false }

-- The variables of `run`.
pub record Locals : Type 0 where
  pub idle_fiber : ℕ
  pub cb_fiber : Option ℕ

-- `++m_active_thread_count; swap_in(); --m_active_thread_count`.
unfoldable pub swap_active : ℕ → Scheduler → Result Scheduler
unfolding swap_in
swap_active f s = do
  s' ← swap_in f (record s { active_thread_count = s.active_thread_count + 1 })
  ok (record s' { active_thread_count = s'.active_thread_count - 1 })

-- The branch for a fiber.
unfoldable pub run_fiber : ℕ → Scheduler → Result Scheduler
unfolding swap_active scheduler is_ready is_over
run_fiber f s = do
  s' ← swap_active f s
  let st = (s'.fibers f).state
  ok (
      if is_ready st
      then scheduler (of_fiber f) none s'
      else if is_over st
      then s'
      else set_state f hold s')

-- `cb_fiber` for a callback: the old one with `reset`, or a new one.
unfoldable pub fiber_for : Option ℕ → Code → Scheduler → Result (ℕ × Scheduler)
unfolding new_fiber reset
fiber_for none c s = ok (s.next, new_fiber c s)
fiber_for (some f) c s = do x ← reset (some c) (s.fibers f); ok (f, put_fiber f x s)

-- What follows the switch back from `cb_fiber`, with its new value.
unfoldable pub after_cb : ℕ → Scheduler → Result (Option ℕ × Scheduler)
unfolding scheduler is_ready is_over reset
after_cb f s =
    if is_ready (s.fibers f).state
    then ok (none, scheduler (of_fiber f) none s)
    else if is_over (s.fibers f).state
    then (do x ← reset none (s.fibers f); ok (some f, put_fiber f x s))
    else ok (none, set_state f hold s)

-- The branch for a callback.
unfoldable pub run_cb : Option ℕ → Code → Scheduler → Result (Option ℕ × Scheduler)
unfolding fiber_for swap_active after_cb
run_cb cb_fiber c s = do r ← fiber_for cb_fiber c s; s' ← swap_active r.0 r.1; after_cb r.0 s'

-- The branch for no task; `none` is the `break`.
unfoldable pub run_idle : ℕ → Scheduler → Result (Option Scheduler)
unfolding swap_in is_term is_over
run_idle f s = if is_term (s.fibers f).state then ok none else (do
  s' ← swap_in f (record s { idle_thread_count = s.idle_thread_count + 1 })
  let s'' = record s' { idle_thread_count = s'.idle_thread_count - 1 }
  ok (some (if is_over (s''.fibers f).state then s'' else set_state f hold s'')))

unfoldable pub with_locals : Locals → Option Scheduler → Option (Locals × Scheduler)
with_locals l none = none
with_locals l (some s) = some (l, s)

-- The last branch, with the variables of `run`.
unfoldable pub idle_task : Locals → Scheduler → Result (Option (Locals × Scheduler))
unfolding run_idle with_locals
idle_task l s = do r ← run_idle l.idle_fiber s; ok (with_locals l r)

-- The three branches for what was chosen.
unfoldable pub run_target : Target → Locals → Scheduler → Result (Option (Locals × Scheduler))
unfolding run_fiber run_cb idle_task
run_target (of_cb c) l s = do
  r ← run_cb l.cb_fiber c s
  ok (some (record l { cb_fiber = r.0 }, r.1))
run_target (of_fiber f) l s =
    if is_over (s.fibers f).state then idle_task l s else (do s' ← run_fiber f s; ok (some (l, s')))

-- One round of the loop of `run` behind the choice; `none` is the `break`.
unfoldable pub run_task : Option Task → Locals → Scheduler → Result (Option (Locals × Scheduler))
unfolding run_target idle_task
run_task none l s = idle_task l s
run_task (some t) l s = run_target t.target l s

-- What the choice leaves of the queue, and the call of `tickel`.
unfoldable pub after_pick : Picked → Scheduler → Scheduler
after_pick p s = let s' = record s { queue = p.rest } in if p.tickle_me then tickel s' else s'

unfoldable pub round : ℕ → Locals → Scheduler → Result (Option (Locals × Scheduler))
unfolding pick run_task after_pick
round me l s = let p = pick me s.fibers s.queue in run_task p.task l (after_pick p s)

-- The loop of `run`; the queue that the `break` leaves stays.
unfoldable pub loop : ℕ → ℕ → Locals → Scheduler → Result Scheduler
unfolding round
loop zero me l s = no_fuel
loop (suc fuel) me l s = do
  r ← round me l s
  elim r [
    | none ↦ ok (after_pick (pick me s.fibers s.queue) s)
    | some (l', s') ↦ loop fuel me l' s'
  ]

-- `Scheduler::run` on the thread `me`, with `Scheduler::idle`, which only logs.
unfoldable pub run : ℕ → ℕ → Scheduler → Result Scheduler
unfolding loop new_fiber
run fuel me s = loop fuel me (record { idle_fiber = s.next; cb_fiber = none }) (new_fiber done s)

-- `Scheduler::stopping`.
unfoldable pub stopping : Scheduler → Bool
stopping s = s.auto_stop && s.stoping && is_nil s.queue && s.active_thread_count == 0
