-- ===== src/Scheduler/Life.antt =====
-- The constructor, `start`, `stop` and the destructor of `Scheduler` (wb_server/scheduler.cc), with the
-- root fiber of wb_server/fiber.cc, on the thread that constructs the scheduler.
pub mod Stopping
pub mod Starting
pub mod Cycle
pub mod Threads
mod Tests
use cpp_wb_server.Common.{
  ℕ, zero, suc, ◌+◌, ◌-◌, Bool, true, false, not, ◌&&◌, ◌||◌, List, [], ◌∷◌, ◌++◌, Option, none,
  some, ◌==◌, if◌then◌else◌, length, ltb,
}
use cpp_wb_server.Log.World.{Result, ok, fault, ◌>>=◌}
use cpp_wb_server.Fiber.{Fiber, State, initial, term, Code, is_initial, is_term}
use cpp_wb_server.Scheduler.{Target, Scheduler, tickel, scheduler, new_fiber, run, stopping}

-- `t_scheduler`: null, this scheduler, or another one.
pub data Current : Type 0 where
  nobody this_one other : Current

abbrev pub is_nobody : Current → Bool
is_nobody nobody = true
is_nobody _ = false

abbrev pub is_this : Current → Bool
is_this this_one = true
is_this _ = false

-- `m_threads` by the ids of its threads; `root` is the state of `m_root_fiber`, if there is one, whose
-- function is `Scheduler::run`; `root_thread` is `none` for -1.
pub record Life : Type 0 where
  pub inner : Scheduler
  pub threads : List ℕ
  pub thread_ids : List ℕ
  pub root : Option State
  pub root_thread : Option ℕ
  pub current : Current

-- The members as they are before the body of the constructor.
abbrev pub members : ℕ → Scheduler
members thread_count = record {
  fibers = λ f. record { state = term; cb = none; has_stack = true };
  next = 0;
  queue = [];
  thread_count = thread_count;
  active_thread_count = 0;
  idle_thread_count = 0;
  stoping = true;
  auto_stop = false;
  said = [];
  tickles = 0;
}

-- `Scheduler::Scheduler` on the thread `me`.
unfoldable pub construct : ℕ → Bool → ℕ → Current → Result Life
construct zero use_caller me c = fault
construct (suc threads) true me c =
    if is_nobody c
    then ok (record {
      inner = members threads;
      threads = [];
      thread_ids = me ∷ [];
      root = some initial;
      root_thread = some me;
      current = this_one;
    })
    else fault
construct (suc threads) false me c = ok (record {
  inner = members (suc threads);
  threads = [];
  thread_ids = [];
  root = none;
  root_thread = none;
  current = c;
})

-- The loop of `start` from `i` on, for `n` threads more: `m_threads[i]` has to be there.
unfoldable pub start_threads : (ℕ → ℕ) → ℕ → ℕ → Life → Result Life
start_threads id i zero l = ok l
start_threads id i (suc n) l =
    let rest = start_threads id (i + 1) n (record l { thread_ids = l.thread_ids ++ id i ∷ [] }) in
    if ltb i (length l.threads) then rest else fault

-- `Fiber::call` on the root fiber, up to its `back`: `Fiber::CallMainFunc` runs `Scheduler::run`. On a
-- root fiber that is over the switch leads behind `back`, to an assertion that fails.
unfoldable pub call_root : ℕ → ℕ → Life → Result Life
unfolding is_initial
call_root fuel me l = elim l.root [
  | none ↦ ok l
  | some st ↦
      if is_initial st
      then (do
        s ← run fuel me l.inner
        ok (record l { inner = s; root = some term; current = this_one }))
      else fault
]

abbrev pub is_nil : List ℕ → Bool
is_nil [] = true
is_nil (x ∷ xs) = false

-- `Scheduler::start`; `id` gives the ids of new threads.
unfoldable pub start : ℕ → ℕ → (ℕ → ℕ) → Life → Result Life
unfolding start_threads call_root
start fuel me id l =
    if not l.inner.stoping
    then ok l
    else if is_nil l.threads
    then (do
      let l₁ = record l { inner = record l.inner { stoping = false } }
      l₂ ← start_threads id 0 l.inner.thread_count l₁
      call_root fuel me l₂)
    else fault

-- The root fiber is there, and TERM or INIT.
abbrev pub root_rests : Option State → Bool
root_rests none = false
root_rests (some st) = is_term st || is_initial st

-- `n` calls of `tickel`.
unfoldable pub tickel_times : ℕ → Scheduler → Scheduler
tickel_times zero s = s
tickel_times (suc n) s = tickel_times n (tickel s)

-- The assertion of `stop`, on `m_root_thread` and `GetThis()`.
abbrev pub is_caller : Option ℕ → Current → Bool
is_caller (some t) c = is_this c
is_caller none c = not (is_this c)

-- `if(m_root_fiber) tickel()`.
abbrev pub tickel_root : Option State → Scheduler → Scheduler
tickel_root (some st) s = tickel s
tickel_root none s = s

-- `stop` behind its first `if`.
unfoldable pub stop_rest : Life → Result Life
unfolding tickel_times
stop_rest l =
    let s = record l.inner { stoping = true } in
    if is_caller l.root_thread l.current
    then ok (record l { inner = tickel_root l.root (tickel_times s.thread_count s) })
    else fault

-- `Scheduler::stop`; both of its last two exits do the same.
unfoldable pub stop : Life → Result Life
unfolding stop_rest stopping is_term is_initial
stop l =
    let s = record l.inner { auto_stop = true } in
    if root_rests l.root && s.thread_count == 0
    then (let s' = record s { stoping = true } in
        if stopping s' then ok (record l { inner = s' }) else stop_rest (record l { inner = s' }))
    else stop_rest (record l { inner = s })

-- `Scheduler::~Scheduler`, which leaves `t_scheduler`.
unfoldable pub destruct : Life → Result Current
destruct l = if l.inner.stoping then ok (if is_this l.current then nobody else l.current) else fault

-- What the program does between the constructor and `start`: a new fiber, or a call of `scheduler`.
pub data Call : Type 0 where
  makes : Code → Call
  schedules : Target → Option ℕ → Call

unfoldable pub calls : List Call → Scheduler → Scheduler
unfolding new_fiber scheduler
calls [] s = s
calls (makes c ∷ cs) s = calls cs (new_fiber c s)
calls (schedules t n ∷ cs) s = calls cs (scheduler t n s)

abbrev pub with_calls : List Call → Life → Life
with_calls cs l = record l { inner = calls cs l.inner }
