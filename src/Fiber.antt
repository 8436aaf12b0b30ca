-- ===== src/Fiber.antt =====
-- `Fiber` of wb_server/fiber.h and wb_server/fiber.cc.
pub mod Table
use cpp_wb_server.Common.{ℕ, Bool, true, false, ◌||◌, Option, some, if◌then◌else◌}
use cpp_wb_server.Log.World.{Result, ok, fault}

-- `Fiber::State`; `initial` and `failed` are INIT and EXCEPT.
pub data State : Type 0 where
  initial hold exec term ready failed : State

-- What the program's own function does while it runs on a fiber, up to its return or its exception;
-- the threads are those of `Scheduler::scheduler`, `none` for -1, and `say` stands for any effect.
pub data Code : Type 0 where
  done throws : Code
  say : ℕ → Code → Code
  yield_to_ready yield_to_hold : Code → Code
  schedule_fiber : ℕ → Option ℕ → Code → Code
  schedule_cb : Code → Option ℕ → Code → Code

-- `cb` is what runs when the fiber is next switched to, `none` for a null function.
pub record Fiber : Type 0 where
  pub state : State
  pub cb : Option Code
  pub has_stack : Bool

unfoldable pub is_exec : State → Bool
is_exec exec = true
is_exec _ = false

-- TERM or EXCEPT.
unfoldable pub is_over : State → Bool
is_over term = true
is_over failed = true
is_over _ = false

unfoldable pub is_initial : State → Bool
is_initial initial = true
is_initial _ = false

unfoldable pub is_term : State → Bool
is_term term = true
is_term _ = false

unfoldable pub is_ready : State → Bool
is_ready ready = true
is_ready _ = false

-- `Fiber::Fiber` of a function.
abbrev pub new : Code → Fiber
new cb = record { state = initial; cb = some cb; has_stack = true }

-- `Fiber::reset` with its two assertions.
unfoldable pub reset : Option Code → Fiber → Result Fiber
unfolding is_over is_initial
reset cb x =
    if x.has_stack
    then (if is_over x.state || is_initial x.state
        then ok (record x { cb = cb; state = initial })
        else fault)
    else fault
