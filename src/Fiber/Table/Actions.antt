-- ===== src/Fiber/Table/Actions.antt =====
-- The calls that threads make on the fibers of wb_server/fiber.cc, in any order.
use cpp_wb_server.Common.{ℕ, ◌+◌, Bool, [], Option, none, ◌≡◌}
use cpp_wb_server.Log.World.{Result, ok, ◌>>=◌}
use cpp_wb_server.Fiber.{hold, ready}
use cpp_wb_server.Fiber.Table.{
  Table, new_with, get_this, call, back, swap_in, swap_out, yield_to, main_func, call_main_func,
  reset, destroy,
}

-- What a thread does next.
pub data Action : Type 0 where
  makes : ℕ → ℕ → Bool → Action
  gets calls_back : ℕ → Action
  calls destroys : ℕ → ℕ → Action
  swaps_in : ℕ → Option ℕ → ℕ → Action
  swaps_out yields_ready yields_hold : ℕ → Option ℕ → Action
  ends : Bool → ℕ → Option ℕ → ℕ → Action
  ends_call : Bool → ℕ → ℕ → Action
  resets : ℕ → Bool → Action

unfoldable pub act : Action → Table → Result Table
unfolding new_with get_this call back swap_in swap_out yield_to main_func call_main_func reset
    destroy
act (makes configured size has_cb) t = ok (new_with configured size has_cb t)
act (gets me) t = do r ← get_this me t; ok r.1
act (calls_back me) t = back me t
act (calls me a) t = call me a t
act (destroys me a) t = destroy me a t
act (swaps_in me main a) t = swap_in me main a t
act (swaps_out me main) t = swap_out me main t
act (yields_ready me main) t = yield_to ready me main t
act (yields_hold me main) t = yield_to hold me main t
act (ends thrown me main cur) t = main_func thrown me main cur t
act (ends_call thrown me cur) t = call_main_func thrown me cur t
act (resets a has_cb) t = reset a has_cb t

-- Before any fiber.
abbrev pub no_fibers : Table
no_fibers = record {
  fiber_id = 0;
  fiber_count = 0;
  live = [];
  next = 0;
  current = λ k. none;
  thread_fiber = λ k. none;
}

-- What the threads reach with `n` actions, in any order.
pub data Reach : ℕ → Table → Type 0 where
  start : Reach 0 no_fibers
  later : {n : ℕ} {t t' : Table} (a : Action) → Reach n t → act a t ≡ ok t' → Reach (n + 1) t'
