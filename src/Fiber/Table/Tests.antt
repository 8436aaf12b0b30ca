-- ===== src/Fiber/Table/Tests.antt =====
-- Fibers of wb_server/fiber.cc on two threads.
use cpp_wb_server.Common.{◌<◌, ◌≡◌, refl, true, false, [], ◌∷◌, some, length, map, update, arith}
use mathlib.Core.List.{Memᴰ}
use cpp_wb_server.Log.World.{ok, fault}
use cpp_wb_server.Fiber.{hold, is_over, is_initial}
use cpp_wb_server.Fiber.Table.{
  Object, Table, at_live, find, new_main, new_with, set_state, alter, get_this, get_this_at,
  total_fibers, destroy, remove,
}
use cpp_wb_server.Fiber.Table.Actions.{makes, gets, act, no_fibers, Reach, start, later}
use cpp_wb_server.Fiber.Table.Counted.{Reach-ids}

-- Thread 4 gets its main fiber.
abbrev one : Table
one = record (new_main 4 no_fibers) { thread_fiber = update no_fibers.thread_fiber 4 (some 0) }

-- Two fibers are made, the first with a stack size of its own.
abbrev three : Table
three = new_with 1048576 0 true (new_with 1048576 100 true one)

act_gets : act (gets 4) no_fibers ≡ ok one
unfolding act get_this get_this_at new_main
act_gets = refl

three-Reach : Reach 3 three
unfolding act
three-Reach =
    later (makes 1048576 0 true)
      (later (makes 1048576 100 true) (later (gets 4) start act_gets) refl) refl

Reach-ids_example :
    (total_fibers three ≡ length three.live)
    × ((x y : Object)
        → Memᴰ x three.live
        → Memᴰ y three.live
        → x.has_stack ≡ true
        → (0 < x.id) × (x.id ≡ y.id → x ≡ y))
    × ((x : Object) → Memᴰ x three.live → x.has_stack ≡ false → x.id ≡ 0)
Reach-ids_example = Reach-ids three-Reach (omega arith)

three_sizes : map (λ (x : Object). x.stacksize) three.live ≡ 1048576 ∷ 100 ∷ 0 ∷ []
unfolding new_main new_with
three_sizes = refl

-- A fiber that waits to be switched to again may not be destroyed.
destroy_hold : destroy 4 1 (set_state 1 hold three) ≡ fault
unfolding destroy at_live find alter new_main new_with remove is_over is_initial
destroy_hold = refl
