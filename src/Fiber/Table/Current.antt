-- ===== src/Fiber/Table/Current.antt =====
-- The fiber a thread runs on: `Fiber::GetThis` and `Fiber::GetFiberId` of wb_server/fiber.cc.
use cpp_wb_server.Common.{ℕ, ◌≡◌, false, some}
use cpp_wb_server.Fiber.{exec}
use cpp_wb_server.Fiber.Table.{Object, Table, find}

-- The thread runs on the fiber `x`.
abbrev RunsOn : ℕ → ℕ → Object → Table → Type 0
RunsOn me a x t = (t.current me ≡ some a) × (find a t.live ≡ some x)

-- What `Fiber::Fiber()` leaves at the address `a`.
abbrev main_object : ℕ → Object
main_object a = record {
  address = a;
  id = 0;
  state = exec;
  stacksize = 0;
  has_stack = false;
  has_cb = false;
}
