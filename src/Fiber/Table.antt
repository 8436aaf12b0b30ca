-- ===== src/Fiber/Table.antt =====
-- The fibers there are and which one each thread runs on: the constructors, the destructor, `GetThis`
-- and the switches of wb_server/fiber.cc, with its counters and its thread-local pointers.
pub mod Actions
pub mod Ends
pub mod Ranked
pub mod Counted
pub mod Current
mod Tests
use cpp_wb_server.Common.{
  ℕ, ◌+◌, ◌-◌, ◌%◌, ◌^◌, Bool, true, false, not, ◌||◌, List, [], ◌∷◌, Option, none, some, ◌==◌,
  if◌then◌else◌, update, ◌≡◌,
}
use cpp_wb_server.Log.World.{Result, ok, fault, ◌>>=◌, deref}
use cpp_wb_server.Fiber.{
  State, initial, hold, exec, term, ready, failed, is_exec, is_over, is_initial,
}

-- A fiber at its address, with whether `m_stack` and `m_cb` are set.
pub record Object : Type 0 where
  pub address : ℕ
  pub id : ℕ
  pub state : State
  pub stacksize : ℕ
  pub has_stack : Bool
  pub has_cb : Bool

-- `s_fiber_id` and `s_fiber_count`, the fibers that are not destroyed, the next new address, and by
-- thread `t_fiber` and `t_thread_fiber`.
pub record Table : Type 0 where
  pub fiber_id : ℕ
  pub fiber_count : ℕ
  pub live : List Object
  pub next : ℕ
  pub current : ℕ → Option ℕ
  pub thread_fiber : ℕ → Option ℕ

-- `++` and `--` on a `uint64_t`.
abbrev pub increment : ℕ → ℕ
increment n = (n + 1) % 2 ^ 64

abbrev pub decrement : ℕ → ℕ
decrement n = (n + (2 ^ 64 - 1)) % 2 ^ 64

unfoldable pub find : ℕ → List Object → Option Object
find a [] = none
find a (x ∷ xs) = if x.address == a then some x else find a xs

unfoldable pub remove : ℕ → List Object → List Object
remove a [] = []
remove a (x ∷ xs) = if x.address == a then xs else x ∷ remove a xs

unfoldable pub alter : ℕ → (Object → Object) → List Object → List Object
alter a f [] = []
alter a f (x ∷ xs) = if x.address == a then f x ∷ xs else x ∷ alter a f xs

abbrev pub set_state : ℕ → State → Table → Table
unfolding alter
set_state a st t = record t { live = alter a (λ x. record x { state = st }) t.live }

-- `Fiber::SetThis` on the thread `me`.
abbrev pub set_this : ℕ → Option ℕ → Table → Table
set_this me f t = record t { current = update t.current me f }

-- A pointer that is not null and not to a destroyed fiber.
unfoldable pub at_live : Option ℕ → Table → Result Object
unfolding find
at_live p t = do a ← deref p; deref (find a t.live)

-- `Fiber::Fiber()`.
unfoldable pub new_main : ℕ → Table → Table
new_main me t =
    let x : Object = record {
      address = t.next;
      id = 0;
      state = exec;
      stacksize = 0;
      has_stack = false;
      has_cb = false;
    } in
    record (set_this me (some t.next) t) {
      live = x ∷ t.live;
      next = t.next + 1;
      fiber_count = increment t.fiber_count;
    }

-- `Fiber::Fiber` of a function; `configured` is the value of `fiber.stack_size`, and `malloc` is
-- taken to find the memory.
unfoldable pub new_with : ℕ → ℕ → Bool → Table → Table
new_with configured stacksize has_cb t =
    let x : Object = record {
      address = t.next;
      id = increment t.fiber_id;
      state = initial;
      stacksize = (if stacksize == 0 then configured else stacksize) % 2 ^ 32;
      has_stack = true;
      has_cb = has_cb;
    } in
    record t {
      live = x ∷ t.live;
      next = t.next + 1;
      fiber_id = increment t.fiber_id;
      fiber_count = increment t.fiber_count;
    }

abbrev pub is_at : Option ℕ → ℕ → Bool
is_at none a = false
is_at (some b) a = b == a

-- `Fiber::~Fiber` on the thread `me`.
unfoldable pub destroy : ℕ → ℕ → Table → Result Table
unfolding at_live remove is_over is_initial is_exec
destroy me a t = do
  x ← at_live (some a) t
  let t₁ = record t { fiber_count = decrement t.fiber_count; live = remove a t.live }
  if x.has_stack
      then (if is_over x.state || is_initial x.state then ok t₁ else fault)
      else if x.has_cb
      then fault
      else if is_exec x.state
      then ok (if is_at (t.current me) a then set_this me none t₁ else t₁)
      else fault

-- `Fiber::GetThis` by the value of `t_fiber`, with the address of the fiber it returns.
unfoldable pub get_this_at : Option ℕ → ℕ → Table → Result (ℕ × Table)
unfolding at_live new_main
get_this_at (some a) me t = do x ← at_live (some a) t; ok (a, t)
get_this_at none me t =
    let t₁ = new_main me t in
    if is_at (t₁.current me) t.next
    then ok (t.next, record t₁ { thread_fiber = update t.thread_fiber me (some t.next) })
    else fault

unfoldable pub get_this : ℕ → Table → Result (ℕ × Table)
unfolding get_this_at
get_this me t = get_this_at (t.current me) me t

-- `Fiber::GetFiberId` by the value of `t_fiber`.
unfoldable pub get_fiber_id_at : Option ℕ → Table → Result ℕ
unfolding at_live
get_fiber_id_at none t = ok 0
get_fiber_id_at (some a) t = do x ← at_live (some a) t; ok x.id

unfoldable pub get_fiber_id : ℕ → Table → Result ℕ
unfolding get_fiber_id_at
get_fiber_id me t = get_fiber_id_at (t.current me) t

-- `Fiber::TotalFibers`.
abbrev pub total_fibers : Table → ℕ
total_fibers t = t.fiber_count

-- `Fiber::call` and `Fiber::back`, up to where the other context goes on.
unfoldable pub call : ℕ → ℕ → Table → Result Table
unfolding at_live
call me a t = do
  x ← at_live (some a) t
  y ← at_live (t.thread_fiber me) t
  ok (set_state a exec (set_this me (some a) t))

unfoldable pub back : ℕ → Table → Result Table
unfolding at_live
back me t = do y ← at_live (t.thread_fiber me) t; ok (set_this me (t.thread_fiber me) t)

-- `Fiber::swap_in` and `Fiber::swap_out`; `main` is what `Scheduler::GetMainFiber` returns.
unfoldable pub swap_in : ℕ → Option ℕ → ℕ → Table → Result Table
unfolding at_live is_exec
swap_in me main a t = do
  x ← at_live (some a) t
  y ← at_live main t
  if is_exec x.state then fault else ok (set_state a exec (set_this me (some a) t))

unfoldable pub swap_out : ℕ → Option ℕ → Table → Result Table
unfolding at_live
swap_out me main t = do y ← at_live main t; ok (set_this me main t)

-- `Fiber::YieldToReady` and `Fiber::YeidToHold`, up to where the main fiber goes on.
unfoldable pub yield_to : State → ℕ → Option ℕ → Table → Result Table
unfolding get_this swap_out
yield_to st me main t = do r ← get_this me t; swap_out me main (set_state r.0 st r.1)

-- What `Fiber::MainFunc` and `Fiber::CallMainFunc` write when the function has returned or thrown.
abbrev pub ended : Bool → Object → Object
ended thrown x =
    if thrown then record x { state = failed } else record x { state = term; has_cb = false }

-- `Fiber::MainFunc` behind its function, and `Fiber::CallMainFunc`. What they do before it is a call
-- of `GetThis`; `cur` is what that returned.
unfoldable pub main_func : Bool → ℕ → Option ℕ → ℕ → Table → Result Table
unfolding at_live swap_out alter
main_func thrown me main cur t = do
  x ← at_live (some cur) t
  swap_out me main (record t { live = alter cur (ended thrown) t.live })

unfoldable pub call_main_func : Bool → ℕ → ℕ → Table → Result Table
unfolding at_live back alter
call_main_func thrown me cur t = do
  x ← at_live (some cur) t
  back me (record t { live = alter cur (ended thrown) t.live })

-- `Fiber::reset`.
unfoldable pub reset : ℕ → Bool → Table → Result Table
unfolding at_live alter is_over is_initial
reset a has_cb t = do
  x ← at_live (some a) t
  if x.has_stack
      then (if is_over x.state || is_initial x.state
          then ok (record t {
            live = alter a (λ y. record y { has_cb = has_cb; state = initial }) t.live;
          })
          else fault)
      else fault
