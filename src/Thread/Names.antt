-- ===== src/Thread/Names.antt =====
-- Where `Thread` of wb_server/thread.cc goes wrong: an object that is destroyed while its function
-- runs.
use cpp_wb_server.Common.{ℕ, ◌≡◌, refl, true, false, Text}
use cpp_wb_server.Log.World.{fault}
use cpp_wb_server.Thread.{
  notified, State, new, create, wait, run_step, notify, destroy, set_name, Reach, start, later,
  creates, waits, runs, destroys,
}

-- Whatever the name and the new name: the two threads reach, with no signal, a state in which the
-- function runs and the object is destroyed. `SetName` there writes to the object that is gone.
pub set_name_destroyed :
    (tid : ℕ) (name n : Text)
    → (s : State) × Reach false tid name s × (s.child ≡ notified) × (set_name n s ≡ fault)
unfolding new create wait run_step notify destroy set_name
set_name_destroyed tid name n = (
  _,
  later
      (later
        (later
          (later
            (later (later (later (later start (creates true refl)) (runs refl)) (runs refl))
              (runs refl))
            (runs refl))
          (runs refl))
        (waits refl refl))
      (destroys refl refl),
  refl,
  refl,
)
