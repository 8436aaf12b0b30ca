-- ===== src/Thread/Tests.antt =====
-- The theorems on threads at inputs.
use cpp_wb_server.Common.{◌≤◌, ◌≡◌, ◌⊎◌, refl, true, false, none, some, codes}
use cpp_wb_server.Thread.{
  returned, started, notified, State, new, create, wait, run_step, notify, Step, Reach, start,
  later, creates, waits, runs, interrupted, wait_interrupted,
}
use cpp_wb_server.Thread.Handshake.{done, returned-IsReady}
use cpp_wb_server.Thread.Progress.{IsOver, Nearer, left, Reach-progress}

abbrev ready : State
ready = record {
  id = some 7;
  name = codes "io";
  cb = false;
  sem = 0;
  handle = true;
  alive = true;
  this = true;
  thread_name = codes "io";
  calls = 0;
  parent = returned;
  child = notified;
}

Reach-ready : Reach false 7 (codes "io") ready
unfolding new create wait run_step notify
Reach-ready =
    later
      (later
        (later
          (later (later (later (later start (creates true refl)) (runs refl)) (runs refl))
            (runs refl))
          (runs refl))
        (runs refl))
      (waits refl refl)

returned-IsReady_example :
    (ready.id ≡ some 7)
    × (ready.cb ≡ false)
    × (ready.sem ≡ 0)
    × (6 ≤ done ready.child)
    × ((ready.alive ≡ true) → ready.thread_name ≡ ready.name)
returned-IsReady_example = returned-IsReady 7 (codes "io") ready Reach-ready refl

Reach-progress_example :
    (IsOver ready ⊎ Nearer 7 ready) × ((t : State) → Step false 7 ready t → left t ≤ left ready)
Reach-progress_example = Reach-progress 7 (codes "io") ready Reach-ready

-- Where a signal interrupts the wait, the constructor returns before the id is set.
returned_interrupted :
    (s : State) × Reach true 7 (codes "io") s
    × (s.parent ≡ returned)
    × (s.child ≡ started)
    × (s.id ≡ none)
    × (s.cb ≡ true)
unfolding new create wait_interrupted
returned_interrupted =
    (_, later (later start (creates true refl)) (interrupted refl refl), refl, refl, refl, refl)
