-- ===== src/Mutex/Spin/Tests.antt =====
-- Two threads with one `CASLock`.
use cpp_wb_server.Common.{ℕ, ◌≡◌, ◌⊎◌, refl, true, false, some, update}
use cpp_wb_server.Mutex.Spin.{
  spinning, guarded, construct, spin, act, System, new, acts, Reach, start, later,
}
use cpp_wb_server.Mutex.Spin.Exclusion.{holds, Reach-exclusion}

-- Thread 1 holds the lock, thread 2 waits for it.
abbrev contended : System
contended = record {
  flag = true;
  places =
      update (update (update (update new.places 1 spinning) 2 spinning) 1 (guarded true)) 2
        spinning;
}

Reach-contended : Reach contended
unfolding act
Reach-contended =
    later
      (later (later (later start (acts 1 construct refl)) (acts 2 construct refl))
        (acts 1 spin refl))
      (acts 2 spin refl)

Reach-exclusion_example :
    ((i j : ℕ) → holds (contended.places i) ≡ true → holds (contended.places j) ≡ true → i ≡ j)
    × (((i : ℕ) × (contended.flag ≡ true) × (holds (contended.places i) ≡ true))
        ⊎ ((contended.flag ≡ false)
            × ((i : ℕ)
                → (holds (contended.places i) ≡ false)
                  × ((contended.places i ≡ spinning)
                      → act spin (contended.places i) contended.flag ≡ some (true, guarded true)))))
Reach-exclusion_example = Reach-exclusion contended Reach-contended
