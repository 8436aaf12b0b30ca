-- ===== src/Mutex/Balance.antt =====
-- Every lock that a scoped lock of wb_server/mutex.h takes is released once.
use cpp_wb_server.Common.{if◌then◌else◌, ℕ, zero, suc, ◌≡◌, refl, Bool, true, false, List, [], ◌∷◌}
use cpp_wb_server.Mutex.{Call, lock_call, unlock_call, new, destroy, calls}

module _ {ℓ} {M : Type ℓ} (take release : M → M) where
  -- The lock taken and released, `n` times.
  abbrev pub pairs : ℕ → M → M
  pairs zero m = m
  pairs (suc n) m = pairs n (release (take m))

  calls-pairs :
      (cs : List Call) (m : M) (b : Bool)
      → (n : ℕ) × (destroy take release (
            calls take release cs (
              if b
              then record { mutex = take m; locked = true }
              else record { mutex = m; locked = false }))
          ≡ pairs n (if b then release (take m) else m))
  unfolding destroy calls
  calls-pairs [] m true = (0, refl)
  calls-pairs [] m false = (0, refl)
  calls-pairs (lock_call ∷ cs) m true = calls-pairs cs m true
  calls-pairs (lock_call ∷ cs) m false = let (n, h) = calls-pairs cs m true in (suc n, h)
  calls-pairs (unlock_call ∷ cs) m true = calls-pairs cs (release (take m)) false
  calls-pairs (unlock_call ∷ cs) m false = calls-pairs cs m false

-- Whatever calls are made on a scoped lock, what it has done to its mutex when it is gone is to take
-- and to release it, in turn, some number of times and at least once: it never takes a lock that it
-- holds, never releases one that it does not hold, and leaves none behind.
pub destroy-pairs {ℓ} :
    {M : Type ℓ} (take release : M → M) (cs : List Call) (m : M)
    → (n : ℕ) × (destroy take release (calls take release cs (new take release m))
        ≡ pairs take release (suc n) m)
unfolding new
destroy-pairs take release cs m = calls-pairs take release cs m true
