-- ===== src/Mutex/Spin.antt =====
-- `CASLock` of wb_server/mutex.h, with the threads that take it through `ScopedLockImli<CASLock>`.
pub mod Exclusion
mod Tests
use cpp_wb_server.Common.{ℕ, ◌≡◌, Bool, true, false, Option, none, some, if◌then◌else◌, update}

-- Where a thread stands with its scoped lock: there is none; it runs the loop of `CASLock::lock`; or
-- the scoped lock is there, and `m_locked` says whether it holds the lock.
pub data Place : Type 0 where
  outside spinning : Place
  guarded : Bool → Place

-- What the thread does next: the constructor, one round of the loop, `lock`, `unlock`, and the
-- destructor of the scoped lock.
pub data Action : Type 0 where
  construct spin lock_call unlock_call destruct : Action

-- `atomic_flag_test_and_set_explicit`, with the value from before.
abbrev pub test_and_set : Bool → Bool × Bool
test_and_set flag = (true, flag)

-- One round of the loop of `CASLock::lock`.
unfoldable pub try_lock : Bool → Bool × Place
try_lock flag =
    let (flag', old) = test_and_set flag in (flag', if old then spinning else guarded true)

-- `CASLock::unlock`.
abbrev pub unlock : Bool → Bool
unlock flag = false

-- One action on the flag `m_mutex`; `none` where the thread cannot do it.
unfoldable pub act : Action → Place → Bool → Option (Bool × Place)
unfolding try_lock
act construct outside flag = some (flag, spinning)
act spin spinning flag = some (try_lock flag)
act lock_call (guarded true) flag = some (flag, guarded true)
act lock_call (guarded false) flag = some (flag, spinning)
act unlock_call (guarded true) flag = some (unlock flag, guarded false)
act unlock_call (guarded false) flag = some (flag, guarded false)
act destruct (guarded true) flag = some (unlock flag, outside)
act destruct (guarded false) flag = some (flag, outside)
act _ _ flag = none

pub record System : Type 0 where
  pub flag : Bool
  pub places : ℕ → Place

-- `CASLock::CASLock`, before any thread uses it.
abbrev pub new : System
new = record { flag = false; places = λ i. outside }

-- One thread acts.
pub data Step (s : System) : System → Type 0 where
  acts :
      (i : ℕ) (a : Action) {flag : Bool} {p : Place}
      → act a (s.places i) s.flag ≡ some (flag, p)
      → Step s (record { flag = flag; places = update s.places i p })

pub data Reach : System → Type 0 where
  start : Reach new
  later : {s t : System} → Reach s → Step s t → Reach t
