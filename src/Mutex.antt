-- ===== src/Mutex.antt =====
-- The scoped locks of wb_server/mutex.h: `ScopedLockImli`, `ReadScopedLockImli` and
-- `WriteScopedLockImli`, which differ in the call that takes the lock only.
pub mod Balance
pub mod Spin
use cpp_wb_server.Common.{Bool, true, false, List, [], ◌∷◌, if◌then◌else◌}

-- `m_mutex` and `m_locked`, over any state of a mutex.
pub record Guard {ℓ} (M : Type ℓ) : Type ℓ where
  pub mutex : M
  pub locked : Bool

-- The calls on a scoped lock between its constructor and its destructor.
pub data Call : Type 0 where
  lock_call unlock_call : Call

-- `take` stands for `lock`, `read_lock` or `write_lock` of the mutex, and `release` for its `unlock`.
module _ {ℓ} {M : Type ℓ} (take release : M → M) where
  -- The constructor.
  unfoldable pub new : M → Guard M
  new m = record { mutex = take m; locked = true }

  unfoldable pub lock : Guard M → Guard M
  lock g = if g.locked then g else record { mutex = take g.mutex; locked = true }

  unfoldable pub unlock : Guard M → Guard M
  unlock g = if g.locked then record { mutex = release g.mutex; locked = false } else g

  -- The destructor, which leaves the mutex.
  unfoldable pub destroy : Guard M → M
  unfolding unlock
  destroy g = (unlock g).mutex

  unfoldable pub call : Call → Guard M → Guard M
  unfolding lock unlock
  call lock_call g = lock g
  call unlock_call g = unlock g

  unfoldable pub calls : List Call → Guard M → Guard M
  unfolding call
  calls [] g = g
  calls (c ∷ cs) g = calls cs (call c g)
