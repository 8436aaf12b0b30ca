-- ===== src/Thread.antt =====
-- `Thread` of wb_server/thread.h and wb_server/thread.cc, with the `Semaphore` of wb_server/mutex.cc
-- that its constructor waits on. The two threads take their steps in any order.
pub mod Handshake
pub mod Progress
pub mod Names
mod Tests
use cpp_wb_server.Common.{
  ℕ, zero, suc, ◌+◌, ◌-◌, ◌<◌, ◌≡◌, Bool, true, false, Option, none, some, Text, codes, is_empty,
  if◌then◌else◌,
}
use cpp_wb_server.Log.World.{Result, ok, fault}

-- Where the creating thread stands: before `pthread_create`, in `wait`, behind the constructor, or
-- with the exception of the constructor.
pub data Parent : Type 0 where
  creating waiting returned threw : Parent

-- Where `Thread::run` stands: it is not started; then each of its statements in turn has been done;
-- from `notified` on the function runs, until `finished`.
pub data Child : Type 0 where
  absent started has_this has_name has_id has_cb notified finished : Child

-- The members of the object (`id` is `none` for -1, `cb` says whether `m_cb` is set, `handle` whether
-- `m_thread` is not 0, `alive` whether the object exists), the semaphore's count, the two
-- thread-local variables of the new thread, and how often the function has been called to its end.
pub record State : Type 0 where
  pub id : Option ℕ
  pub name : Text
  pub cb : Bool
  pub sem : ℕ
  pub handle : Bool
  pub alive : Bool
  pub this : Bool
  pub thread_name : Text
  pub calls : ℕ
  pub parent : Parent
  pub child : Child

-- `Thread::Thread` up to `pthread_create`.
unfoldable pub new : Text → State
new name = record {
  id = none;
  name = if is_empty name then codes "UNKNOW" else name;
  cb = true;
  sem = 0;
  handle = false;
  alive = true;
  this = false;
  thread_name = codes "UNKNOW";
  calls = 0;
  parent = creating;
  child = absent;
}

-- `pthread_create`, and the test of what it returns.
unfoldable pub create : Bool → State → State
create true s = record s { handle = true; parent = waiting; child = started }
create false s = record s { parent = threw }

-- `Semaphore::wait` where `sem_wait` returns 0: it blocks while the count is 0.
unfoldable pub wait : State → Option State
wait s = elim s.sem [ zero ↦ none | suc n ↦ some (record s { sem = n; parent = returned }) ]

-- `Semaphore::wait` where a signal interrupts `sem_wait`: the error is dropped.
unfoldable pub wait_interrupted : State → State
wait_interrupted s = record s { parent = returned }

-- `Semaphore::notify`.
unfoldable pub notify : State → State
notify s = record s { sem = s.sem + 1; child = notified }

-- The next statement of `Thread::run` on the thread with the id `tid`.
unfoldable pub run_step : ℕ → Child → State → Option State
unfolding notify
run_step tid absent s = none
run_step tid started s = some (record s { this = true; child = has_this })
run_step tid has_this s = some (record s { thread_name = s.name; child = has_name })
run_step tid has_name s = some (record s { id = some tid; child = has_id })
run_step tid has_id s = some (record s { cb = false; child = has_cb })
run_step tid has_cb s = some (notify s)
run_step tid notified s = some (record s { calls = s.calls + 1; child = finished })
run_step tid finished s = none

-- `Thread::join` where `pthread_join` returns 0: nothing without a handle, else it blocks until the
-- thread has finished.
unfoldable pub join : State → Option State
join s =
    if s.handle
    then elim s.child [ finished ↦ some (record s { handle = false }) | _ ↦ none ]
    else some s

-- `Thread::~Thread`, which detaches a thread that was not joined.
unfoldable pub destroy : State → State
destroy s = record s { handle = false; alive = false }

-- `Thread::SetName` on the new thread: it writes through `t_thread`.
unfoldable pub set_name : Text → State → Result State
set_name n s =
    if s.this
    then (if s.alive then ok (record s { name = n; thread_name = n }) else fault)
    else ok (record s { thread_name = n })

-- A step of one of the two threads; `signals` says whether one may interrupt `sem_wait`.
pub data Step (signals : Bool) (tid : ℕ) (s : State) : State → Type 0 where
  creates : (b : Bool) → s.parent ≡ creating → Step signals tid s (create b s)
  waits : {t : State} → s.parent ≡ waiting → wait s ≡ some t → Step signals tid s t
  interrupted : signals ≡ true → s.parent ≡ waiting → Step signals tid s (wait_interrupted s)
  runs : {t : State} → run_step tid s.child s ≡ some t → Step signals tid s t
  joins :
      {t : State} → s.parent ≡ returned → s.alive ≡ true → join s ≡ some t → Step signals tid s t
  names : {t : State} (n : Text) → s.child ≡ notified → set_name n s ≡ ok t → Step signals tid s t
  destroys : s.parent ≡ returned → s.alive ≡ true → Step signals tid s (destroy s)

pub data Reach (signals : Bool) (tid : ℕ) (name : Text) : State → Type 0 where
  start : Reach signals tid name (new name)
  later : {s t : State} → Reach signals tid name s → Step signals tid s t → Reach signals tid name t
