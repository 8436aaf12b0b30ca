-- ===== src/Thread/Handshake.antt =====
-- What holds whenever the constructor of `Thread` (wb_server/thread.cc) has returned.
use cpp_wb_server.Common.{
  ℕ, zero, suc, ◌+◌, ◌≤◌, ◌≡◌, refl, ap, Bool, true, false, some, Text, codes, is_empty,
  if◌then◌else◌, arith,
}
use cpp_wb_server.Log.World.{ok}
use cpp_wb_server.Thread.{
  Parent, creating, waiting, returned, threw, Child, absent, started, has_this, has_name, has_id,
  has_cb, notified, finished, State, new, create, wait, run_step, join, destroy, Step, creates,
  waits, names, set_name, interrupted, runs, joins, destroys, Reach, start, later,
}

-- How many statements of `Thread::run` have been done, with the start as the first.
abbrev pub done : Child → ℕ
done absent = 0
done started = 1
done has_this = 2
done has_name = 3
done has_id = 4
done has_cb = 5
done notified = 6
done finished = 7

-- The name that the constructor gives.
abbrev pub first_name : Text → Text
first_name name = if is_empty name then codes "UNKNOW" else name

-- The parent is behind its wait.
abbrev pub passed : Parent → ℕ
passed returned = 1
passed _ = 0

-- The notification has been posted.
abbrev pub posted : Child → ℕ
posted notified = 1
posted finished = 1
posted _ = 0

-- The function has come to its end.
abbrev pub ended : Child → ℕ
ended finished = 1
ended _ = 0

pub record IsSound (tid : ℕ) (name : Text) (s : State) : Type 0 where
  pub balance : s.sem + passed s.parent ≡ posted s.child
  pub before : (s.parent ≡ creating) → s.child ≡ absent
  pub begun : (s.parent ≡ waiting) → 1 ≤ done s.child
  pub without : (s.parent ≡ threw) → s.child ≡ absent
  pub fresh_name : done s.child ≤ 2 → s.name ≡ first_name name
  pub same_name : 3 ≤ done s.child → s.alive ≡ true → s.thread_name ≡ s.name
  pub has_id_ok : 4 ≤ done s.child → s.id ≡ some tid
  pub cb_ok : 5 ≤ done s.child → s.cb ≡ false
  pub own_this : 2 ≤ done s.child → s.this ≡ true
  pub exists : s.alive ≡ false → passed s.parent ≡ 1
  pub called : s.calls ≡ ended s.child

new-IsSound : (tid : ℕ) (name : Text) → IsSound tid name (new name)
unfolding new
new-IsSound tid name = record {
  balance = refl;
  before = λ h. refl;
  begun = λ h. absurd (ground (arith, h));
  without = λ h. absurd (ground (arith, h));
  fresh_name = λ h. refl;
  same_name = λ h a. absurd (omega (arith, h));
  has_id_ok = λ h. absurd (omega (arith, h));
  cb_ok = λ h. absurd (omega (arith, h));
  own_this = λ h. absurd (omega (arith, h));
  exists = λ h. absurd (ground (arith, h));
  called = refl;
}

run_step-IsSound :
    (tid : ℕ) (name : Text) (c : Child) (s t : State)
    → s.child ≡ c
    → run_step tid c s ≡ some t
    → IsSound tid name s
    → IsSound tid name t
unfolding run_step
run_step-IsSound tid name absent s t e h i = absurd (ground (arith, h))
run_step-IsSound tid name finished s t e h i = absurd (ground (arith, h))
run_step-IsSound tid name c s t e h i = ground arith

create-IsSound :
    (tid : ℕ) (name : Text) (b : Bool) (s : State)
    → s.parent ≡ creating
    → IsSound tid name s
    → IsSound tid name (create b s)
unfolding create
create-IsSound tid name true s e i = ground (arith, i.before e)
create-IsSound tid name false s e i = ground (arith, i.before e)

wait-IsSound :
    (tid : ℕ) (name : Text) (n : ℕ) (s t : State)
    → s.sem ≡ n
    → s.parent ≡ waiting
    → wait s ≡ some t
    → IsSound tid name s
    → IsSound tid name t
unfolding wait
wait-IsSound tid name zero s t z e h i = absurd (ground (arith, z, h))
wait-IsSound tid name (suc n) s t z e h i = ground arith

join-IsSound :
    (tid : ℕ) (name : Text) (s t : State)
    → join s ≡ some t
    → IsSound tid name s
    → IsSound tid name t
unfolding join
join-IsSound tid name s t h i = ground arith

destroy-IsSound :
    (tid : ℕ) (name : Text) (s : State)
    → s.parent ≡ returned
    → IsSound tid name s
    → IsSound tid name (destroy s)
unfolding destroy
destroy-IsSound tid name s e i = ground arith

set_name-IsSound :
    (tid : ℕ) (name n : Text) (s t : State)
    → s.child ≡ notified
    → set_name n s ≡ ok t
    → IsSound tid name s
    → IsSound tid name t
unfolding set_name
set_name-IsSound tid name n s t e h i = ground arith

pub Step-IsSound :
    {tid : ℕ} {name : Text} {s t : State}
    → Step false tid s t
    → IsSound tid name s
    → IsSound tid name t
Step-IsSound {tid} {name} {s} (creates b e) i = create-IsSound tid name b s e i
Step-IsSound {tid} {name} {s} {t} (waits e h) i = wait-IsSound tid name s.sem s t refl e h i
Step-IsSound (interrupted b e) i = absurd (ground (arith, b))
Step-IsSound {tid} {name} {s} {t} (runs h) i = run_step-IsSound tid name s.child s t refl h i
Step-IsSound {tid} {name} {s} {t} (joins e a h) i = join-IsSound tid name s t h i
Step-IsSound {tid} {name} {s} {t} (names n e h) i = set_name-IsSound tid name n s t e h i
Step-IsSound {tid} {name} {s} (destroys e a) i = destroy-IsSound tid name s e i

pub Reach-IsSound :
    {tid : ℕ} {name : Text} {s : State} → Reach false tid name s → IsSound tid name s
Reach-IsSound {tid} {name} start = new-IsSound tid name
Reach-IsSound (later r st) = Step-IsSound st (Reach-IsSound r)

pub posted-le : (c : Child) → posted c ≤ 1
posted-le notified = omega arith
posted-le finished = omega arith
posted-le c = omega arith

pub done-posted : (c : Child) → posted c ≡ 1 → 6 ≤ done c
done-posted notified h = omega arith
done-posted finished h = omega arith
done-posted c h = absurd (omega (arith, h))

-- As long as no signal interrupts the wait: in every state that the two threads reach where the
-- constructor has returned, the object has the id of the new thread, the function has been taken out
-- of it, the notification has been consumed, and `Thread::run` does nothing more with the object but
-- to call the function. While the object exists, `get_name` and the new thread's `GetName` agree.
pub returned-IsReady :
    (tid : ℕ) (name : Text) (s : State)
    → Reach false tid name s
    → s.parent ≡ returned
    → (s.id ≡ some tid)
      × (s.cb ≡ false)
      × (s.sem ≡ 0)
      × (6 ≤ done s.child)
      × ((s.alive ≡ true) → s.thread_name ≡ s.name)
returned-IsReady tid name s r e =
    let i : IsSound tid name s = Reach-IsSound r in
    let p : passed s.parent ≡ 1 = ap passed e in
    let b = i.balance in
    let q : posted s.child ≡ 1 = omega (arith, b, p, posted-le s.child) in
    let d : 6 ≤ done s.child = done-posted s.child q in
    (
      i.has_id_ok (omega (arith, d)),
      i.cb_ok (omega (arith, d)),
      omega (arith, b, p, q),
      d,
      i.same_name (omega (arith, d)),
    )
