-- ===== src/Thread/Progress.antt =====
-- The two threads of `Thread` (wb_server/thread.cc) come to their ends.
use cpp_wb_server.Common.{
  ℕ, suc, ◌+◌, ◌≤◌, ◌<◌, ◌≡◌, refl, ap, ◌∙◌, ◌⊎◌, inl, inr, true, false, some, Text, arith,
}
use cpp_wb_server.Thread.{
  Parent, creating, waiting, returned, threw, Child, absent, started, has_this, has_name, has_id,
  has_cb, notified, finished, State, create, wait, run_step, notify, Step, creates, waits, runs,
  Reach, interrupted, joins, names, destroys, join, set_name, destroy,
}
use cpp_wb_server.Thread.Handshake.{done, passed, posted, ended, IsSound, Reach-IsSound}

-- Either the constructor has thrown and there is no thread, or it has returned and the function has
-- been called once, to its end.
abbrev pub IsOver : State → Type 0
IsOver s = ((s.parent ≡ threw) × (s.calls ≡ 0)) ⊎ ((s.parent ≡ returned) × (s.calls ≡ 1))

-- The steps that are left to do before that.
abbrev pub left_parent : Parent → ℕ
left_parent creating = 8
left_parent waiting = 1
left_parent returned = 0
left_parent threw = 0

abbrev pub left_child : Child → ℕ
left_child absent = 0
left_child started = 6
left_child has_this = 5
left_child has_name = 4
left_child has_id = 3
left_child has_cb = 2
left_child notified = 1
left_child finished = 0

abbrev pub left : State → ℕ
left s = left_parent s.parent + left_child s.child

-- A step that brings the end nearer.
abbrev pub Nearer : ℕ → State → Type 0
Nearer tid s = (t : State) × Step false tid s t × (left t < left s)

runs-Nearer :
    (tid : ℕ) (c : Child) (s t : State)
    → s.child ≡ c
    → run_step tid c s ≡ some t
    → left_parent t.parent ≡ left_parent s.parent
    → left_child t.child < left_child c
    → Nearer tid s
runs-Nearer tid c s t e h p l =
    (t, runs (ap (λ d. run_step tid d s) e ∙ h), omega (arith, p, l, ap left_child e))

run_step-Nearer : (tid : ℕ) (c : Child) (s : State) → s.child ≡ c → 1 ≤ left_child c → Nearer tid s
unfolding run_step notify
run_step-Nearer tid absent s e h = absurd (omega (arith, h))
run_step-Nearer tid finished s e h = absurd (omega (arith, h))
run_step-Nearer tid started s e h = runs-Nearer tid started s _ e refl refl (omega arith)
run_step-Nearer tid has_this s e h = runs-Nearer tid has_this s _ e refl refl (omega arith)
run_step-Nearer tid has_name s e h = runs-Nearer tid has_name s _ e refl refl (omega arith)
run_step-Nearer tid has_id s e h = runs-Nearer tid has_id s _ e refl refl (omega arith)
run_step-Nearer tid has_cb s e h = runs-Nearer tid has_cb s _ e refl refl (omega arith)
run_step-Nearer tid notified s e h = runs-Nearer tid notified s _ e refl refl (omega arith)

wait-Nearer : (tid n : ℕ) (s : State) → s.parent ≡ waiting → s.sem ≡ suc n → Nearer tid s
unfolding wait
wait-Nearer tid n s e h = (
  record s { sem = n; parent = returned },
  waits e (ap (λ k. wait (record s { sem = k })) h),
  omega (arith, ap left_parent e),
)

child_cases : (c : Child) → (1 ≤ left_child c) ⊎ ((c ≡ absent) ⊎ (c ≡ finished))
child_cases absent = inr (inl refl)
child_cases finished = inr (inr refl)
child_cases c = inl (omega arith)

IsOver-Nearer :
    (tid : ℕ) (name : Text) (p : Parent) (s : State)
    → s.parent ≡ p
    → IsSound tid name s
    → IsOver s ⊎ Nearer tid s
unfolding create
IsOver-Nearer tid name creating s e i =
    inr (create true s, creates true e, omega (arith, ap left_parent e, ap left_child (i.before e)))
IsOver-Nearer tid name threw s e i = inl (inl (e, i.called ∙ ap ended (i.without e)))
IsOver-Nearer tid name waiting s e i = elim (child_cases s.child) [
  | inl h ↦ inr (run_step-Nearer tid s.child s refl h)
  | inr (inl a) ↦ absurd (omega (arith, i.begun e, ap done a))
  | inr (inr f) ↦ inr (wait-Nearer tid 0 s e (omega (arith, i.balance, ap passed e, ap posted f)))
]
IsOver-Nearer tid name returned s e i = elim (child_cases s.child) [
  | inl h ↦ inr (run_step-Nearer tid s.child s refl h)
  | inr (inl a) ↦ absurd (omega (arith, i.balance, ap passed e, ap posted a))
  | inr (inr f) ↦ inl (inr (e, i.called ∙ ap ended f))
]

run_step-left :
    (tid : ℕ) (c : Child) (s t : State) → s.child ≡ c → run_step tid c s ≡ some t → left t ≤ left s
unfolding run_step notify
run_step-left tid absent s t e h = absurd (ground (arith, h))
run_step-left tid finished s t e h = absurd (ground (arith, h))
run_step-left tid c s t e h = ground (arith, h)

Step-left :
    {tid : ℕ} {name : Text} {s t : State}
    → IsSound tid name s
    → Step false tid s t
    → left t ≤ left s
Step-left i (creates true e) =
    unfold create in omega (arith, ap left_parent e, ap left_child (i.before e))
Step-left i (creates false e) = unfold create in omega (arith, ap left_parent e)
Step-left {s} {t} i (waits e h) = unfold wait in ground (arith, e, h)
Step-left i (interrupted b e) = absurd (ground (arith, b))
Step-left {tid} {s} {t} i (runs h) = run_step-left tid s.child s t refl h
Step-left i (joins e a h) = unfold join in ground (arith, h)
Step-left i (names n e h) = unfold set_name in ground (arith, h)
Step-left i (destroys e a) = unfold destroy in omega arith

-- As long as no signal interrupts the wait: a state that the two threads reach is the end of both, or
-- a step is possible that brings it nearer, and no step leads away from the end. At the end either
-- `pthread_create` has failed and the function was never called, or the constructor has returned
-- and the function has been called exactly once.
pub Reach-progress :
    (tid : ℕ) (name : Text) (s : State)
    → Reach false tid name s
    → (IsOver s ⊎ Nearer tid s) × ((t : State) → Step false tid s t → left t ≤ left s)
Reach-progress tid name s r =
    let i : IsSound tid name s = Reach-IsSound r in
    (IsOver-Nearer tid name s.parent s refl i, λ t st. Step-left i st)
