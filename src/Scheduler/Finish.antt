-- ===== src/Scheduler/Finish.antt =====
-- `Scheduler::run` (wb_server/scheduler.cc) returns.
use cpp_wb_server.Common.{
  ℕ, ◌+◌, ◌-◌, ◌≡◌, ◌≤◌, ◌<◌, sym, ap, subst, ◌∙◌, inl, inr, false, Option, none, some, arith,
  Bool-cases,
}
use cpp_wb_server.Log.World.{ok}
use cpp_wb_server.Fiber.{Fiber, Code, done, is_exec, is_over, is_term}
use cpp_wb_server.Scheduler.{Scheduler, Locals, run_cb, run_idle}
use cpp_wb_server.Scheduler.Safety.{Back}
use cpp_wb_server.Scheduler.Rounds.{OnContinue, run_idle-Back}
use cpp_wb_server.Scheduler.Branches.{IsSafe, Goes, run_idle-Goes, run_cb-Goes, ok-inj}
use cpp_wb_server.Scheduler.Work.{size, work, hit, swap_in-work}
use cpp_wb_server.Scheduler.Ending.{run_cb-RanCb, RanCb, IsCbFiber}
use cpp_wb_server.Scheduler.Ends.{Back-blank, IsEnding, Lowers}
use cpp_wb_server.Scheduler.Idle.{term-over, swap_in-done}

some-inj : {a b : ℕ} → some a ≡ some b → a ≡ b
some-inj h = cc

IsEnding-cb : (l : Locals) (s : Scheduler) → IsEnding l s → IsCbFiber l.cb_fiber s
IsEnding-cb l s i = elim i.safe.cb_free [
  | inl h ↦ inl h
  | inr (f, h, free, _) ↦ inr (f, h, free, i.cb_below f h)
]

pub run_cb-Lowers :
    (c : Code) (l : Locals) (s : Scheduler)
    → IsEnding l s
    → (r : Option ℕ × Scheduler) × (run_cb l.cb_fiber c s ≡ ok r)
      × Lowers (work s + size c) (record l { cb_fiber = r.0 }, r.1)
run_cb-Lowers c l s i =
    let (r, e, (g, a)) = run_cb-Goes c l s i.safe in
    let (r', f, e', k) = run_cb-RanCb l.cb_fiber c s i.safe.calm (IsEnding-cb l s i) in
    (r, e, lowers r g (subst (RanCb l.cb_fiber c s f) (ok-inj (sym e' ∙ e)) k))
  where
    lowers :
        {f : ℕ} (r : Option ℕ × Scheduler)
        → IsSafe (record l { cb_fiber = r.0 }) r.1
        → RanCb l.cb_fiber c s f r
        → Lowers (work s + size c) (record l { cb_fiber = r.0 }, r.1)
    lowers {f} r g k = (
      record {
        safe = g;
        cb_below = λ h q. elim k.cb_left [
          | inl n ↦ absurd (ground (arith, sym n ∙ q))
          | inr n ↦ subst (λ z. z < r.1.next) (some-inj (sym n ∙ q)) k.below
        ];
        blank = λ h q.
            ap (λ (x : Fiber). is_over x.state)
              (k.others h (λ e. absurd (omega (arith, e, k.below, q))))
            ∙ i.blank h (omega (arith, k.next_grows, q));
      },
      k.work_kept,
    )

-- A switch to the idle fiber takes one step.
pub run_idle-Lowers :
    (l : Locals) (s : Scheduler)
    → IsEnding l s
    → (r : Option Scheduler) × (run_idle l.idle_fiber s ≡ ok r)
      × OnContinue (λ s'. IsEnding l s' × (work s' + 1 ≤ work s)) r
unfolding run_idle
run_idle-Lowers l s i = elim (Bool-cases (is_term (s.fibers l.idle_fiber).state)) [
  | inl t ↦ (none, rw t, tt)
  | inr t ↦
      let f : ℕ = l.idle_fiber in
      let s₁ : Scheduler = record s { idle_thread_count = s.idle_thread_count + 1 } in
      let e : is_exec (s.fibers f).state ≡ false = (i.safe.calm f).0 in
      let (d, n) : ((s.fibers f).cb ≡ some done) × (is_over (s.fibers f).state ≡ false) =
        elim i.safe.idle_ok [ inl a ↦ absurd (ground (arith, a, t)) | inr a ↦ a ] in
      let (s₂, q, o) = swap_in-done f s₁ e n d in
      let (s₃, q', w) = swap_in-work f s₁ i.safe.idle_below e n in
      let s₄ : Scheduler = record s₂ { idle_thread_count = s₂.idle_thread_count - 1 } in
      let run : run_idle f s ≡ ok (some s₄) = rw (t, q, (term-over _ o).0) in
      let w' : work s₂ + hit (s.fibers f).cb ≤ work s =
        subst (λ (z : Scheduler). work z + hit (s.fibers f).cb ≤ work s) (ok-inj (sym q' ∙ q)) w in
      (some s₄, rw (t, q, (term-over _ o).0), (ending s₄ run, omega (arith, w', ap hit d)))
]
  where
    some-same : {a b : Scheduler} → ok (some a) ≡ ok (some b) → a ≡ b
    some-same h = cc

    ending : (s' : Scheduler) → run_idle l.idle_fiber s ≡ ok (some s') → IsEnding l s'
    ending s' q =
        let (r, e, g) = run_idle-Goes l s i.safe in
        let (r', e', b) =
          run_idle-Back l.idle_fiber s (i.safe.calm l.idle_fiber)
            (elim i.safe.idle_ok [ inl t ↦ inl t | inr d ↦ inr d.1 ]) in
        go (subst (OnContinue (λ z. Goes s (l, z))) (ok-inj (sym e ∙ q)) g)
          (subst (OnContinue (Back l.idle_fiber s)) (ok-inj (sym e' ∙ q)) b)
      where
        go : Goes s (l, s') → Back l.idle_fiber s s' → IsEnding l s'
        go g b = record {
          safe = g.0;
          cb_below = λ k h. rw b.next_kept (i.cb_below k h);
          blank = Back-blank b i.safe.idle_below i.blank;
        }
