-- ===== src/Scheduler/Ends.antt =====
-- The loop of `Scheduler::run` (wb_server/scheduler.cc) comes to its `break`.
use cpp_wb_server.Common.{ltb}
use cpp_wb_server.Common.{
  ℕ, ◌≡◌, ◌≤◌, ◌<◌, sym, ap, subst, ◌∙◌, inl, inr, true, false, some, arith, Bool-cases,
}
use cpp_wb_server.Log.World.{ok}
use cpp_wb_server.Fiber.{Fiber, is_over}
use cpp_wb_server.Scheduler.{Scheduler, Locals, run_fiber}
use cpp_wb_server.Scheduler.Safety.{IsCalm, Back}
use cpp_wb_server.Scheduler.Rounds.{run_fiber-Back}
use cpp_wb_server.Scheduler.Branches.{IsSafe, run_fiber-Goes, ok-inj}
use cpp_wb_server.Scheduler.Work.{work}
use cpp_wb_server.Scheduler.Ending.{run_fiber-work}

-- Besides safety: `cb_fiber` is a fiber that there is, and no fiber that there is not is switched to.
pub record IsEnding (l : Locals) (s : Scheduler) : Type 0 where
  pub safe : IsSafe l s
  pub cb_below : (f : ℕ) → l.cb_fiber ≡ some f → f < s.next
  pub blank : (k : ℕ) → s.next ≤ k → is_over (s.fibers k).state ≡ true

-- A round ends in such a state with at most `n` of work left.
abbrev pub Lowers : ℕ → Locals × Scheduler → Type 0
Lowers n (l', s') = IsEnding l' s' × (work s' ≤ n)

pub Back-blank :
    {f : ℕ} {s s' : Scheduler}
    → Back f s s'
    → f < s.next
    → ((k : ℕ) → s.next ≤ k → is_over (s.fibers k).state ≡ true)
    → (k : ℕ) → s'.next ≤ k
    → is_over (s'.fibers k).state ≡ true
Back-blank {f} {s} b h o k q =
    let above : s.next ≤ k = rw (sym b.next_kept) q in
    ap (λ (x : Fiber). is_over x.state) (b.others k (λ e. absurd (omega (arith, e, h, above))))
    ∙ o k above

below-next :
    (s : Scheduler) (f : ℕ)
    → ((k : ℕ) → s.next ≤ k → is_over (s.fibers k).state ≡ true)
    → is_over (s.fibers f).state ≡ false
    → f < s.next
below-next s f o h = elim (Bool-cases (ltb f s.next)) [
  | inl a ↦ ground (arith, a)
  | inr a ↦ absurd (ground (arith, o f (ground (arith, a)), h))
]

pub run_fiber-Lowers :
    (f : ℕ) (l : Locals) (s : Scheduler)
    → IsEnding l s
    → is_over (s.fibers f).state ≡ false
    → (s' : Scheduler) × (run_fiber f s ≡ ok s') × Lowers (work s) (l, s')
run_fiber-Lowers f l s i o =
    let h : f < s.next = below-next s f i.blank o in
    let c : IsCalm (s.fibers f) = i.safe.calm f in
    let (s', e, (g, a)) = run_fiber-Goes f l s i.safe o in
    let (s₁, e₁, b, _) = run_fiber-Back f s c o in
    let (s₂, e₂, w) = run_fiber-work f s h c o in
    let b' : Back f s s' = subst (Back f s) (ok-inj (sym e₁ ∙ e)) b in
    (
      s',
      e,
      (
        record {
          safe = g;
          cb_below = λ k q. rw b'.next_kept (i.cb_below k q);
          blank = Back-blank b' h i.blank;
        },
        subst (λ (z : Scheduler). work z ≤ work s) (ok-inj (sym e₂ ∙ e)) w,
      ),
    )
