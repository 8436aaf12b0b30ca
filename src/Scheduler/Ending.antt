-- ===== src/Scheduler/Ending.antt =====
-- Each round of the loop of `Scheduler::run` (wb_server/scheduler.cc) does some of the work.
use cpp_wb_server.Fiber
use cpp_wb_server.Common.{
  ℕ, ◌+◌, ◌-◌, ◌≡◌, ◌≢◌, ◌≤◌, ◌<◌, refl, sym, ap, subst, ◌∙◌, ◌⊎◌, inl, inr, false, Option, none,
  some, update_self, update_ne, arith, Bool-cases,
}
use cpp_wb_server.Log.World.{ok}
use cpp_wb_server.Fiber.{
  Fiber, State, exec, hold, initial, failed, Code, done, is_exec, is_over, is_term, is_ready,
  is_initial,
}
use cpp_wb_server.Scheduler.{
  of_fiber, Scheduler, put_fiber, set_state, new_fiber, scheduler, swap_active, run_fiber,
  fiber_for, after_cb, run_cb,
}
use cpp_wb_server.Scheduler.Safety.{IsCalm, IsFree, Back}
use cpp_wb_server.Scheduler.Rounds.{EndsNull, swap_active-Back, after_cb-Back, reset-ok, over-calm}
use cpp_wb_server.Scheduler.Branches.{ok-inj}
use cpp_wb_server.Scheduler.Work.{
  size, cb_size, work, hit, swap_in-work, put_fiber-work, scheduler-work, total_above,
}

swap_active-work :
    (f : ℕ) (s : Scheduler)
    → f < s.next
    → is_exec (s.fibers f).state ≡ false
    → is_over (s.fibers f).state ≡ false
    → (s' : Scheduler) × (swap_active f s ≡ ok s') × (work s' + hit (s.fibers f).cb ≤ work s)
unfolding swap_active
swap_active-work f s h e o =
    let (s', q, b) =
      swap_in-work f (record s { active_thread_count = s.active_thread_count + 1 }) h e o in
    (record s' { active_thread_count = s'.active_thread_count - 1 }, rw q, b)

-- Both facts of one switch.
swap_active-both :
    (f : ℕ) (s : Scheduler)
    → f < s.next
    → IsCalm (s.fibers f)
    → is_over (s.fibers f).state ≡ false
    → (s' : Scheduler) × (swap_active f s ≡ ok s')
      × Back f s s'
      × EndsNull f s s'
      × (work s' + hit (s.fibers f).cb ≤ work s)
swap_active-both f s h c v =
    let (s', q, b) = swap_active-work f s h c.0 v in
    let (t, r, k, n) = swap_active-Back f s c v in
    let same : t ≡ s' = ok-inj (sym r ∙ q) in
    (s', q, subst (Back f s) same k, subst (EndsNull f s) same n, b)

hit-some : (cb : Option Code) → cb ≢ none → hit cb ≡ 1
hit-some none h = absurd (h refl)
hit-some (some c) h = refl

-- A fiber that runs and is put back costs one step at least.
pub run_fiber-work :
    (f : ℕ) (s : Scheduler)
    → f < s.next
    → IsCalm (s.fibers f)
    → is_over (s.fibers f).state ≡ false
    → (s' : Scheduler) × (run_fiber f s ≡ ok s') × (work s' ≤ work s)
unfolding run_fiber
run_fiber-work f s h c v =
    let (s₁, e, b, n, w) = swap_active-both f s h c v in
    elim (Bool-cases (is_ready (s₁.fibers f).state)) [
      | inl r ↦
          let one : hit (s.fibers f).cb ≡ 1 = elim n [
            | inl a ↦ hit-some (s.fibers f).cb a
            | inr o ↦ absurd (ground (arith, r, over-calm _ o))
          ] in
          (
            scheduler (of_fiber f) none s₁,
            rw (e, r),
            omega (arith, w, one, scheduler-work (of_fiber f) none s₁),
          )
      | inr r ↦ elim (Bool-cases (is_over (s₁.fibers f).state)) [
        | inl o ↦ (s₁, rw (e, r, o), omega (arith, w))
        | inr o ↦ (
          set_state f hold s₁,
          rw (e, r, o),
          omega (
            arith,
            w,
            put_fiber-work f (record (s₁.fibers f) { state = hold }) s₁ (rw b.next_kept h),
          ),
        )
      ]
    ]

after_cb-work :
    (f : ℕ) (s : Scheduler)
    → f < s.next
    → IsCalm (s.fibers f)
    → (r : Option ℕ × Scheduler) × (after_cb f s ≡ ok r) × (work r.1 ≤ work s + 1)
unfolding after_cb
after_cb-work f s h c = elim (Bool-cases (is_ready (s.fibers f).state)) [
  | inl r ↦ (
    (none, scheduler (of_fiber f) none s),
    rw r,
    omega (arith, scheduler-work (of_fiber f) none s),
  )
  | inr r ↦ elim (Bool-cases (is_over (s.fibers f).state)) [
    | inl o ↦
        let x : Fiber = record (s.fibers f) { cb = none; state = initial } in
        ((some f, put_fiber f x s), rw (r, o, c.1), omega (arith, put_fiber-work f x s h))
    | inr o ↦ (
      (none, set_state f hold s),
      rw (r, o),
      omega (arith, put_fiber-work f (record (s.fibers f) { state = hold }) s h),
    )
  ]
]

-- The fiber `f` that a callback gets: it holds it, and the others are as they were.
record Fits (cb : Option ℕ) (c : Code) (s : Scheduler) (f : ℕ) (s' : Scheduler) : Type 0 where
  work_added : work s' ≤ work s + size c
  below : f < s'.next
  holds : (s'.fibers f).cb ≡ some c
  calm : IsCalm (s'.fibers f)
  fresh : is_over (s'.fibers f).state ≡ false
  next_grows : s.next ≤ s'.next
  others : (g : ℕ) → g ≢ f → s'.fibers g ≡ s.fibers g
  chosen : ((cb ≡ none) × (f ≡ s.next)) ⊎ (cb ≡ some f)

-- `cb_fiber` is a fiber that there is, and that can be reset.
abbrev pub IsCbFiber : Option ℕ → Scheduler → Type 0
IsCbFiber cb s = (cb ≡ none) ⊎ ((f : ℕ) × (cb ≡ some f) × IsFree (s.fibers f) × (f < s.next))

fiber_for-Fits :
    (cb : Option ℕ) (c : Code) (s : Scheduler)
    → ((f : ℕ) → IsCalm (s.fibers f))
    → IsCbFiber cb s
    → (r : ℕ × Scheduler) × (fiber_for cb c s ≡ ok r) × Fits cb c s r.0 r.1
unfolding fiber_for new_fiber
fiber_for-Fits cb c s calm (inl h) =
    let x : Fiber = Fiber.new c in
    let same = update_self s.fibers s.next x in
    (
      (s.next, new_fiber c s),
      ap (λ o. fiber_for o c s) h,
      record {
        work_added = omega (
          arith,
          total_above s.next s.next s.fibers x (omega arith),
          ap (λ (y : Fiber). cb_size y.cb) same,
        );
        below = omega arith;
        holds = ap (λ (y : Fiber). y.cb) same;
        calm = subst IsCalm (sym same) (unfold is_exec in refl, refl);
        fresh = ap (λ (y : Fiber). is_over y.state) same ∙ unfold is_over in refl;
        next_grows = omega arith;
        others = λ g ne. update_ne s.fibers s.next g x (λ e. ne (sym e));
        chosen = inl (h, refl);
      },
    )
fiber_for-Fits cb c s calm (inr (f, h, free, b)) =
    let x : Fiber = record (s.fibers f) { cb = some c; state = initial } in
    let same = update_self s.fibers f x in
    (
      (f, put_fiber f x s),
      ap (λ o. fiber_for o c s) h ∙ rw (reset-ok (some c) (s.fibers f) (calm f).1 free),
      record {
        work_added = omega (arith, put_fiber-work f x s b);
        below = b;
        holds = ap (λ (y : Fiber). y.cb) same;
        calm = subst IsCalm (sym same) (unfold is_exec in refl, (calm f).1);
        fresh = ap (λ (y : Fiber). is_over y.state) same ∙ unfold is_over in refl;
        next_grows = omega arith;
        others = λ g ne. update_ne s.fibers f g x (λ e. ne (sym e));
        chosen = inr h;
      },
    )

-- What the branch for a callback leaves; `f` is the fiber that it used.
pub record RanCb (cb : Option ℕ) (c : Code) (s : Scheduler) (f : ℕ) (r : Option ℕ × Scheduler)
    : Type 0 where
  pub work_kept : work r.1 ≤ work s + size c
  pub below : f < r.1.next
  pub next_grows : s.next ≤ r.1.next
  pub others : (g : ℕ) → g ≢ f → r.1.fibers g ≡ s.fibers g
  pub chosen : ((cb ≡ none) × (f ≡ s.next)) ⊎ (cb ≡ some f)
  pub cb_left : (r.0 ≡ none) ⊎ (r.0 ≡ some f)

pub run_cb-RanCb :
    (cb : Option ℕ) (c : Code) (s : Scheduler)
    → ((f : ℕ) → IsCalm (s.fibers f))
    → IsCbFiber cb s
    → (r : Option ℕ × Scheduler) × (f : ℕ) × (run_cb cb c s ≡ ok r) × RanCb cb c s f r
unfolding run_cb
run_cb-RanCb cb c s calm k =
    let ((f, s₁), e₁, i) = fiber_for-Fits cb c s calm k in
    let (s₂, e₂, b₂, _, w₂) = swap_active-both f s₁ i.below i.calm i.fresh in
    let (r, e₃, b₃, q) = after_cb-Back f s₂ b₂.calm in
    let (r', e₄, w₄) = after_cb-work f s₂ (rw b₂.next_kept i.below) b₂.calm in
    let same : r' ≡ r = ok-inj (sym e₄ ∙ e₃) in
    let w : work r.1 ≤ work s₂ + 1 =
      subst (λ (z : Option ℕ × Scheduler). work z.1 ≤ work s₂ + 1) same w₄ in
    let one : hit (s₁.fibers f).cb ≡ 1 = ap hit i.holds in
    (
      r,
      f,
      rw (e₁, e₂, e₃),
      record {
        work_kept = omega (arith, w, w₂, one, i.work_added);
        below = rw (b₃.next_kept, b₂.next_kept) i.below;
        next_grows = rw (b₃.next_kept, b₂.next_kept) i.next_grows;
        others = λ g ne. b₃.others g ne ∙ b₂.others g ne ∙ i.others g ne;
        chosen = i.chosen;
        cb_left = elim q [ inl h ↦ inl h | inr h ↦ inr h.0 ];
      },
    )
