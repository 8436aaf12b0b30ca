-- ===== src/Scheduler/Rounds.antt =====
-- The branches of the loop of `Scheduler::run` (wb_server/scheduler.cc) keep every fiber calm.
use cpp_wb_server.Common.{
  ℕ, ◌+◌, ◌-◌, ◌≡◌, ◌≢◌, refl, ◌⊎◌, inl, inr, true, false, Option, none, some, update_self, arith,
  Bool-cases,
}
use cpp_wb_server.Log.World.{ok}
use cpp_wb_server.Fiber.{
  Fiber, State, initial, hold, Code, is_exec, is_over, is_initial, is_term, is_ready, reset,
}
use cpp_wb_server.Scheduler.{
  of_fiber, Scheduler, put_fiber, set_state, scheduler, swap_active, run_fiber, after_cb, run_idle,
}
use cpp_wb_server.Scheduler.Safety.{
  IsCalm, IsFree, Back, put-Back, scheduler-SameFibers, Back-same, Back-trans, swap_in-Back,
}

-- A null function leaves the fiber over.
abbrev pub EndsNull : ℕ → Scheduler → Scheduler → Type 0
EndsNull f s s' = ((s.fibers f).cb ≢ none) ⊎ (is_over (s'.fibers f).state ≡ true)

pub over-calm : (st : State) → is_over st ≡ true → (is_exec st ≡ false) × (is_ready st ≡ false)
unfolding is_over is_exec is_ready
over-calm st h = ground (arith, h)

pub swap_active-Back :
    (f : ℕ) (s : Scheduler)
    → IsCalm (s.fibers f)
    → is_over (s.fibers f).state ≡ false
    → (s' : Scheduler) × (swap_active f s ≡ ok s') × Back f s s' × EndsNull f s s'
unfolding swap_active
swap_active-Back f s h v =
    let s₁ : Scheduler = record s { active_thread_count = s.active_thread_count + 1 } in
    let (s', e, b, n) = swap_in-Back f s₁ h v in
    (
      record s' { active_thread_count = s'.active_thread_count - 1 },
      rw e,
      record {
        calm = b.calm;
        others = b.others;
        active_kept = omega (arith, b.active_kept);
        next_kept = b.next_kept;
      },
      n,
    )

pub run_fiber-Back :
    (f : ℕ) (s : Scheduler)
    → IsCalm (s.fibers f)
    → is_over (s.fibers f).state ≡ false
    → (s' : Scheduler) × (run_fiber f s ≡ ok s') × Back f s s' × EndsNull f s s'
unfolding run_fiber
run_fiber-Back f s h v =
    let (s₁, e, b, n) = swap_active-Back f s h v in
    elim (Bool-cases (is_ready (s₁.fibers f).state)) [
      | inl r ↦
          let k = scheduler-SameFibers (of_fiber f) none s₁ in
          (
            scheduler (of_fiber f) none s₁,
            rw (e, r),
            Back-same b k,
            elim n [ inl a ↦ inl a | inr o ↦ absurd (ground (arith, r, over-calm _ o)) ],
          )
      | inr r ↦ elim (Bool-cases (is_over (s₁.fibers f).state)) [
        | inl o ↦ (s₁, rw (e, r, o), b, inr o)
        | inr o ↦ (
          set_state f hold s₁,
          rw (e, r, o),
          Back-trans b (put-Back f _ s₁ (unfold is_exec in refl, b.calm.1)),
          elim n [ inl a ↦ inl a | inr q ↦ absurd (ground (arith, q, o)) ],
        )
      ]
    ]

-- Either the `break`, or a state in which the call on `f` has come back.
abbrev pub OnContinue {ℓ κ} : {A : Type ℓ} → (A → Type κ) → Option A → Type κ
OnContinue P none = Unit
OnContinue P (some a) = P a

pub run_idle-Back :
    (f : ℕ) (s : Scheduler)
    → IsCalm (s.fibers f)
    → ((is_term (s.fibers f).state ≡ true) ⊎ (is_over (s.fibers f).state ≡ false))
    → (r : Option Scheduler) × (run_idle f s ≡ ok r) × OnContinue (Back f s) r
unfolding run_idle
run_idle-Back f s h v = elim (Bool-cases (is_term (s.fibers f).state)) [
  | inl t ↦ (none, rw t, tt)
  | inr t ↦
      let (s₁, e, b, n) =
        swap_in-Back f (record s { idle_thread_count = s.idle_thread_count + 1 }) h
          (elim v [ inl a ↦ absurd (ground (arith, a, t)) | inr a ↦ a ]) in
      let s₂ : Scheduler = record s₁ { idle_thread_count = s₁.idle_thread_count - 1 } in
      let b₂ : Back f s s₂ = record {
        calm = b.calm;
        others = b.others;
        active_kept = b.active_kept;
        next_kept = b.next_kept;
      } in
      elim (Bool-cases (is_over (s₁.fibers f).state)) [
        | inl o ↦ (some s₂, rw (t, e, o), b₂)
        | inr o ↦ (
          some (set_state f hold s₂),
          rw (t, e, o),
          Back-trans b₂ (put-Back f _ s₂ (unfold is_exec in refl, b.calm.1)),
        )
      ]
]

-- `cb_fiber` holds nothing, or the fiber `f`, which `reset` takes.
abbrev pub IsCbOf : ℕ → Option ℕ → Scheduler → Type 0
IsCbOf f cb s = (cb ≡ none) ⊎ ((cb ≡ some f) × IsFree (s.fibers f))

pub reset-ok :
    (cb : Option Code) (x : Fiber)
    → x.has_stack ≡ true
    → IsFree x
    → reset cb x ≡ ok (record x { cb = cb; state = initial })
unfolding reset
reset-ok cb x h (inl o) = rw (h, o)
reset-ok cb x h (inr (i, _)) = elim (Bool-cases (is_over x.state)) [
  | inl o ↦ rw (h, o)
  | inr o ↦ rw (h, o, i)
]

pub after_cb-Back :
    (f : ℕ) (s : Scheduler)
    → IsCalm (s.fibers f)
    → (r : Option ℕ × Scheduler) × (after_cb f s ≡ ok r) × Back f s r.1 × IsCbOf f r.0 r.1
unfolding after_cb
after_cb-Back f s h = elim (Bool-cases (is_ready (s.fibers f).state)) [
  | inl r ↦ (
    (none, scheduler (of_fiber f) none s),
    rw r,
    Back-same (Back-refl f s h) (scheduler-SameFibers (of_fiber f) none s),
    inl refl,
  )
  | inr r ↦ elim (Bool-cases (is_over (s.fibers f).state)) [
    | inl o ↦
        let x : Fiber = record (s.fibers f) { cb = none; state = initial } in
        (
          (some f, put_fiber f x s),
          rw (r, o, h.1),
          put-Back f x s (unfold is_exec in refl, h.1),
          inr (refl, rw (update_self s.fibers f x) (inr (unfold is_initial in refl, refl))),
        )
    | inr o ↦ (
      (none, set_state f hold s),
      rw (r, o),
      put-Back f _ s (unfold is_exec in refl, h.1),
      inl refl,
    )
  ]
]
  where
    Back-refl : (f : ℕ) (s : Scheduler) → IsCalm (s.fibers f) → Back f s s
    Back-refl f s h = record {
      calm = h;
      others = λ g ne. refl;
      active_kept = refl;
      next_kept = refl;
    }
