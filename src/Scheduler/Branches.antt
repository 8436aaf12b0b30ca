-- ===== src/Scheduler/Branches.antt =====
-- The three branches of a round of `Scheduler::run` (wb_server/scheduler.cc) are safe.
use cpp_wb_server.Common.{
  true, update_self, update_ne, ℕ, ◌≡◌, ◌≢◌, ◌<◌, refl, sym, ap, subst, ◌∙◌, ◌⊎◌, inl, inr, false,
  Option, none, some, ◌==◌, ==_iff, update_cases, arith, Bool-cases,
}
use cpp_wb_server.Log.World.{ok}
use cpp_wb_server.Fiber.{Fiber, initial, Code, is_exec, is_over}
use cpp_wb_server.Scheduler.{
  Scheduler, Locals, put_fiber, new_fiber, run_fiber, fiber_for, run_cb, run_idle,
}
use cpp_wb_server.Scheduler.Idle.{IsIdle, term-over, run_fiber-done, run_idle-done}
use cpp_wb_server.Fiber.{done, is_term}
use cpp_wb_server.Fiber
use cpp_wb_server.Scheduler.Safety.{IsCalm, IsFree, Back}
use cpp_wb_server.Scheduler.Rounds.{
  EndsNull, OnContinue, run_fiber-Back, run_idle-Back, swap_active-Back, after_cb-Back, reset-ok,
}

pub ok-inj {ℓ} : {A : Type ℓ} {a b : A} → ok a ≡ ok b → a ≡ b
ok-inj h = cc

-- No fiber runs, all have their stacks, `cb_fiber` can be reset and is not the idle fiber, and the
-- idle fiber has ended or is to run `Scheduler::idle`.
pub record IsSafe (l : Locals) (s : Scheduler) : Type 0 where
  pub calm : (f : ℕ) → IsCalm (s.fibers f)
  pub cb_free :
      (l.cb_fiber ≡ none)
      ⊎ ((f : ℕ) × (l.cb_fiber ≡ some f) × IsFree (s.fibers f) × (f ≢ l.idle_fiber))
  pub idle_below : l.idle_fiber < s.next
  pub idle_ok : IsIdle (s.fibers l.idle_fiber)

-- What a round leaves, if it does not break.
abbrev pub Goes : Scheduler → Locals × Scheduler → Type 0
Goes s (l', s') = IsSafe l' s' × (s'.active_thread_count ≡ s.active_thread_count)

Back-IsCalm :
    {f : ℕ} {s s' : Scheduler}
    → Back f s s'
    → ((g : ℕ) → IsCalm (s.fibers g))
    → (g : ℕ) → IsCalm (s'.fibers g)
Back-IsCalm {f} {s} {s'} b h g = elim (Bool-cases (g == f)) [
  | inl e ↦ subst (λ k. IsCalm (s'.fibers k)) (sym ((==_iff g f).0 e)) b.calm
  | inr e ↦
      subst IsCalm (sym (b.others g (λ q. absurd (ground (arith, e, (==_iff g f).1 q))))) (h g)
]

IsFree-kept :
    (f g : ℕ) (s s' : Scheduler)
    → Back f s s'
    → EndsNull f s s'
    → is_over (s.fibers f).state ≡ false
    → IsFree (s.fibers g)
    → IsFree (s'.fibers g)
IsFree-kept f g s s' b n o h = elim (Bool-cases (g == f)) [
  | inl e ↦
      subst (λ k. IsFree (s'.fibers k)) (sym ((==_iff g f).0 e))
        (here (subst (λ k. IsFree (s.fibers k)) ((==_iff g f).0 e) h))
  | inr e ↦ subst IsFree (sym (b.others g (λ q. absurd (ground (arith, e, (==_iff g f).1 q))))) h
]
  where
    here : IsFree (s.fibers f) → IsFree (s'.fibers f)
    here (inl over) = absurd (ground (arith, over, o))
    here (inr (i, null)) = elim n [ inl has ↦ absurd (has null) | inr over ↦ inl over ]

pub run_fiber-Goes :
    (f : ℕ) (l : Locals) (s : Scheduler)
    → IsSafe l s
    → is_over (s.fibers f).state ≡ false
    → (s' : Scheduler) × (run_fiber f s ≡ ok s') × Goes s (l, s')
run_fiber-Goes f l s i o =
    let (s', e, b, n) = run_fiber-Back f s (i.calm f) o in
    (
      s',
      e,
      (
        record {
          calm = Back-IsCalm b i.calm;
          cb_free = elim i.cb_free [
            | inl h ↦ inl h
            | inr (g, h, free, apart) ↦ inr (g, h, IsFree-kept f g s s' b n o free, apart)
          ];
          idle_below = rw b.next_kept i.idle_below;
          idle_ok = elim (Bool-cases (l.idle_fiber == f)) [
            | inl q ↦ at_idle s' e ((==_iff l.idle_fiber f).0 q)
            | inr q ↦
                subst IsIdle
                  (sym (
                    b.others l.idle_fiber
                      (λ r. absurd (ground (arith, q, (==_iff l.idle_fiber f).1 r)))))
                  i.idle_ok
          ];
        },
        b.active_kept,
      ),
    )
  where
    at_idle :
        (s' : Scheduler)
        → run_fiber f s ≡ ok s'
        → l.idle_fiber ≡ f
        → IsIdle (s'.fibers l.idle_fiber)
    at_idle s' e same = elim i.idle_ok [
      | inl t ↦ absurd (
          ground
            (arith, term-over _ t, subst (λ k. is_over (s.fibers k).state ≡ false) (sym same) o))
      | inr (d, _) ↦
          let (s₁, e₁, t) =
            run_fiber-done f s (i.calm f).0 o (subst (λ k. (s.fibers k).cb ≡ some done) same d) in
          inl (
            subst (λ k. is_term (s'.fibers k).state ≡ true) (sym same)
              (subst (λ (z : Scheduler). is_term (z.fibers f).state ≡ true) (ok-inj (sym e₁ ∙ e))
                t))
    ]

pub run_idle-Goes :
    (l : Locals) (s : Scheduler)
    → IsSafe l s
    → (r : Option Scheduler) × (run_idle l.idle_fiber s ≡ ok r)
      × OnContinue (λ s'. Goes s (l, s')) r
run_idle-Goes l s i =
    let (r, e, b) =
      run_idle-Back l.idle_fiber s (i.calm l.idle_fiber)
        (elim i.idle_ok [ inl t ↦ inl t | inr d ↦ inr d.1 ]) in
    let (r', e', t) = run_idle-done l.idle_fiber s (i.calm l.idle_fiber).0 i.idle_ok in
    (r, e, goes r b (subst (OnContinue IsEnded) (ok-inj (sym e' ∙ e)) t))
  where
    IsEnded : Scheduler → Type 0
    IsEnded s' = is_term (s'.fibers l.idle_fiber).state ≡ true

    goes :
        (r : Option Scheduler)
        → OnContinue (Back l.idle_fiber s) r
        → OnContinue IsEnded r
        → OnContinue (λ s'. Goes s (l, s')) r
    goes none b t = tt
    goes (some s') b t = (
      record {
        calm = Back-IsCalm b i.calm;
        cb_free = elim i.cb_free [
          | inl h ↦ inl h
          | inr (g, h, free, apart) ↦ inr (g, h, subst IsFree (sym (b.others g apart)) free, apart)
        ];
        idle_below = rw b.next_kept i.idle_below;
        idle_ok = inl t;
      },
      b.active_kept,
    )

-- The fiber `f` that a callback gets: a calm state in which it is not the idle one.
record Given (l : Locals) (s : Scheduler) (f : ℕ) (s' : Scheduler) : Type 0 where
  calm : (g : ℕ) → IsCalm (s'.fibers g)
  apart : f ≢ l.idle_fiber
  idle_below : l.idle_fiber < s'.next
  active_kept : s'.active_thread_count ≡ s.active_thread_count
  fresh : is_over (s'.fibers f).state ≡ false
  idle_same : s'.fibers l.idle_fiber ≡ s.fibers l.idle_fiber

fiber_for-Given :
    (c : Code) (l : Locals) (s : Scheduler)
    → IsSafe l s
    → (r : ℕ × Scheduler) × (fiber_for l.cb_fiber c s ≡ ok r) × Given l s r.0 r.1
unfolding fiber_for new_fiber
fiber_for-Given c l s i = elim i.cb_free [
  | inl h ↦ (
    (s.next, new_fiber c s),
    ap (λ cb. fiber_for cb c s) h,
    record {
      calm = λ g.
          update_cases IsCalm s.fibers s.next g _ (λ e. (unfold is_exec in refl, refl))
            (λ ne. i.calm g);
      apart = λ e. absurd (omega (arith, e, i.idle_below));
      idle_below = omega (arith, i.idle_below);
      active_kept = refl;
      fresh =
          ap (λ (y : Fiber). is_over y.state) (update_self s.fibers s.next (Fiber.new c))
          ∙ unfold is_over in refl;
      idle_same =
          update_ne s.fibers s.next l.idle_fiber _ (λ e. absurd (omega (arith, e, i.idle_below)));
    },
  )
  | inr (f, h, free, apart) ↦
      let x : Fiber = record (s.fibers f) { cb = some c; state = initial } in
      (
        (f, put_fiber f x s),
        ap (λ cb. fiber_for cb c s) h ∙ rw (reset-ok (some c) (s.fibers f) (i.calm f).1 free),
        record {
          calm = λ g.
              update_cases IsCalm s.fibers f g _ (λ e. (unfold is_exec in refl, (i.calm f).1))
                (λ ne. i.calm g);
          apart = apart;
          idle_below = i.idle_below;
          active_kept = refl;
          fresh =
              ap (λ (y : Fiber). is_over y.state) (update_self s.fibers f x)
              ∙ unfold is_over in refl;
          idle_same = update_ne s.fibers f l.idle_fiber x apart;
        },
      )
]

pub run_cb-Goes :
    (c : Code) (l : Locals) (s : Scheduler)
    → IsSafe l s
    → (r : Option ℕ × Scheduler) × (run_cb l.cb_fiber c s ≡ ok r)
      × Goes s (record l { cb_fiber = r.0 }, r.1)
unfolding run_cb
run_cb-Goes c l s i =
    let ((f, s₁), e₁, g) = fiber_for-Given c l s i in
    let (s₂, e₂, b₂, _) = swap_active-Back f s₁ (g.calm f) g.fresh in
    let (r, e₃, b₃, k) = after_cb-Back f s₂ b₂.calm in
    (
      r,
      rw (e₁, e₂, e₃),
      (
        record {
          calm = Back-IsCalm b₃ (Back-IsCalm b₂ g.calm);
          cb_free = elim k [ inl h ↦ inl h | inr (h, free) ↦ inr (f, h, free, g.apart) ];
          idle_below = rw (b₃.next_kept, b₂.next_kept) g.idle_below;
          idle_ok =
              subst IsIdle
                (sym (
                  b₃.others l.idle_fiber (λ e. g.apart (sym e))
                  ∙ b₂.others l.idle_fiber (λ e. g.apart (sym e))
                  ∙ g.idle_same))
                i.idle_ok;
        },
        b₃.active_kept ∙ b₂.active_kept ∙ g.active_kept,
      ),
    )
