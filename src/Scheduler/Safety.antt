-- ===== src/Scheduler/Safety.antt =====
-- No assertion of wb_server/fiber.cc fails in the loop of `Scheduler::run`.
use cpp_wb_server.Common.{
  ℕ, ◌≡◌, ◌≢◌, refl, sym, ap, subst, ◌∙◌, ◌⊎◌, inl, inr, true, false, [], ◌∷◌, Option, none, some,
  if_cases, update_self, update_ne, arith,
}
use cpp_wb_server.Log.World.{ok}
use cpp_wb_server.Fiber.{
  Fiber, exec, failed, Code, done, throws, say, yield_to_ready, yield_to_hold, schedule_fiber,
  schedule_cb, is_exec, is_over, is_initial,
}
use cpp_wb_server.Common.{◌++◌}
use cpp_wb_server.Scheduler.{
  call_cb, is_nil, Target, of_fiber, of_cb, Scheduler, put_fiber, set_state, scheduler, run_code,
  swap_in,
}

-- A fiber between two switches: it does not run, and it has its stack.
abbrev pub IsCalm : Fiber → Type 0
IsCalm x = (is_exec x.state ≡ false) × (x.has_stack ≡ true)

-- A fiber that `reset` takes: it is over, or it is new and has no function.
abbrev pub IsFree : Fiber → Type 0
IsFree x = (is_over x.state ≡ true) ⊎ ((is_initial x.state ≡ true) × (x.cb ≡ none))

-- From `s` to `s'` one call has come back on the fiber `f`: the others are as they were.
pub record Back (f : ℕ) (s s' : Scheduler) : Type 0 where
  pub calm : IsCalm (s'.fibers f)
  pub others : (g : ℕ) → g ≢ f → s'.fibers g ≡ s.fibers g
  pub active_kept : s'.active_thread_count ≡ s.active_thread_count
  pub next_kept : s'.next ≡ s.next

-- The fibers and the count of running threads are the same.
pub record SameFibers (s s' : Scheduler) : Type 0 where
  pub fibers_same : s'.fibers ≡ s.fibers
  pub active_same : s'.active_thread_count ≡ s.active_thread_count
  pub next_same : s'.next ≡ s.next

pub scheduler-SameFibers :
    (t : Target) (n : Option ℕ) (s : Scheduler) → SameFibers s (scheduler t n s)
unfolding scheduler
scheduler-SameFibers t n s =
    if_cases (SameFibers s) (is_nil s.queue)
      (record { fibers_same = refl; active_same = refl; next_same = refl })
      (record { fibers_same = refl; active_same = refl; next_same = refl })

pub same-Back : {f : ℕ} {s s₁ s' : Scheduler} → SameFibers s s₁ → Back f s₁ s' → Back f s s'
same-Back k b = record {
  calm = b.calm;
  others = λ g ne. b.others g ne ∙ ap (λ fs. fs g) k.fibers_same;
  active_kept = b.active_kept ∙ k.active_same;
  next_kept = b.next_kept ∙ k.next_same;
}

pub Back-same : {f : ℕ} {s s₁ s' : Scheduler} → Back f s s₁ → SameFibers s₁ s' → Back f s s'
Back-same {f} b k = record {
  calm = subst (λ fs. IsCalm (fs f)) (sym k.fibers_same) b.calm;
  others = λ g ne. ap (λ fs. fs g) k.fibers_same ∙ b.others g ne;
  active_kept = k.active_same ∙ b.active_kept;
  next_kept = k.next_same ∙ b.next_kept;
}

pub put-Back : (f : ℕ) (x : Fiber) (s : Scheduler) → IsCalm x → Back f s (put_fiber f x s)
put-Back f x s h = record {
  calm = rw (update_self s.fibers f x) h;
  others = λ g ne. update_ne s.fibers f g x (λ e. ne (sym e));
  active_kept = refl;
  next_kept = refl;
}

run_code-Back :
    (f : ℕ) (c : Code) (s : Scheduler) → (s.fibers f).has_stack ≡ true → Back f s (run_code f c s)
unfolding run_code
run_code-Back f done s h = put-Back f _ s (unfold is_exec in refl, h)
run_code-Back f throws s h = put-Back f _ s (unfold is_exec in refl, h)
run_code-Back f (yield_to_ready c) s h = put-Back f _ s (unfold is_exec in refl, h)
run_code-Back f (yield_to_hold c) s h = put-Back f _ s (unfold is_exec in refl, h)
run_code-Back f (say n c) s h =
    same-Back (record { fibers_same = refl; active_same = refl; next_same = refl })
      (run_code-Back f c (record s { said = s.said ++ n ∷ [] }) h)
run_code-Back f (schedule_fiber g t c) s h =
    let k = scheduler-SameFibers (of_fiber g) t s in
    same-Back k (
      run_code-Back f c (scheduler (of_fiber g) t s)
        (ap (λ (fs : ℕ → Fiber). (fs f).has_stack) k.fibers_same ∙ h))
run_code-Back f (schedule_cb d t c) s h =
    let k = scheduler-SameFibers (of_cb d) t s in
    same-Back k (
      run_code-Back f c (scheduler (of_cb d) t s)
        (ap (λ (fs : ℕ → Fiber). (fs f).has_stack) k.fibers_same ∙ h))

-- What a null function, or one that is there, leaves when it is called on `f`.
null-Back :
    (f : ℕ) (s : Scheduler) → (s.fibers f).has_stack ≡ true → Back f s (set_state f failed s)
null-Back f s h = put-Back f _ s (unfold is_exec in refl, h)

pub Back-trans : {f : ℕ} {r s t : Scheduler} → Back f r s → Back f s t → Back f r t
Back-trans a b = record {
  calm = b.calm;
  others = λ g ne. b.others g ne ∙ a.others g ne;
  active_kept = b.active_kept ∙ a.active_kept;
  next_kept = b.next_kept ∙ a.next_kept;
}

call_cb-Back :
    (f : ℕ) (cb : Option Code) (s : Scheduler)
    → (s.fibers f).has_stack ≡ true
    → Back f s (call_cb f cb s) × ((cb ≢ none) ⊎ (is_over ((call_cb f cb s).fibers f).state ≡ true))
unfolding call_cb
call_cb-Back f none s h = (
  null-Back f s h,
  inr (ap (λ (x : Fiber). is_over x.state) (update_self s.fibers f _) ∙ unfold is_over in refl),
)
call_cb-Back f (some c) s h =
    let s₁ : Scheduler = set_state f exec s in
    let x = update_self s.fibers f (record (s.fibers f) { state = exec }) in
    let b : Back f s₁ (run_code f c s₁) =
      run_code-Back f c s₁ (ap (λ (z : Fiber). z.has_stack) x ∙ h) in
    (
      record {
        calm = b.calm;
        others = λ g ne. b.others g ne ∙ update_ne s.fibers f g _ (λ e. ne (sym e));
        active_kept = b.active_kept;
        next_kept = b.next_kept;
      },
      inl (λ n. absurd (ground (arith, n))),
    )

-- `swap_in` on a calm fiber that is not over returns; a fiber whose function is null is over then.
pub swap_in-Back :
    (f : ℕ) (s : Scheduler)
    → IsCalm (s.fibers f)
    → is_over (s.fibers f).state ≡ false
    → (s' : Scheduler) × (swap_in f s ≡ ok s')
      × Back f s s'
      × (((s.fibers f).cb ≢ none) ⊎ (is_over (s'.fibers f).state ≡ true))
unfolding swap_in
swap_in-Back f s (e, h) o =
    let (b, n) = call_cb-Back f (s.fibers f).cb s h in
    (call_cb f (s.fibers f).cb s, rw (e, o), b, n)
