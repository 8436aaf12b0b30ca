-- ===== src/Scheduler/Order.antt =====
-- Which task the loop of `Scheduler::run` (wb_server/scheduler.cc) takes.
use cpp_wb_server.Common.{
  ℕ, ◌≡◌, refl, ap, ◌∙◌, suc, if◌then◌else◌, ◌⊎◌, inl, inr, Bool, true, false, ◌||◌, List, [], ◌∷◌,
  ◌++◌, none, some, arith, Bool-cases, All,
}
use cpp_wb_server.Fiber.{Fiber}
use cpp_wb_server.Scheduler.{
  Task, Scheduler, Locals, Picked, other_thread, is_running, pick, after_pick, round, run_task,
  run_target, idle_task,
}

-- The thread passes the task over: it is for another thread, or its fiber runs.
abbrev pub IsPassed : ℕ → (ℕ → Fiber) → Task → Type 0
IsPassed me fibers t = (other_thread me t.thread || is_running fibers t.target) ≡ true

-- Some of the tasks are for another thread.
abbrev pub any_other : ℕ → List Task → Bool
any_other me [] = false
any_other me (t ∷ ts) = other_thread me t.thread || any_other me ts

-- The choice `p` from the queue `q`: with the passed tasks in front.
record Chose (me : ℕ) (fibers : ℕ → Fiber) (q passed : List Task) (p : Picked) : Type 0 where
  all_passed : All (IsPassed me fibers) passed
  told : p.tickle_me ≡ any_other me passed
  taken :
      ((p.task ≡ none) × (q ≡ passed) × (p.rest ≡ passed))
      ⊎ ((t : Task) × (after : List Task) × (p.task ≡ some t)
          × ((other_thread me t.thread || is_running fibers t.target) ≡ false)
          × (q ≡ passed ++ t ∷ after)
          × (p.rest ≡ passed ++ after))

pick-first :
    (me : ℕ) (fibers : ℕ → Fiber) (q : List Task)
    → (passed : List Task) × Chose me fibers q passed (pick me fibers q)
unfolding pick
pick-first me fibers [] =
    ([], record { all_passed = tt; told = refl; taken = inl (refl, refl, refl) })
pick-first me fibers (t ∷ ts) =
    let (passed, c) = pick-first me fibers ts in
    elim (Bool-cases (other_thread me t.thread)) [
      | inl other ↦ (
        t ∷ passed,
        rw other (record {
          all_passed = (ground arith, c.all_passed);
          told = rw other;
          taken = step passed (pick me fibers ts) c.taken;
        }),
      )
      | inr mine ↦ elim (Bool-cases (is_running fibers t.target)) [
        | inl runs ↦ (
          t ∷ passed,
          rw (mine, runs)
              (record {
                all_passed = (ground arith, c.all_passed);
                told = rw mine c.told;
                taken = step passed (pick me fibers ts) c.taken;
              }),
        )
        | inr still ↦ (
          [],
          rw (mine, still)
              (record {
                all_passed = tt;
                told = refl;
                taken = inr (t, ts, refl, ground arith, refl, refl);
              }),
        )
      ]
    ]
  where
    step :
        (passed : List Task) (p : Picked)
        → ((p.task ≡ none) × (ts ≡ passed) × (p.rest ≡ passed))
          ⊎ ((u : Task) × (after : List Task) × (p.task ≡ some u)
              × ((other_thread me u.thread || is_running fibers u.target) ≡ false)
              × (ts ≡ passed ++ u ∷ after)
              × (p.rest ≡ passed ++ after))
        → ((p.task ≡ none) × (t ∷ ts ≡ t ∷ passed) × (t ∷ p.rest ≡ t ∷ passed))
          ⊎ ((u : Task) × (after : List Task) × (p.task ≡ some u)
              × ((other_thread me u.thread || is_running fibers u.target) ≡ false)
              × (t ∷ ts ≡ t ∷ (passed ++ u ∷ after))
              × (t ∷ p.rest ≡ t ∷ (passed ++ after)))
    step passed p (inl (a, b, c)) = inl (a, ap (λ x. t ∷ x) b, ap (λ x. t ∷ x) c)
    step passed p (inr (u, after, a, f, b, c)) =
        inr (u, after, a, f, ap (λ x. t ∷ x) b, ap (λ x. t ∷ x) c)

-- The scheduler with that queue, and with one call of `tickel` more if it is `told`.
abbrev pub with_rest : Scheduler → List Task → Bool → Scheduler
with_rest s q told = record s { queue = q; tickles = if told then suc s.tickles else s.tickles }

after_pick-with_rest :
    (p : Picked) (s : Scheduler) → after_pick p s ≡ with_rest s p.rest p.tickle_me
unfolding after_pick
after_pick-with_rest p s = elim (Bool-cases p.tickle_me) [ inl e ↦ rw e refl | inr e ↦ rw e refl ]

-- One round of the loop: of the queue it passes over the tasks in front that are for another thread
-- or whose fiber runs, and calls `tickel` exactly if one of them is for another thread. The first
-- other task leaves the queue, with all others left in their order, and goes to the branches for a
-- fiber and for a callback; if there is none, the queue stays and the branch for no task is taken.
pub round-first :
    (me : ℕ) (l : Locals) (s : Scheduler)
    → (passed : List Task) × All (IsPassed me s.fibers) passed
      × (((s.queue ≡ passed)
            × (round me l s ≡ idle_task l (with_rest s passed (any_other me passed))))
          ⊎ ((t : Task) × (after : List Task) × ((other_thread me t.thread
                  || is_running s.fibers t.target)
                ≡ false)
              × (s.queue ≡ passed ++ t ∷ after)
              × (round me l s
                  ≡ run_target t.target l (with_rest s (passed ++ after) (any_other me passed)))))
unfolding round run_task
round-first me l s =
    let (passed, c) = pick-first me s.fibers s.queue in
    let p : Picked = pick me s.fibers s.queue in
    let left = λ (told : p.tickle_me ≡ any_other me passed).
      after_pick-with_rest p s ∙ ap (with_rest s p.rest) told in
    (
      passed,
      c.all_passed,
      elim c.taken [
        | inl (none_there, q, r) ↦ inl (
          q,
          ap (λ o. run_task o l (after_pick p s)) none_there
              ∙ ap (idle_task l) (left c.told ∙ ap (λ z. with_rest s z (any_other me passed)) r),
        )
        | inr (t, after, there, mine, q, r) ↦ inr (
          t,
          after,
          mine,
          q,
          ap (λ o. run_task o l (after_pick p s)) there
              ∙ ap (run_target t.target l)
                  (left c.told ∙ ap (λ z. with_rest s z (any_other me passed)) r),
        )
      ],
    )
