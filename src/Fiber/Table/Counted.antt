-- ===== src/Fiber/Table/Counted.antt =====
-- The counters of wb_server/fiber.cc over all threads: how many fibers there are, and their ids.
use cpp_wb_server.Common.{
  ℕ, suc, ◌+◌, ◌^◌, ◌≤◌, ◌<◌, ◌≡◌, inl, inr, refl, ◌||◌, sym, subst, ◌∙◌, Bool, true, false, Option,
  none, some, Option-cases, length, arith,
}
use mathlib.Core.List.{Memᴰ}
use cpp_wb_server.Log.World.{Result, ◌>>=◌}
use cpp_wb_server.Fiber.{State, exec, initial, is_exec, is_over, is_initial, ready, hold}
use cpp_wb_server.Fiber.Table.{
  Object, Table, increment, decrement, find, remove, alter, set_this, at_live, new_main, new_with,
  is_at, destroy, get_this, get_this_at, total_fibers, call, back, swap_in, swap_out, yield_to,
  ended, main_func, call_main_func, reset,
}
use cpp_wb_server.Fiber.Table.Actions.{Action, act, Reach, start, later}
use cpp_wb_server.Fiber.Table.Ends.{Ends, Ends-bind, Ends-if, if_holds, any}
use cpp_wb_server.Fiber.Table.Ranked.{
  Ranked, nothing, main_fiber, made_fiber, Ranked-remove, Keeps, Ranked-alter, length-alter,
  length-remove, Ranked-id, id_positive, Ranked-same,
}

-- After `n` actions.
record IsCounted (n : ℕ) (t : Table) : Type 0 where
  ranked : Ranked t.next t.fiber_id t.live
  count : t.fiber_count ≡ length t.live
  ids : t.fiber_id ≤ n
  fibers : length t.live ≤ n

next_is : (n : ℕ) → n + 1 < 2 ^ 64 → increment n ≡ n + 1
next_is n h = omega (arith, h)

last_is : (n m : ℕ) → n < 2 ^ 64 → n ≡ suc m → decrement n ≡ m
last_is n m h e = omega (arith, h, e)

new_main-IsCounted :
    (n me : ℕ) (t : Table) → n + 1 < 2 ^ 64 → IsCounted n t → IsCounted (n + 1) (new_main me t)
unfolding new_main
new_main-IsCounted n me t h c = record {
  ranked = main_fiber (omega arith) refl refl c.ranked;
  count = next_is t.fiber_count (omega (arith, h, c.count, c.fibers)) ∙ omega (arith, c.count);
  ids = omega (arith, c.ids);
  fibers = omega (arith, c.fibers);
}

new_with-IsCounted :
    (n configured size : ℕ) (has_cb : Bool) (t : Table)
    → n + 1 < 2 ^ 64
    → IsCounted n t
    → IsCounted (n + 1) (new_with configured size has_cb t)
unfolding new_with
new_with-IsCounted n configured size has_cb t h c =
    let e : increment t.fiber_id ≡ t.fiber_id + 1 = next_is t.fiber_id (omega (arith, h, c.ids)) in
    record {
      ranked =
          made_fiber {j = t.fiber_id} (omega arith) refl (omega (arith, e)) (omega (arith, e))
            c.ranked;
      count = next_is t.fiber_count (omega (arith, h, c.count, c.fibers)) ∙ omega (arith, c.count);
      ids = omega (arith, c.ids, e);
      fibers = omega (arith, c.fibers);
    }

grows : (n : ℕ) (t : Table) → IsCounted n t → IsCounted (n + 1) t
grows n t c = record {
  ranked = c.ranked;
  count = c.count;
  ids = omega (arith, c.ids);
  fibers = omega (arith, c.fibers);
}

set_this-IsCounted :
    (n me : ℕ) (f : Option ℕ) (t : Table) → IsCounted n t → IsCounted n (set_this me f t)
set_this-IsCounted n me f t c = record {
  ranked = c.ranked;
  count = c.count;
  ids = c.ids;
  fibers = c.fibers;
}

alter-IsCounted :
    (n a : ℕ) (f : Object → Object) (t : Table)
    → Keeps f
    → IsCounted n t
    → IsCounted n (record t { live = alter a f t.live })
alter-IsCounted n a f t k c = record {
  ranked = Ranked-alter a f k c.ranked;
  count = c.count ∙ sym (length-alter a f t.live);
  ids = c.ids;
  fibers = omega (arith, c.fibers, length-alter a f t.live);
}

state-Keeps : (st : State) → Keeps (λ x. record x { state = st })
state-Keeps st = record { address = λ x. refl; id = λ x. refl; has_stack = λ x. refl }

reset-Keeps : (b : Bool) → Keeps (λ x. record x { has_cb = b; state = initial })
reset-Keeps b = record { address = λ x. refl; id = λ x. refl; has_stack = λ x. refl }

ended-Keeps : (thrown : Bool) → Keeps (ended thrown)
ended-Keeps true = record { address = λ x. refl; id = λ x. refl; has_stack = λ x. refl }
ended-Keeps false = record { address = λ x. refl; id = λ x. refl; has_stack = λ x. refl }

remove-IsCounted :
    (n a : ℕ) (x : Object) (t : Table)
    → n < 2 ^ 64
    → find a t.live ≡ some x
    → IsCounted n t
    → IsCounted n (record t { fiber_count = decrement t.fiber_count; live = remove a t.live })
remove-IsCounted n a x t h e c =
    let l : suc (length (remove a t.live)) ≡ length t.live = length-remove a x t.live e in
    record {
      ranked = Ranked-remove a c.ranked;
      count =
          last_is t.fiber_count (length (remove a t.live)) (omega (arith, h, c.count, c.fibers))
            (c.count ∙ sym l);
      ids = c.ids;
      fibers = omega (arith, c.fibers, l);
    }

destroy-IsCounted :
    (n me a : ℕ) (t : Table) → n < 2 ^ 64 → IsCounted n t → Ends (IsCounted n) (destroy me a t)
unfolding destroy at_live
destroy-IsCounted n me a t h c = elim (Option-cases (find a t.live)) [
  | inl e ↦ rw e tt
  | inr (x, e) ↦ rw e (
      let t₁ = record t { fiber_count = decrement t.fiber_count; live = remove a t.live } in
      let d : IsCounted n t₁ = remove-IsCounted n a x t h e c in
      Ends-if (IsCounted n) x.has_stack _ _
        (Ends-if (IsCounted n) (is_over x.state || is_initial x.state) _ _ d tt)
        (Ends-if (IsCounted n) x.has_cb _ _ tt (
          Ends-if (IsCounted n) (is_exec x.state) _ _
            (if_holds (IsCounted n) (is_at (t.current me) a) _ _ (set_this-IsCounted n me none t₁ d)
              d)
            tt)))
]

get_this_at-IsCounted :
    (n me : ℕ) (o : Option ℕ) (t : Table)
    → n + 1 < 2 ^ 64
    → IsCounted n t
    → Ends (λ r. IsCounted (n + 1) r.1) (get_this_at o me t)
unfolding get_this_at
get_this_at-IsCounted n me none t h c =
    let d = new_main-IsCounted n me t h c in
    Ends-if (λ r. IsCounted (n + 1) r.1) (is_at ((new_main me t).current me) t.next) _ _
      (record { ranked = d.ranked; count = d.count; ids = d.ids; fibers = d.fibers }) tt
get_this_at-IsCounted n me (some a) t h c =
    Ends-bind (λ x. Unit) (λ r. IsCounted (n + 1) r.1) (at_live (some a) t) _
      (any (at_live (some a) t)) (λ x u. grows n t c)

get_this-IsCounted :
    (n me : ℕ) (t : Table)
    → n + 1 < 2 ^ 64
    → IsCounted n t
    → Ends (λ r. IsCounted (n + 1) r.1) (get_this me t)
unfolding get_this
get_this-IsCounted n me t h c = get_this_at-IsCounted n me (t.current me) t h c

-- Behind a pointer that has to be good.
module _ (n : ℕ) (o : Option ℕ) (t : Table) where
  at_live-IsCounted :
      (f : Object → Result Table)
      → ((x : Object) → Ends (IsCounted n) (f x))
      → Ends (IsCounted n) (at_live o t >>= f)
  at_live-IsCounted f g =
      Ends-bind (λ x. Unit) (IsCounted n) (at_live o t) f (any (at_live o t)) (λ x u. g x)

swap_out-IsCounted :
    (n me : ℕ) (main : Option ℕ) (t : Table)
    → IsCounted n t
    → Ends (IsCounted n) (swap_out me main t)
unfolding swap_out
swap_out-IsCounted n me main t c =
    at_live-IsCounted n main t _ (λ x. set_this-IsCounted n me main t c)

back-IsCounted : (n me : ℕ) (t : Table) → IsCounted n t → Ends (IsCounted n) (back me t)
unfolding back
back-IsCounted n me t c =
    at_live-IsCounted n (t.thread_fiber me) t _
      (λ x. set_this-IsCounted n me (t.thread_fiber me) t c)

-- The fiber of the thread, changed, and then a switch.
after_get_this :
    (n me : ℕ) (f : Object → Object) (g : Table → Result Table) (t : Table)
    → n + 1 < 2 ^ 64
    → Keeps f
    → ((s : Table) → IsCounted (n + 1) s → Ends (IsCounted (n + 1)) (g s))
    → IsCounted n t
    → Ends
        (IsCounted (n + 1))
        (get_this me t >>= (λ r. g (record r.1 { live = alter r.0 f r.1.live })))
after_get_this n me f g t h k p c =
    Ends-bind (λ r. IsCounted (n + 1) r.1) (IsCounted (n + 1)) (get_this me t) _
      (get_this-IsCounted n me t h c)
      (λ r d.
        p (record r.1 { live = alter r.0 f r.1.live }) (alter-IsCounted (n + 1) r.0 f r.1 k d))

act-IsCounted :
    (n : ℕ) (a : Action) (t : Table)
    → n + 1 < 2 ^ 64
    → IsCounted n t
    → Ends (IsCounted (n + 1)) (act a t)
unfolding act yield_to main_func call_main_func call swap_in reset
act-IsCounted n (Action.makes configured size has_cb) t h c =
    new_with-IsCounted n configured size has_cb t h c
act-IsCounted n (Action.gets me) t h c =
    Ends-bind (λ r. IsCounted (n + 1) r.1) (IsCounted (n + 1)) (get_this me t) _
      (get_this-IsCounted n me t h c) (λ r d. d)
act-IsCounted n (Action.calls_back me) t h c = back-IsCounted (n + 1) me t (grows n t c)
act-IsCounted n (Action.calls me a) t h c = at_live-IsCounted (n + 1) (some a) t _ (λ x.
    at_live-IsCounted (n + 1) (t.thread_fiber me) t _ (λ y.
      alter-IsCounted (n + 1) a _ (set_this me (some a) t) (state-Keeps exec)
        (set_this-IsCounted (n + 1) me (some a) t (grows n t c))))
act-IsCounted n (Action.destroys me a) t h c = destroy-IsCounted (n + 1) me a t h (grows n t c)
act-IsCounted n (Action.swaps_in me main a) t h c = at_live-IsCounted (n + 1) (some a) t _ (λ x.
    at_live-IsCounted (n + 1) main t _ (λ y. Ends-if (IsCounted (n + 1)) (is_exec x.state) _ _ tt (
      alter-IsCounted (n + 1) a _ (set_this me (some a) t) (state-Keeps exec)
        (set_this-IsCounted (n + 1) me (some a) t (grows n t c)))))
act-IsCounted n (Action.swaps_out me main) t h c =
    swap_out-IsCounted (n + 1) me main t (grows n t c)
act-IsCounted n (Action.yields_ready me main) t h c =
    after_get_this n me _ (swap_out me main) t h (state-Keeps ready)
      (swap_out-IsCounted (n + 1) me main) c
act-IsCounted n (Action.yields_hold me main) t h c =
    after_get_this n me _ (swap_out me main) t h (state-Keeps hold)
      (swap_out-IsCounted (n + 1) me main) c
act-IsCounted n (Action.ends thrown me main cur) t h c =
    at_live-IsCounted (n + 1) (some cur) t _ (λ x.
      swap_out-IsCounted (n + 1) me main (record t { live = alter cur (ended thrown) t.live })
        (alter-IsCounted (n + 1) cur (ended thrown) t (ended-Keeps thrown) (grows n t c)))
act-IsCounted n (Action.ends_call thrown me cur) t h c =
    at_live-IsCounted (n + 1) (some cur) t _ (λ x.
      back-IsCounted (n + 1) me (record t { live = alter cur (ended thrown) t.live })
        (alter-IsCounted (n + 1) cur (ended thrown) t (ended-Keeps thrown) (grows n t c)))
act-IsCounted n (Action.resets a has_cb) t h c = at_live-IsCounted (n + 1) (some a) t _ (λ x.
    Ends-if (IsCounted (n + 1)) x.has_stack _ _
      (Ends-if (IsCounted (n + 1)) (is_over x.state || is_initial x.state) _ _
        (alter-IsCounted (n + 1) a _ t (reset-Keeps has_cb) (grows n t c)) tt)
      tt)

Reach-IsCounted : {n : ℕ} {t : Table} → Reach n t → n < 2 ^ 64 → IsCounted n t
Reach-IsCounted start h = record {
  ranked = nothing;
  count = refl;
  ids = omega arith;
  fibers = omega arith;
}
Reach-IsCounted (later {n} {t} {t'} a r e) h =
    subst (Ends (IsCounted (n + 1))) e
      (act-IsCounted n a t h (Reach-IsCounted r (omega (arith, h))))

-- As long as there were fewer than 2 ^ 64 actions of the threads, in any order, `TotalFibers` is the
-- number of the fibers that are not destroyed; a fiber that was made of a function has a positive
-- id that no other fiber has; and the fiber a thread starts on has the id 0.
pub Reach-ids :
    {n : ℕ} {t : Table}
    → Reach n t
    → n < 2 ^ 64
    → (total_fibers t ≡ length t.live)
      × ((x y : Object)
          → Memᴰ x t.live
          → Memᴰ y t.live
          → x.has_stack ≡ true
          → (0 < x.id) × (x.id ≡ y.id → x ≡ y))
      × ((x : Object) → Memᴰ x t.live → x.has_stack ≡ false → x.id ≡ 0)
Reach-ids r h =
    let c = Reach-IsCounted r h in
    (
      c.count,
      λ x y m m' s. (id_positive x c.ranked m s, Ranked-same x y c.ranked m m' s),
      λ x m s. elim (Ranked-id x c.ranked m) [
        | inl (p, z) ↦ z
        | inr (p, q, u) ↦ absurd (ground (arith, s, p))
      ],
    )
