-- ===== src/Mutex/Spin/Exclusion.antt =====
-- At most one thread holds the `CASLock` of wb_server/mutex.h, and it does not stay taken.
use cpp_wb_server.Common.{
  ℕ, ◌≡◌, refl, sym, ap, subst, ◌∙◌, ◌⊎◌, inl, inr, Bool, true, false, Option, none, some, update,
  update_self, ◌==◌, ==_iff, Bool-cases, arith,
}
use cpp_wb_server.Mutex.Spin.{
  Place, outside, spinning, guarded, Action, construct, spin, lock_call, unlock_call, destruct,
  try_lock, act, System, Step, acts, Reach, start, later,
}

abbrev pub holds : Place → Bool
holds (guarded true) = true
holds _ = false

-- The flag is set exactly while one thread holds the lock.
pub record IsExclusive (s : System) : Type 0 where
  pub free : s.flag ≡ false → (i : ℕ) → holds (s.places i) ≡ false
  pub taken : s.flag ≡ true → (i : ℕ) × (holds (s.places i) ≡ true)
  pub one : (i j : ℕ) → holds (s.places i) ≡ true → holds (s.places j) ≡ true → i ≡ j

-- What an action does to the flag and to its thread: nothing, or it takes a free lock, or it releases
-- the lock that the thread holds.
pub data Change (flag : Bool) (p : Place) : Bool → Place → Type 0 where
  stays : {p' : Place} → holds p' ≡ holds p → Change flag p flag p'
  takes :
      {flag' : Bool} {p' : Place}
      → flag ≡ false
      → flag' ≡ true
      → holds p' ≡ true
      → holds p ≡ false
      → Change flag p flag' p'
  releases :
      {flag' : Bool} {p' : Place}
      → flag' ≡ false
      → holds p ≡ true
      → holds p' ≡ false
      → Change flag p flag' p'

abbrev Changed : Bool → Place → Option (Bool × Place) → Type 0
Changed flag p none = Unit
Changed flag p (some r) = Change flag p r.0 r.1

act-Changed : (a : Action) (p : Place) (flag : Bool) → Changed flag p (act a p flag)
unfolding act try_lock
act-Changed construct outside flag = stays refl
act-Changed spin spinning true = stays refl
act-Changed spin spinning false = takes refl refl refl refl
act-Changed lock_call (guarded true) flag = stays refl
act-Changed lock_call (guarded false) flag = stays refl
act-Changed unlock_call (guarded true) flag = releases refl refl refl
act-Changed unlock_call (guarded false) flag = stays refl
act-Changed destruct (guarded true) flag = releases refl refl refl
act-Changed destruct (guarded false) flag = stays refl
act-Changed _ _ flag = tt

-- The places after the thread `i` has come to the place `p`.
abbrev moved : System → ℕ → Bool → Place → System
moved s i flag p = record { flag = flag; places = update s.places i p }

module _ (s : System) (x : IsExclusive s) (i : ℕ) where
  stays-IsExclusive : (p : Place) → holds p ≡ holds (s.places i) → IsExclusive (moved s i s.flag p)
  stays-IsExclusive p h = record {
    free = λ f j. same j ∙ x.free f j;
    taken = λ f. let (j, k) = x.taken f in (j, same j ∙ k);
    one = λ j k hj hk. x.one j k (sym (same j) ∙ hj) (sym (same k) ∙ hk);
  }
    where
      same : (j : ℕ) → holds (update s.places i p j) ≡ holds (s.places j)
      same j = elim (Bool-cases (i == j)) [
        | inl e ↦ rw e (h ∙ ap (λ k. holds (s.places k)) ((==_iff i j).0 e))
        | inr e ↦ rw e
      ]

  takes-IsExclusive :
      (flag : Bool) (p : Place)
      → s.flag ≡ false
      → flag ≡ true
      → holds p ≡ true
      → IsExclusive (moved s i flag p)
  takes-IsExclusive flag p f g h = record {
    free = λ e j. absurd (ground (arith, e, g));
    taken = λ e. (i, ap holds (update_self s.places i p) ∙ h);
    one = λ j k hj hk. sym (only j hj) ∙ only k hk;
  }
    where
      only : (j : ℕ) → holds (update s.places i p j) ≡ true → i ≡ j
      only j hj = elim (Bool-cases (i == j)) [
        | inl e ↦ (==_iff i j).0 e
        | inr e ↦ absurd (ground (arith, e, hj, x.free f j))
      ]

  releases-IsExclusive :
      (flag : Bool) (p : Place)
      → flag ≡ false
      → holds (s.places i) ≡ true
      → holds p ≡ false
      → IsExclusive (moved s i flag p)
  releases-IsExclusive flag p g k h = record {
    free = λ e j. none_holds j;
    taken = λ e. absurd (ground (arith, e, g));
    one = λ j l hj hl. absurd (ground (arith, hj, none_holds j));
  }
    where
      none_holds : (j : ℕ) → holds (update s.places i p j) ≡ false
      none_holds j = elim (Bool-cases (i == j)) [
        | inl e ↦ rw e h
        | inr e ↦ elim (Bool-cases (holds (s.places j))) [
          | inl q ↦ absurd (ground (arith, e, (==_iff i j).1 (x.one i j k q)))
          | inr q ↦ rw e q
        ]
      ]

  Change-IsExclusive :
      {flag : Bool} {p : Place} → Change s.flag (s.places i) flag p → IsExclusive (moved s i flag p)
  Change-IsExclusive (stays {p' = p} h) = stays-IsExclusive p h
  Change-IsExclusive (takes {flag' = flag} {p' = p} f g h k) = takes-IsExclusive flag p f g h
  Change-IsExclusive (releases {flag' = flag} {p' = p} g k h) = releases-IsExclusive flag p g k h

Step-IsExclusive : {s t : System} → Step s t → IsExclusive s → IsExclusive t
Step-IsExclusive {s} (acts i a {flag} {p} h) x =
    Change-IsExclusive s x i
      (subst (Changed s.flag (s.places i)) h (act-Changed a (s.places i) s.flag))

pub Reach-IsExclusive : {s : System} → Reach s → IsExclusive s
Reach-IsExclusive start = record {
  free = λ f i. refl;
  taken = λ f. absurd (ground (arith, f));
  one = λ i j h k. absurd (ground (arith, h));
}
Reach-IsExclusive (later r st) = Step-IsExclusive st (Reach-IsExclusive r)

-- In every state that threads reach by actions in any order: two threads that hold the lock are one,
-- the flag is set exactly while a thread holds it, and a thread in the loop of `lock` gets the lock
-- in its next round if no thread holds it.
pub Reach-exclusion :
    (s : System)
    → Reach s
    → ((i j : ℕ) → holds (s.places i) ≡ true → holds (s.places j) ≡ true → i ≡ j)
      × (((i : ℕ) × (s.flag ≡ true) × (holds (s.places i) ≡ true))
          ⊎ ((s.flag ≡ false)
              × ((i : ℕ)
                  → (holds (s.places i) ≡ false)
                    × ((s.places i ≡ spinning)
                        → act spin (s.places i) s.flag ≡ some (true, guarded true)))))
unfolding act try_lock
Reach-exclusion s r =
    let x : IsExclusive s = Reach-IsExclusive r in
    (
      x.one,
      elim (Bool-cases s.flag) [
        | inl f ↦ let (i, h) = x.taken f in inl (i, f, h)
        | inr f ↦ inr (f, λ i. (x.free f i, λ e. ap (λ p. act spin p s.flag) e ∙ rw f))
      ],
    )
