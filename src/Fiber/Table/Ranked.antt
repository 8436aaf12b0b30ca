-- ===== src/Fiber/Table/Ranked.antt =====
-- The fibers of wb_server/fiber.cc, the newest first, with their addresses and ids.
use cpp_wb_server.Common.{
  ℕ, suc, ◌≤◌, ◌<◌, ◌≡◌, ◌⊎◌, inl, inr, refl, ap, sym, subst, ◌∙◌, true, false, List, [], ◌∷◌, some,
  ◌==◌, Bool-cases, length, arith,
}
use mathlib.Core.List.{Memᴰ}
use cpp_wb_server.Fiber.Table.{Object, find, remove, alter}

-- Addresses below `n` and ids up to `k`, both falling along the list; only a fiber with a stack has
-- an id, and the others have 0.
pub data Ranked : ℕ → ℕ → List Object → Type 0 where
  nothing : {n k : ℕ} → Ranked n k []
  main_fiber :
      {n k : ℕ} {x : Object} {xs : List Object}
      → x.address < n
      → x.has_stack ≡ false
      → x.id ≡ 0
      → Ranked x.address k xs
      → Ranked n k (x ∷ xs)
  made_fiber :
      {n k j : ℕ} {x : Object} {xs : List Object}
      → x.address < n
      → x.has_stack ≡ true
      → x.id ≡ suc j
      → j < k
      → Ranked x.address j xs
      → Ranked n k (x ∷ xs)

pub Ranked-mono :
    {n k : ℕ} (m l : ℕ) {xs : List Object} → n ≤ m → k ≤ l → Ranked n k xs → Ranked m l xs
Ranked-mono m l h i nothing = nothing
Ranked-mono m l h i (main_fiber a s z r) =
    main_fiber (omega (arith, h, a)) s z (Ranked-mono _ l (omega arith) i r)
Ranked-mono m l h i (made_fiber a s z j r) =
    made_fiber (omega (arith, h, a)) s z (omega (arith, i, j)) r

pub Ranked-remove : (a : ℕ) {n k : ℕ} {xs : List Object} → Ranked n k xs → Ranked n k (remove a xs)
unfolding remove
Ranked-remove a nothing = nothing
Ranked-remove a (main_fiber {x} h s z r) = elim (Bool-cases (x.address == a)) [
  | inl e ↦ rw e (Ranked-mono _ _ (omega (arith, h)) (omega arith) r)
  | inr e ↦ rw e (main_fiber h s z (Ranked-remove a r))
]
Ranked-remove a (made_fiber {x} h s z j r) = elim (Bool-cases (x.address == a)) [
  | inl e ↦ rw e (Ranked-mono _ _ (omega (arith, h)) (omega (arith, j)) r)
  | inr e ↦ rw e (made_fiber h s z j (Ranked-remove a r))
]

-- What no action changes of a fiber.
pub record Keeps (f : Object → Object) : Type 0 where
  pub address : (x : Object) → (f x).address ≡ x.address
  pub id : (x : Object) → (f x).id ≡ x.id
  pub has_stack : (x : Object) → (f x).has_stack ≡ x.has_stack

pub Ranked-alter :
    (a : ℕ) (f : Object → Object) {n k : ℕ} {xs : List Object}
    → Keeps f
    → Ranked n k xs
    → Ranked n k (alter a f xs)
unfolding alter
Ranked-alter a f p nothing = nothing
Ranked-alter a f p (main_fiber {n} {k} {x} {xs} h s z r) = elim (Bool-cases (x.address == a)) [
  | inl e ↦ rw e (
      main_fiber (rw (p.address x) h) (p.has_stack x ∙ s) (p.id x ∙ z)
        (subst (λ m. Ranked m k xs) (sym (p.address x)) r))
  | inr e ↦ rw e (main_fiber h s z (Ranked-alter a f p r))
]
Ranked-alter a f p (made_fiber {n} {k} {j = i} {x} {xs} h s z j r) =
    elim (Bool-cases (x.address == a)) [
      | inl e ↦ rw e (
          made_fiber (rw (p.address x) h) (p.has_stack x ∙ s) (p.id x ∙ z) j
            (subst (λ m. Ranked m i xs) (sym (p.address x)) r))
      | inr e ↦ rw e (made_fiber h s z j (Ranked-alter a f p r))
    ]

pub length-alter :
    (a : ℕ) (f : Object → Object) (xs : List Object) → length (alter a f xs) ≡ length xs
unfolding alter
length-alter a f [] = refl
length-alter a f (x ∷ xs) = elim (Bool-cases (x.address == a)) [
  | inl e ↦ rw e
  | inr e ↦ rw e (ap suc (length-alter a f xs))
]

pub length-remove :
    (a : ℕ) (x : Object) (xs : List Object)
    → find a xs ≡ some x
    → suc (length (remove a xs)) ≡ length xs
unfolding find remove
length-remove a x [] e = absurd (ground (arith, e))
length-remove a x (y ∷ xs) e = elim (Bool-cases (y.address == a)) [
  | inl d ↦ rw d
  | inr d ↦ rw d (ap suc (length-remove a x xs (rw d at e)))
]

pub Ranked-id :
    {n k : ℕ} {xs : List Object} (x : Object)
    → Ranked n k xs
    → Memᴰ x xs
    → ((x.has_stack ≡ false) × (x.id ≡ 0)) ⊎ ((x.has_stack ≡ true) × (0 < x.id) × (x.id ≤ k))
Ranked-id x nothing m = elim m [ ]
Ranked-id x (main_fiber h s z r) (Memᴰ.head e) = inl (rw e s, rw e z)
Ranked-id x (made_fiber h s z j r) (Memᴰ.head e) =
    inr (rw e s, rw (e, z) (omega arith), rw (e, z) (omega (arith, j)))
Ranked-id x (main_fiber h s z r) (Memᴰ.tail m) = Ranked-id x r m
Ranked-id x (made_fiber h s z j r) (Memᴰ.tail m) = elim (Ranked-id x r m) [
  | inl i ↦ inl i
  | inr (i, p, q) ↦ inr (i, p, omega (arith, j, q))
]

id_below : {n k : ℕ} {xs : List Object} (x : Object) → Ranked n k xs → Memᴰ x xs → x.id ≤ k
id_below x r m = elim (Ranked-id x r m) [ inl (s, z) ↦ omega (arith, z) | inr (s, p, q) ↦ q ]

pub id_positive :
    {n k : ℕ} {xs : List Object} (x : Object)
    → Ranked n k xs
    → Memᴰ x xs
    → x.has_stack ≡ true
    → 0 < x.id
id_positive x r m t = elim (Ranked-id x r m) [
  | inl (s, z) ↦ absurd (ground (arith, s, t))
  | inr (s, p, q) ↦ p
]

-- A fiber with a stack is the only one of its id.
pub Ranked-same :
    {n k : ℕ} {xs : List Object} (x y : Object)
    → Ranked n k xs
    → Memᴰ x xs
    → Memᴰ y xs
    → x.has_stack ≡ true
    → x.id ≡ y.id
    → x ≡ y
Ranked-same x y nothing m m' s e = elim m [ ]
Ranked-same x y r (Memᴰ.head p) (Memᴰ.head q) s e = p ∙ sym q
Ranked-same x y (main_fiber h t z r) (Memᴰ.head p) (Memᴰ.tail m) s e =
    absurd (ground (arith, ap (λ (o : Object). o.has_stack) p, t, s))
Ranked-same x y (made_fiber h t z j r) (Memᴰ.head p) (Memᴰ.tail m) s e =
    absurd (omega (arith, ap (λ (o : Object). o.id) p, z, e, id_below y r m))
Ranked-same x y (main_fiber h t z r) (Memᴰ.tail m) (Memᴰ.head p) s e =
    absurd (omega (arith, ap (λ (o : Object). o.id) p, z, e, id_positive x r m s))
Ranked-same x y (made_fiber h t z j r) (Memᴰ.tail m) (Memᴰ.head p) s e =
    absurd (omega (arith, ap (λ (o : Object). o.id) p, z, e, id_below x r m))
Ranked-same x y (main_fiber h t z r) (Memᴰ.tail m) (Memᴰ.tail m') s e = Ranked-same x y r m m' s e
Ranked-same x y (made_fiber h t z j r) (Memᴰ.tail m) (Memᴰ.tail m') s e = Ranked-same x y r m m' s e
