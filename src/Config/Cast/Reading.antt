-- ===== src/Config/Cast/Reading.antt =====
-- The set conversions of wb_server/config.h hold what the vector conversion reads.
use cpp_wb_server.Common.{
  ◌≡◌, not, ◌&&◌, refl, ap, sym, ◌∙◌, true, false, Bool, ◌||◌, List, [], ◌∷◌, ◌++◌, Text, All,
  All-mono, arith, Bool-cases, inl, inr, if_cases,
}
use cpp_wb_server.Common.Sets.{set_insert, Increasing}
use cpp_wb_server.Yaml.{Outcome, gave, threw, ◌>>=◌, Yaml, Builder, elements}
use cpp_wb_server.Config.Cast.{
  Cast, Buckets, contains, unordered_insert, push_last, read_nodes, read_sequence, vector_cast,
  set_cast, unordered_set_cast,
}

-- Neither is less, which is when a `std::set` takes two elements for the same.
abbrev pub alike : {T : Type 0} → (T → T → Bool) → T → T → Bool
alike lt a b = not (lt a b) && not (lt b a)

-- What `std::set` requires of `operator<`, a strict weak order, as far as it is used here.
pub record IsWeakOrder {T : Type 0} (lt : T → T → Bool) : Type 0 where
  pub trans : (a b d : T) → lt a b ≡ true → lt b d ≡ true → lt a d ≡ true
  pub alike_trans : (a b d : T) → alike lt a b ≡ true → alike lt b d ≡ true → alike lt a d ≡ true

-- What `std::unordered_set` requires of `operator==`, and that the bucket takes one element more.
pub record IsHashed {T : Type 0} (u : Buckets T) : Type 0 where
  pub eq_trans : (a b d : T) → u.eq a b ≡ true → u.eq b d ≡ true → u.eq a d ≡ true
  pub placed :
      (z x : T) (xs : List T) → contains u.eq z (u.place x xs) ≡ (u.eq z x || contains u.eq z xs)

contains_snoc :
    {T : Type 0} (eq : T → T → Bool) (z x : T) (xs : List T)
    → contains eq z (xs ++ x ∷ []) ≡ (eq z x || contains eq z xs)
contains_snoc eq z x [] = refl
contains_snoc eq z x (w ∷ xs) = ground (arith, contains_snoc eq z x xs)

alike_sym : {T : Type 0} (lt : T → T → Bool) (a b : T) → alike lt a b ≡ alike lt b a
alike_sym lt a b = ground arith

module _ {T : Type 0} (lt : T → T → Bool) (u : Buckets T) (o : IsWeakOrder lt)
    (k : IsHashed u) where
  -- What is alike to one of two elements that are alike is alike to the other.
  alike_same : (z x w : T) → lt x w ≡ false → lt w x ≡ false → alike lt z x ≡ alike lt z w
  alike_same z x w p q = ground (arith, p, q, o.alike_trans z x w, o.alike_trans z w x)

  contains-set_insert :
      (z x : T) (xs : List T)
      → contains (alike lt) z (set_insert lt xs x) ≡ (alike lt z x || contains (alike lt) z xs)
  unfolding set_insert
  contains-set_insert z x [] = refl
  contains-set_insert z x (w ∷ xs) = ground (arith, contains-set_insert z x xs, alike_same z x w)

  -- What is equal to an element that is there is there.
  contains_trans :
      (z x : T) (xs : List T)
      → u.eq z x ≡ true
      → contains u.eq x xs ≡ true
      → contains u.eq z xs ≡ true
  contains_trans z x [] e h = h
  contains_trans z x (w ∷ xs) e h =
      ground (arith, e, h, k.eq_trans z x w e, contains_trans z x xs e)

  contains-unordered_insert :
      (z x : T) (xs : List T)
      → contains u.eq z (unordered_insert u xs x) ≡ (u.eq z x || contains u.eq z xs)
  unfolding unordered_insert
  contains-unordered_insert z x xs = elim (Bool-cases (contains u.eq x xs)) [
    | inl old ↦ elim (Bool-cases (u.eq z x)) [
      | inl e ↦ rw (old, e) (contains_trans z x xs e old)
      | inr e ↦ rw (old, e)
    ]
    | inr new ↦ rw new (k.placed z x xs)
  ]

  set_insert-All :
      (P : T → Type 0) (x : T) (xs : List T) → P x → All P xs → All P (set_insert lt xs x)
  unfolding set_insert
  set_insert-All P x [] p h = (p, tt)
  set_insert-All P x (w ∷ xs) p h =
      if_cases (All P) (lt x w) (p, h)
        (if_cases (All P) (lt w x) (h.0, set_insert-All P x xs p h.1) h)

  set_insert-Increasing :
      (x : T) (xs : List T) → Increasing lt xs → Increasing lt (set_insert lt xs x)
  unfolding set_insert
  set_insert-Increasing x [] s = (tt, tt)
  set_insert-Increasing x (w ∷ xs) s = elim (Bool-cases (lt x w)) [
    | inl a ↦ rw a (
      (a, All-mono (λ z. lt w z ≡ true) (λ z. lt x z ≡ true) xs (λ z b. o.trans x w z a b) s.0),
      s,
    )
    | inr a ↦ elim (Bool-cases (lt w x)) [
      | inl b ↦
          rw (a, b) (set_insert-All (λ z. lt w z ≡ true) x xs b s.0, set_insert-Increasing x xs s.1)
      | inr b ↦ rw (a, b) s
    ]
  ]

  -- The set and the vector hold elements alike to the same ones, and the set holds them in order;
  -- the unordered set and the vector hold elements equal to the same ones.
  abbrev pub Hold : List T → List T → List T → Type 0
  Hold xs s us =
      Increasing lt s
      × ((z : T)
          → (contains (alike lt) z s ≡ contains (alike lt) z xs)
            × (contains u.eq z us ≡ contains u.eq z xs))

  -- Three conversions give such containers, or throw the same exception.
  abbrev pub Agree : Outcome (List T) → Outcome (List T) → Outcome (List T) → Type 0
  Agree (gave xs) (gave s) (gave us) = Hold xs s us
  Agree (threw e) (threw e') (threw e'') = (e' ≡ e) × (e'' ≡ e)
  Agree _ _ _ = ⊥

  Hold-insert :
      (x : T) (xs s us : List T)
      → Hold xs s us
      → Hold (push_last xs x) (set_insert lt s x) (unordered_insert u us x)
  Hold-insert x xs s us (i, h) = (
    set_insert-Increasing x s i,
    λ z. (
      contains-set_insert z x s
          ∙ ap (λ r. alike lt z x || r) (h z).0
          ∙ sym (contains_snoc (alike lt) z x xs),
      contains-unordered_insert z x us
          ∙ ap (λ r. u.eq z x || r) (h z).1
          ∙ sym (contains_snoc u.eq z x xs),
    ),
  )

  module _ (y : Yaml) (b : Builder y) (c : Cast T) where
    read_nodes-Agree :
        (ns : List y.Node) (xs s us : List T)
        → Hold xs s us
        → Agree
            (read_nodes y b c push_last xs ns)
            (read_nodes y b c (set_insert lt) s ns)
            (read_nodes y b c (unordered_insert u) us ns)
    unfolding read_nodes
    read_nodes-Agree [] xs s us h = h
    read_nodes-Agree (n ∷ ns) xs s us h = go (c.read (y.show n)) (λ x.
        read_nodes-Agree ns (push_last xs x) (set_insert lt s x) (unordered_insert u us x)
          (Hold-insert x xs s us h))
      where
        go :
            (o : Outcome T)
            → ((x : T)
                → Agree
                    (read_nodes y b c push_last (push_last xs x) ns)
                    (read_nodes y b c (set_insert lt) (set_insert lt s x) ns)
                    (read_nodes y b c (unordered_insert u) (unordered_insert u us x) ns))
            → Agree
                (o >>= λ x. read_nodes y b c push_last (push_last xs x) ns)
                (o >>= λ x. read_nodes y b c (set_insert lt) (set_insert lt s x) ns)
                (o >>= λ x. read_nodes y b c (unordered_insert u) (unordered_insert u us x) ns)
        go (gave x) rest = rest x
        go (threw e) rest = (refl, refl)

    -- Where `operator<` is a strict weak order, `operator==` is transitive, and a bucket takes a new
    -- element beside those that are there, whatever the text: the conversions to `std::vector`,
    -- `std::set` and `std::unordered_set` all give containers or all throw the same exception. The
    -- `std::set` is in increasing order, and holds an element that is neither less nor greater than
    -- a given one exactly if the vector does; the `std::unordered_set` holds one that is equal to a
    -- given one exactly if the vector does.
    pub sets-Agree :
        (v : Text)
        → Agree
            ((vector_cast y b c).read v)
            ((set_cast y b c lt).read v)
            ((unordered_set_cast y b c u).read v)
    unfolding read_sequence
    sets-Agree v = go (y.load v)
      where
        go :
            (o : Outcome y.Node)
            → Agree
                (o >>= λ n. read_nodes y b c push_last [] (elements y n))
                (o >>= λ n. read_nodes y b c (set_insert lt) [] (elements y n))
                (o >>= λ n. read_nodes y b c (unordered_insert u) [] (elements y n))
        go (gave n) = read_nodes-Agree (elements y n) [] [] [] (tt, λ z. (refl, refl))
        go (threw e) = (refl, refl)
