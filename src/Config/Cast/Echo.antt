-- ===== src/Config/Cast/Echo.antt =====
-- What the container conversions of wb_server/config.h write is read back.
use cpp_wb_server.Common.{
  subst, ◌≡◌, refl, ap, sym, ◌∙◌, true, false, Bool, List, [], ◌∷◌, ◌++◌, append-nil, append_assoc,
  Text, All,
}
use mathlib.Core.List.{foldl}
use cpp_wb_server.Common.Sets.{set_insert, Increasing, foldl-set_insert, All-every}
use cpp_wb_server.Yaml.{gave, Yaml, Builder, elements}
use cpp_wb_server.Yaml.Laws.{Both, both_nil, both_cons, IsFaithful}
use cpp_wb_server.Config.Cast.{
  Cast, push_last, read_nodes, read_sequence, write_nodes, write_sequence, vector_cast, list_cast,
  set_cast,
}

module _ (y : Yaml) (b : Builder y) (f : IsFaithful y b) {T : Type 0} (c : Cast T) where
  -- Every node that is the same document as `n` reads as `x`.
  abbrev pub Reads : y.Node → T → Type 0
  Reads n x = (m : y.Node) → f.Same m n → c.read (y.show m) ≡ gave x

  -- `x` is written as a text that loads, and is read back from what it loads as.
  abbrev pub IsEcho : T → Type 0
  IsEcho x = (t : Text) × (n : y.Node) × (c.write x ≡ gave t) × (y.load t ≡ gave n) × Reads n x

  write_nodes_lem :
      (xs : List T) (node : y.Node)
      → All IsEcho xs
      → (ns : List y.Node) × (write_nodes y b c node xs ≡ gave (foldl b.push_back node ns))
        × Both Reads ns xs
  unfolding write_nodes
  write_nodes_lem [] node h = ([], refl, both_nil)
  write_nodes_lem (x ∷ xs) node ((t, n, w, l, r), h) =
      let (ns, e, k) = write_nodes_lem xs (b.push_back node n) h in
      (n ∷ ns, rw (w, l) e, both_cons r k)

  read_nodes_lem :
      {C : Type 0} (add : C → T → C) (vec : C) {ms ns : List y.Node} {xs : List T}
      → Both f.Same ms ns
      → Both Reads ns xs
      → read_nodes y b c add vec ms ≡ gave (foldl add vec xs)
  unfolding read_nodes
  read_nodes_lem add vec both_nil both_nil = refl
  read_nodes_lem add vec (both_cons {a = m} s h) (both_cons {b = x} r k) =
      rw (r m s) (read_nodes_lem add (add vec x) h k)

  -- A container whose elements echo echoes, if its own loop puts them back in the same order.
  sequence-IsEcho :
      (add : List T → T → List T) (xs : List T)
      → foldl add [] xs ≡ xs
      → All IsEcho xs
      → (t : Text) × (n : y.Node) × (write_sequence y b c xs ≡ gave t)
        × (y.load t ≡ gave n)
        × ((m : y.Node) → f.Same m n → read_sequence y b c add [] (y.show m) ≡ gave xs)
  unfolding write_sequence read_sequence
  sequence-IsEcho add xs back h =
      let (ns, e, k) = write_nodes_lem xs b.null h in
      let node : y.Node = foldl b.push_back b.null ns in
      let (loaded, l, s) = f.load_show node in
      (
        y.show node,
        loaded,
        rw e,
        l,
        λ m same.
            let (m', l', s') = f.load_show m in
            let all =
              f.same_elements m' node
                (f.same_trans m' loaded node (f.same_trans m' m loaded s' same) s) in
            rw l' (
              read_nodes_lem add []
                (subst (λ z. Both f.Same (elements y m') z) (f.elements_pushed ns) all) k
              ∙ ap gave back),
      )

foldl-push_last : {T : Type 0} (ys xs : List T) → foldl push_last ys xs ≡ ys ++ xs
foldl-push_last ys [] = sym (append-nil ys)
foldl-push_last ys (x ∷ xs) = foldl-push_last (ys ++ x ∷ []) xs ∙ append_assoc ys (x ∷ []) xs

module _ (y : Yaml) (b : Builder y) (f : IsFaithful y b) {T : Type 0} (c : Cast T) where
  -- If every element is read back from what it is written as, so is a `std::vector` and a
  -- `std::list` of them, in the same order.
  pub vector-IsEcho :
      (xs : List T)
      → All (IsEcho y b f c) xs
      → IsEcho y b f (vector_cast y b c) xs × IsEcho y b f (list_cast y b c) xs
  vector-IsEcho xs h =
      let e = sequence-IsEcho y b f c push_last xs (foldl-push_last [] xs) h in (e, e)

  -- If every element is read back from what it is written as, so is a `std::set` of them.
  pub set-IsEcho :
      (lt : T → T → Bool) (xs : List T)
      → ((a b : T) → lt a b ≡ true → lt b a ≡ false)
      → Increasing lt xs
      → All (IsEcho y b f c) xs
      → IsEcho y b f (set_cast y b c lt) xs
  set-IsEcho lt xs asym s h =
      sequence-IsEcho y b f c (set_insert lt) xs
        (foldl-set_insert lt [] xs asym (All-every xs (λ x. tt)) s) h
