-- ===== src/Config/Cast/Maps.antt =====
-- The conversions of `std::map` and `std::unordered_map` of wb_server/config.h.
use cpp_wb_server.Common.{
  subst, ◌≡◌, refl, ap, sym, ◌∙◌, true, false, Bool, List, [], ◌∷◌, Text, eq_text, eq_text_iff, All,
  All-mono, arith, Bool-cases, inl, inr,
}
use mathlib.Core.List.{foldl}
use cpp_wb_server.Common.Sets.{set_insert, Increasing, foldl-set_insert, All-every}
use cpp_wb_server.Yaml.{gave, Yaml, Builder}
use cpp_wb_server.Yaml.Laws.{Both, both_nil, both_cons, Fresh, Apart, IsFaithful}
use cpp_wb_server.Log.Define.{lt_text}
use cpp_wb_server.Log.Define.Laws.{lt_text_irrefl}
use cpp_wb_server.Log.Define.Sets.{lt_text-asym}
use cpp_wb_server.Config.Cast.{
  Cast, map_insert, read_pairs, read_map, write_pairs, write_map, map_cast,
}
use cpp_wb_server.Config.Cast.Echo.{Reads, IsEcho}

abbrev pub lt_key : {T : Type 0} → Text × T → Text × T → Bool
lt_key d e = lt_text d.0 e.0

map_insert-set_insert :
    {T : Type 0} (m : List (Text × T)) (e : Text × T) → map_insert m e ≡ set_insert lt_key m e
unfolding map_insert set_insert
map_insert-set_insert [] (k, v) = refl
map_insert-set_insert ((j, w) ∷ m) (k, v) = rw (map_insert-set_insert m (k, v))

foldl-map_insert :
    {T : Type 0} (xs ys : List (Text × T))
    → foldl map_insert ys xs ≡ foldl (set_insert lt_key) ys xs
foldl-map_insert [] ys = refl
foldl-map_insert (x ∷ xs) ys =
    foldl-map_insert xs (map_insert ys x)
    ∙ ap (λ zs. foldl (set_insert lt_key) zs xs) (map_insert-set_insert ys x)

Increasing-Apart : {T : Type 0} (m : List (Text × T)) → Increasing lt_key m → Apart m
Increasing-Apart [] s = tt
Increasing-Apart {T} ((k, v) ∷ m) s = (
  All-mono (λ e. lt_key (k, v) e ≡ true) (λ e. eq_text k e.0 ≡ false) m fresh s.0,
  Increasing-Apart m s.1,
)
  where
    fresh : (e : Text × T) → lt_text k e.0 ≡ true → eq_text k e.0 ≡ false
    fresh e h = elim (Bool-cases (eq_text k e.0)) [
      | inl q ↦
          absurd (ground (arith, h, ap (lt_text k) ((eq_text_iff k e.0).0 q), lt_text_irrefl k))
      | inr q ↦ q
    ]

module _ (y : Yaml) (b : Builder y) (f : IsFaithful y b) {T : Type 0} (c : Cast T) where
  -- The pair that was written is the pair that is read.
  abbrev ReadsPair : Text × y.Node → Text × T → Type 0
  ReadsPair d e = (d.0 ≡ e.0) × Reads y b f c d.1 e.1

  abbrev SamePair : Text × y.Node → Text × y.Node → Type 0
  SamePair d e = (d.0 ≡ e.0) × f.Same d.1 e.1

  write_pairs_lem :
      (m : List (Text × T)) (node : y.Node)
      → All (λ e. IsEcho y b f c e.1) m
      → (es : List (Text × y.Node)) × (write_pairs y b c node m
          ≡ gave (foldl (λ n e. b.put n e.0 e.1) node es))
        × Both ReadsPair es m
  unfolding write_pairs
  write_pairs_lem [] node h = ([], refl, both_nil)
  write_pairs_lem ((k, x) ∷ m) node ((t, n, w, l, r), h) =
      let (es, e, q) = write_pairs_lem m (b.put node k n) h in
      ((k, n) ∷ es, rw (w, l) e, both_cons (refl, r) q)

  read_pairs_lem :
      (vec : List (Text × T)) {ds es : List (Text × y.Node)} {m : List (Text × T)}
      → Both SamePair ds es
      → Both ReadsPair es m
      → read_pairs y b c map_insert vec ds ≡ gave (foldl map_insert vec m)
  unfolding read_pairs
  read_pairs_lem vec both_nil both_nil = refl
  read_pairs_lem vec (both_cons {a = d} s h) (both_cons {b = e} r k) =
      rw (r.1 d.1 s.1, s.0, r.0) (read_pairs_lem (map_insert vec e) h k)

  Fresh-Both :
      (k : Text) {es : List (Text × y.Node)} {m : List (Text × T)}
      → Both ReadsPair es m
      → Fresh k m
      → Fresh k es
  Fresh-Both k both_nil h = tt
  Fresh-Both k (both_cons r q) h =
      (subst (λ j. eq_text k j ≡ false) (sym r.0) h.0, Fresh-Both k q h.1)

  Apart-Both :
      {es : List (Text × y.Node)} {m : List (Text × T)} → Both ReadsPair es m → Apart m → Apart es
  Apart-Both both_nil h = tt
  Apart-Both (both_cons {a = d} {bs = m} r q) h =
      (Fresh-Both d.0 q (subst (λ k. Fresh {A = T} k m) (sym r.0) h.0), Apart-Both q h.1)

  -- If every value is read back from what it is written as, so is a `std::map` of them, whose keys
  -- are texts in increasing order.
  pub map-IsEcho :
      (m : List (Text × T))
      → Increasing lt_key m
      → All (λ e. IsEcho y b f c e.1) m
      → IsEcho y b f (map_cast y b c) m
  unfolding write_map read_map
  map-IsEcho m s h =
      let (es, e, k) = write_pairs_lem m b.null h in
      let node : y.Node = foldl (λ n e. b.put n e.0 e.1) b.null es in
      let (loaded, l, q) = f.load_show node in
      (
        y.show node,
        loaded,
        rw e,
        l,
        λ n same.
            let (n', l', q') = f.load_show n in
            let (ds, p, all) =
              f.same_pairs n' node es
                (f.same_trans n' loaded node (f.same_trans n' n loaded q' same) q)
                (f.pairs_put es (Apart-Both k (Increasing-Apart m s))) in
            rw (l', p) (read_pairs_lem [] all k ∙ ap gave back),
      )
    where
      back : foldl map_insert [] m ≡ m
      back =
          foldl-map_insert m []
          ∙ foldl-set_insert lt_key [] m (λ a b. lt_text-asym a.0 b.0) (All-every m (λ x. tt)) s
