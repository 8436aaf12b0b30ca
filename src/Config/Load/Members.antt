-- ===== src/Config/Load/Members.antt =====
-- `list_all_menmber` of wb_server/config.cc: the nodes of a document with their paths.
use cpp_wb_server.Common.{
  subst, ◌∙◌, sym, ap, All-mono, ℕ, zero, suc, ◌≡◌, refl, ◌<◌, ◌++◌, List, [], ◌∷◌, none, some, not,
  Text, arith, All, Bool-cases, Option-cases, inl, inr,
}
use cpp_wb_server.Yaml.{Yaml}
use cpp_wb_server.Log.Level.{error}
use cpp_wb_server.Log.World.{World, System, Result, ok}
use cpp_wb_server.Log.Logger.Frame.{Same, Same-refl, Same-trans}
use cpp_wb_server.Log.Manager.Invariant.{IsValid, Same-IsValid}
use cpp_wb_server.Config.Var.{Places}
use cpp_wb_server.Config.Var.Calls.{log_line-Same}
use cpp_wb_server.Config.Registry.{is_name}
use cpp_wb_server.Config.Load.{join, check_name, each_entry, list_all_member}

-- A document is a finite tree: the nodes in a map are lower than the map.
abbrev pub IsTree : (y : Yaml) → (y.Node → ℕ) → Type 0
IsTree y height =
    (n : y.Node) (es : List (Text × y.Node))
    → y.entries n ≡ some es
    → All (λ (e : Text × y.Node). height e.1 < height n) es

module _ (y : Yaml) (sys : System) (at : Places) where
  mutual
    -- What the document has below a prefix: the node itself, then, for a map, what its entries have,
    -- in order.
    pub data Below : Text → y.Node → List (Text × y.Node) → Type 0 where
      leaf : {p : Text} {n : y.Node} → y.entries n ≡ none → Below p n ((p, n) ∷ [])
      branch :
          {p : Text} {n : y.Node} {es : List (Text × y.Node)} {ms : List (Text × y.Node)}
          → y.entries n ≡ some es
          → BelowAll p es ms
          → Below p n ((p, n) ∷ ms)

    pub data BelowAll : Text → List (Text × y.Node) → List (Text × y.Node) → Type 0 where
      below_nil : {p : Text} → BelowAll p [] []
      below_cons :
          {p k : Text} {n : y.Node} {es ms rest : List (Text × y.Node)}
          → Below (join y sys at p k) n ms
          → BelowAll p es rest
          → BelowAll p ((k, n) ∷ es) (ms ++ rest)

  check_name-Same :
      (p : Text) (n : y.Node) (w : World)
      → IsValid w
      → (w' : World) × (check_name y sys at p n w ≡ ok w') × Same w w'
  unfolding check_name
  check_name-Same p n w v = elim (Bool-cases (not (is_name p))) [
    | inl bad ↦ rw bad (log_line-Same sys (at 20) error _ w v)
    | inr good ↦ (w, rw good, Same-refl w)
  ]

  -- The call returns what the document has, and leaves the loggers.
  abbrev pub Lists : Text → y.Node → World → Result (World × List (Text × y.Node)) → Type 0
  Lists p n w r =
      (w' : World) × (ms : List (Text × y.Node)) × (r ≡ ok (w', ms)) × Same w w' × Below p n ms

  each_entry-Lists :
      (visit : Text → y.Node → World → Result (World × List (Text × y.Node))) (p : Text)
      (es : List (Text × y.Node)) (w : World)
      → All
          (λ (e : Text × y.Node).
            (q : Text) (w : World) → IsValid w → Lists q e.1 w (visit q e.1 w))
          es
      → IsValid w
      → (w' : World) × (ms : List (Text × y.Node)) × (each_entry y sys at visit p es w
          ≡ ok (w', ms))
        × Same w w'
        × BelowAll p es ms
  unfolding each_entry
  each_entry-Lists visit p [] w h v = (w, [], refl, Same-refl w, below_nil)
  each_entry-Lists visit p ((k, n) ∷ es) w h v =
      let (w₁, ms, e, s, b) = h.0 (join y sys at p k) w v in
      let (w₂, rest, e', s', b') = each_entry-Lists visit p es w₁ h.1 (Same-IsValid s v) in
      (w₂, ms ++ rest, rw (e, each_entry) (rw e'), Same-trans s s', below_cons b b')

  module _ (height : y.Node → ℕ) (tree : IsTree y height) where
    list_all_member-Lists :
        (fuel : ℕ) (p : Text) (n : y.Node) (w : World)
        → height n < fuel
        → IsValid w
        → Lists p n w (list_all_member y sys at fuel p n w)
    unfolding list_all_member
    list_all_member-Lists zero p n w h v = absurd (omega (arith, h))
    list_all_member-Lists (suc fuel) p n w h v =
        let (w₁, e, s) = check_name-Same p n w v in
        let v₁ : IsValid w₁ = Same-IsValid s v in
        elim (Option-cases (y.entries n)) [
          | inl none_in ↦ (w₁, (p, n) ∷ [], rw (e, none_in), s, leaf none_in)
          | inr (es, has) ↦
              let below : All
                  (λ (e : Text × y.Node).
                    (q : Text) (w : World)
                    → IsValid w
                    → Lists q e.1 w (list_all_member y sys at fuel q e.1 w))
                  es =
                All-mono _ _ es
                  (λ e l q w v. list_all_member-Lists fuel q e.1 w (omega (arith, l, h)) v)
                  (tree n es has) in
              let (w₂, ms, e', s', b) =
                each_entry-Lists (list_all_member y sys at fuel) p es w₁ below v₁ in
              (w₂, (p, n) ∷ ms, rw (e, has, e'), Same-trans s s', branch has b)
        ]

module _ (y : Yaml) (sys : System) (at : Places) where
  abbrev first : Text × y.Node → List (Text × y.Node) → Text × y.Node
  first d [] = d
  first d (e ∷ es) = e

  abbrev tail : List (Text × y.Node) → List (Text × y.Node)
  tail [] = []
  tail (e ∷ es) = es

  some-inj : {a b : List (Text × y.Node)} → some a ≡ some b → a ≡ b
  some-inj h = cc

  -- A document has one list below a prefix.
  mutual
    pub Below-unique :
        {p : Text} {n : y.Node} {ms ms' : List (Text × y.Node)}
        → Below y sys at p n ms
        → Below y sys at p n ms'
        → ms ≡ ms'
    Below-unique (leaf h) (leaf k) = refl
    Below-unique (leaf h) (branch k b) = absurd (ground (arith, h, k))
    Below-unique (branch h a) (leaf k) = absurd (ground (arith, h, k))
    Below-unique {p} {n} (branch h a) (branch k b) =
        ap (λ ms. (p, n) ∷ ms) (BelowAll-unique a b (some-inj (sym h ∙ k)))

    BelowAll-unique :
        {p : Text} {es es' : List (Text × y.Node)} {ms ms' : List (Text × y.Node)}
        → BelowAll y sys at p es ms
        → BelowAll y sys at p es' ms'
        → es ≡ es'
        → ms ≡ ms'
    BelowAll-unique below_nil below_nil h = refl
    BelowAll-unique below_nil (below_cons a b) h = absurd (ground (arith, h))
    BelowAll-unique (below_cons a b) below_nil h = absurd (ground (arith, h))
    BelowAll-unique {p} (below_cons {k = k} {n = n} {es = es} a b) (below_cons {ms = ms'} c d) h =
        let e = ap (first (k, n)) h in
        let same =
          Below-unique a (
            subst (λ (z : Text × y.Node). Below y sys at (join y sys at p z.0) z.1 ms') (sym e)
              c) in
        let later = BelowAll-unique b d (ap tail h) in cc

-- On a finite document, with fuel above its height, `list_all_menmber` returns every node with its
-- path, a map before its entries and the entries in order; invalid prefixes are only logged.
pub list_all_member-Below :
    (y : Yaml) (sys : System) (at : Places) (height : y.Node → ℕ) (root : y.Node) (w : World)
    → IsTree y height
    → IsValid w
    → (w' : World) × (ms : List (Text × y.Node)) × (list_all_member y sys at
          (suc (height root))
          []
          root
          w
        ≡ ok (w', ms))
      × Same w w'
      × Below y sys at [] root ms
list_all_member-Below y sys at height root w tree v =
    list_all_member-Lists y sys at height tree (suc (height root)) [] root w (omega arith) v
