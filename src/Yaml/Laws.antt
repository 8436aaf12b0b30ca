-- ===== src/Yaml/Laws.antt =====
-- What yaml-cpp promises to the conversions of wb_server/config.h and wb_server/log.cc.
use cpp_wb_server.Common.{
  List, [], ◌∷◌, map, none, some, Text, eq_text, false, if◌then◌else◌, All, ◌≡◌, subst, arith,
}
use mathlib.Core.List.{foldl}
use cpp_wb_server.Yaml.{gave, Yaml, Builder, elements}

-- `R` holds between the elements at the same places, and there are as many.
pub data Both {ℓ κ μ} {A : Type ℓ} {B : Type κ} (R : A → B → Type μ)
    : List A → List B → Type (ℓ ⊔ κ ⊔ μ) where
  both_nil : Both R [] []
  both_cons :
      {a : A} {b : B} {as' : List A} {bs : List B}
      → R a b
      → Both R as' bs
      → Both R (a ∷ as') (b ∷ bs)

module _ {ℓ κ μ ν} {A : Type ℓ} {B : Type κ} {C : Type μ} (R : A → B → Type ν) (f : C → B) where
  head_same : {a b : B} {as' bs : List B} → a ∷ as' ≡ b ∷ bs → (a ≡ b) × (as' ≡ bs)
  head_same h = (cc, cc)

  pub Both-map :
      (xs : List C) {as' : List A} {bs : List B}
      → Both R as' bs
      → bs ≡ map f xs
      → Both (λ a x. R a (f x)) as' xs
  Both-map [] both_nil e = both_nil
  Both-map (x ∷ xs) both_nil e = absurd (ground (arith, e))
  Both-map [] (both_cons r h) e = absurd (ground (arith, e))
  Both-map (x ∷ xs) (both_cons {a} r h) e =
      let (p, q) = head_same e in both_cons (subst (R a) p r) (Both-map xs h q)

-- No pair has that key.
abbrev pub Fresh : {A : Type 0} → Text → List (Text × A) → Type 0
Fresh {A} k m = All (λ (e : Text × A). eq_text k e.0 ≡ false) m

-- No key is there twice.
abbrev pub Apart : {A : Type 0} → List (Text × A) → Type 0
Apart [] = Unit
Apart ((k, v) ∷ m) = Fresh k m × Apart m

-- What yaml-cpp promises: what `<<` printed loads, and the node that is loaded is the same document
-- as the one that was printed (`Same`); nodes of the same document have the same elements and pairs;
-- and a node holds what was pushed to it, or was put under keys that differ, in that order.
pub record IsFaithful (y : Yaml) (b : Builder y) : Type 1 where
  pub Same : y.Node → y.Node → Type 0
  pub same_trans : (l m n : y.Node) → Same l m → Same m n → Same l n
  pub load_show : (n : y.Node) → (m : y.Node) × (y.load (y.show n) ≡ gave m) × Same m n
  pub same_elements : (m n : y.Node) → Same m n → Both Same (elements y m) (elements y n)
  pub same_pairs :
      (m n : y.Node) (es : List (Text × y.Node))
      → Same m n
      → b.pairs n ≡ gave es
      → (ds : List (Text × y.Node)) × (b.pairs m ≡ gave ds)
        × Both (λ (d e : Text × y.Node). (d.0 ≡ e.0) × Same d.1 e.1) ds es
  pub elements_pushed : (ns : List y.Node) → elements y (foldl b.push_back b.null ns) ≡ ns
  pub pairs_put :
      (es : List (Text × y.Node))
      → Apart es
      → b.pairs (foldl (λ n e. b.put n e.0 e.1) b.null es) ≡ gave es

-- A map that was built up from nothing.
pub data IsMade (y : Yaml) (b : Builder y) : y.Node → Type 0 where
  made_null : IsMade y b b.null
  made_put : {n : y.Node} (k : Text) (v : y.Node) → IsMade y b n → IsMade y b (b.put n k v)

-- What yaml-cpp promises of maps and texts, over a relation `Same` of nodes that are the same
-- document: the same fields and the same text; a text reads as itself; and a key holds what was last
-- put under it.
pub record IsKeyed (y : Yaml) (b : Builder y) (Same : y.Node → y.Node → Type 0) : Type 0 where
  pub same_text : (m n : y.Node) → Same m n → y.as_text m ≡ y.as_text n
  pub same_field :
      (m n v : y.Node) (k : Text)
      → Same m n
      → y.field n k ≡ gave (some v)
      → (w : y.Node) × (y.field m k ≡ gave (some w)) × Same w v
  pub same_missing :
      (m n : y.Node) (k : Text) → Same m n → y.field n k ≡ gave none → y.field m k ≡ gave none
  pub text_read : (t : Text) → y.as_text (b.text t) ≡ gave t
  pub field_null : (k : Text) → y.field b.null k ≡ gave none
  pub field_put :
      (n v : y.Node) (k j : Text)
      → IsMade y b n
      → y.field (b.put n k v) j ≡ (if eq_text j k then gave (some v) else y.field n j)
