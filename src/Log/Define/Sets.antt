-- ===== src/Log/Define/Sets.antt =====
-- `std::set<LogDefine>` of wb_server/log.cc: what `insert` keeps and `find` then finds.
use cpp_wb_server.Common.{
  ◌≡◌, ◌∙◌, refl, ap, inl, inr, true, false, List, [], ◌∷◌, Text, arith, Bool-cases, All, All-mono,
}
use mathlib.Core.List.{foldl}
use cpp_wb_server.Common.Sets.{set_insert, Increasing, foldl-set_insert, All-every}
use cpp_wb_server.Log.Define.{LogDefine, lt_text, lt_define, insert}
use cpp_wb_server.Log.Define.Laws.{Sorted, lt_text_irrefl}

pub lt_text_trans : (s t u : Text) → lt_text s t ≡ true → lt_text t u ≡ true → lt_text s u ≡ true
unfolding lt_text
lt_text_trans s t [] h k = absurd (ground (arith, k))
lt_text_trans s [] (c ∷ u) h k = absurd (ground (arith, h))
lt_text_trans [] (b ∷ t) (c ∷ u) h k = refl
lt_text_trans (a ∷ s) (b ∷ t) (c ∷ u) h k = ground (arith, lt_text_trans s t u, h, k)

pub lt_text-asym : (s t : Text) → lt_text s t ≡ true → lt_text t s ≡ false
lt_text-asym s t h = elim (Bool-cases (lt_text t s)) [
  | inl k ↦ absurd (ground (arith, lt_text_trans s t s h k, lt_text_irrefl s))
  | inr k ↦ k
]

pub insert-All :
    (P : LogDefine → Type 0) (d : LogDefine) (xs : List LogDefine)
    → P d
    → All P xs
    → All P (insert d xs)
unfolding insert
insert-All P d [] p h = (p, tt)
insert-All P d (x ∷ xs) p h = elim (Bool-cases (lt_define d x)) [
  | inl a ↦ rw a (p, h)
  | inr a ↦ elim (Bool-cases (lt_define x d)) [
    | inl b ↦ rw (a, b) (h.0, insert-All P d xs p h.1)
    | inr b ↦ rw (a, b) h
  ]
]

pub insert-Sorted : (d : LogDefine) (xs : List LogDefine) → Sorted xs → Sorted (insert d xs)
unfolding insert
insert-Sorted d [] s = (tt, tt)
insert-Sorted d (x ∷ xs) s = elim (Bool-cases (lt_define d x)) [
  | inl a ↦ rw a (
    (
      a,
      All-mono (λ (y : LogDefine). lt_define x y ≡ true) (λ (y : LogDefine). lt_define d y ≡ true)
          xs (λ y k. lt_text_trans d.name x.name y.name a k) s.0,
    ),
    s,
  )
  | inr a ↦ elim (Bool-cases (lt_define x d)) [
    | inl b ↦
        rw (a, b)
          (insert-All (λ (y : LogDefine). lt_define x y ≡ true) d xs b s.0, insert-Sorted d xs s.1)
    | inr b ↦ rw (a, b) s
  ]
]

insert-set_insert : (xs : List LogDefine) (d : LogDefine) → insert d xs ≡ set_insert lt_define xs d
unfolding insert set_insert
insert-set_insert [] d = refl
insert-set_insert (x ∷ xs) d = rw (insert-set_insert xs d)

foldl-insert :
    (xs ys : List LogDefine) → foldl (λ v d. insert d v) ys xs ≡ foldl (set_insert lt_define) ys xs
foldl-insert [] ys = refl
foldl-insert (x ∷ xs) ys =
    foldl-insert xs (insert x ys)
    ∙ ap (λ zs. foldl (set_insert lt_define) zs xs) (insert-set_insert ys x)

-- Definitions that are inserted in order stay as they are.
pub foldl-insert_sorted :
    (xs : List LogDefine) → Increasing lt_define xs → foldl (λ v d. insert d v) [] xs ≡ xs
foldl-insert_sorted xs s =
    foldl-insert xs []
    ∙ foldl-set_insert lt_define [] xs (λ a b. lt_text-asym a.name b.name) (All-every xs (λ x. tt))
        s
