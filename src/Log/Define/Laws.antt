-- ===== src/Log/Define/Laws.antt =====
-- `LogDefine::operator==` and the set of definitions of wb_server/log.cc.
use cpp_wb_server.Common.{
  All-mono, sym, ◌≡◌, ◌≢◌, refl, ap, inl, inr, true, false, not, ◌&&◌, List, [], ◌∷◌, none, Text,
  eq_text_refl, arith, Bool-cases, All,
}
use cpp_wb_server.Log.Define.{
  AppenderDefine, LogDefine, eq_appender, eq_appenders, eq_define, lt_text, lt_define, find,
}

eq_appender_refl : (a : AppenderDefine) → eq_appender a a ≡ true
unfolding eq_appender
eq_appender_refl a = ground (arith, eq_text_refl a.formatter, eq_text_refl a.file)

eq_appenders_refl : (as' : List AppenderDefine) → eq_appenders as' as' ≡ true
unfolding eq_appenders
eq_appenders_refl [] = refl
eq_appenders_refl (a ∷ as') = ground (arith, eq_appender_refl a, eq_appenders_refl as')

-- `LogDefine::operator==` does not look at the other side's appenders: whatever they are, two
-- definitions with the same name, level and formatter are equal.
pub eq_define-ignores :
    (d : LogDefine) (as' : List AppenderDefine) → eq_define d (record d { appenders = as' }) ≡ true
unfolding eq_define
eq_define-ignores d as' =
    ground (arith, eq_text_refl d.name, eq_text_refl d.formatter, eq_appenders_refl d.appenders)

pub lt_text-total : (s t : Text) → lt_text s t ≡ false → lt_text t s ≡ false → s ≡ t
unfolding lt_text
lt_text-total [] [] p q = refl
lt_text-total [] (b ∷ t) p q = absurd (ground (arith, p))
lt_text-total (a ∷ s) [] p q = absurd (ground (arith, q))
lt_text-total (a ∷ s) (b ∷ t) p q = ground (arith, p, q, lt_text-total s t)

pub lt_text_irrefl : (s : Text) → lt_text s s ≡ false
unfolding lt_text
lt_text_irrefl [] = refl
lt_text_irrefl (a ∷ s) = ground (arith, lt_text_irrefl s)

-- An element that is not found has another name than every element of the set.
pub find-none :
    (d : LogDefine) (xs : List LogDefine)
    → find d xs ≡ none
    → All (λ (x : LogDefine). d.name ≢ x.name) xs
unfolding find
find-none d [] h = tt
find-none d (x ∷ xs) h = elim (Bool-cases (not (lt_define d x) && not (lt_define x d))) [
  | inl same ↦ absurd (ground (arith, h, same))
  | inr apart ↦ (
    λ e. ground (
      arith,
      ap (lt_text d.name) (sym e),
      ap (λ n. lt_text n d.name) (sym e),
      lt_text_irrefl d.name,
      apart,
    ),
    find-none d xs (ground (arith, h, apart)),
  )
]

-- No definition has that name.
abbrev pub Unnamed : Text → List LogDefine → Type 0
Unnamed n ds = All (λ (d : LogDefine). n ≢ d.name) ds

-- No two definitions have the same name.
abbrev pub Distinct : List LogDefine → Type 0
Distinct [] = Unit
Distinct (d ∷ ds) = Unnamed d.name ds × Distinct ds

-- The order in which a `std::set` holds its elements.
abbrev pub Sorted : List LogDefine → Type 0
Sorted [] = Unit
Sorted (d ∷ ds) = All (λ (x : LogDefine). lt_define d x ≡ true) ds × Sorted ds

pub Sorted-Distinct : (ds : List LogDefine) → Sorted ds → Distinct ds
Sorted-Distinct [] s = tt
Sorted-Distinct (d ∷ ds) s = (
  All-mono (λ (x : LogDefine). lt_define d x ≡ true) (λ (x : LogDefine). d.name ≢ x.name) ds
      (λ x h e. ground (arith, h, ap (lt_text d.name) e, lt_text_irrefl d.name)) s.0,
  Sorted-Distinct ds s.1,
)
