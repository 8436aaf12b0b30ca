-- ===== src/Config/Tests/Casts.antt =====
-- The conversions of containers of wb_server/config.h and of the definitions of wb_server/log.cc at
-- inputs.
use cpp_wb_server.Common.{
  ◌≡◌, ◌∙◌, true, refl, ap, eq_text, eq_text_iff, arith, inl, inr, List, [], ◌∷◌, Text, codes, map,
}
use cpp_wb_server.Yaml.{gave}
use cpp_wb_server.Yaml.Coded.{
  coded_yaml, coded_builder, coded-IsFaithful, coded-IsKeyed, coded-Same,
}
use cpp_wb_server.Log.Level.{warn, unknow}
use cpp_wb_server.Log.Define.{LogDefine, lt_text, lt_define, eq_define}
use cpp_wb_server.Log.Define.Laws.{lt_text-total, lt_text_irrefl}
use cpp_wb_server.Log.Define.Sets.{lt_text_trans}
use cpp_wb_server.Log.Define.Parse.{pure, parse}
use cpp_wb_server.Log.Define.Print.{print}
use cpp_wb_server.Log.Define.Print.Defines.{kept_define}
use cpp_wb_server.Log.Define.Print.RoundTrip.{parse-print}
use cpp_wb_server.Config.Cast.{
  Cast, Buckets, vector_cast, list_cast, map_cast, set_cast, unordered_set_cast,
}
use cpp_wb_server.Config.Cast.Echo.{IsEcho, vector-IsEcho}
use cpp_wb_server.Config.Cast.Maps.{map-IsEcho}
use cpp_wb_server.Config.Cast.Reading.{alike, IsWeakOrder, IsHashed, Agree, sets-Agree}

-- Texts stand for themselves.
abbrev text_cast : Cast Text
text_cast = record { read = gave; write = gave }

text-IsEcho : (t : Text) → IsEcho coded_yaml coded_builder coded-IsFaithful text_cast t
text-IsEcho t = (t, t, refl, refl, λ m s. ap gave (coded-Same m t s))

vector-IsEcho_example :
    IsEcho coded_yaml coded_builder coded-IsFaithful
      (vector_cast coded_yaml coded_builder text_cast)
      (codes "b" ∷ codes "a" ∷ [])
    × IsEcho coded_yaml coded_builder coded-IsFaithful
        (list_cast coded_yaml coded_builder text_cast)
        (codes "b" ∷ codes "a" ∷ [])
vector-IsEcho_example =
    vector-IsEcho coded_yaml coded_builder coded-IsFaithful text_cast (codes "b" ∷ codes "a" ∷ [])
      (text-IsEcho (codes "b"), (text-IsEcho (codes "a"), tt))

map-IsEcho_example :
    IsEcho coded_yaml coded_builder coded-IsFaithful
      (map_cast coded_yaml coded_builder text_cast)
      ((codes "a", codes "1") ∷ (codes "b", codes "1") ∷ [])
unfolding lt_text
map-IsEcho_example =
    map-IsEcho coded_yaml coded_builder coded-IsFaithful text_cast
      ((codes "a", codes "1") ∷ (codes "b", codes "1") ∷ []) ((refl, tt), (tt, tt))
      (text-IsEcho (codes "1"), (text-IsEcho (codes "1"), tt))

-- A text stands for the definition of that name and with no formatter.
abbrev define_cast : Cast LogDefine
define_cast = record {
  read = λ t. gave (record { name = t; level = warn; formatter = []; appenders = [] });
  write = λ d. gave d.name;
}

abbrev define_buckets : Buckets LogDefine
define_buckets = record { eq = eq_define; place = λ x xs. x ∷ xs }

alike-name : (a b : LogDefine) → alike lt_define a b ≡ true → a.name ≡ b.name
alike-name a b h = lt_text-total a.name b.name (ground (arith, h)) (ground (arith, h))

lt_define-IsWeakOrder : IsWeakOrder lt_define
lt_define-IsWeakOrder = record {
  trans = λ a b d. lt_text_trans a.name b.name d.name;
  alike_trans = λ a b d p q. rw (alike-name a b p, alike-name b d q, lt_text_irrefl d.name) refl;
}

eq_text_trans : (s t u : Text) → eq_text s t ≡ true → eq_text t u ≡ true → eq_text s u ≡ true
eq_text_trans s t u p q = (eq_text_iff s u).1 ((eq_text_iff s t).0 p ∙ (eq_text_iff t u).0 q)

eq_define_trans :
    (a b d : LogDefine) → eq_define a b ≡ true → eq_define b d ≡ true → eq_define a d ≡ true
unfolding eq_define
eq_define_trans a b d p q = ground (
  arith,
  p,
  q,
  eq_text_trans a.name b.name d.name,
  eq_text_trans a.formatter b.formatter d.formatter,
)

define_buckets-IsHashed : IsHashed define_buckets
define_buckets-IsHashed = record { eq_trans = eq_define_trans; placed = λ z x xs. refl }

abbrev two_names : Text
two_names = coded_builder.push_back (coded_builder.push_back [] (codes "b")) (codes "a")

sets-Agree_example :
    Agree lt_define define_buckets lt_define-IsWeakOrder define_buckets-IsHashed
      ((vector_cast coded_yaml coded_builder define_cast).read two_names)
      ((set_cast coded_yaml coded_builder define_cast lt_define).read two_names)
      ((unordered_set_cast coded_yaml coded_builder define_cast define_buckets).read two_names)
sets-Agree_example =
    sets-Agree lt_define define_buckets lt_define-IsWeakOrder define_buckets-IsHashed coded_yaml
      coded_builder define_cast two_names

abbrev two_defines : List LogDefine
two_defines =
    record {
      name = codes "a";
      level = warn;
      formatter = codes "%m";
      appenders =
          record { type = 1; level = warn; formatter = codes "%n"; file = codes "f" }
          ∷ record { type = 2; level = warn; formatter = []; file = [] }
          ∷ [];
    }
    ∷ record { name = codes "b"; level = unknow; formatter = []; appenders = [] }
    ∷ []

parse-print_example :
    (t : Text) × (print coded_yaml coded_builder two_defines ≡ gave t)
    × (parse coded_yaml t ≡ pure (map kept_define two_defines))
unfolding lt_text
parse-print_example =
    parse-print coded_yaml coded_builder coded-IsFaithful coded-IsKeyed two_defines
      ((refl, tt), (tt, tt)) ((inl refl, (inr refl, tt)), (tt, tt))
