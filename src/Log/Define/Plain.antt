-- ===== src/Log/Define/Plain.antt =====
-- What `LexicalCast<std::string, std::set<LogDefine>>` of wb_server/log.cc can answer.
use cpp_wb_server.Common.{
  subst, ◌≡◌, refl, ◌⊎◌, inl, inr, List, [], ◌∷◌, Option, none, some, Text, codes, eq_text,
  if_cases, All,
}
use cpp_wb_server.Yaml.{Outcome, gave, threw, Yaml, elements}
use cpp_wb_server.Log.Level.{unknow}
use cpp_wb_server.Log.Define.{AppenderDefine, LogDefine, insert}
use cpp_wb_server.Log.Define.Laws.{Sorted}
use cpp_wb_server.Log.Define.Sets.{insert-Sorted, insert-All}
use cpp_wb_server.Log.Define.Parse
use cpp_wb_server.Log.Define.Parse.{
  Run, pure, lift, ◌>>=◌, complain, text_or, parse_file, parse_appender, parse_appenders,
  parse_named, parse_define, parse_defines, parse, blank,
}

-- `P` holds of the value, if there is one.
abbrev pub OnGave {ℓ κ} : {A : Type ℓ} → (A → Type κ) → Outcome A → Type κ
OnGave P (gave a) = P a
OnGave P (threw e) = Unit

OnGave-bind {ℓ κ μ ν} :
    {A : Type ℓ} {B : Type κ} (P : A → Type μ) (Q : B → Type ν) (r : Run A) (f : A → Run B)
    → OnGave P r.outcome
    → ((a : A) → P a → OnGave Q (f a).outcome)
    → OnGave Q (r >>= f).outcome
OnGave-bind P Q r f h k = go r.outcome h
  where
    go : (o : Outcome _) → OnGave P o → OnGave Q (Parse.then_run r.printed o f).outcome
    go (gave a) h = k a h
    go (threw e) h = tt

abbrev Anything {ℓ} : {A : Type ℓ} → A → Type 0
Anything a = Unit

anything {ℓ} : {A : Type ℓ} (o : Outcome A) → OnGave Anything o
anything (gave a) = tt
anything (threw e) = tt

-- For a file, or for the console with nothing else set; the level is never read.
abbrev pub IsPlain : AppenderDefine → Type 0
IsPlain a =
    (a.level ≡ unknow) × ((a.type ≡ 1) ⊎ ((a.type ≡ 2) × (a.formatter ≡ []) × (a.file ≡ [])))

abbrev pub OnSome {ℓ κ} : {A : Type ℓ} → (A → Type κ) → Option A → Type κ
OnSome P none = Unit
OnSome P (some a) = P a

OnGave-option {ℓ κ ν} :
    {A : Type ℓ} {B : Type κ} (Q : B → Type ν) (z : Run B) (f : A → Run B)
    → OnGave Q z.outcome
    → ((a : A) → OnGave Q (f a).outcome)
    → (o : Option A) → OnGave Q (elim o as (λ x. Run B) [ none ↦ z | some v ↦ f v ]).outcome
OnGave-option Q z f h k none = h
OnGave-option Q z f h k (some v) = k v

module _ (y : Yaml) where
  -- What holds whatever a step gives.
  bind_any {ℓ κ ν} :
      {A : Type ℓ} {B : Type κ} (Q : B → Type ν) (r : Run A) (f : A → Run B)
      → ((a : A) → OnGave Q (f a).outcome)
      → OnGave Q (r >>= f).outcome
  bind_any Q r f k = OnGave-bind Anything Q r f (anything r.outcome) (λ a u. k a)

  parse_file-IsPlain : (a : y.Node) → OnGave (OnSome IsPlain) (parse_file y a).outcome
  unfolding parse_file
  parse_file-IsPlain a = bind_any (OnSome IsPlain) (lift (y.field a (codes "file"))) _ (
      OnGave-option (OnSome IsPlain) _ _ tt (λ v.
        bind_any (OnSome IsPlain) (lift (y.as_text v)) _ (λ s.
          bind_any (OnSome IsPlain) (text_or y [] a (codes "formatter")) _
            (λ f. (refl, inl refl)))))

  parse_appender-IsPlain : (a : y.Node) → OnGave (OnSome IsPlain) (parse_appender y a).outcome
  unfolding parse_appender
  parse_appender-IsPlain a = bind_any (OnSome IsPlain) (lift (y.field a (codes "type"))) _ (
      OnGave-option (OnSome IsPlain) _ _ tt (λ v.
        bind_any (OnSome IsPlain) (lift (y.as_text v)) _ (λ t.
          if_cases {A = Run (Option AppenderDefine)} (λ r. OnGave (OnSome IsPlain) r.outcome)
            (eq_text t (codes "FileLogAppender")) (parse_file-IsPlain a)
            (if_cases {A = Run (Option AppenderDefine)} (λ r. OnGave (OnSome IsPlain) r.outcome)
              (eq_text t (codes "StdoutLogAppender")) (refl, inr (refl, refl, refl)) tt))))

  parse_appenders-IsPlain :
      (as' : List y.Node) → OnGave (All IsPlain) (parse_appenders y as').outcome
  unfolding parse_appenders
  parse_appenders-IsPlain [] = tt
  parse_appenders-IsPlain (a ∷ as') =
      OnGave-bind (OnSome IsPlain) (All IsPlain) (parse_appender y a) _ (parse_appender-IsPlain a)
        (λ lad h.
          OnGave-bind (All IsPlain) (All IsPlain) (parse_appenders y as') _
            (parse_appenders-IsPlain as') (λ rest k. keep lad h rest k))
    where
      keep :
          (lad : Option AppenderDefine)
          → OnSome IsPlain lad
          → (rest : List AppenderDefine) → All IsPlain rest
          → All IsPlain (elim lad [ none ↦ rest | some x ↦ x ∷ rest ])
      keep none h rest k = k
      keep (some x) h rest k = (h, k)

  abbrev pub ArePlain : LogDefine → Type 0
  ArePlain d = All IsPlain d.appenders

  parse_named-ArePlain : (n name : y.Node) → OnGave ArePlain (parse_named y n name).outcome
  unfolding parse_named
  parse_named-ArePlain n name = bind_any ArePlain (lift (y.as_text name)) _ (λ s.
      bind_any ArePlain (text_or y [] n (codes "level")) _ (λ l.
        bind_any ArePlain (text_or y [] n (codes "formatter")) _ (λ f.
          bind_any ArePlain (lift (y.field n (codes "appenders"))) _ (λ found.
            OnGave-bind (All IsPlain) ArePlain
              (elim found [ none ↦ pure [] | some v ↦ parse_appenders y (elements y v) ]) _
              (OnGave-option (All IsPlain) (pure []) (λ v. parse_appenders y (elements y v)) tt
                (λ v. parse_appenders-IsPlain (elements y v)) found)
              (λ as' h. h)))))

  parse_define-ArePlain : (n : y.Node) → OnGave (OnSome ArePlain) (parse_define y n).outcome
  unfolding parse_define
  parse_define-ArePlain n = bind_any (OnSome ArePlain) (lift (y.field n (codes "name"))) _ (
      OnGave-option (OnSome ArePlain) _ _ tt (λ v.
        OnGave-bind ArePlain (OnSome ArePlain) (parse_named y n v) _ (parse_named-ArePlain n v)
          (λ d h. h)))

  abbrev IsGood : List LogDefine → Type 0
  IsGood ds = Sorted ds × All ArePlain ds

  parse_defines-IsGood :
      (ns : List y.Node) (vec : List LogDefine)
      → IsGood vec
      → OnGave IsGood (parse_defines y vec ns).outcome
  unfolding parse_defines
  parse_defines-IsGood [] vec g = g
  parse_defines-IsGood (n ∷ ns) vec g =
      OnGave-bind (OnSome ArePlain) IsGood (parse_define y n) _ (parse_define-ArePlain n)
        (λ d h. parse_defines-IsGood ns _ (grow d h))
    where
      grow :
          (d : Option LogDefine)
          → OnSome ArePlain d
          → IsGood (elim d [ none ↦ vec | some ld ↦ insert ld vec ])
      grow none h = g
      grow (some ld) h = (insert-Sorted ld vec g.0, insert-All ArePlain ld vec h g.1)

-- Whatever the text and however it is read: if the conversion gives definitions, they are sorted by
-- name, each name once, and each of their appenders has the type of a file or the console, no
-- level, and for the console no formatter and no file.
pub parse-IsPlain :
    (y : Yaml) (v : Text) (ds : List LogDefine)
    → (parse y v).outcome ≡ gave ds
    → Sorted ds × All (λ (d : LogDefine). All IsPlain d.appenders) ds
unfolding parse
parse-IsPlain y v ds h = subst (OnGave (IsGood y)) h (
    bind_any y (IsGood y) (lift (y.load v)) _
      (λ node. parse_defines-IsGood y (elements y node) [] (tt, tt)))
