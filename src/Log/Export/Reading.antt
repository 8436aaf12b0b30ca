-- ===== src/Log/Export/Reading.antt =====
-- What the manager of wb_server/log.cc writes with `to_yaml_string` reads as its loggers' definitions.
use cpp_wb_server.Common.{◌≡◌, ℕ, refl, ap, sym, subst, ◌∙◌, List, [], ◌∷◌, map, none, Text, codes}
use mathlib.Core.List.{foldl}
use cpp_wb_server.Yaml.{gave, Yaml, Builder, elements}
use cpp_wb_server.Yaml.Laws.{Both, both_nil, both_cons, IsFaithful, IsKeyed}
use cpp_wb_server.Log.World.{Target, stdout, to_file, Appender, Logger, World}
use cpp_wb_server.Log.Define.{LogDefine, insert}
use cpp_wb_server.Log.Define.Parse.{pure, lift, parse_appender, parse_appenders, parse}
use cpp_wb_server.Log.Define.Print.{put_level}
use cpp_wb_server.Log.Define.Print.Appenders.{put_level-Adds, kept}
use cpp_wb_server.Log.Define.Print.RoundTrip.{ReadsAs, parse_defines_lem}
use cpp_wb_server.Log.Define.Print.Defines.{kept_define, bind_pure, Fields, parse_define-Fields}
use cpp_wb_server.Log.Export.{
  pattern_of, in_order, put_pattern, own_pattern, push_appenders, logger_node,
  logger_to_yaml_string, push_loggers, manager_to_yaml_string,
}
use cpp_wb_server.Log.Export.Appenders.{
  text_of, define_target, define_appender, put_pattern-Adds, Shows, push_appenders-Pushed,
}
use cpp_wb_server.Log.Define.Print.Base.{
  named, named-IsMade, named_missing, Base, Base-Adds, Fields-none, Fields-Pushed,
}

-- A logger as a definition.
abbrev pub define_logger : World → Logger → LogDefine
define_logger w x = record {
  name = x.name;
  level = x.level;
  formatter = text_of (pattern_of x.formatter);
  appenders = map (λ a. define_appender (w.appenders a)) x.appenders;
}

-- Nothing of it is lost when it is read.
kept-define_target : (t : Target) (o : Text) → kept (define_target t o) ≡ define_target t o
kept-define_target stdout o = refl
kept-define_target (to_file x) o = refl

kept_all :
    (w : World) (as' : List ℕ)
    → map kept (map (λ a. define_appender (w.appenders a)) as')
      ≡ map (λ a. define_appender (w.appenders a)) as'
kept_all w [] = refl
kept_all w (a ∷ as') =
    let x : Appender = w.appenders a in
    rw (kept-define_target x.target (text_of (own_pattern x)), kept_all w as') refl

kept-define_logger : (w : World) (x : Logger) → kept_define (define_logger w x) ≡ define_logger w x
kept-define_logger w x =
    ap (λ as'. record (define_logger w x) { appenders = as' }) (kept_all w x.appenders)

-- The definitions of the loggers there are, inserted in the order of the map.
abbrev pub defines_of : World → List LogDefine
defines_of w =
    foldl (λ v d. insert d v) []
      (map (λ (e : Text × ℕ). define_logger w (w.loggers e.1)) (in_order w.names))

module _ (y : Yaml) (b : Builder y) (f : IsFaithful y b) (q : IsKeyed y b f.Same) where
  parse_appenders-Shows :
      (w : World) {ks ms : List y.Node} {as' : List ℕ}
      → Both f.Same ks ms
      → Both (Shows y b f q w) ms as'
      → parse_appenders y ks ≡ pure (map (λ a. define_appender (w.appenders a)) as')
  unfolding parse_appenders
  parse_appenders-Shows w both_nil both_nil = refl
  parse_appenders-Shows w (both_cons {a = k} s h) (both_cons r c) =
      bind_pure (parse_appender y k) _ (r k s)
      ∙ bind_pure (parse_appenders y _) _ (parse_appenders-Shows w h c)

  logger_node-Base :
      (w : World) (x : Logger)
      → Base y b f.Same q (define_logger w x) (
          put_pattern y b
            (pattern_of x.formatter)
            (put_level y b x.level (named y b f.Same q x.name)))
  logger_node-Base w x =
      let n₀ : y.Node = named y b f.Same q x.name in
      let l =
        put_level-Adds y b f.Same q x.level n₀ (named-IsMade y b f.Same q x.name)
          (named_missing y b f.Same q x.name (codes "level") refl) in
      let g = put_pattern-Adds y b f q (pattern_of x.formatter) (put_level y b x.level n₀) l.made (
        l.others (codes "formatter") refl
        ∙ named_missing y b f.Same q x.name (codes "formatter") refl) in
      Base-Adds y b f.Same q (define_logger w x) _ _ l g

  push_appenders-Fields :
      (w : World) (x : Logger) (as' : List ℕ) (n : y.Node)
      → x.appenders ≡ as'
      → Base y b f.Same q (define_logger w x) n
      → (n' : y.Node) × (push_appenders y b w as' n ≡ gave n')
        × Fields y b f.Same q (define_logger w x) n'
  push_appenders-Fields w x [] n e i = (
    n,
    unfold push_appenders in refl,
    Fields-none y b f.Same q (define_logger w x) n i
        (ap (map (λ a. define_appender (w.appenders a))) e),
  )
  push_appenders-Fields w x (a ∷ as') n e i =
      let (n', ms, r, p, c) = push_appenders-Pushed y b f q w a as' n none i.made i.none_yet in
      (
        n',
        r,
        Fields-Pushed y b f.Same q (define_logger w x) n _ n' i p (λ k s.
            parse_appenders-Shows w
              (subst (λ z. Both f.Same (elements y k) z) (f.elements_pushed ms)
                (f.same_elements k _ s))
              c
            ∙ ap (λ z. pure (map (λ a'. define_appender (w.appenders a')) z)) (sym e)
            ∙ ap pure (sym (kept_all w x.appenders))),
      )

  load-ReadsAs :
      (w : World) (x : Logger)
      → (t : Text) × (logger_to_yaml_string y b w x ≡ gave t)
        × ((m : y.Node) × (y.load t ≡ gave m) × ReadsAs y b f q m (define_logger w x))
  unfolding logger_to_yaml_string logger_node
  load-ReadsAs w x =
      let (n, e, i) = push_appenders-Fields w x x.appenders _ refl (logger_node-Base w x) in
      let (m, l, s) = f.load_show n in
      (
        y.show n,
        rw e,
        (
          m,
          l,
          λ k r.
              parse_define-Fields y b f.Same q (define_logger w x) k n i (f.same_trans k m n r s),
        ),
      )

  push_loggers_lem :
      (w : World) (ns : List (Text × ℕ)) (node : y.Node)
      → (ms : List y.Node) × (push_loggers y b w ns node ≡ gave (foldl b.push_back node ms))
        × Both (ReadsAs y b f q) ms (map (λ (e : Text × ℕ). define_logger w (w.loggers e.1)) ns)
  unfolding push_loggers
  push_loggers_lem w [] node = ([], refl, both_nil)
  push_loggers_lem w ((k, l) ∷ ns) node =
      let (t, e, (m, h, r)) = load-ReadsAs w (w.loggers l) in
      let (ms, e', c) = push_loggers_lem w ns (b.push_back node m) in
      (m ∷ ms, rw (e, h) e', both_cons r c)

  kept_loggers :
      (w : World) (ns : List (Text × ℕ))
      → map kept_define (map (λ (e : Text × ℕ). define_logger w (w.loggers e.1)) ns)
        ≡ map (λ (e : Text × ℕ). define_logger w (w.loggers e.1)) ns
  kept_loggers w [] = refl
  kept_loggers w (e ∷ ns) = rw (kept-define_logger w (w.loggers e.1), kept_loggers w ns) refl

  -- With yaml-cpp keeping what it promises, the manager's text is made without an exception and
  -- loads again, and it is read back, with nothing printed to the console, as the definitions of
  -- the loggers there are: those of the map, inserted in the order of its keys, each with its name,
  -- its level, its pattern and its appenders, of which the level is not read, and for the console
  -- not the pattern either.
  pub parse-manager_to_yaml_string :
      (w : World)
      → (t : Text) × (manager_to_yaml_string y b w ≡ gave t) × (parse y t ≡ pure (defines_of w))
  unfolding manager_to_yaml_string parse
  parse-manager_to_yaml_string w =
      let (ms, e, c) = push_loggers_lem w (in_order w.names) b.null in
      let node : y.Node = foldl b.push_back b.null ms in
      let (m, l, same) = f.load_show node in
      let all =
        subst (λ z. Both f.Same (elements y m) z) (f.elements_pushed ms)
          (f.same_elements m node same) in
      (
        y.show node,
        rw e,
        bind_pure (lift (y.load (y.show node))) _ (ap lift l)
            ∙ parse_defines_lem y b f q [] all c
            ∙ ap (λ z. pure (foldl (λ v d. insert d v) [] z)) (kept_loggers w (in_order w.names)),
      )
