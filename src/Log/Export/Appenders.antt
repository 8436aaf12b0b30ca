-- ===== src/Log/Export/Appenders.antt =====
-- What the appenders of wb_server/log.cc write with `to_yaml_string` reads as their definitions.
use cpp_wb_server.Common.{◌≡◌, ℕ, refl, ◌∙◌, List, [], ◌∷◌, Option, none, some, Text, codes}
use mathlib.Core.List.{foldl}
use cpp_wb_server.Yaml.{gave, Yaml, Builder}
use cpp_wb_server.Yaml.Laws.{Both, both_nil, both_cons, IsFaithful, IsMade, made_put, IsKeyed}
use cpp_wb_server.Log.Level.{Level, unknow}
use cpp_wb_server.Log.World.{Target, stdout, to_file, Appender, World}
use cpp_wb_server.Log.Define.{AppenderDefine}
use cpp_wb_server.Log.Define.Parse.{pure, parse_appender}
use cpp_wb_server.Log.Define.Print.{put_level, push_appender}
use cpp_wb_server.Log.Define.Print.Appenders.{
  Adds, put-Adds, keeps-Adds, level_text, put_level-Adds, put-TypedFile, put-TypedConsole,
  parse_appender-file, parse_appender-console,
}
use cpp_wb_server.Log.Define.Print.Defines.{Pushed}
use cpp_wb_server.Log.Export.{
  put_pattern, target_node, own_pattern, appender_node, appender_to_yaml_string, push_appenders,
}

abbrev pub text_of : Option Text → Text
text_of none = []
text_of (some t) = t

-- An appender as a definition, as far as one is read.
abbrev pub define_target : Target → Text → AppenderDefine
define_target stdout t = record { type = 2; level = unknow; formatter = []; file = [] }
define_target (to_file f) t = record { type = 1; level = unknow; formatter = t; file = f.file_name }

abbrev pub define_appender : Appender → AppenderDefine
define_appender a = define_target a.target (text_of (own_pattern a))

module _ (y : Yaml) (b : Builder y) (f : IsFaithful y b) (q : IsKeyed y b f.Same) where
  pub put_pattern-Adds :
      (o : Option Text) (n : y.Node)
      → IsMade y b n
      → y.field n (codes "formatter") ≡ gave none
      → Adds y b f.Same q n (put_pattern y b o n) (codes "formatter") (text_of o)
  unfolding put_pattern
  put_pattern-Adds none n m h = keeps-Adds y b f.Same q n (codes "formatter") m h
  put_pattern-Adds (some t) n m h = put-Adds y b f.Same q n (codes "formatter") t m refl

  parse-target_node :
      (t : Target) (level : Level) (o : Option Text) (m : y.Node)
      → f.Same m (put_pattern y b o (put_level y b level (target_node y b t)))
      → parse_appender y m ≡ pure (some (define_target t (text_of o)))
  unfolding target_node
  parse-target_node stdout level o m s =
      let c = put-TypedConsole y b f.Same q in
      let l = put_level-Adds y b f.Same q level _ c.made c.no_level in
      let g = put_pattern-Adds o _ l.made (l.others (codes "formatter") refl ∙ c.no_formatter) in
      parse_appender-console y b f.Same q (level_text level) (text_of o) m _ _ _ c l g s
  parse-target_node (to_file x) level o m s =
      let c = put-TypedFile y b f.Same q x.file_name in
      let l = put_level-Adds y b f.Same q level _ c.made c.no_level in
      let g = put_pattern-Adds o _ l.made (l.others (codes "formatter") refl ∙ c.no_formatter) in
      parse_appender-file y b f.Same q x.file_name (level_text level) (text_of o) m _ _ _ c l g s

  -- Every node that is the same document as `m` reads as the appender at `a` does.
  abbrev pub Shows : World → y.Node → ℕ → Type 0
  Shows w m a =
      (k : y.Node) → f.Same k m → parse_appender y k ≡ pure (some (define_appender (w.appenders a)))

  load-Shows :
      (w : World) (a : ℕ)
      → (m : y.Node) × (y.load (appender_to_yaml_string y b (w.appenders a)) ≡ gave m) × Shows w m a
  unfolding appender_to_yaml_string appender_node
  load-Shows w a =
      let x : Appender = w.appenders a in
      let n : y.Node = appender_node y b x in
      let (m, e, s) = f.load_show n in
      (m, e, λ k r. parse-target_node x.target x.level (own_pattern x) k (f.same_trans k m n r s))

  abbrev pub base : Option y.Node → y.Node
  base none = b.null
  base (some l) = l

  push_appender-put :
      (n k : y.Node) (o : Option y.Node)
      → y.field n (codes "appenders") ≡ gave o
      → push_appender y b n k ≡ gave (b.put n (codes "appenders") (b.push_back (base o) k))
  unfolding push_appender
  push_appender-put n k none h = rw h
  push_appender-put n k (some l) h = rw h

  pub push_appenders-Pushed :
      (w : World) (a : ℕ) (as' : List ℕ) (n : y.Node) (o : Option y.Node)
      → IsMade y b n
      → y.field n (codes "appenders") ≡ gave o
      → (n' : y.Node) × (ms : List y.Node) × (push_appenders y b w (a ∷ as') n ≡ gave n')
        × Pushed y b f.Same q n (foldl b.push_back (base o) ms) n'
        × Both (Shows w) ms (a ∷ as')
  unfolding push_appenders
  push_appenders-Pushed w a [] n o m h =
      let (k, e, s) = load-Shows w a in
      let A : Text = codes "appenders" in
      let l : y.Node = b.push_back (base o) k in
      let at = λ (j : Text). q.field_put n l A j m in
      (
        b.put n A l,
        k ∷ [],
        rw e (rw (push_appender-put n k o h)),
        record { list = at A; others = λ j d. at j ∙ rw d },
        both_cons s both_nil,
      )
  push_appenders-Pushed w a (a' ∷ as') n o m h =
      let (k, e, s) = load-Shows w a in
      let A : Text = codes "appenders" in
      let l : y.Node = b.push_back (base o) k in
      let at = λ (j : Text). q.field_put n l A j m in
      let (n', ms, r, p, c) =
        push_appenders-Pushed w a' as' (b.put n A l) (some l) (made_put A l m) (at A) in
      (
        n',
        k ∷ ms,
        rw e (rw (push_appender-put n k o h) r),
        record { list = p.list; others = λ j d. p.others j d ∙ at j ∙ rw d },
        both_cons s c,
      )
