-- ===== src/Log/Define/Print/RoundTrip.antt =====
-- The set of definitions of wb_server/log.cc is printed and read back.
use cpp_wb_server.Common.{
  ◌≡◌, refl, ap, sym, subst, ◌∙◌, true, List, [], ◌∷◌, map, some, Text, codes, All,
}
use mathlib.Core.List.{foldl}
use cpp_wb_server.Common.Sets.{Increasing}
use cpp_wb_server.Yaml.{gave, Yaml, Builder, elements}
use cpp_wb_server.Yaml.Laws.{Both, Both-map, both_nil, both_cons, IsFaithful, IsKeyed}
use cpp_wb_server.Log.Define.{AppenderDefine, LogDefine, lt_define, insert}
use cpp_wb_server.Log.Define.Sets.{foldl-insert_sorted}
use cpp_wb_server.Log.Define.Laws.{Sorted}
use cpp_wb_server.Log.Define.Parse.{pure, lift, parse_appenders, parse_define, parse_defines, parse}
use cpp_wb_server.Log.Define.Print.{
  put_level, put_formatter, appender_node, push_appenders, define_node, push_defines, print,
}
use cpp_wb_server.Log.Define.Print.Appenders.{kept, put_level-Adds, put_formatter-Adds, IsTyped}
use cpp_wb_server.Log.Define.Print.Defines.{
  kept_define, bind_pure, push_appenders_first, parse_appenders-nodes, Fields, parse_define-Fields,
}
use cpp_wb_server.Log.Define.Print.Base.{
  named, named-IsMade, named_missing, Base, Base-Adds, Fields-none, Fields-Pushed,
}

Increasing-kept : (ds : List LogDefine) → Sorted ds → Increasing lt_define (map kept_define ds)
Increasing-kept [] s = tt
Increasing-kept (d ∷ ds) s = (names d ds s.0, Increasing-kept ds s.1)
  where
    names :
        (d : LogDefine) (ds : List LogDefine)
        → All (λ (x : LogDefine). lt_define d x ≡ true) ds
        → All (λ (x : LogDefine). lt_define (kept_define d) x ≡ true) (map kept_define ds)
    names d [] h = tt
    names d (x ∷ ds) h = (h.0, names d ds h.1)

module _ (y : Yaml) (b : Builder y) (f : IsFaithful y b) (q : IsKeyed y b f.Same) where
  nodes_read :
      (as' : List AppenderDefine) (k : y.Node)
      → All IsTyped as'
      → f.Same k (foldl b.push_back b.null (map (appender_node y b) as'))
      → parse_appenders y (elements y k) ≡ pure (map kept as')
  nodes_read as' k t s =
      let all = f.same_elements k _ s in
      parse_appenders-nodes y b f.Same q as' t
        (Both-map f.Same (appender_node y b) as' all (f.elements_pushed _))

  define_node-Base :
      (d : LogDefine)
      → Base y b f.Same q d
          (put_formatter y b d.formatter (put_level y b d.level (named y b f.Same q d.name)))
  define_node-Base d =
      let n₀ : y.Node = named y b f.Same q d.name in
      let l =
        put_level-Adds y b f.Same q d.level n₀ (named-IsMade y b f.Same q d.name)
          (named_missing y b f.Same q d.name (codes "level") refl) in
      let g = put_formatter-Adds y b f.Same q d.formatter (put_level y b d.level n₀) l.made (
        l.others (codes "formatter") refl
        ∙ named_missing y b f.Same q d.name (codes "formatter") refl) in
      Base-Adds y b f.Same q d _ _ l g

  push_appenders-Fields :
      (d : LogDefine) (as' : List AppenderDefine) (n : y.Node)
      → d.appenders ≡ as'
      → All IsTyped as'
      → Base y b f.Same q d n
      → (n' : y.Node) × (push_appenders y b as' n ≡ gave n') × Fields y b f.Same q d n'
  push_appenders-Fields d [] n e t i =
      (n, unfold push_appenders in refl, Fields-none y b f.Same q d n i e)
  push_appenders-Fields d (a ∷ as') n e t i =
      let (n', r, p) = push_appenders_first y b f.Same q a as' n i.made i.none_yet in
      (
        n',
        r,
        Fields-Pushed y b f.Same q d n _ n' i p
            (λ k s. nodes_read (a ∷ as') k t s ∙ ap (λ z. pure (map kept z)) (sym e)),
      )

  -- Every node that is the same document as `n` reads as `d` does.
  abbrev pub ReadsAs : y.Node → LogDefine → Type 0
  ReadsAs n d = (m : y.Node) → f.Same m n → parse_define y m ≡ pure (some (kept_define d))

  push_defines_lem :
      (ds : List LogDefine) (node : y.Node)
      → All (λ (d : LogDefine). All IsTyped d.appenders) ds
      → (ns : List y.Node) × (push_defines y b ds node ≡ gave (foldl b.push_back node ns))
        × Both ReadsAs ns ds
  unfolding push_defines define_node
  push_defines_lem [] node t = ([], refl, both_nil)
  push_defines_lem (d ∷ ds) node t =
      let (n, e, i) = push_appenders-Fields d d.appenders _ refl t.0 (define_node-Base d) in
      let (ns, e', k) = push_defines_lem ds (b.push_back node n) t.1 in
      (n ∷ ns, rw e e', both_cons (λ m s. parse_define-Fields y b f.Same q d m n i s) k)

  pub parse_defines_lem :
      (vec : List LogDefine) {ms ns : List y.Node} {ds : List LogDefine}
      → Both f.Same ms ns
      → Both ReadsAs ns ds
      → parse_defines y vec ms ≡ pure (foldl (λ v d. insert d v) vec (map kept_define ds))
  unfolding parse_defines
  parse_defines_lem vec both_nil both_nil = refl
  parse_defines_lem vec (both_cons {a = m} s h) (both_cons {b = d} r k) =
      bind_pure (parse_define y m) _ (r m s) ∙ parse_defines_lem (insert (kept_define d) vec) h k

  -- When every appender is for a file or the console and the set is sorted by name, it is printed
  -- as a text that loads, and is read back, with nothing printed to the console, as the same
  -- definitions but for what is never read: the levels of the appenders, and for the console the
  -- formatter and the file.
  pub parse-print :
      (ds : List LogDefine)
      → Sorted ds
      → All (λ (d : LogDefine). All IsTyped d.appenders) ds
      → (t : Text) × (print y b ds ≡ gave t) × (parse y t ≡ pure (map kept_define ds))
  unfolding print parse
  parse-print ds s t =
      let (ns, e, k) = push_defines_lem ds b.null t in
      let node : y.Node = foldl b.push_back b.null ns in
      let (m, l, same) = f.load_show node in
      let all =
        subst (λ z. Both f.Same (elements y m) z) (f.elements_pushed ns)
          (f.same_elements m node same) in
      (
        y.show node,
        rw e,
        bind_pure (lift (y.load (y.show node))) _ (ap lift l)
            ∙ parse_defines_lem [] all k
            ∙ ap pure (foldl-insert_sorted (map kept_define ds) (Increasing-kept ds s)),
      )
