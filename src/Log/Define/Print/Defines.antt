-- ===== src/Log/Define/Print/Defines.antt =====
-- A definition of wb_server/log.cc is printed and read back.
use cpp_wb_server.Common.{
  ◌≡◌, ◌⊎◌, refl, ap, sym, ◌∙◌, inl, inr, false, List, [], ◌∷◌, map, Option, none, some, Text,
  codes, eq_text, All,
}
use mathlib.Core.List.{foldl}
use cpp_wb_server.Yaml.{gave, Yaml, Builder, elements}
use cpp_wb_server.Yaml.Laws.{Both, both_nil, both_cons, IsMade, made_put, IsKeyed}
use cpp_wb_server.Log.Level.{from_string}
use cpp_wb_server.Log.Define.{AppenderDefine, LogDefine}
use cpp_wb_server.Log.Define.Parse.{
  Run, pure, lift, ◌>>=◌, text_or, parse_appender, parse_appenders, parse_named, parse_define,
}
use cpp_wb_server.Log.Define.Print.{appender_node, push_appender, push_appenders}
use cpp_wb_server.Log.Define.Print.Appenders.{
  kept, Holds, text_or-Holds, level_text, from_string-level_text, IsTyped, parse-appender_node,
}

-- What reading keeps of a definition.
abbrev pub kept_define : LogDefine → LogDefine
kept_define d = record d { appenders = map kept d.appenders }

pub bind_pure {ℓ κ} :
    {A : Type ℓ} {B : Type κ} {a : A} (r : Run A) (f : A → Run B) → r ≡ pure a → (r >>= f) ≡ f a
bind_pure r f e = ap (λ s. s >>= f) e

module _ (y : Yaml) (b : Builder y) (Same : y.Node → y.Node → Type 0) (q : IsKeyed y b Same) where
  -- `n` with a list of appenders, to which the loop has pushed.
  pub record Pushed (n : y.Node) (l : y.Node) (n' : y.Node) : Type 0 where
    pub list : y.field n' (codes "appenders") ≡ gave (some l)
    pub others : (j : Text) → eq_text j (codes "appenders") ≡ false → y.field n' j ≡ y.field n j

  abbrev nodes : List AppenderDefine → List y.Node
  nodes as' = map (appender_node y b) as'

  push_appenders_onto :
      (as' : List AppenderDefine) (n l : y.Node)
      → IsMade y b n
      → y.field n (codes "appenders") ≡ gave (some l)
      → (n' : y.Node) × (push_appenders y b as' n ≡ gave n')
        × Pushed n (foldl b.push_back l (nodes as')) n'
  unfolding push_appenders push_appender
  push_appenders_onto [] n l m h = (n, refl, record { list = h; others = λ j e. refl })
  push_appenders_onto (a ∷ as') n l m h =
      let A : Text = codes "appenders" in
      let l' : y.Node = b.push_back l (appender_node y b a) in
      let at = λ (j : Text). q.field_put n l' A j m in
      let (n', e, p) = push_appenders_onto as' (b.put n A l') l' (made_put A l' m) (at A) in
      (n', rw h e, record { list = p.list; others = λ j r. p.others j r ∙ at j ∙ rw r })

  pub push_appenders_first :
      (a : AppenderDefine) (as' : List AppenderDefine) (n : y.Node)
      → IsMade y b n
      → y.field n (codes "appenders") ≡ gave none
      → (n' : y.Node) × (push_appenders y b (a ∷ as') n ≡ gave n')
        × Pushed n (foldl b.push_back b.null (nodes (a ∷ as'))) n'
  unfolding push_appenders push_appender
  push_appenders_first a as' n m h =
      let A : Text = codes "appenders" in
      let l' : y.Node = b.push_back b.null (appender_node y b a) in
      let at = λ (j : Text). q.field_put n l' A j m in
      let (n', e, p) = push_appenders_onto as' (b.put n A l') l' (made_put A l' m) (at A) in
      (n', rw h e, record { list = p.list; others = λ j r. p.others j r ∙ at j ∙ rw r })

  pub parse_appenders-nodes :
      (as' : List AppenderDefine) {ms : List y.Node}
      → All IsTyped as'
      → Both (λ m a. Same m (appender_node y b a)) ms as'
      → parse_appenders y ms ≡ pure (map kept as')
  unfolding parse_appenders
  parse_appenders-nodes [] t both_nil = refl
  parse_appenders-nodes (a ∷ as') t (both_cons {a = m} s h) =
      let o = parse-appender_node y b Same q a m t.0 s in
      let rest = parse_appenders-nodes as' t.1 h in
      bind_pure (parse_appender y m) _ o ∙ bind_pure (parse_appenders y _) _ rest

  -- What the node of a definition holds.
  pub record Fields (d : LogDefine) (n : y.Node) : Type 0 where
    pub name : y.field n (codes "name") ≡ gave (some (b.text d.name))
    pub level : Holds y b Same q n (codes "level") (level_text d.level)
    pub formatter : Holds y b Same q n (codes "formatter") d.formatter
    pub appenders :
        ((y.field n (codes "appenders") ≡ gave none) × (d.appenders ≡ []))
        ⊎ ((l : y.Node) × (y.field n (codes "appenders") ≡ gave (some l))
            × ((k : y.Node)
                → Same k l
                → parse_appenders y (elements y k) ≡ pure (map kept d.appenders)))

  parse_named-Fields :
      (d : LogDefine) (m n w : y.Node)
      → Fields d n
      → Same m n
      → y.as_text w ≡ gave d.name
      → parse_named y m w ≡ pure (kept_define d)
  unfolding parse_named
  parse_named-Fields d m n w f s t =
      let level = level_text d.level in
      let l = text_or-Holds y b Same q m n (codes "level") level s f.level in
      let g = text_or-Holds y b Same q m n (codes "formatter") d.formatter s f.formatter in
      bind_pure (lift (y.as_text w)) _ (ap lift t)
      ∙ bind_pure (text_or y [] m (codes "level")) _ l
      ∙ bind_pure (text_or y [] m (codes "formatter")) _ g
      ∙ rest f.appenders
      ∙ ap (λ k. pure (record (kept_define d) { level = k })) (from_string-level_text d.level)
    where
      found_in : Run (Option y.Node) → Run LogDefine
      found_in r = do
        found ← r
        appenders ← elim found [ none ↦ pure [] | some v ↦ parse_appenders y (elements y v) ]
        pure (record (kept_define d) {
          level = from_string (level_text d.level);
          appenders = appenders;
        })

      rest :
          ((y.field n (codes "appenders") ≡ gave none) × (d.appenders ≡ []))
            ⊎ ((l : y.Node) × (y.field n (codes "appenders") ≡ gave (some l))
                × ((k : y.Node)
                    → Same k l
                    → parse_appenders y (elements y k) ≡ pure (map kept d.appenders)))
          → found_in (lift (y.field m (codes "appenders")))
            ≡ pure (record (kept_define d) { level = from_string (level_text d.level) })
      rest (inl (h, z)) =
          ap (λ o. found_in (lift o)) (q.same_missing m n (codes "appenders") s h)
          ∙ ap
              (λ as'. pure (record (kept_define d) {
                level = from_string (level_text d.level);
                appenders = map kept as';
              }))
              (sym z)
      rest (inr (l, h, p)) =
          let (k, e, r) = q.same_field m n l (codes "appenders") s h in
          ap (λ o. found_in (lift o)) e ∙ bind_pure (parse_appenders y (elements y k)) _ (p k r)

  pub parse_define-Fields :
      (d : LogDefine) (m n : y.Node)
      → Fields d n
      → Same m n
      → parse_define y m ≡ pure (some (kept_define d))
  unfolding parse_define
  parse_define-Fields d m n f s =
      let (w, e, r) = q.same_field m n (b.text d.name) (codes "name") s f.name in
      let t = q.same_text w (b.text d.name) r ∙ q.text_read d.name in
      bind_pure (lift (y.field m (codes "name"))) _ (ap lift e)
      ∙ bind_pure (parse_named y m w) _ (parse_named-Fields d m n w f s t)
