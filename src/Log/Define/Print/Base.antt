-- ===== src/Log/Define/Print/Base.antt =====
-- The node of a definition or of a logger of wb_server/log.cc, before and after its appenders are pushed.
use cpp_wb_server.Common.{
  ◌≡◌, refl, ◌∙◌, inl, inr, false, [], map, none, some, Text, codes, eq_text,
}
use cpp_wb_server.Yaml.{gave, Yaml, Builder, elements}
use cpp_wb_server.Yaml.Laws.{IsMade, made_null, made_put, IsKeyed}
use cpp_wb_server.Log.Define.{LogDefine}
use cpp_wb_server.Log.Define.Parse.{pure, parse_appenders}
use cpp_wb_server.Log.Define.Print.Appenders.{kept, Holds, level_text, Adds, Holds-moved}
use cpp_wb_server.Log.Define.Print.Defines.{Pushed, Fields}

module _ (y : Yaml) (b : Builder y) (Same : y.Node → y.Node → Type 0) (q : IsKeyed y b Same) where
  -- A node that has a name only.
  abbrev pub named : Text → y.Node
  named t = b.put b.null (codes "name") (b.text t)

  pub named-IsMade : (t : Text) → IsMade y b (named t)
  named-IsMade t = made_put (codes "name") (b.text t) made_null

  pub named_missing :
      (t j : Text) → eq_text j (codes "name") ≡ false → y.field (named t) j ≡ gave none
  named_missing t j e =
      q.field_put b.null (b.text t) (codes "name") j made_null ∙ rw e (q.field_null j)

  -- What the node holds before its appenders are pushed.
  pub record Base (d : LogDefine) (n : y.Node) : Type 0 where
    pub made : IsMade y b n
    pub name : y.field n (codes "name") ≡ gave (some (b.text d.name))
    pub level : Holds y b Same q n (codes "level") (level_text d.level)
    pub formatter : Holds y b Same q n (codes "formatter") d.formatter
    pub none_yet : y.field n (codes "appenders") ≡ gave none

  pub Base-Adds :
      (d : LogDefine) (n n' : y.Node)
      → Adds y b Same q (named d.name) n (codes "level") (level_text d.level)
      → Adds y b Same q n n' (codes "formatter") d.formatter
      → Base d n'
  Base-Adds d n n' l g = record {
    made = g.made;
    name =
        g.others (codes "name") refl
        ∙ l.others (codes "name") refl
        ∙ q.field_put b.null (b.text d.name) (codes "name") (codes "name") made_null;
    level =
        Holds-moved y b Same q (codes "level") (level_text d.level) (g.others (codes "level") refl)
          l.holds;
    formatter = g.holds;
    none_yet =
        g.others (codes "appenders") refl
        ∙ l.others (codes "appenders") refl
        ∙ named_missing d.name (codes "appenders") refl;
  }

  pub Fields-none :
      (d : LogDefine) (n : y.Node) → Base d n → d.appenders ≡ [] → Fields y b Same q d n
  Fields-none d n i e = record {
    name = i.name;
    level = i.level;
    formatter = i.formatter;
    appenders = inl (i.none_yet, e);
  }

  pub Fields-Pushed :
      (d : LogDefine) (n l n' : y.Node)
      → Base d n
      → Pushed y b Same q n l n'
      → ((k : y.Node) → Same k l → parse_appenders y (elements y k) ≡ pure (map kept d.appenders))
      → Fields y b Same q d n'
  Fields-Pushed d n l n' i p r = record {
    name = p.others (codes "name") refl ∙ i.name;
    level =
        Holds-moved y b Same q (codes "level") (level_text d.level) (p.others (codes "level") refl)
          i.level;
    formatter =
        Holds-moved y b Same q (codes "formatter") d.formatter (p.others (codes "formatter") refl)
          i.formatter;
    appenders = inr (l, p.list, r);
  }
