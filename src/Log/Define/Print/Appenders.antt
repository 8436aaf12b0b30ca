-- ===== src/Log/Define/Print/Appenders.antt =====
-- An appender of a definition of wb_server/log.cc is printed and read back.
use cpp_wb_server.Common.{
  ◌≡◌, ◌⊎◌, refl, ap, ◌∙◌, inl, inr, true, false, [], ◌∷◌, none, some, Text, codes, eq_text, ◌==◌,
  ==_iff, if◌then◌else◌,
}
use cpp_wb_server.Yaml.{gave, Yaml, Builder}
use cpp_wb_server.Yaml.Laws.{IsMade, made_null, made_put, IsKeyed}
use cpp_wb_server.Log.Level.{Level, unknow, to_string, from_string, from_string-to_string}
use cpp_wb_server.Log.Define.{AppenderDefine}
use cpp_wb_server.Log.Define.Parse.{Run, pure, text_or, parse_file, parse_appender}
use cpp_wb_server.Log.Define.Print.{put_level, put_formatter, put_type, appender_node}

-- What is written of a level.
abbrev pub level_text : Level → Text
level_text unknow = []
level_text l = to_string l

pub from_string-level_text : (l : Level) → from_string (level_text l) ≡ l
unfolding from_string
from_string-level_text unknow = refl
from_string-level_text Level.debug = from_string-to_string Level.debug
from_string-level_text l = from_string-to_string l

-- For a file or the console.
abbrev pub IsTyped : AppenderDefine → Type 0
IsTyped a = (a.type ≡ 1) ⊎ (a.type ≡ 2)

-- What reading keeps of an appender.
abbrev pub kept : AppenderDefine → AppenderDefine
kept a =
    if a.type == 1
    then record { type = 1; level = unknow; formatter = a.formatter; file = a.file }
    else record { type = 2; level = unknow; formatter = []; file = [] }

module _ (y : Yaml) (b : Builder y) (Same : y.Node → y.Node → Type 0) (q : IsKeyed y b Same) where
  -- The field reads as the text; a missing field stands for `[]`.
  abbrev pub Holds : y.Node → Text → Text → Type 0
  Holds n k t = (y.field n k ≡ gave (some (b.text t))) ⊎ ((y.field n k ≡ gave none) × (t ≡ []))

  pub text_or-Holds :
      (m n : y.Node) (k t : Text) → Same m n → Holds n k t → text_or y [] m k ≡ pure t
  unfolding text_or
  text_or-Holds m n k t s (inl h) =
      let (w, e, r) = q.same_field m n (b.text t) k s h in
      rw (e, q.same_text w (b.text t) r, q.text_read t)
  text_or-Holds m n k t s (inr (h, e)) = rw (q.same_missing m n k s h, e)

  -- From `n` to `n'` the key `k` came to stand for the text `t`, and nothing else changed.
  pub record Adds (n n' : y.Node) (k t : Text) : Type 0 where
    pub made : IsMade y b n'
    pub holds : Holds n' k t
    pub others : (j : Text) → eq_text j k ≡ false → y.field n' j ≡ y.field n j

  pub put-Adds :
      (n : y.Node) (k t : Text)
      → IsMade y b n
      → eq_text k k ≡ true
      → Adds n (b.put n k (b.text t)) k t
  put-Adds n k t m e = record {
    made = made_put k (b.text t) m;
    holds = inl (q.field_put n (b.text t) k k m ∙ rw e);
    others = λ j h. q.field_put n (b.text t) k j m ∙ rw h;
  }

  pub keeps-Adds : (n : y.Node) (k : Text) → IsMade y b n → y.field n k ≡ gave none → Adds n n k []
  keeps-Adds n k m h = record { made = m; holds = inr (h, refl); others = λ j e. refl }

  pub put_level-Adds :
      (l : Level) (n : y.Node)
      → IsMade y b n
      → y.field n (codes "level") ≡ gave none
      → Adds n (put_level y b l n) (codes "level") (level_text l)
  unfolding put_level
  put_level-Adds unknow n m h = keeps-Adds n (codes "level") m h
  put_level-Adds Level.debug n m h = put-Adds n (codes "level") (to_string Level.debug) m refl
  put_level-Adds l n m h = put-Adds n (codes "level") (to_string l) m refl

  pub put_formatter-Adds :
      (t : Text) (n : y.Node)
      → IsMade y b n
      → y.field n (codes "formatter") ≡ gave none
      → Adds n (put_formatter y b t n) (codes "formatter") t
  unfolding put_formatter
  put_formatter-Adds [] n m h = keeps-Adds n (codes "formatter") m h
  put_formatter-Adds (c ∷ t) n m h = put-Adds n (codes "formatter") (c ∷ t) m refl

  pub Holds-moved :
      {n n' : y.Node} (j t : Text) → y.field n' j ≡ y.field n j → Holds n j t → Holds n' j t
  Holds-moved j t e (inl h) = inl (e ∙ h)
  Holds-moved j t e (inr (h, z)) = inr (e ∙ h, z)

  text_read_at :
      (m n : y.Node) (k t : Text)
      → Same m n
      → y.field n k ≡ gave (some (b.text t))
      → (w : y.Node) × (y.field m k ≡ gave (some w)) × (y.as_text w ≡ gave t)
  text_read_at m n k t s h =
      let (w, e, r) = q.same_field m n (b.text t) k s h in
      (w, e, q.same_text w (b.text t) r ∙ q.text_read t)

  -- The node of a file, and that of the console, before the level and the formatter.
  pub record TypedFile (file : Text) (n : y.Node) : Type 0 where
    pub made : IsMade y b n
    pub type_field : y.field n (codes "type") ≡ gave (some (b.text (codes "FileLogAppender")))
    pub file_field : y.field n (codes "file") ≡ gave (some (b.text file))
    pub no_level : y.field n (codes "level") ≡ gave none
    pub no_formatter : y.field n (codes "formatter") ≡ gave none

  pub put-TypedFile :
      (file : Text)
      → TypedFile file (
          b.put
            (b.put b.null (codes "type") (b.text (codes "FileLogAppender")))
            (codes "file")
            (b.text file))
  put-TypedFile file =
      let T : y.Node = b.text (codes "FileLogAppender") in
      let n : y.Node = b.put b.null (codes "type") T in
      let m : IsMade y b n = made_put (codes "type") T made_null in
      let at = λ (j : Text). q.field_put n (b.text file) (codes "file") j m in
      let under = λ (j : Text). q.field_put b.null T (codes "type") j made_null in
      record {
        made = made_put (codes "file") (b.text file) m;
        type_field = at (codes "type") ∙ under (codes "type");
        file_field = at (codes "file");
        no_level = at (codes "level") ∙ under (codes "level") ∙ q.field_null (codes "level");
        no_formatter =
            at (codes "formatter") ∙ under (codes "formatter") ∙ q.field_null (codes "formatter");
      }

  pub record TypedConsole (n : y.Node) : Type 0 where
    pub made : IsMade y b n
    pub type_field : y.field n (codes "type") ≡ gave (some (b.text (codes "StdoutLogAppender")))
    pub no_level : y.field n (codes "level") ≡ gave none
    pub no_formatter : y.field n (codes "formatter") ≡ gave none

  pub put-TypedConsole :
      TypedConsole (b.put b.null (codes "type") (b.text (codes "StdoutLogAppender")))
  put-TypedConsole =
      let T : y.Node = b.text (codes "StdoutLogAppender") in
      let at = λ (j : Text). q.field_put b.null T (codes "type") j made_null in
      record {
        made = made_put (codes "type") T made_null;
        type_field = at (codes "type");
        no_level = at (codes "level") ∙ q.field_null (codes "level");
        no_formatter = at (codes "formatter") ∙ q.field_null (codes "formatter");
      }

  -- From the node of a file over its level to the whole node: how it reads.
  pub parse_appender-file :
      (file level formatter : Text) (m n₀ n₁ n₂ : y.Node)
      → TypedFile file n₀
      → Adds n₀ n₁ (codes "level") level
      → Adds n₁ n₂ (codes "formatter") formatter
      → Same m n₂
      → parse_appender y m
        ≡ pure (some (record { type = 1; level = unknow; formatter = formatter; file = file }))
  unfolding parse_appender parse_file
  parse_appender-file file level formatter m n₀ n₁ n₂ f l g s =
      let (w, e, r) =
        text_read_at m n₂ (codes "type") (codes "FileLogAppender") s
          (g.others (codes "type") refl ∙ l.others (codes "type") refl ∙ f.type_field) in
      let (v, d, p) =
        text_read_at m n₂ (codes "file") file s
          (g.others (codes "file") refl ∙ l.others (codes "file") refl ∙ f.file_field) in
      let o = text_or-Holds m n₂ (codes "formatter") formatter s g.holds in
      rw (e, r, d, p, ap (λ (z : Run Text). z.outcome) o, ap (λ (z : Run Text). z.printed) o)

  pub parse_appender-console :
      (level formatter : Text) (m n₀ n₁ n₂ : y.Node)
      → TypedConsole n₀
      → Adds n₀ n₁ (codes "level") level
      → Adds n₁ n₂ (codes "formatter") formatter
      → Same m n₂
      → parse_appender y m
        ≡ pure (some (record { type = 2; level = unknow; formatter = []; file = [] }))
  unfolding parse_appender
  parse_appender-console level formatter m n₀ n₁ n₂ f l g s =
      let (w, e, r) =
        text_read_at m n₂ (codes "type") (codes "StdoutLogAppender") s
          (g.others (codes "type") refl ∙ l.others (codes "type") refl ∙ f.type_field) in
      rw (e, r)

  put_type-file : (a : AppenderDefine) → a.type ≡ 1 → TypedFile a.file (put_type y b a b.null)
  unfolding put_type
  put_type-file a t = rw ((==_iff a.type 1).1 t) (put-TypedFile a.file)

  put_type-console : (a : AppenderDefine) → a.type ≡ 2 → TypedConsole (put_type y b a b.null)
  unfolding put_type
  put_type-console a t = rw (ap (λ k. k == 1) t, (==_iff a.type 2).1 t) put-TypedConsole

  pub parse-appender_node :
      (a : AppenderDefine) (m : y.Node)
      → IsTyped a
      → Same m (appender_node y b a)
      → parse_appender y m ≡ pure (some (kept a))
  unfolding appender_node
  parse-appender_node a m (inl t) s =
      let n₀ : y.Node = put_type y b a b.null in
      let f = put_type-file a t in
      let l = put_level-Adds a.level n₀ f.made f.no_level in
      let n₁ : y.Node = put_level y b a.level n₀ in
      let g =
        put_formatter-Adds a.formatter n₁ l.made
          (l.others (codes "formatter") refl ∙ f.no_formatter) in
      rw ((==_iff a.type 1).1 t)
        (parse_appender-file a.file (level_text a.level) a.formatter m n₀ n₁ _ f l g s)
  parse-appender_node a m (inr t) s =
      let n₀ : y.Node = put_type y b a b.null in
      let f = put_type-console a t in
      let l = put_level-Adds a.level n₀ f.made f.no_level in
      let n₁ : y.Node = put_level y b a.level n₀ in
      let g =
        put_formatter-Adds a.formatter n₁ l.made
          (l.others (codes "formatter") refl ∙ f.no_formatter) in
      rw not_file (parse_appender-console (level_text a.level) a.formatter m n₀ n₁ _ f l g s)
    where
      not_file : (a.type == 1) ≡ false
      not_file = ap (λ k. k == 1) t
