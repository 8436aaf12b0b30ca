-- ===== src/Config/Load/Loading.antt =====
-- `Config::load_from_yaml` of wb_server/config.cc as a whole.
use cpp_wb_server.Common.{
  append-nil, ℕ, suc, ◌≡◌, ◌≢◌, refl, sym, ap, subst, ◌∙◌, inl, inr, Bool, true, false, List, [],
  ◌∷◌, ◌++◌, map, some, Text, is_empty, to_lower, if◌then◌else◌, Bool-cases, All, update,
  update_self,
}
use cpp_wb_server.Yaml.{gave, Yaml}
use cpp_wb_server.Log.World.{World, System, Result, ok, ◌>>=◌, emit_all}
use cpp_wb_server.Log.Manager.{find_name}
use cpp_wb_server.Log.Manager.Invariant.{Same-IsValid}
use cpp_wb_server.Config.Var.{Caster, ConfigVar, Places, from_string}
use cpp_wb_server.Config.Var.Calls.{set_value-calls}
use cpp_wb_server.Config.Registry.{Types, Entry, Store, lookup_base}
use cpp_wb_server.Config.Registry.Invariant.{Allowed, IsSound, with_world}
use cpp_wb_server.Config.Load.{
  node_text, entry_from_string, load_member, load_members, load_from_yaml,
}
use cpp_wb_server.Config.Load.Members.{IsTree, Below, list_all_member-Below, Below-unique}
use cpp_wb_server.Config.Load.Steps.{Reads, SameKind, Kept, Kept-refl, Kept-trans, load_member-Kept}

-- Without callbacks `from_string` stores what the text stands for.
from_string-bare :
    {T : Type 0} (sys : System) (at : Places) (c : Caster T) (val : Text) (v : T) (x : ConfigVar T)
    (w : World)
    → x.cbs ≡ []
    → (c.from_str val).outcome ≡ gave v
    → from_string sys at c val x w
      ≡ ok (
        if c.equal v x.value then x else record x { value = v },
        emit_all w (c.from_str val).printed,
        false,
      )
unfolding from_string
from_string-bare sys at c val v x w h g = elim (Bool-cases (c.equal v x.value)) [
  | inl same ↦ rw (g, set_value-calls c [] v x (emit_all w (c.from_str val).printed) h, same)
  | inr differs ↦
      rw (g, set_value-calls c [] v x (emit_all w (c.from_str val).printed) h, differs)
        (ap (λ o. ok (record x { value = v }, record w { output = o }, false)) (append-nil _))
]

ok-inj {ℓ} : {A : Type ℓ} {a b : A} → ok a ≡ ok b → a ≡ b
ok-inj h = cc

module _ (y : Yaml) (sys : System) (at : Places) (u : Types) (P : Allowed u)
    (reads : Reads u P) where
  pub load_members-Kept :
      (ms : List (Text × y.Node)) (s : Store u)
      → IsSound u P s
      → (s' : Store u) × (load_members y sys at u ms s ≡ ok s') × Kept y sys at u P s s'
  unfolding load_members
  load_members-Kept [] s i = (s, refl, Kept-refl y sys at u P s i)
  load_members-Kept ((p, n) ∷ ms) s i =
      let (s₁, e, k, _) = load_member-Kept y sys at u P reads p n s i in
      let (s₂, e', k') = load_members-Kept ms s₁ k.sound in
      (s₂, rw e e', Kept-trans y sys at u P k k')

  load_members-untouched :
      (ms : List (Text × y.Node)) (s : Store u) (name : Text) (l : ℕ)
      → IsSound u P s
      → find_name s.datas name ≡ some l
      → All (λ (m : Text × y.Node). map to_lower m.0 ≢ name) ms
      → (s' : Store u) × (load_members y sys at u ms s ≡ ok s') × (s'.vars l ≡ s.vars l)
  unfolding load_members
  load_members-untouched [] s name l i h a = (s, refl, refl)
  load_members-untouched ((p, n) ∷ ms) s name l i h a =
      let (s₁, e, k, stays) = load_member-Kept y sys at u P reads p n s i in
      let (s₂, e', same) =
        load_members-untouched ms s₁ name l k.sound (ap (λ d. find_name d name) k.datas_kept ∙ h)
          a.1 in
      (s₂, rw e e', same ∙ stays name l h a.0)

  -- The variable at `l` holds that value.
  abbrev pub Holds : ℕ → (t : u.Ty) → u.El t → Store u → Type 0
  Holds l t v s = (x : ConfigVar (u.El t)) × (s.vars l ≡ (t, x)) × (x.value ≡ v)

  -- The variable at `l` has that type and no callbacks.
  abbrev pub IsBare : u.Ty → Entry u → Type 0
  IsBare t e = (x : ConfigVar (u.El t)) × (e ≡ (t, x)) × (x.cbs ≡ [])

  -- Two values that the type's `==` takes for equal are equal.
  abbrev pub IsExact : u.Ty → Type 0
  IsExact t = (a b : u.El t) → (u.caster t).equal a b ≡ true → a ≡ b

  store_entry : ℕ → Text → Store u → Entry u → Result (Store u)
  store_entry l val s e = do
    r ← from_string sys at (u.caster e.0) val e.1 s.world
    ok (record s { vars = update s.vars l (e.0, r.0); world = r.1 })

  store_entry-Holds :
      (l : ℕ) (val : Text) (t : u.Ty) (v : u.El t) (x : ConfigVar (u.El t)) (s : Store u)
      → x.cbs ≡ []
      → ((u.caster t).from_str val).outcome ≡ gave v
      → IsExact t
      → (s' : Store u) × (store_entry l val s (t, x) ≡ ok s') × Holds l t v s'
  unfolding store_entry
  store_entry-Holds l val t v x s b g exact =
      let c : Caster (u.El t) = u.caster t in
      let x' : ConfigVar (u.El t) = if c.equal v x.value then x else record x { value = v } in
      (
        record s {
          vars = update s.vars l (t, x');
          world = emit_all s.world (c.from_str val).printed;
        },
        rw (from_string-bare sys at c val v x s.world b g),
        (x', update_self s.vars l (t, x'), stored (c.equal v x.value) refl),
      )
    where
      stored :
          (q : Bool)
          → (u.caster t).equal v x.value ≡ q
          → (if (u.caster t).equal v x.value then x else record x { value = v }).value ≡ v
      stored true h = rw h (sym (exact v x.value h))
      stored false h = rw h

  load_member-Holds :
      (p : Text) (n : y.Node) (s : Store u) (l : ℕ) (t : u.Ty) (v : u.El t)
      → find_name s.datas (map to_lower p) ≡ some l
      → is_empty p ≡ false
      → IsBare t (s.vars l)
      → ((u.caster t).from_str (node_text y sys at n)).outcome ≡ gave v
      → IsExact t
      → (s' : Store u) × (load_member y sys at u p n s ≡ ok s') × Holds l t v s'
  unfolding load_member lookup_base entry_from_string store_entry
  load_member-Holds p n s l t v found filled (x, h, b) g exact =
      let (s', e, holds) = store_entry-Holds l (node_text y sys at n) t v x s b g exact in
      (
        s',
        rw (filled, found, load_member)
            (subst (λ z. store_entry l (node_text y sys at n) s z ≡ ok s') (sym h) e),
        holds,
      )

  IsBare-kept : (t : u.Ty) (e e' : Entry u) → SameKind u e e' → IsBare t e → IsBare t e'
  IsBare-kept t e e' k (x, h, b) =
      let (x', h', n, c) = subst (λ z. SameKind u z e') h k in (x', h', c ∙ b)

  load_members-Holds :
      (before after : List (Text × y.Node)) (p : Text) (n : y.Node) (s : Store u) (l : ℕ) (t : u.Ty)
      (v : u.El t)
      → IsSound u P s
      → find_name s.datas (map to_lower p) ≡ some l
      → is_empty p ≡ false
      → IsBare t (s.vars l)
      → ((u.caster t).from_str (node_text y sys at n)).outcome ≡ gave v
      → IsExact t
      → All (λ (m : Text × y.Node). map to_lower m.0 ≢ map to_lower p) after
      → (s' : Store u) × (load_members y sys at u (before ++ (p, n) ∷ after) s ≡ ok s')
        × Holds l t v s'
  unfolding load_members
  load_members-Holds [] after p n s l t v i found filled bare g exact a =
      let (s₁, e, (x, h, q)) = load_member-Holds p n s l t v found filled bare g exact in
      let (s₁', e₁, k, _) = load_member-Kept y sys at u P reads p n s i in
      let same : s₁' ≡ s₁ = ok-inj (sym e₁ ∙ e) in
      let (s₂, e₂, stays) =
        load_members-untouched after s₁' (map to_lower p) l k.sound
          (ap (λ d. find_name d (map to_lower p)) k.datas_kept ∙ found) a in
      (s₂, rw e₁ e₂, (x, stays ∙ ap (λ (z : Store u). z.vars l) same ∙ h, q))
  load_members-Holds ((p', n') ∷ before) after p n s l t v i found filled bare g exact a =
      let (s₁, e, k, _) = load_member-Kept y sys at u P reads p' n' s i in
      let (s₂, e₂, holds) =
        load_members-Holds before after p n s₁ l t v k.sound
          (ap (λ d. find_name d (map to_lower p)) k.datas_kept ∙ found) filled
          (IsBare-kept t (s.vars l) (s₁.vars l) (k.kinds l) bare) g exact a in
      (s₂, rw e e₂, holds)

-- Where the conversions give allowed values only, loading a finite document into a sound registry
-- always returns: no exception leaves it, and the registry stays sound, with the same variables
-- under the same names and of the same types.
pub load_from_yaml-Kept :
    (y : Yaml) (sys : System) (at : Places) (u : Types) (P : Allowed u) (height : y.Node → ℕ)
    (root : y.Node) (s : Store u)
    → IsTree y height
    → Reads u P
    → IsSound u P s
    → (s' : Store u) × (load_from_yaml y sys at u (suc (height root)) root s ≡ ok s')
      × IsSound u P s'
      × (s'.datas ≡ s.datas)
      × ((l : ℕ) → SameKind u (s.vars l) (s'.vars l))
unfolding load_from_yaml
load_from_yaml-Kept y sys at u P height root s tree reads i =
    let (w, ms, e, same, _) =
      list_all_member-Below y sys at height root s.world tree i.world_valid in
    let s₁ : Store u = record s { world = w } in
    let (s', e', k) =
      load_members-Kept y sys at u P reads ms s₁
        (with_world u P s w i (Same-IsValid same i.world_valid)) in
    (s', rw e e', k.sound, k.datas_kept, k.kinds)

-- In a sound registry whose conversions give allowed values only, a finite document sets a variable
-- that has no callbacks to the value of the last of its nodes whose path, in lower case, is the
-- variable's name: if the path is not empty, that node's text stands for `v`, and `==` of the type
-- takes equal values only for equal, the variable holds `v` afterwards, whatever stands at the
-- other paths.
pub load_from_yaml-Holds :
    (y : Yaml) (sys : System) (at : Places) (u : Types) (P : Allowed u) (height : y.Node → ℕ)
    (root : y.Node) (s : Store u) (before after : List (Text × y.Node)) (p : Text) (n : y.Node)
    (l : ℕ) (t : u.Ty) (v : u.El t) (reads : Reads u P)
    → IsTree y height
    → IsSound u P s
    → Below y sys at [] root (before ++ (p, n) ∷ after)
    → is_empty p ≡ false
    → find_name s.datas (map to_lower p) ≡ some l
    → IsBare y sys at u P reads t (s.vars l)
    → ((u.caster t).from_str (node_text y sys at n)).outcome ≡ gave v
    → IsExact y sys at u P reads t
    → All (λ (m : Text × y.Node). map to_lower m.0 ≢ map to_lower p) after
    → (s' : Store u) × (load_from_yaml y sys at u (suc (height root)) root s ≡ ok s')
      × Holds y sys at u P reads l t v s'
unfolding load_from_yaml
load_from_yaml-Holds y sys at u P height root s before after p n l t v reads tree i below filled
      found bare g exact a =
    let (w, ms, e, same, b) =
      list_all_member-Below y sys at height root s.world tree i.world_valid in
    let s₁ : Store u = record s { world = w } in
    let (s', e', holds) =
      load_members-Holds y sys at u P reads before after p n s₁ l t v
        (with_world u P s w i (Same-IsValid same i.world_valid)) found filled bare g exact a in
    (s', rw e (rw (Below-unique y sys at b below) e'), holds)
