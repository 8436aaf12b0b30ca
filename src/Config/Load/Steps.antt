-- ===== src/Config/Load/Steps.antt =====
-- One round of the loop of `Config::load_from_yaml` (wb_server/config.cc).
use cpp_wb_server.Common.{
  ℕ, ◌≡◌, ◌≢◌, refl, sym, ap, subst, ◌∙◌, ◌<◌, inl, inr, map, some, Text, is_empty, to_lower,
  Bool-cases, Option-cases, update, update_ne, update_cases,
}
use cpp_wb_server.Yaml.{gave, Yaml}
use cpp_wb_server.Log.World.{World, System, ok}
use cpp_wb_server.Log.Manager.{find_name}
use cpp_wb_server.Log.Manager.Invariant.{IsValid}
use cpp_wb_server.Config.Var.{ConfigVar, Places}
use cpp_wb_server.Config.Var.Calls.{Settled, from_string-Settled}
use cpp_wb_server.Config.Registry.{Types, Entry, Store, lookup_base}
use cpp_wb_server.Config.Registry.Invariant.{Allowed, IsFine, IsSound, name_of}
use cpp_wb_server.Config.Load.{node_text, entry_from_string, load_member}

-- Texts are read as allowed values only.
abbrev pub Reads : (u : Types) → Allowed u → Type 0
Reads u P =
    (t : u.Ty) (val : Text) (v : u.El t) → ((u.caster t).from_str val).outcome ≡ gave v → P t v

-- The variable keeps its type, its name and its callbacks.
abbrev pub SameKind : (u : Types) → Entry u → Entry u → Type 0
SameKind u (t, x) e =
    (x' : ConfigVar (u.El t)) × (e ≡ (t, x')) × (x'.name ≡ x.name) × (x'.cbs ≡ x.cbs)

pub SameKind-refl : (u : Types) (e : Entry u) → SameKind u e e
SameKind-refl u (t, x) = (x, refl, refl, refl)

pub SameKind-trans :
    (u : Types) (d e f : Entry u) → SameKind u d e → SameKind u e f → SameKind u d f
SameKind-trans u (t, x) e f (x', h, n, c) k =
    let (x'', h', n', c') = subst (λ z. SameKind u z f) h k in (x'', h', n' ∙ n, c' ∙ c)

module _ (y : Yaml) (sys : System) (at : Places) (u : Types) (P : Allowed u) where
  -- What a round leaves: a sound registry of the same variables under the same names.
  pub record Kept (s s' : Store u) : Type 0 where
    pub sound : IsSound u P s'
    pub datas_kept : s'.datas ≡ s.datas
    pub next_kept : s'.next ≡ s.next
    pub kinds : (l : ℕ) → SameKind u (s.vars l) (s'.vars l)

  pub Kept-refl : (s : Store u) → IsSound u P s → Kept s s
  Kept-refl s i = record {
    sound = i;
    datas_kept = refl;
    next_kept = refl;
    kinds = λ l. SameKind-refl u (s.vars l);
  }

  pub Kept-trans : {r s t : Store u} → Kept r s → Kept s t → Kept r t
  Kept-trans {r} {s} {t} a b = record {
    sound = b.sound;
    datas_kept = b.datas_kept ∙ a.datas_kept;
    next_kept = b.next_kept ∙ a.next_kept;
    kinds = λ l. SameKind-trans u (r.vars l) (s.vars l) (t.vars l) (a.kinds l) (b.kinds l);
  }

  Settled-name :
      {t : u.Ty} (val : Text) (x x' : ConfigVar (u.El t))
      → Settled (u.caster t) val x x'
      → x'.name ≡ x.name
  Settled-name val x x' (inl e) = ap (λ (z : ConfigVar _). z.name) e
  Settled-name val x x' (inr (v, h, e)) = ap (λ (z : ConfigVar _). z.name) e

  Settled-cbs :
      {t : u.Ty} (val : Text) (x x' : ConfigVar (u.El t))
      → Settled (u.caster t) val x x'
      → x'.cbs ≡ x.cbs
  Settled-cbs val x x' (inl e) = ap (λ (z : ConfigVar _). z.cbs) e
  Settled-cbs val x x' (inr (v, h, e)) = ap (λ (z : ConfigVar _). z.cbs) e

  Settled-IsFine :
      {t : u.Ty} (val : Text) (x x' : ConfigVar (u.El t))
      → Reads u P
      → IsFine u P (t, x)
      → Settled (u.caster t) val x x'
      → IsFine u P (t, x')
  Settled-IsFine {t} val x x' r f (inl e) = subst (λ z. IsFine u P (t, z)) (sym e) f
  Settled-IsFine {t} val x x' r f (inr (v, h, e)) =
      subst (λ z. IsFine u P (t, z)) (sym e) (r t val v h, f.1)

  module _ (reads : Reads u P) where
    put-Settled :
        (l : ℕ) (val : Text) (s : Store u) (x' : ConfigVar (u.El (s.vars l).0)) (w' : World)
        → IsSound u P s
        → l < s.next
        → Settled (u.caster (s.vars l).0) val (s.vars l).1 x'
        → IsValid w'
        → Kept s (record s { vars = update s.vars l ((s.vars l).0, x'); world = w' })
    put-Settled l val s x' w' i h d v = record {
      sound = record {
        named = λ n k e.
            let (a, b, c) = i.named n k e in
            (
              a,
              update_cases (λ z. name_of u z ≡ n) s.vars l k _
                  (λ same.
                    Settled-name val _ x' d ∙ subst (λ j. name_of u (s.vars j) ≡ n) (sym same) b)
                  (λ ne. b),
              c,
            );
        fine = λ k e.
            update_cases (IsFine u P) s.vars l k _
              (λ same. Settled-IsFine val _ x' reads (i.fine l h) d) (λ ne. i.fine k e);
        world_valid = v;
      };
      datas_kept = refl;
      next_kept = refl;
      kinds = λ k.
          update_cases (SameKind u (s.vars k)) s.vars l k _
            (λ same.
              subst (λ j. SameKind u (s.vars j) ((s.vars l).0, x')) same
                (x', refl, Settled-name val _ x' d, Settled-cbs val _ x' d))
            (λ ne. SameKind-refl u (s.vars k));
    }

    -- A round on a member whose key has no variable, or is empty, changes nothing; on another one it
    -- touches that variable only.
    pub load_member-Kept :
        (p : Text) (n : y.Node) (s : Store u)
        → IsSound u P s
        → (s' : Store u) × (load_member y sys at u p n s ≡ ok s')
          × Kept s s'
          × ((name : Text) (l : ℕ)
              → find_name s.datas name ≡ some l
              → map to_lower p ≢ name
              → s'.vars l ≡ s.vars l)
    unfolding load_member lookup_base entry_from_string
    load_member-Kept p n s i = elim (Bool-cases (is_empty p)) [
      | inl none_at ↦ (s, rw none_at, Kept-refl s i, λ name l h ne. refl)
      | inr some_at ↦ elim (Option-cases (find_name s.datas (map to_lower p))) [
        | inl missing ↦ (s, rw (some_at, missing, load_member), Kept-refl s i, λ name l h ne. refl)
        | inr (l, found) ↦
            let (b, called, _) = i.named (map to_lower p) l found in
            let f : IsFine u P (s.vars l) = i.fine l b in
            let val : Text = node_text y sys at n in
            let (x', w', e, d, v, _) =
              from_string-Settled (P (s.vars l).0) sys at (u.caster (s.vars l).0) val (s.vars l).1
                s.world (reads (s.vars l).0 val) f.1 f.0 i.world_valid in
            (
              record s { vars = update s.vars l ((s.vars l).0, x'); world = w' },
              rw (some_at, found, load_member, e),
              put-Settled l val s x' w' i b d v,
              λ name k h ne.
                  update_ne s.vars l k ((s.vars l).0, x')
                    (λ same.
                      ne (sym called ∙ ap (λ j. name_of u (s.vars j)) same ∙ (i.named name k h).1)),
            )
      ]
    ]
