-- ===== src/Config/Registry/Lookup.antt =====
-- `Config::lookup` with a default and without one (wb_server/config.h), one after the other.
use cpp_wb_server.Common.{
  ℕ, ◌≡◌, ◌≢◌, refl, sym, inl, inr, Bool, true, false, ◌∷◌, Option, none, some, Text, codes, ◌++◌,
  Bool-cases, Option-cases, update_self, update_ne,
}
use cpp_wb_server.Log.Level.{error, info}
use cpp_wb_server.Log.World.{System, ok}
use cpp_wb_server.Log.Manager.{find_name}
use cpp_wb_server.Log.Manager.Invariant.{Same-IsValid}
use cpp_wb_server.Config.Var
use cpp_wb_server.Log.Manager.Lookup.{find_name_here}
use cpp_wb_server.Config.Var.{ConfigVar, Places, log_line}
use cpp_wb_server.Config.Var.Calls.{log_line-Same}
use cpp_wb_server.Config.Registry.{
  Types, Store, Answer, pointer, invalid_argument, is_name, has_type, create, lookup_default,
  lookup,
}
use cpp_wb_server.Config.Registry.Invariant.{
  Allowed, IsSound, with_world, create-IsSound, log_mismatch-Same,
}

-- What a later `lookup` of the name and the type answers.
abbrev pub later : Answer → Option ℕ
later (pointer p) = p
later (invalid_argument what) = none

has_type_self : (u : Types) (t : u.Ty) (x : ConfigVar (u.El t)) → has_type u t (t, x) ≡ true
has_type_self u t x =
    elim (u.same t t) as (λ d. (elim d as (λ k. Bool) [ yes _ ↦ true | no _ ↦ false ]) ≡ true) [
      | yes e ↦ refl
      | no n ↦ absurd (n refl)
    ]

-- The registry from before, with what was logged.
abbrev pub Unmoved : (u : Types) → Store u → Store u → Type 0
Unmoved u s s' = s' ≡ record s { world = s'.world }

-- What `lookup` of `name` with the default `value` answers, and what it leaves.
pub data Answered (u : Types) (t : u.Ty) (name : Text) (value : u.El t) (d : Text) (s s' : Store u)
    : Answer → Type 0 where
  found :
      {l : ℕ}
      → find_name s.datas name ≡ some l
      → has_type u t (s.vars l) ≡ true
      → Unmoved u s s'
      → Answered u t name value d s s' (pointer (some l))
  mismatched :
      {l : ℕ}
      → find_name s.datas name ≡ some l
      → has_type u t (s.vars l) ≡ false
      → Unmoved u s s'
      → Answered u t name value d s s' (pointer none)
  refused :
      find_name s.datas name ≡ none
      → is_name name ≡ false
      → Unmoved u s s'
      → Answered u t name value d s s' (invalid_argument name)
  added :
      find_name s.datas name ≡ none
      → is_name name ≡ true
      → s'.datas ≡ (name, s.next) ∷ s.datas
      → s'.vars s.next ≡ (t, Var.new name value d)
      → ((l : ℕ) → l ≢ s.next → s'.vars l ≡ s.vars l)
      → Answered u t name value d s s' (pointer (some s.next))

-- A sound registry stays sound under `lookup` with an allowed default, which always returns. For a
-- name that is there it answers its variable, or null where that has another type; for a new name
-- that is not valid it throws `std::invalid_argument` of the name; in these cases the registry is as
-- it was, but for what is logged. For a new valid name it answers a new variable of that name, with
-- the default and the description, and all other variables are as they were. A later `lookup` of the
-- name and type answers the same pointer, and null where there was an exception.
pub lookup_default-lookup :
    (u : Types) (P : Allowed u) (sys : System) (at : Places) (t : u.Ty) (name : Text)
    (value : u.El t) (d : Text) (s : Store u)
    → IsSound u P s
    → P t value
    → (s' : Store u) × (a : Answer) × (lookup_default u sys at t name value d s ≡ ok (s', a))
      × IsSound u P s'
      × (lookup u t name s' ≡ later a)
      × Answered u t name value d s s' a
unfolding lookup_default lookup
lookup_default-lookup u P sys at t name value d s i p =
    elim (Option-cases (find_name s.datas name)) [
      | inr (l, there) ↦ elim (Bool-cases (has_type u t (s.vars l))) [
        | inl same ↦
            let (w, h, k) =
              log_line-Same sys (at 390) info (codes "lookup name = " ++ (name ++ codes " exists;"))
                s.world i.world_valid in
            (
              record s { world = w },
              pointer (some l),
              rw (there, lookup_default, same, h),
              with_world u P s w i (Same-IsValid k i.world_valid),
              rw (there, lookup, same),
              Answered.found there same refl,
            )
        | inr other ↦
            let (w, h, k) = log_mismatch-Same u P sys at t name (s.vars l) s.world i.world_valid in
            (
              record s { world = w },
              pointer none,
              rw (there, lookup_default, other, h),
              with_world u P s w i (Same-IsValid k i.world_valid),
              rw (there, lookup, other),
              Answered.mismatched there other refl,
            )
      ]
      | inl missing ↦ elim (Bool-cases (is_name name)) [
        | inr bad ↦
            let (w, h, k) =
              log_line-Same sys (at 408) error (codes "lookup name invalid" ++ name) s.world
                i.world_valid in
            (
              record s { world = w },
              invalid_argument name,
              rw (missing, lookup_default, bad, h),
              with_world u P s w i (Same-IsValid k i.world_valid),
              rw (missing, lookup),
              Answered.refused missing bad refl,
            )
        | inl good ↦ (
          create u sys at t name value d s,
          pointer (some s.next),
          rw (missing, lookup_default, good),
          create-IsSound u P t name value d s sys at i p good,
          created,
          new_one missing good,
        )
      ]
    ]
  where
    new_one :
        find_name s.datas name ≡ none
        → is_name name ≡ true
        → Answered u t name value d s (create u sys at t name value d s) (pointer (some s.next))
    new_one missing good =
        unfold create in
        added missing good refl (update_self s.vars s.next (t, Var.new name value d))
          (λ l ne. update_ne s.vars s.next l (t, Var.new name value d) (λ e. ne (sym e)))

    created : lookup u t name (create u sys at t name value d s) ≡ some s.next
    created =
        unfold lookup create in
        rw (find_name_here name s.next s.datas, lookup)
          (rw (
            update_self s.vars s.next (t, Var.new name value d),
            has_type_self u t (Var.new name value d),
          ))
