-- ===== src/Log/Listener/Names.antt =====
-- The loggers of the other names, under the listener of wb_server/log.cc.
use cpp_wb_server.Common.{
  ℕ, ◌≡◌, ◌≢◌, sym, ◌∙◌, ◌<◌, ap, subst, inl, inr, some, Text, arith, update_ne, Option-cases,
}
use cpp_wb_server.Log.World
use cpp_wb_server.Log.World.{World, System, Result, ok, ◌>>=◌}
use cpp_wb_server.Log.Manager.{get_logger, find_name}
use cpp_wb_server.Log.Manager.Invariant.{IsValid}
use cpp_wb_server.Log.Manager.Operations.{get_logger-IsValid}
use cpp_wb_server.Log.Manager.Lookup.{
  find_name-get_logger, find_name-get_logger_ne, get_logger_found,
}
use cpp_wb_server.Log.Listener.Frame.{Touches}

-- The logger that is registered under `n`, if there is one, is the same and unchanged.
abbrev pub KeepsName : Text → World → World → Type 0
KeepsName n w w' =
    (l : ℕ)
    → find_name w.names n ≡ some l
    → (find_name w'.names n ≡ some l) × (w'.loggers l ≡ w.loggers l)

get_logger-loggers :
    (n : Text) (w : World) (k : ℕ) → k < w.next_logger → (get_logger n w).1.loggers k ≡ w.loggers k
unfolding get_logger
get_logger-loggers n w k h = elim (Option-cases (find_name w.names n)) [
  | inl missing ↦
      rw (missing, get_logger) (update_ne w.loggers w.next_logger k _ (ground (arith, h)))
  | inr (l, found) ↦ rw (get_logger_found n w l found)
]

-- What touches only the logger of another name.
pub other-KeepsName :
    (m n : Text) (w w' : World)
    → IsValid w
    → m ≢ n
    → Touches (get_logger m w).0 (get_logger m w).1 w'
    → KeepsName n w w'
other-KeepsName m n w w' v ne t l h =
    let (lm, w₁) = get_logger m w in
    let v₁ : IsValid w₁ = get_logger-IsValid m w v in
    let found : find_name w₁.names n ≡ some l = find_name-get_logger_ne m n w ne ∙ h in
    let apart : l ≢ lm = λ e. ne (
      sym (v₁.named m lm (find_name-get_logger m w)).1
      ∙ ap (λ k. (w₁.loggers k).name) (sym e)
      ∙ (v₁.named n l found).1) in
    (
      ap (λ ns. find_name ns n) t.names_kept ∙ found,
      t.others l apart ∙ get_logger-loggers m w l (v.named n l h).0,
    )

-- The logger of that name has this property.
abbrev pub Has {ℓ} : Text → (World.Logger → Type ℓ) → World → Type ℓ
Has n P w = (l : ℕ) × (find_name w.names n ≡ some l) × P (w.loggers l)

pub Has-kept {ℓ} :
    (n : Text) (P : World.Logger → Type ℓ) (w w' : World)
    → KeepsName n w w'
    → Has n P w
    → Has n P w'
Has-kept n P w w' k (l, h, p) = (l, (k l h).0, subst P (sym (k l h).1) p)
