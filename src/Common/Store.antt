-- ===== src/Common/Store.antt =====
-- A store of shared objects: an address stands for a `std::shared_ptr`, and a write replaces the
-- object that every holder of the address sees.
use Prim.Native.Nat.{ℕ}
use mathlib.Core.Path.{◌≡◌}
use mathlib.Core.Logic.{◌≢◌, inl, inr}
use native.Mathlib.Omega.{arith}
use cpp_wb_server.Common.Tests.{◌==◌, ==_iff, Bool-cases, if◌then◌else◌}

module _ {ℓ} {A : Type ℓ} where
  abbrev pub update : (ℕ → A) → ℕ → A → ℕ → A
  update f p v q = if p == q then v else f q

  pub update_self : (f : ℕ → A) (p : ℕ) (v : A) → update f p v p ≡ v
  update_self f p v = ground arith

  pub update_ne : (f : ℕ → A) (p q : ℕ) (v : A) → p ≢ q → update f p v q ≡ f q
  update_ne f p q v h = ground arith

  -- What holds of the new value, and of the old one elsewhere, holds after the write.
  pub update_cases {κ} :
      (P : A → Type κ) (f : ℕ → A) (p q : ℕ) (v : A)
      → (p ≡ q → P v)
      → (p ≢ q → P (f q))
      → P (update f p v q)
  update_cases P f p q v new old = elim (Bool-cases (p == q)) [
    | inl e ↦ rw e (new ((==_iff p q).0 e))
    | inr e ↦ rw e (old λ h. cc ((==_iff p q).1 h))
  ]
