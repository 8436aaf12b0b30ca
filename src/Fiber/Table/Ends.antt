-- ===== src/Fiber/Table/Ends.antt =====
-- What holds of a call of wb_server/fiber.cc that returns.
use cpp_wb_server.Common.{Bool, true, false, if◌then◌else◌}
use cpp_wb_server.Log.World.{Result, ok, fault, no_fuel, ◌>>=◌}

-- It holds of what the call returns, if it returns.
abbrev pub Ends {ℓ κ} : {A : Type ℓ} → (A → Type κ) → Result A → Type κ
Ends P (ok a) = P a
Ends P fault = Unit
Ends P no_fuel = Unit

pub Ends-bind {ℓ κ μ ν} :
    {S : Type ℓ} {T : Type κ} (Before : S → Type μ) (After : T → Type ν) (first : Result S)
    (next : S → Result T)
    → Ends Before first
    → ((s : S) → Before s → Ends After (next s))
    → Ends After (first >>= next)
Ends-bind Before After (ok s) next h then_ends = then_ends s h
Ends-bind Before After fault next h then_ends = tt
Ends-bind Before After no_fuel next h then_ends = tt

pub Ends-if {ℓ κ} :
    {A : Type ℓ} (P : A → Type κ) (b : Bool) (r s : Result A)
    → Ends P r
    → Ends P s
    → Ends P (if b then r else s)
Ends-if P true r s h i = h
Ends-if P false r s h i = i

pub if_holds {ℓ κ} :
    {A : Type ℓ} (P : A → Type κ) (b : Bool) (x y : A) → P x → P y → P (if b then x else y)
if_holds P true x y h i = h
if_holds P false x y h i = i

pub any {ℓ} : {A : Type ℓ} (r : Result A) → Ends {ℓ, 0} (λ a. Unit) r
any (ok a) = tt
any fault = tt
any no_fuel = tt
