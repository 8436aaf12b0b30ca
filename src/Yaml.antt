-- ===== src/Yaml.antt =====
-- The interface of yaml-cpp that wb_server/config.cc, wb_server/config.h and wb_server/log.cc use.
-- The library is not part of the repository, so it is a parameter of what uses it.
pub mod Laws
pub mod Coded
use cpp_wb_server.Common.{ℕ, zero, suc, ◌+◌, List, [], ◌∷◌, Option, Text}

-- A value, or the `what()` of a `std::exception` that was thrown.
pub data Outcome {ℓ} (A : Type ℓ) : Type ℓ where
  gave : A → Outcome A
  threw : Text → Outcome A

-- `YAML::Load`, `size()`, `node[i]`, `node["key"]` (`none` where it is not defined),
-- `as<std::string>()`, `IsScalar()` with `Scalar()`, `IsMap()` with the keys' `Scalar()` and the
-- values in the iterator's order, and `<<`.
pub record Yaml : Type 1 where
  pub Node : Type 0
  pub load : Text → Outcome Node
  pub size : Node → ℕ
  pub at : Node → ℕ → Node
  pub field : Node → Text → Outcome (Option Node)
  pub as_text : Node → Outcome Text
  pub scalar : Node → Option Text
  pub entries : Node → Option (List (Text × Node))
  pub show : Node → Text

-- The nodes `node[i]` for `n` indices from `i` on.
abbrev pub elements_from : (y : Yaml) → y.Node → ℕ → ℕ → List y.Node
elements_from y node i zero = []
elements_from y node i (suc n) = y.at node i ∷ elements_from y node (i + 1) n

-- What a loop over `node[i]` below `node.size()` goes through.
abbrev pub elements : (y : Yaml) → y.Node → List y.Node
elements y node = elements_from y node 0 (y.size node)

infixl 5 ◌>>=◌
abbrev pub ◌>>=◌ {ℓ κ} : {A : Type ℓ} {B : Type κ} → Outcome A → (A → Outcome B) → Outcome B
gave a >>= f = f a
threw e >>= f = threw e

-- What the conversions to text build with: `YAML::Node node;`, a node that a text was assigned to,
-- `push_back` and `node["key"] = value`, whose results are the changed nodes; and what a loop from
-- `begin()` to `end()` sees as `first.Scalar()` and `second`.
pub record Builder (y : Yaml) : Type 0 where
  pub null : y.Node
  pub text : Text → y.Node
  pub push_back : y.Node → y.Node → y.Node
  pub put : y.Node → Text → y.Node → y.Node
  pub pairs : y.Node → Outcome (List (Text × y.Node))
