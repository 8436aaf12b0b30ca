-- ===== src/Util.antt =====
-- wb_server/util.cc: the ids for the log, and the text of a backtrace.
pub mod Traces
use cpp_wb_server.Common.{
  ℕ, zero, suc, ◌+◌, ◌-◌, ◌%◌, ◌^◌, Bool, true, false, List, [], ◌∷◌, ◌++◌, Option, none, some,
  Text, length,
}
use cpp_wb_server.Log.World.{Result, ok, ◌>>=◌}
use cpp_wb_server.Fiber.Table.{Table}
use cpp_wb_server.Fiber.Table

-- `get_fiber_id`, which returns a `uint32_t`.
unfoldable get_fiber_id : ℕ → Table → Result ℕ
get_fiber_id me t = do i ← Table.get_fiber_id me t; ok (i % 2 ^ 32)

-- `strings[i]`, and `bt[i]`.
unfoldable get_elem : List Text → ℕ → Text
get_elem [] i = []
get_elem (x ∷ xs) zero = x
get_elem (x ∷ xs) (suc i) = get_elem xs i

-- The loop of `Backtrace` from `i` on, for `n` strings more.
unfoldable push_strings : List Text → ℕ → ℕ → List Text → List Text
unfolding get_elem
push_strings strings i zero bt = bt
push_strings strings i (suc n) bt = push_strings strings (i + 1) n (bt ++ get_elem strings i ∷ [])

-- What `Backtrace` does with the strings, and whether it logs an error; `none` is for NULL.
unfoldable push_symbols : Option (List Text) → List Text → ℕ → List Text × Bool
unfolding push_strings
push_symbols none bt skip = (bt, true)
push_symbols (some strings) bt skip = (push_strings strings skip (length strings - skip) bt, false)

-- `Backtrace`. `symbols` is what `backtrace_symbols` makes of `backtrace` into an array of that size;
-- `skip` is as it is converted to `size_t`.
unfoldable backtrace : (ℕ → Option (List Text)) → List Text → ℕ → ℕ → List Text × Bool
unfolding push_symbols
backtrace symbols bt size skip = push_symbols (symbols size) bt skip

-- The loop of `BacktraceToString` from `i` on, for `n` lines more.
unfoldable add_lines : Text → List Text → ℕ → ℕ → Text → Text
unfolding get_elem
add_lines prefix bt i zero ss = ss
add_lines prefix bt i (suc n) ss =
    add_lines prefix bt (i + 1) n (ss ++ (prefix ++ (get_elem bt i ++ 10 ∷ [])))

-- `BacktraceToString`.
unfoldable backtrace_to_string : (ℕ → Option (List Text)) → ℕ → ℕ → Text → Text
unfolding backtrace add_lines
backtrace_to_string symbols size skip prefix =
    let bt = (backtrace symbols [] size skip).0 in add_lines prefix bt 0 (length bt) []
