-- ===== src/Config/Cast.antt =====
-- The `LexicalCast` templates for containers of wb_server/config.h. A `std::set` and a `std::map` are
-- lists in their order; an unordered container is the list of its elements in the order of its
-- buckets, and where an element goes is a parameter.
pub mod Reading
pub mod Maps
pub mod Echo
use cpp_wb_server.Common.{
  Bool, true, false, ◌||◌, List, [], ◌∷◌, ◌++◌, Option, none, some, Text, eq_text, if◌then◌else◌,
}
use cpp_wb_server.Common.Sets.{set_insert}
use cpp_wb_server.Yaml.{Outcome, gave, threw, ◌>>=◌, Yaml, Builder, elements}
use cpp_wb_server.Log.Define.{lt_text}

-- `LexicalCast<std::string, T>` and `LexicalCast<T, std::string>` of the elements.
pub record Cast (T : Type 0) : Type 0 where
  pub read : Text → Outcome T
  pub write : T → Outcome Text

abbrev pub contains : {T : Type 0} → (T → T → Bool) → T → List T → Bool
contains eq x [] = false
contains eq x (y ∷ ys) = eq x y || contains eq x ys

-- What an unordered container of such elements takes from the library: `operator==` of the elements
-- or of the keys, and the place of a new element.
pub record Buckets (T : Type 0) : Type 0 where
  pub eq : T → T → Bool
  pub place : T → List T → List T

-- `std::unordered_set::insert`.
unfoldable pub unordered_insert : {T : Type 0} → Buckets T → List T → T → List T
unordered_insert b ys x = if contains b.eq x ys then ys else b.place x ys

abbrev pub find_key : {T : Type 0} → Text → List (Text × T) → Option T
find_key k [] = none
find_key k ((j, v) ∷ m) = if eq_text k j then some v else find_key k m

-- `std::map::insert` of a pair: a key that is there keeps its value.
unfoldable pub map_insert : {T : Type 0} → List (Text × T) → Text × T → List (Text × T)
map_insert [] (k, v) = (k, v) ∷ []
map_insert ((j, w) ∷ m) (k, v) =
    if lt_text k j
    then (k, v) ∷ (j, w) ∷ m
    else if lt_text j k
    then (j, w) ∷ map_insert m (k, v)
    else (j, w) ∷ m

-- `std::unordered_map::insert`; the buckets are those of the pairs.
unfoldable pub unordered_map_insert :
    {T : Type 0}
    → (Text × T → List (Text × T) → List (Text × T))
    → List (Text × T)
    → Text × T
    → List (Text × T)
unordered_map_insert place m (k, v) = elim (find_key k m) [ none ↦ place (k, v) m | some w ↦ m ]

abbrev pub push_last : {T : Type 0} → List T → T → List T
push_last xs x = xs ++ x ∷ []

module _ (y : Yaml) (b : Builder y) {T : Type 0} (c : Cast T) where
  -- The loop over `node[i]`, with what it does with each element.
  unfoldable pub read_nodes : {C : Type 0} → (C → T → C) → C → List y.Node → Outcome C
  read_nodes add vec [] = gave vec
  read_nodes add vec (n ∷ ns) = do x ← c.read (y.show n); read_nodes add (add vec x) ns

  unfoldable pub read_sequence : {C : Type 0} → (C → T → C) → C → Text → Outcome C
  unfolding read_nodes
  read_sequence add empty v = do node ← y.load v; read_nodes add empty (elements y node)

  -- The loop that pushes the elements, and `ss << node`.
  unfoldable pub write_nodes : y.Node → List T → Outcome y.Node
  write_nodes node [] = gave node
  write_nodes node (x ∷ xs) = do t ← c.write x; n ← y.load t; write_nodes (b.push_back node n) xs

  unfoldable pub write_sequence : List T → Outcome Text
  unfolding write_nodes
  write_sequence v = do node ← write_nodes b.null v; gave (y.show node)

  -- The loop over the pairs of a map.
  unfoldable pub read_pairs :
      (List (Text × T) → Text × T → List (Text × T))
      → List (Text × T)
      → List (Text × y.Node)
      → Outcome (List (Text × T))
  read_pairs add vec [] = gave vec
  read_pairs add vec ((k, n) ∷ es) = do x ← c.read (y.show n); read_pairs add (add vec (k, x)) es

  unfoldable pub read_map :
      (List (Text × T) → Text × T → List (Text × T)) → Text → Outcome (List (Text × T))
  unfolding read_pairs
  read_map add v = do node ← y.load v; es ← b.pairs node; read_pairs add [] es

  unfoldable pub write_pairs : y.Node → List (Text × T) → Outcome y.Node
  write_pairs node [] = gave node
  write_pairs node ((k, x) ∷ m) = do t ← c.write x; n ← y.load t; write_pairs (b.put node k n) m

  unfoldable pub write_map : List (Text × T) → Outcome Text
  unfolding write_pairs
  write_map m = do node ← write_pairs b.null m; gave (y.show node)

  abbrev pub vector_cast : Cast (List T)
  vector_cast = record { read = read_sequence push_last []; write = write_sequence }

  abbrev pub list_cast : Cast (List T)
  list_cast = record { read = read_sequence push_last []; write = write_sequence }

  abbrev pub set_cast : (T → T → Bool) → Cast (List T)
  set_cast lt = record { read = read_sequence (set_insert lt) []; write = write_sequence }

  abbrev pub unordered_set_cast : Buckets T → Cast (List T)
  unordered_set_cast u = record {
    read = read_sequence (unordered_insert u) [];
    write = write_sequence;
  }

  abbrev pub map_cast : Cast (List (Text × T))
  map_cast = record { read = read_map map_insert; write = write_map }

  abbrev pub unordered_map_cast :
      (Text × T → List (Text × T) → List (Text × T)) → Cast (List (Text × T))
  unordered_map_cast place = record {
    read = read_map (unordered_map_insert place);
    write = write_map;
  }
