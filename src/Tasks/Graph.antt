-- ===== src/Tasks/Graph.antt =====
-- validateGraph: the bounds of the dependency graph, its closure, and Kahn's traversal, which finds cycles.
pub mod Edges
pub mod Degrees
pub mod Fuel
pub mod Removal
pub mod Acyclic
pub mod Valid
use dotconfig.Base.{
  ℕ, zero, suc, ◌+◌, not, none, some, List, [], ◌∷◌, ◌++◌, map, Text, ltb, ◌==◌, length,
  if◌then◌else◌, ok, err, fail_if, ◌>>=◌, ◌>>◌, get_key, set_key,
}
use dotconfig.Issues.{set_of}
use dotconfig.Tasks.{
  Outcome, Graph, corrupt_state, cycle, capacity, max_transition_nodes, max_transition_edges,
}

-- `incoming`: how many edges lead to each node.
abbrev pub Degrees : Type 0
Degrees = List (Text × ℕ)

-- `incoming` at first.
abbrev pub no_edges : Graph → Degrees
no_edges graph = map (λ node. (node.0, 0)) graph

-- `incoming.set(id, count + 1)` for every dependency of a node.
unfoldable pub add_edges : List Text → Degrees → Outcome Degrees
unfolding get_key set_key
add_edges [] incoming = ok incoming
add_edges (id ∷ ids) incoming = elim (get_key id incoming) [
  | none ↦ err corrupt_state
  | some count ↦ add_edges ids (set_key id (suc count) incoming)
]

-- The loop over `graph.values()`, with `edgeCount`.
unfoldable pub count_edges : Graph → ℕ → Degrees → Outcome Degrees
unfolding add_edges set_of
count_edges [] edge_count incoming = ok incoming
count_edges ((id, dependencies) ∷ nodes) edge_count incoming = do
  fail_if (ltb max_transition_edges (edge_count + length dependencies)) capacity
  fail_if (not (length (set_of dependencies) == length dependencies)) corrupt_state
  counted ← add_edges dependencies incoming
  count_edges nodes (edge_count + length dependencies) counted

-- The nodes without an incoming edge.
unfoldable pub ready_nodes : Degrees → List Text
ready_nodes [] = []
ready_nodes ((id, count) ∷ incoming) =
    if count == 0 then id ∷ ready_nodes incoming else ready_nodes incoming

-- `incoming.set(dependency, count - 1)`, and `ready.push(dependency)` at the last edge.
unfoldable pub remove_edges : List Text → Degrees → List Text → Outcome (Degrees × List Text)
unfolding get_key set_key
remove_edges [] incoming ready = ok (incoming, ready)
remove_edges (id ∷ ids) incoming ready = elim (get_key id incoming) [
  | none ↦ err corrupt_state
  | some zero ↦ err corrupt_state
  | some (suc n) ↦
      remove_edges ids (set_key id n incoming) (if n == 0 then ready ++ id ∷ [] else ready)
]

-- The loop `while (visited < ready.length)`: the list is what `ready` holds from `visited` on.
unfoldable pub traverse : ℕ → Graph → Degrees → List Text → ℕ → Outcome ℕ
unfolding get_key remove_edges
traverse fuel graph incoming [] visited = ok visited
traverse zero graph incoming (id ∷ ready) visited = ok visited
traverse (suc fuel) graph incoming (id ∷ ready) visited = elim (get_key id graph) [
  | none ↦ err corrupt_state
  | some dependencies ↦ remove_edges dependencies incoming ready >>= λ next.
      traverse fuel graph next.0 next.1 (suc visited)
]

-- As much fuel as the graph has nodes.
unfoldable pub validate_graph : Graph → Outcome (Unit {0})
unfolding count_edges ready_nodes traverse
validate_graph graph = do
  fail_if (ltb max_transition_nodes (length graph)) capacity
  incoming ← count_edges graph 0 (no_edges graph)
  visited ← traverse (length graph) graph incoming (ready_nodes incoming) 0
  fail_if (not (visited == length graph)) cycle
