-- ===== src/Tasks/Graph/Fuel.antt =====
-- The fuel of the traversal: each node is pushed at most once, so the graph's size is enough.
use dotconfig.Base.{
  ℕ, zero, suc, ◌+◌, ◌≤◌, some, List, [], ◌∷◌, ◌++◌, Text, text_eq, ltb, not, ◌==◌, length,
  length-append, get_key, set_key, ◌≡◌, inl, inr, refl, sym, ap, ◌∙◌, arith, Bool-cases,
  Option-cases, if◌then◌else◌, if_true, if_false, Result-cases, ok, >>=-elim, fail_if-elim,
}
use dotconfig.Issues.{set_of}
use dotconfig.Tasks.{Graph, corrupt_state, capacity, max_transition_edges}
use dotconfig.Tasks.Graph.{
  no_edges, Degrees, add_edges, count_edges, ready_nodes, remove_edges, traverse,
}

-- The nodes that still have an open edge.
unfoldable waiting : Degrees → ℕ
waiting [] = 0
waiting ((id, count) ∷ incoming) = (if count == 0 then 0 else 1) + waiting incoming

ready_nodes-waiting :
    (incoming : Degrees) → length (ready_nodes incoming) + waiting incoming ≡ length incoming
unfolding ready_nodes waiting
ready_nodes-waiting [] = refl
ready_nodes-waiting ((id, count) ∷ incoming) = elim (Bool-cases (count == 0)) [
  | inl e ↦ rw e (omega (arith, ready_nodes-waiting incoming))
  | inr e ↦ rw e (omega (arith, ready_nodes-waiting incoming))
]

waiting-set_key :
    (id : Text) (n : ℕ) (incoming : Degrees)
    → get_key id incoming ≡ some (suc n)
    → (if n == 0 then 1 else 0) + waiting (set_key id n incoming) ≡ waiting incoming
unfolding get_key set_key waiting
waiting-set_key id n [] h = cc
waiting-set_key id n ((k, count) ∷ incoming) h = elim (Bool-cases (text_eq k id)) [
  | inl e ↦
      let q : some count ≡ some (suc n) = sym (if_true _ _ e) ∙ h in
      let c : count ≡ suc n = cc in rw (e, c) (ground arith)
  | inr e ↦ rw e (omega (arith, waiting-set_key id n incoming (sym (if_false _ _ e) ∙ h)))
]

remove_edges-waiting :
    (ids : List Text) (incoming : Degrees) (ready : List Text) {next : Degrees × List Text}
    → remove_edges ids incoming ready ≡ ok next
    → length next.1 + waiting next.0 ≡ length ready + waiting incoming
unfolding remove_edges
remove_edges-waiting [] incoming ready {next} h =
    let a : incoming ≡ next.0 = cc in let b : ready ≡ next.1 = cc in rw (a, b) refl
remove_edges-waiting (id ∷ ids) incoming ready h = elim (Option-cases (get_key id incoming)) [
  | inl e ↦ let z = rw (e, remove_edges) at h in cc
  | inr (zero, e) ↦ let z = rw (e, remove_edges) at h in cc
  | inr (suc n, e) ↦
      let w = waiting-set_key id n incoming e in
      let r =
        remove_edges-waiting ids (set_key id n incoming)
          (if n == 0 then ready ++ id ∷ [] else ready) (rw (e, remove_edges) at h) in
      r ∙ elim (Bool-cases (n == 0)) [
        | inl last ↦ let w' = rw last at w in rw last (omega (arith, length-append ready (id ∷ [])))
        | inr more ↦ let w' = rw more at w in rw more (omega arith)
      ]
]

-- More fuel than the nodes that are ready or may become ready changes nothing.
traverse-fuel :
    (fuel more : ℕ) (graph : Graph) (incoming : Degrees) (ready : List Text) (visited : ℕ)
    → length ready + waiting incoming ≤ fuel
    → fuel ≤ more
    → traverse more graph incoming ready visited ≡ traverse fuel graph incoming ready visited
unfolding traverse
traverse-fuel zero zero graph incoming ready visited h k = refl
traverse-fuel zero (suc more) graph incoming [] visited h k = refl
traverse-fuel (suc fuel) (suc more) graph incoming [] visited h k = refl
traverse-fuel (suc fuel) zero graph incoming ready visited h k = let z : ⊥ = omega arith in absurd z
traverse-fuel zero (suc more) graph incoming (id ∷ ready) visited h k =
    let z : ⊥ = omega arith in absurd z
traverse-fuel (suc fuel) (suc more) graph incoming (id ∷ ready) visited h k =
    elim (Option-cases (get_key id graph)) [
      | inl e ↦ rw (e, traverse) refl
      | inr (ids, e) ↦
          rw (e, traverse)
            (elim (Result-cases (remove_edges ids incoming ready)) [
              | inl (next, q) ↦
                  let w = remove_edges-waiting ids incoming ready q in
                  rw q (
                    traverse-fuel fuel more graph next.0 next.1 (suc visited) (omega arith)
                      (omega arith))
              | inr (failure, q) ↦ rw q refl
            ])
    ]

length-set_key :
    (id : Text) (n : ℕ) (incoming : Degrees) {m : ℕ}
    → get_key id incoming ≡ some m
    → length (set_key id n incoming) ≡ length incoming
unfolding get_key set_key
length-set_key id n [] h = cc
length-set_key id n ((k, count) ∷ incoming) h = elim (Bool-cases (text_eq k id)) [
  | inl e ↦ rw e refl
  | inr e ↦ rw e (ap suc (length-set_key id n incoming (sym (if_false _ _ e) ∙ h)))
]

length-add_edges :
    (ids : List Text) (incoming : Degrees) {counted : Degrees}
    → add_edges ids incoming ≡ ok counted
    → length counted ≡ length incoming
unfolding add_edges
length-add_edges [] incoming {counted} h = let e : incoming ≡ counted = cc in rw e refl
length-add_edges (id ∷ ids) incoming h = elim (Option-cases (get_key id incoming)) [
  | inl e ↦ let z = rw (e, add_edges) at h in cc
  | inr (count, e) ↦
      length-add_edges ids (set_key id (suc count) incoming) (rw (e, add_edges) at h)
      ∙ length-set_key id (suc count) incoming e
]

length-count_edges :
    (nodes : Graph) (edge_count : ℕ) (incoming : Degrees) {counted : Degrees}
    → count_edges nodes edge_count incoming ≡ ok counted
    → length counted ≡ length incoming
unfolding count_edges
length-count_edges [] edge_count incoming {counted} h = let e : incoming ≡ counted = cc in rw e refl
length-count_edges ((id, ids) ∷ nodes) edge_count incoming h =
    fail_if-elim (ltb max_transition_edges (edge_count + length ids)) capacity h (λ q h.
      fail_if-elim (not (length (set_of ids) == length ids)) corrupt_state h (λ q h.
        >>=-elim (add_edges ids incoming) h (λ added q h.
          length-count_edges nodes (edge_count + length ids) added h
          ∙ length-add_edges ids incoming q)))

length-no_edges : (graph : Graph) → length (no_edges graph) ≡ length graph
length-no_edges [] = refl
length-no_edges (node ∷ graph) = ap suc (length-no_edges graph)

-- The traversal of a graph whose edges were counted, from the nodes without an incoming edge, gives with
-- any fuel from the graph's size on the same result as with that size: the loop has ended by its own
-- condition, whether the graph has a cycle or not.
pub traverse-enough :
    (graph : Graph) {incoming : Degrees} (fuel : ℕ)
    → count_edges graph 0 (no_edges graph) ≡ ok incoming
    → length graph ≤ fuel
    → traverse fuel graph incoming (ready_nodes incoming) 0
      ≡ traverse (length graph) graph incoming (ready_nodes incoming) 0
traverse-enough graph {incoming} fuel h enough =
    let a = ready_nodes-waiting incoming in
    let b = length-count_edges graph 0 (no_edges graph) h in
    let c = length-no_edges graph in
    traverse-fuel (length graph) fuel graph incoming (ready_nodes incoming) 0 (omega arith) enough
