-- ===== src/Tasks/Graph/Valid.antt =====
-- What validateGraph establishes of the graph that it accepts.
use dotconfig.Base.{
  ℕ, suc, not, true, false, none, some, List, [], ◌∷◌, Text, ltb, ◌==◌, length, get_key,
  get_key-nil, get_key-head, get_key-tail, IsMap, ◌≡◌, inl, inr, refl, sym, ap, ◌∙◌, subst, arith,
  Bool-cases, All, ok, fail_if, >>=-elim, fail_if-elim, fail_if-eq-ok,
}
use dotconfig.Issues.Sets.{has, IsDistinct, distinct-covers}
use dotconfig.Tasks.{Graph, cycle, capacity, max_transition_nodes}
use dotconfig.Tasks.Graph.{no_edges, Degrees, count_edges, ready_nodes, traverse, validate_graph}
use dotconfig.Tasks.Graph.Edges.{text_cases, has-cases, occurrences}
use dotconfig.Tasks.Graph.Degrees.{count_edges-degree, ready_nodes-zero}
use dotconfig.Tasks.Graph.Removal.{Pending}
use dotconfig.Tasks.Graph.Acyclic.{DependsOn, names, named-has, traverse-Visited}

no_edges-none :
    (key : Text) (graph : Graph) → get_key key graph ≡ none → get_key key (no_edges graph) ≡ none
no_edges-none key [] h = get_key-nil key
no_edges-none key ((k, ids) ∷ graph) h = elim (text_cases k key) [
  | inl e ↦ none_some (sym h ∙ get_key-head k key ids graph e)
  | inr n ↦
      get_key-tail k key 0 (no_edges graph) n
      ∙ no_edges-none key graph (sym (get_key-tail k key ids graph n) ∙ h)
]
  where
    none_some : none ≡ some ids → get_key key (no_edges ((k, ids) ∷ graph)) ≡ none
    none_some z = cc

no_edges-IsMap : (graph : Graph) → IsMap graph → IsMap (no_edges graph)
no_edges-IsMap [] m = tt
no_edges-IsMap ((k, ids) ∷ graph) m = (no_edges-none k graph m.0, no_edges-IsMap graph m.1)

no_edges-zero : (x : Text) (n : ℕ) (graph : Graph) → get_key x (no_edges graph) ≡ some n → n ≡ 0
no_edges-zero x n [] h = none_some (sym (get_key-nil x) ∙ h)
  where
    none_some : none ≡ some n → n ≡ 0
    none_some z = cc
no_edges-zero x n ((k, ids) ∷ graph) h = elim (text_cases k x) [
  | inl e ↦ some_inj (sym (get_key-head k x 0 (no_edges graph) e) ∙ h)
  | inr other ↦ no_edges-zero x n graph (sym (get_key-tail k x 0 (no_edges graph) other) ∙ h)
]
  where
    some_inj : some 0 ≡ some n → n ≡ 0
    some_inj z = cc

ready_nodes-IsDistinct : (incoming : Degrees) → IsMap incoming → IsDistinct (ready_nodes incoming)
unfolding ready_nodes
ready_nodes-IsDistinct [] m = tt
ready_nodes-IsDistinct ((k, count) ∷ incoming) m = elim (Bool-cases (count == 0)) [
  | inl e ↦ rw e (
    elim (Bool-cases (has (ready_nodes incoming) k)) [
      | inl twice ↦ none_some (sym m.0 ∙ ready_nodes-zero incoming k m.1 twice)
      | inr once ↦ once
    ],
    ready_nodes-IsDistinct incoming m.1,
  )
  | inr e ↦ rw e (ready_nodes-IsDistinct incoming m.1)
]
  where
    none_some : {n : ℕ} → none ≡ some n → has (ready_nodes incoming) k ≡ false
    none_some z = cc

-- Nothing is visited at first.
start-Pending :
    (graph : Graph) (incoming : Degrees)
    → IsMap graph
    → count_edges graph 0 (no_edges graph) ≡ ok incoming
    → Pending graph [] (ready_nodes incoming) [] incoming
unfolding occurrences
start-Pending graph incoming m h =
    let (unique, degree) = count_edges-degree graph 0 (no_edges graph) (no_edges-IsMap graph m) h in
    record {
      degrees = λ x n q.
          let (n0, q0, s0) = degree x n q in let z = no_edges-zero x n0 graph q0 in omega arith;
      visited_zero = λ x h. cc;
      ready_zero = λ x h. ready_nodes-zero incoming x unique h;
      apart = λ x h. refl;
      distinct = ready_nodes-IsDistinct incoming unique;
    }

DependsOn-named : (graph : Graph) {a b : Text} → DependsOn graph a b → has (names graph) a ≡ true
DependsOn-named graph {a = a} (DependsOn.directly ids e h) = named-has a ids graph e
DependsOn-named graph {a = a} (DependsOn.through ids e h path) = named-has a ids graph e

All-has : (P : Text → Type 0) (xs : List Text) (x : Text) → All P xs → has xs x ≡ true → P x
All-has P [] x p h = cc
All-has P (k ∷ xs) x p h = elim (has-cases k xs x h) [
  | inl e ↦ subst P (sym e) p.0
  | inr later ↦ All-has P xs x p.1 later
]

length-names : (graph : Graph) → length (names graph) ≡ length graph
length-names [] = refl
length-names (node ∷ graph) = ap suc (length-names graph)

-- In a graph that validateGraph accepts, whose nodes have different names, no node depends on itself,
-- neither directly nor through other nodes.
pub validate_graph-acyclic :
    (graph : Graph)
    → IsMap graph
    → validate_graph graph ≡ ok tt
    → (a : Text) → ¬ (DependsOn graph a a)
unfolding validate_graph
validate_graph-acyclic graph m h a =
    fail_if-elim (ltb max_transition_nodes (length graph)) capacity h (λ small h.
      >>=-elim (count_edges graph 0 (no_edges graph)) h (λ incoming counted h.
        >>=-elim (traverse (length graph) graph incoming (ready_nodes incoming) 0) h (λ count q h.
          let (all, v, size) =
            traverse-Visited (length graph) graph [] (ready_nodes incoming) incoming m q
              (start-Pending graph incoming m counted)
              (record {
                closed = λ u x ids e h z. cc;
                no_cycle = λ b z. cc;
                distinct = tt;
                known = tt;
              }) in
          let whole : count ≡ length graph = not_guard count h in
          λ path.
            v.no_cycle a
              (All-has (λ id. has all id ≡ true) (names graph) a
                (distinct-covers all (names graph) v.distinct v.known
                  (size ∙ whole ∙ sym (length-names graph)))
                (DependsOn-named graph path))
              path)))
  where
    not_guard :
        (count : ℕ) → fail_if (not (count == length graph)) cycle ≡ ok tt → count ≡ length graph
    not_guard count h = let e = fail_if-eq-ok (not (count == length graph)) cycle h in ground arith
