-- ===== src/Tasks/Graph/Acyclic.antt =====
-- validateGraph accepts no cycle: a node is visited when every node that depends on it has been visited.
use dotconfig.Base.{
  ℕ, zero, suc, true, false, none, some, List, [], ◌∷◌, map, Text, length, get_key, get_key-nil,
  get_key-tail, IsMap, ◌≡◌, inl, inr, refl, sym, ◌∙◌, subst, arith, Option-cases, All, ok, >>=-elim,
}
use dotconfig.Issues.Sets.{has, IsDistinct}
use dotconfig.Tasks.{Graph}
use dotconfig.Tasks.Graph.{Degrees, remove_edges, traverse}
use dotconfig.Tasks.Graph.Edges.{
  text_cases, has-cases, has-head, has-tail, has-other, occurrences, open_edges-visit,
  open_edges-zero,
}
use dotconfig.Tasks.Graph.Removal.{Pending, remove_edges-Pending}

-- A node depends on another one, directly or through others.
pub data DependsOn (graph : Graph) : Text → Text → Type 0 where
  directly :
      {a b : Text} (ids : List Text)
      → get_key a graph ≡ some ids
      → has ids b ≡ true
      → DependsOn graph a b
  through :
      {a b c : Text} (ids : List Text)
      → get_key a graph ≡ some ids
      → has ids b ≡ true
      → DependsOn graph b c
      → DependsOn graph a c

-- The names of the nodes.
abbrev pub names : Graph → List Text
names graph = map (λ node. node.0) graph

-- What holds of the nodes that are visited.
pub record Visited (graph : Graph) (visited : List Text) : Type 0 where
  pub closed :
      (u x : Text) (ids : List Text)
      → get_key u graph ≡ some ids
      → has ids x ≡ true
      → has visited x ≡ true
      → has visited u ≡ true
  pub no_cycle : (a : Text) → has visited a ≡ true → ¬ (DependsOn graph a a)
  pub distinct : IsDistinct visited
  pub known : All (λ id. has (names graph) id ≡ true) visited

-- What depends on `id` is visited, when what names `id` is, and what names a visited node.
reaches :
    (graph : Graph) (visited : List Text) (u id : Text)
    → ((v x : Text) (ids : List Text)
        → get_key v graph ≡ some ids
        → has ids x ≡ true
        → has visited x ≡ true
        → has visited v ≡ true)
    → ((v : Text) (ids : List Text)
        → get_key v graph ≡ some ids
        → has ids id ≡ true
        → has visited v ≡ true)
    → DependsOn graph u id
    → has visited u ≡ true
reaches graph visited u id closed named (DependsOn.directly ids e h) = named u ids e h
reaches graph visited u id closed named (DependsOn.through {b = b} ids e h path) =
    closed u b ids e h (reaches graph visited b id closed named path)

pub named-has :
    (id : Text) (ids : List Text) (graph : Graph)
    → get_key id graph ≡ some ids
    → has (names graph) id ≡ true
named-has id ids [] e = let z = sym (get_key-nil id) ∙ e in none_some z
  where
    none_some : none ≡ some ids → has (names []) id ≡ true
    none_some z = cc
named-has id ids ((k, own) ∷ graph) e = elim (text_cases id k) [
  | inl same ↦ has-head k (names graph) id same
  | inr n ↦
      has-tail k (names graph) id
        (named-has id ids graph (sym (get_key-tail k id own graph (λ q. n (sym q))) ∙ e))
]

-- A ready node becomes a visited one.
visit :
    (graph : Graph) (visited ready : List Text) (id : Text) (ids : List Text) (incoming : Degrees)
    → get_key id graph ≡ some ids
    → Pending graph visited (id ∷ ready) [] incoming
    → Visited graph visited
    → Visited graph (id ∷ visited)
visit graph visited ready id ids incoming e p v = record {
  closed = λ u x own q h seen. elim (has-cases id visited x seen) [
    | inl same ↦ has-tail id visited u (named u own q (subst (λ y. has own y ≡ true) same h))
    | inr before ↦ has-tail id visited u (v.closed u x own q h before)
  ];
  no_cycle = λ a seen. elim (has-cases id visited a seen) [
    | inl same ↦ λ path.
        let back =
          reaches graph visited id id v.closed named (subst (λ y. DependsOn graph y y) same path) in
        let new = p.apart id (has-head id ready id refl) in
        let z : false ≡ true = sym new ∙ back in cc
    | inr before ↦ v.no_cycle a before
  ];
  distinct = (p.apart id (has-head id ready id refl), v.distinct);
  known = (named-has id ids graph e, v.known);
}
  where
    named :
        (u : Text) (own : List Text)
        → get_key u graph ≡ some own
        → has own id ≡ true
        → has visited u ≡ true
    named u own q h =
        let d = p.degrees id 0 (p.ready_zero id (has-head id ready id refl)) in
        open_edges-zero visited u id own graph (omega arith) q h

after_visit :
    (graph : Graph) (visited ready : List Text) (id : Text) (ids : List Text) (incoming : Degrees)
    → IsMap graph
    → get_key id graph ≡ some ids
    → Pending graph visited (id ∷ ready) [] incoming
    → Pending graph (id ∷ visited) ready ids incoming
unfolding occurrences
after_visit graph visited ready id ids incoming m e p = record {
  degrees = λ x n q.
      let new = p.apart id (has-head id ready id refl) in
      let d = p.degrees x n q in
      let o = open_edges-visit visited id x ids graph m new e in omega arith;
  visited_zero = λ x h. elim (has-cases id visited x h) [
    | inl same ↦ p.ready_zero x (has-head id ready x same)
    | inr before ↦ p.visited_zero x before
  ];
  ready_zero = λ x h. p.ready_zero x (has-tail id ready x h);
  apart = λ x h. elim (text_cases x id) [
    | inl same ↦
        let z : false ≡ true = sym p.distinct.0 ∙ subst (λ y. has ready y ≡ true) same h in cc
    | inr n ↦ has-other id visited x n ∙ p.apart x (has-tail id ready x h)
  ];
  distinct = p.distinct.1;
}

-- The traversal ends with a list of visited nodes, as long as the number that it returns.
pub traverse-Visited :
    (fuel : ℕ) (graph : Graph) (visited ready : List Text) (incoming : Degrees) {count : ℕ}
    → IsMap graph
    → traverse fuel graph incoming ready (length visited) ≡ ok count
    → Pending graph visited ready [] incoming
    → Visited graph visited
    → (all : List Text) × Visited graph all × (length all ≡ count)
unfolding traverse
traverse-Visited fuel graph visited [] incoming m h p v = (visited, v, cc)
traverse-Visited zero graph visited (id ∷ ready) incoming m h p v = (visited, v, cc)
traverse-Visited (suc fuel) graph visited (id ∷ ready) incoming m h p v =
    elim (Option-cases (get_key id graph)) [
      | inl e ↦ let z = rw (e, traverse) at h in cc
      | inr (ids, e) ↦
          >>=-elim (remove_edges ids incoming ready) (rw (e, traverse) at h) (λ next q h.
            traverse-Visited fuel graph (id ∷ visited) next.1 next.0 m h
              (remove_edges-Pending graph (id ∷ visited) ready ids incoming q
                (after_visit graph visited ready id ids incoming m e p))
              (visit graph visited ready id ids incoming e p v))
    ]
