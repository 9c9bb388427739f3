-- ===== src/Tasks/Graph/Degrees.antt =====
-- What the degrees of validateGraph count at first: all the edges to a node.
use dotconfig.Base.{
  ℕ, suc, ◌+◌, not, true, none, some, List, [], ◌∷◌, Text, ltb, ◌==◌, length, get_key, set_key,
  get_key-set_key, get_key-set_key_other, get_key-head, get_key-tail, IsMap, set_key-IsMap, ◌≡◌,
  inl, inr, refl, sym, ap, ◌∙◌, subst, arith, Bool-cases, Option-cases, ok, >>=-elim, fail_if-elim,
}
use dotconfig.Issues.{set_of}
use dotconfig.Issues.Sets.{has}
use dotconfig.Tasks.{Graph, corrupt_state, capacity, max_transition_edges}
use dotconfig.Tasks.Graph.{Degrees, add_edges, count_edges, ready_nodes}
use dotconfig.Tasks.Graph.Edges.{
  text_cases, has-cases, occurrences, occurrences-same, occurrences-other, open_edges,
}

-- What a loop over edges adds to the degrees.
add_edges-degree :
    (ids : List Text) (incoming : Degrees) {counted : Degrees}
    → IsMap incoming
    → add_edges ids incoming ≡ ok counted
    → IsMap counted
      × ((x : Text) (n : ℕ)
          → get_key x counted ≡ some n
          → (m : ℕ) × (get_key x incoming ≡ some m) × (n ≡ m + occurrences x ids))
unfolding add_edges occurrences
add_edges-degree [] incoming {counted} m h =
    let e : incoming ≡ counted = cc in
    (subst IsMap e m, λ x n q. (n, ap (get_key x) e ∙ q, omega arith))
add_edges-degree (id ∷ ids) incoming m h = elim (Option-cases (get_key id incoming)) [
  | inl e ↦ let z = rw (e, add_edges) at h in cc
  | inr (count, e) ↦
      let h' = rw (e, add_edges) at h in
      let (m', later) =
        add_edges-degree ids (set_key id (suc count) incoming)
          (set_key-IsMap id (suc count) incoming m) h' in
      (
        m',
        λ x n q.
            let (n1, q1, s1) = later x n q in
            elim (text_cases id x) [
              | inl same ↦
                  let g : some (suc count) ≡ some n1 =
                    sym (get_key-set_key id (suc count) incoming)
                    ∙ ap (λ y. get_key y (set_key id (suc count) incoming)) same
                    ∙ q1 in
                  let c : suc count ≡ n1 = cc in
                  (
                    count,
                    ap (λ y. get_key y incoming) (sym same) ∙ e,
                    s1 ∙ rw (occurrences-same x id ids same) (omega arith),
                  )
              | inr n ↦ (
                n1,
                sym (get_key-set_key_other id x (suc count) incoming n) ∙ q1,
                s1 ∙ rw (occurrences-other x id ids n) refl,
              )
            ],
      )
]

pub count_edges-degree :
    (nodes : Graph) (edge_count : ℕ) (incoming : Degrees) {counted : Degrees}
    → IsMap incoming
    → count_edges nodes edge_count incoming ≡ ok counted
    → IsMap counted
      × ((x : Text) (n : ℕ)
          → get_key x counted ≡ some n
          → (m : ℕ) × (get_key x incoming ≡ some m) × (n ≡ m + open_edges [] x nodes))
unfolding count_edges open_edges
count_edges-degree [] edge_count incoming {counted} m h =
    let e : incoming ≡ counted = cc in
    (subst IsMap e m, λ x n q. (n, ap (get_key x) e ∙ q, omega arith))
count_edges-degree ((id, ids) ∷ nodes) edge_count incoming m h =
    fail_if-elim (ltb max_transition_edges (edge_count + length ids)) capacity h (λ q h.
      fail_if-elim (not (length (set_of ids) == length ids)) corrupt_state h (λ q h.
        >>=-elim (add_edges ids incoming) h (λ added q h.
          let (m1, first) = add_edges-degree ids incoming m q in
          let (m2, later) = count_edges-degree nodes (edge_count + length ids) added m1 h in
          (
            m2,
            λ x n q.
                let (n1, q1, s1) = later x n q in
                let (n0, q0, s0) = first x n1 q1 in (n0, q0, omega arith),
          ))))

-- The nodes that are ready at first have degree 0, and none comes twice.
pub ready_nodes-zero :
    (incoming : Degrees) (x : Text)
    → IsMap incoming
    → has (ready_nodes incoming) x ≡ true
    → get_key x incoming ≡ some 0
unfolding ready_nodes
ready_nodes-zero [] x m h = cc
ready_nodes-zero ((k, count) ∷ incoming) x m h = elim (Bool-cases (count == 0)) [
  | inl e ↦ elim (has-cases k (ready_nodes incoming) x (rw e at h)) [
    | inl same ↦ get_key-head k x count incoming (sym same) ∙ ap some (ground arith)
    | inr later ↦ behind (ready_nodes-zero incoming x m.1) later
  ]
  | inr e ↦ behind (ready_nodes-zero incoming x m.1) (rw e at h)
]
  where
    none_or : {a : ℕ} → none ≡ some a → get_key x ((k, count) ∷ incoming) ≡ some 0
    none_or z = cc

    behind :
        (has (ready_nodes incoming) x ≡ true → get_key x incoming ≡ some 0)
        → has (ready_nodes incoming) x ≡ true
        → get_key x ((k, count) ∷ incoming) ≡ some 0
    behind zero_degree later = elim (text_cases k x) [
      | inl same ↦
          let z = sym (subst (λ y. get_key y incoming ≡ none) same m.0) ∙ zero_degree later in
          none_or z
      | inr n ↦ get_key-tail k x count incoming n ∙ zero_degree later
    ]
