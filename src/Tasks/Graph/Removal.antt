-- ===== src/Tasks/Graph/Removal.antt =====
-- The state of the traversal of validateGraph while the edges of a visited node are removed.
use dotconfig.Base.{
  ℕ, zero, suc, ◌+◌, true, false, Option, some, List, [], ◌∷◌, ◌++◌, Text, ◌==◌, if◌then◌else◌,
  if_true, if_false, get_key, set_key, get_key-set_key, get_key-set_key_other, ◌≡◌, ◌⊎◌, inl, inr,
  refl, sym, ap, ◌∙◌, subst, arith, Bool-cases, Option-cases, ok,
}
use dotconfig.Issues.Sets.{has, IsDistinct}
use dotconfig.Tasks.{Graph}
use dotconfig.Tasks.Graph.{Degrees, remove_edges}
use dotconfig.Tasks.Graph.Edges.{
  text_cases, has-cases, has-head, has-tail, has-other, occurrences, occurrences-same,
  occurrences-other, open_edges,
}

-- The state of the traversal while the edges to `rest` are still to be removed.
pub record Pending (graph : Graph) (visited ready rest : List Text) (incoming : Degrees)
    : Type 0 where
  pub degrees :
      (x : Text) (n : ℕ)
      → get_key x incoming ≡ some n
      → n ≡ open_edges visited x graph + occurrences x rest
  pub visited_zero : (x : Text) → has visited x ≡ true → get_key x incoming ≡ some 0
  pub ready_zero : (x : Text) → has ready x ≡ true → get_key x incoming ≡ some 0
  pub apart : (x : Text) → has ready x ≡ true → has visited x ≡ false
  pub distinct : IsDistinct ready

has-snoc : (xs : List Text) (y x : Text) → has (xs ++ y ∷ []) x ≡ true → (has xs x ≡ true) ⊎ (x ≡ y)
has-snoc [] y x h = elim (has-cases y [] x h) [ inl e ↦ inr e | inr z ↦ inl z ]
has-snoc (k ∷ xs) y x h = elim (has-cases k (xs ++ y ∷ []) x h) [
  | inl e ↦ inl (has-head k xs x e)
  | inr later ↦ elim (has-snoc xs y x later) [
    | inl before ↦ inl (has-tail k xs x before)
    | inr e ↦ inr e
  ]
]

snoc-IsDistinct :
    (xs : List Text) (y : Text) → IsDistinct xs → has xs y ≡ false → IsDistinct (xs ++ y ∷ [])
snoc-IsDistinct [] y d h = (refl, tt)
snoc-IsDistinct (k ∷ xs) y d h = elim (text_cases y k) [
  | inl e ↦ let z = sym (has-head k xs y e) ∙ h in cc
  | inr n ↦ (
    elim (Bool-cases (has (xs ++ y ∷ []) k)) [
      | inl twice ↦ elim (has-snoc xs y k twice) [
        | inl before ↦ let z = sym before ∙ d.0 in cc
        | inr e ↦ absurd (n (sym e))
      ]
      | inr once ↦ once
    ],
    snoc-IsDistinct xs y d.1 (sym (has-other k xs y n) ∙ h),
  )
]

not_zero {ℓ} : {C : Type ℓ} (found : Option ℕ) (n : ℕ) → found ≡ some (suc n) → found ≡ some 0 → C
not_zero found n e z = let q = sym e ∙ z in absurd (apart_of q)
  where
    apart_of : some (suc n) ≡ some 0 → ⊥
    apart_of q = let r : suc n ≡ 0 = cc in omega arith

-- One edge is removed, and its node is pushed at the last one.
remove_edge-Pending :
    (graph : Graph) (visited ready ids : List Text) (id : Text) (n : ℕ) (incoming : Degrees)
    → get_key id incoming ≡ some (suc n)
    → Pending graph visited ready (id ∷ ids) incoming
    → Pending graph visited (if n == 0 then ready ++ id ∷ [] else ready) ids (set_key id n incoming)
remove_edge-Pending graph visited ready ids id n incoming e p = elim (Bool-cases (n == 0)) [
  | inl last ↦
      let now : get_key id (set_key id n incoming) ≡ some 0 =
        get_key-set_key id n incoming ∙ ap some (ground arith) in
      subst (λ r. Pending graph visited r ids (set_key id n incoming)) (sym (if_true _ _ last))
        (record {
          degrees = degrees;
          visited_zero = λ x h. kept x (p.visited_zero x h);
          ready_zero = λ x h. elim (has-snoc ready id x h) [
            | inl before ↦ kept x (p.ready_zero x before)
            | inr same ↦ ap (λ y. get_key y (set_key id n incoming)) same ∙ now
          ];
          apart = λ x h. elim (has-snoc ready id x h) [
            | inl before ↦ p.apart x before
            | inr same ↦
                subst (λ y. has visited y ≡ false) (sym same) (fresh visited p.visited_zero)
          ];
          distinct = snoc-IsDistinct ready id p.distinct (fresh ready p.ready_zero);
        })
  | inr more ↦
      subst (λ r. Pending graph visited r ids (set_key id n incoming)) (sym (if_false _ _ more))
        (record {
          degrees = degrees;
          visited_zero = λ x h. kept x (p.visited_zero x h);
          ready_zero = λ x h. kept x (p.ready_zero x h);
          apart = p.apart;
          distinct = p.distinct;
        })
]
  where
    kept : (x : Text) → get_key x incoming ≡ some 0 → get_key x (set_key id n incoming) ≡ some 0
    kept x z = elim (text_cases id x) [
      | inl same ↦ not_zero (get_key id incoming) n e (ap (λ y. get_key y incoming) same ∙ z)
      | inr other ↦ get_key-set_key_other id x n incoming other ∙ z
    ]

    fresh :
        (xs : List Text)
        → ((x : Text) → has xs x ≡ true → get_key x incoming ≡ some 0)
        → has xs id ≡ false
    fresh xs zero_in = elim (Bool-cases (has xs id)) [
      | inl h ↦ not_zero (get_key id incoming) n e (zero_in id h)
      | inr h ↦ h
    ]

    degrees :
        (x : Text) (m : ℕ)
        → get_key x (set_key id n incoming) ≡ some m
        → m ≡ open_edges visited x graph + occurrences x ids
    degrees x m h = elim (text_cases id x) [
      | inl same ↦
          let q : some n ≡ some m =
            sym (get_key-set_key id n incoming)
            ∙ ap (λ y. get_key y (set_key id n incoming)) same
            ∙ h in
          let r : n ≡ m = cc in
          let d = p.degrees x (suc n) (ap (λ y. get_key y incoming) (sym same) ∙ e) in
          let o = occurrences-same x id ids same in omega arith
      | inr other ↦
          p.degrees x m (sym (get_key-set_key_other id x n incoming other) ∙ h)
          ∙ ap (λ o. open_edges visited x graph + o) (occurrences-other x id ids other)
    ]

pub remove_edges-Pending :
    (graph : Graph) (visited ready ids : List Text) (incoming : Degrees)
    {next : Degrees × List Text}
    → remove_edges ids incoming ready ≡ ok next
    → Pending graph visited ready ids incoming
    → Pending graph visited next.1 [] next.0
unfolding remove_edges
remove_edges-Pending graph visited ready [] incoming {next} h p =
    let a : incoming ≡ next.0 = cc in
    let b : ready ≡ next.1 = cc in
    subst (λ r. Pending graph visited r [] next.0) b
      (subst (λ d. Pending graph visited ready [] d) a p)
remove_edges-Pending graph visited ready (id ∷ ids) incoming h p =
    elim (Option-cases (get_key id incoming)) [
      | inl e ↦ let z = rw (e, remove_edges) at h in cc
      | inr (zero, e) ↦ let z = rw (e, remove_edges) at h in cc
      | inr (suc n, e) ↦
          remove_edges-Pending graph visited (if n == 0 then ready ++ id ∷ [] else ready) ids
            (set_key id n incoming) (rw (e, remove_edges) at h)
            (remove_edge-Pending graph visited ready ids id n incoming e p)
    ]
