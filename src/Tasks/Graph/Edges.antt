-- ===== src/Tasks/Graph/Edges.antt =====
-- The edges to a node from the nodes that are not yet visited.
use dotconfig.Base.{
  ℕ, suc, ◌+◌, true, false, none, some, List, [], ◌∷◌, Text, text_eq, text_eq_iff, text_eq_of_ne,
  ne-of_text_eq, if◌then◌else◌, if_true, if_false, get_key, get_key-nil, get_key-head, get_key-tail,
  IsMap, ◌≡◌, ◌≢◌, ◌⊎◌, inl, inr, refl, sym, ap, ◌∙◌, subst, arith, Bool-cases,
}
use dotconfig.Issues.Sets.{has}
use dotconfig.Tasks.{Graph}

pub text_cases : (s t : Text) → (s ≡ t) ⊎ (s ≢ t)
text_cases s t = elim (Bool-cases (text_eq s t)) [
  | inl e ↦ inl ((text_eq_iff s t).0 e)
  | inr e ↦ inr (ne-of_text_eq s t e)
]

pub has-cases :
    (k : Text) (ks : List Text) (x : Text) → has (k ∷ ks) x ≡ true → (x ≡ k) ⊎ (has ks x ≡ true)
has-cases k ks x h = elim (Bool-cases (text_eq x k)) [
  | inl e ↦ inl ((text_eq_iff x k).0 e)
  | inr e ↦ inr (ground arith)
]

pub has-head : (k : Text) (ks : List Text) (x : Text) → x ≡ k → has (k ∷ ks) x ≡ true
has-head k ks x e = rw ((text_eq_iff x k).1 e) refl

pub has-tail : (k : Text) (ks : List Text) (x : Text) → has ks x ≡ true → has (k ∷ ks) x ≡ true
has-tail k ks x h = ground arith

pub has-other : (k : Text) (ks : List Text) (x : Text) → x ≢ k → has (k ∷ ks) x ≡ has ks x
has-other k ks x n = rw (text_eq_of_ne x k n) refl

unfoldable pub occurrences : Text → List Text → ℕ
unfolding text_eq
occurrences x [] = 0
occurrences x (y ∷ ys) = if text_eq y x then suc (occurrences x ys) else occurrences x ys

pub occurrences-same :
    (x y : Text) (ys : List Text) → y ≡ x → occurrences x (y ∷ ys) ≡ suc (occurrences x ys)
unfolding occurrences
occurrences-same x y ys e = if_true _ _ ((text_eq_iff y x).1 e)

pub occurrences-other :
    (x y : Text) (ys : List Text) → y ≢ x → occurrences x (y ∷ ys) ≡ occurrences x ys
unfolding occurrences
occurrences-other x y ys n = if_false _ _ (text_eq_of_ne y x n)

occurrences-has : (x : Text) (ys : List Text) → has ys x ≡ true → occurrences x ys ≢ 0
occurrences-has x [] h = cc
occurrences-has x (y ∷ ys) h = elim (text_cases y x) [
  | inl e ↦ λ z. let s = sym (occurrences-same x y ys e) ∙ z in let w : ⊥ = omega arith in absurd w
  | inr n ↦ λ z.
      occurrences-has x ys (sym (has-other y ys x (λ e. n (sym e))) ∙ h)
        (sym (occurrences-other x y ys n) ∙ z)
]

-- The edges to `x` from the nodes that are not in `visited`.
unfoldable pub open_edges : List Text → Text → Graph → ℕ
unfolding occurrences
open_edges visited x [] = 0
open_edges visited x ((id, ids) ∷ nodes) =
    (if has visited id then 0 else occurrences x ids) + open_edges visited x nodes

open_edges-absent :
    (visited : List Text) (id x : Text) (graph : Graph)
    → get_key id graph ≡ none
    → open_edges (id ∷ visited) x graph ≡ open_edges visited x graph
unfolding open_edges
open_edges-absent visited id x [] h = refl
open_edges-absent visited id x ((k, ids) ∷ graph) h = elim (text_cases k id) [
  | inl e ↦ let z = sym (get_key-head k id ids graph e) ∙ h in cc
  | inr n ↦
      rw
        (
          has-other id visited k n,
          open_edges-absent visited id x graph (sym (get_key-tail k id ids graph n) ∙ h),
        )
        refl
]

-- To visit a node closes its edges, and no others.
pub open_edges-visit :
    (visited : List Text) (id x : Text) (ids : List Text) (graph : Graph)
    → IsMap graph
    → has visited id ≡ false
    → get_key id graph ≡ some ids
    → open_edges visited x graph ≡ open_edges (id ∷ visited) x graph + occurrences x ids
unfolding open_edges
open_edges-visit visited id x ids [] m h e =
    let z : none ≡ some ids = sym (get_key-nil id) ∙ e in cc
open_edges-visit visited id x ids ((k, own) ∷ graph) m h e = elim (text_cases k id) [
  | inl same ↦
      let q : own ≡ ids = cc_some (sym (get_key-head k id own graph same) ∙ e) in
      let fresh : has visited k ≡ false = subst (λ y. has visited y ≡ false) (sym same) h in
      let gone = subst (λ y. get_key y graph ≡ none) same m.0 in
      let r = open_edges-absent visited id x graph gone in
      rw (fresh, (text_eq_iff k id).1 same, r, q) (omega arith)
  | inr n ↦
      let r =
        open_edges-visit visited id x ids graph m.1 h (sym (get_key-tail k id own graph n) ∙ e) in
      rw (has-other id visited k n) (omega arith)
]
  where
    cc_some : {a b : List Text} → some a ≡ some b → a ≡ b
    cc_some h = cc

-- A node without an open edge is only named by nodes that are visited.
pub open_edges-zero :
    (visited : List Text) (u x : Text) (ids : List Text) (graph : Graph)
    → open_edges visited x graph ≡ 0
    → get_key u graph ≡ some ids
    → has ids x ≡ true
    → has visited u ≡ true
unfolding open_edges
open_edges-zero visited u x ids [] z e h = let q : none ≡ some ids = sym (get_key-nil u) ∙ e in cc
open_edges-zero visited u x ids ((k, own) ∷ graph) z e h = elim (text_cases k u) [
  | inl same ↦ elim (Bool-cases (has visited k)) [
    | inl seen ↦ subst (λ y. has visited y ≡ true) same seen
    | inr unseen ↦
        let q : some own ≡ some ids = sym (get_key-head k u own graph same) ∙ e in
        let z' : occurrences x own + open_edges visited x graph ≡ 0 = rw unseen at z in
        absurd (
          occurrences-has x own (ap (λ o. elim o [ none ↦ false | some l ↦ has l x ]) q ∙ h)
            (omega arith))
  ]
  | inr n ↦
      open_edges-zero visited u x ids graph (omega arith) (sym (get_key-tail k u own graph n) ∙ e) h
]
