-- ===== src/Issues/Key.antt =====
-- `issueKey` of identity.ts: a key belongs to one issue, so that a set of keys counts the issues.
use dotconfig.Base.{
  ℕ, ◌≡◌, refl, sym, ap, ◌∙◌, inl, inr, Bool, true, false, not, Option, none, some, [], ◌∷◌, ◌++◌,
  Text, decimal, number_from, number_from-decimal, every, ◌==◌, ==_iff, arith, Bool-cases,
  Option-cases, ◌&&◌,
}
use dotconfig.Issues.{
  IssueReference, split_slash, with_head, valid_owner, valid_name, valid_repository, issue_key,
  is_owner_unit, is_name_unit,
}
use dotconfig.Issues.Identity.{IsIssue}

-- No hash sign.
abbrev pub is_plain : ℕ → Bool
is_plain c = not (c == b'#')

every_mono :
    (p q : ℕ → Bool)
    → ((c : ℕ) → p c ≡ true → q c ≡ true)
    → (s : Text) → every p s ≡ true
    → every q s ≡ true
every_mono p q f [] h = refl
every_mono p q f (c ∷ s) h = ground (arith, f c (ground arith), every_mono p q f s (ground arith))

every-append-plain :
    (o n : Text)
    → every is_plain o ≡ true
    → every is_plain n ≡ true
    → every is_plain (o ++ b'/' ∷ n) ≡ true
every-append-plain [] n h k = k
every-append-plain (c ∷ o) n h k = ground (arith, every-append-plain o n (ground arith) k)

split_slash-eq-some : (s o n : Text) → split_slash s ≡ some (o, n) → s ≡ o ++ b'/' ∷ n
unfolding split_slash
split_slash-eq-some [] o n h = cc
split_slash-eq-some (c ∷ s) o n h = elim (Bool-cases (c == b'/')) [
  | inl e ↦
      let q : ◌≡◌ {A = Option (Text × Text)} (some ([], s)) (some (o, n)) =
        rw (e, split_slash) at h in
      let k : c ≡ b'/' = (==_iff c b'/').0 e in
      let head : [] ≡ o = cc in let tail : s ≡ n = cc in rw (← head, ← tail, k) refl
  | inr e ↦
      with_head-eq-some (split_slash s) (rw (e, split_slash) at h)
        (λ p m. split_slash-eq-some s p m)
]
  where
    with_head-eq-some :
        (r : Option (Text × Text))
        → with_head c r ≡ some (o, n)
        → ((p m : Text) → r ≡ some (p, m) → s ≡ p ++ b'/' ∷ m)
        → c ∷ s ≡ o ++ b'/' ∷ n
    with_head-eq-some none q f = cc
    with_head-eq-some (some (p, m)) q f =
        let head : c ∷ p ≡ o = cc in let tail : m ≡ n = cc in rw (← head, ← tail, f p m refl) refl

owner-plain : (o : Text) → valid_owner o ≡ true → every is_plain o ≡ true
unfolding valid_owner
owner-plain o h = every_mono is_owner_unit is_plain (λ c k. ground arith) o (ground arith)

name-plain : (n : Text) → valid_name n ≡ true → every is_plain n ≡ true
unfolding valid_name
name-plain n h = every_mono is_name_unit is_plain (λ c k. ground arith) n (ground arith)

append-separator-inj :
    (r r' d d' : Text)
    → every is_plain r ≡ true
    → every is_plain r' ≡ true
    → r ++ b'#' ∷ d ≡ r' ++ b'#' ∷ d'
    → (r ≡ r') × (d ≡ d')
append-separator-inj [] [] d d' h k e = (refl, cc)
append-separator-inj [] (c ∷ r') d d' h k e =
    let q : b'#' ≡ c = cc in let z : false ≡ true = ground arith in cc
append-separator-inj (c ∷ r) [] d d' h k e =
    let q : c ≡ b'#' = cc in let z : false ≡ true = ground arith in cc
append-separator-inj (c ∷ r) (c' ∷ r') d d' h k e =
    let q : c ≡ c' = cc in
    let z : r ++ b'#' ∷ d ≡ r' ++ b'#' ∷ d' = cc in
    let (f, g) = append-separator-inj r r' d d' (ground arith) (ground arith) z in
    (rw (q, f) refl, g)

valid_repository-plain : (r : Text) → valid_repository r ≡ true → every is_plain r ≡ true
unfolding valid_repository
valid_repository-plain r h = elim (Option-cases (split_slash r)) [
  | inl e ↦ let q : false ≡ true = rw (e, valid_repository) at h in cc
  | inr ((o, n), e) ↦
      let q : (valid_owner o && valid_name n) ≡ true = rw (e, valid_repository) at h in
      rw (split_slash-eq-some r o n e)
        (every-append-plain o n (owner-plain o (ground arith)) (name-plain n (ground arith)))
]

-- Two issues that were decoded have the same key only if they are the same issue.
pub issue_key-inj :
    (i j : IssueReference) → IsIssue i → IsIssue j → issue_key i ≡ issue_key j → i ≡ j
unfolding issue_key
issue_key-inj i j v w e =
    let (r, d) =
      append-separator-inj i.repository j.repository (decimal i.number) (decimal j.number)
        (valid_repository-plain i.repository v.repository.valid)
        (valid_repository-plain j.repository w.repository.valid) e in
    let n : i.number ≡ j.number =
      sym (number_from-decimal i.number) ∙ ap (number_from 0) d ∙ number_from-decimal j.number in
    issue_ext i j r n
  where
    issue_ext : (a b : IssueReference) → a.repository ≡ b.repository → a.number ≡ b.number → a ≡ b
    issue_ext a b p q = cc
