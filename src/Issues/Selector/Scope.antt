-- ===== src/Issues/Selector/Scope.antt =====
-- The last checks of `decodeSnapshot` of selector.ts: the candidates are those of the scope.
use dotconfig.Base.{
  ◌≡◌, refl, sym, Bool, true, false, not, ◌||◌, List, [], ◌∷◌, map, Text, text_eq, any, length, All,
  ok, fail_if, >>=-eq-ok, ◌==◌, ==_iff, arith,
}
use dotconfig.Issues.{IssueReference, issue_key, set_of}
use dotconfig.Issues.Sets.{has, IsDistinct, set_of-length, distinct-covers}
use dotconfig.Issues.Selector.{ValidatedCandidate, duplicate_issue, scope_mismatch}
use dotconfig.Issues.Selector.Snapshot.{check_scope, candidate_key}

-- No issue comes twice, and each is in the scope and among the candidates or in neither.
pub record IsCovered (scope : List IssueReference) (candidates : List ValidatedCandidate)
    : Type 0 where
  pub scope_distinct : IsDistinct (map issue_key scope)
  pub candidates_distinct : IsDistinct (map candidate_key candidates)
  pub in_scope : All (λ k. has (map issue_key scope) k ≡ true) (map candidate_key candidates)
  pub covered : All (λ k. has (map candidate_key candidates) k ≡ true) (map issue_key scope)

All-has_of_any :
    (ks xs : List Text) → any (λ k. not (has xs k)) ks ≡ false → All (λ k. has xs k ≡ true) ks
All-has_of_any [] xs h = tt
All-has_of_any (k ∷ ks) xs h = (ground arith, All-has_of_any ks xs (ground arith))

length-map {ℓ κ} :
    {A : Type ℓ} {B : Type κ} (f : A → B) (xs : List A) → length (map f xs) ≡ length xs
length-map f [] = refl
length-map f (x ∷ xs) = omega (arith, length-map f xs)

unless_ok : {E : Type 0} (test : Bool) (e : E) (u : Unit {0}) → fail_if test e ≡ ok u → test ≡ false
unless_ok true e u h = cc
unless_ok false e u h = refl

not-false : (a : Bool) → not a ≡ false → a ≡ true
not-false true h = refl
not-false false h = cc

parts_of_or : (a b : Bool) → (not a || b) ≡ false → (a ≡ true) × (b ≡ false)
parts_of_or true b h = (refl, h)
parts_of_or false b h = cc

of_checks :
    (scope : List IssueReference) (candidates : List ValidatedCandidate)
    → length (set_of (map issue_key scope)) ≡ length (map issue_key scope)
    → length (set_of (map candidate_key candidates)) ≡ length (map candidate_key candidates)
    → length (set_of (map issue_key scope)) ≡ length (set_of (map candidate_key candidates))
    → any
        (λ k. not (any (text_eq k) (set_of (map issue_key scope))))
        (set_of (map candidate_key candidates))
      ≡ false
    → IsCovered scope candidates
of_checks scope candidates sizes sizes' same inside =
    let (ds, es) = set_of-length (map issue_key scope) sizes in
    let (dc, ec) = set_of-length (map candidate_key candidates) sizes' in
    let found =
      All-has_of_any (map candidate_key candidates) (map issue_key scope) (rw (es, ec) at inside) in
    record {
      scope_distinct = ds;
      candidates_distinct = dc;
      in_scope = found;
      covered =
          distinct-covers (map candidate_key candidates) (map issue_key scope) dc found
            (omega (arith, sizes, sizes', same));
    }

-- Candidates that pass the checks are distinct, and are exactly the issues of the scope.
pub check_scope-IsCovered :
    (scope : List IssueReference) (candidates checked : List ValidatedCandidate)
    → check_scope scope candidates ≡ ok checked
    → (checked ≡ candidates) × IsCovered scope candidates
unfolding check_scope
check_scope-IsCovered scope candidates checked h =
    let sk = map issue_key scope in
    let ck = map candidate_key candidates in
    let (u, h1, h2) =
      >>=-eq-ok
        (fail_if
          (not (length (set_of sk) == length scope)
            || not (length (set_of ck) == length candidates))
          duplicate_issue)
        _ h in
    let (w, h3, h4) =
      >>=-eq-ok
        (fail_if
          (not (length (set_of sk) == length (set_of ck))
            || any (λ k. not (any (text_eq k) (set_of sk))) (set_of ck))
          scope_mismatch)
        _ h2 in
    let (scopes, cands) = parts_of_or (length (set_of sk) == length scope) _ (unless_ok _ _ u h1) in
    let (sames, inside) =
      parts_of_or (length (set_of sk) == length (set_of ck)) _ (unless_ok _ _ w h3) in
    let e : candidates ≡ checked = cc in
    (
      sym e,
      of_checks scope candidates
          (omega (
            arith,
            (==_iff (length (set_of sk)) (length scope)).0 scopes,
            length-map issue_key scope,
          ))
          (omega (
            arith,
            (==_iff (length (set_of ck)) (length candidates)).0
                (not-false (length (set_of ck) == length candidates) cands),
            length-map candidate_key candidates,
          ))
          ((==_iff (length (set_of sk)) (length (set_of ck))).0 sames) inside,
    )
