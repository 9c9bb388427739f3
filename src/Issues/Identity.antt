-- ===== src/Issues/Identity.antt =====
-- identity.ts: what a decoded issue is, and that its key names it.
use dotconfig.Base.{
  ℕ, ◌≡◌, refl, inl, inr, true, not, Option, none, some, [], ◌∷◌, map, Text, codes, text_eq, lower,
  Value, str, num, int, pos, obj, field, end, lookup_field, only_keys, as_record, as_text,
  as_counter, as_counter-eq-some, subst, ◌≤◌, max_safe_integer, Result, ok, err, arith, Bool-cases,
  Option-cases, >>=-eq-ok, fail_if,
}
use dotconfig.Issues.{
  IssueReference, invalid_issue, invalid_repository, valid_repository, checked_repository,
  decode_issue_repository, decode_issue_reference, as_positive, map_error, some_or,
}

map-lower-map-lower : (s : Text) → map lower (map lower s) ≡ map lower s
map-lower-map-lower [] = refl
map-lower-map-lower (c ∷ s) = ground (arith, map-lower-map-lower s)

-- A repository as it is stored: valid, and in lower case.
pub record IsCanonical (r : Text) : Type 0 where
  pub valid : valid_repository r ≡ true
  pub lowered : map lower r ≡ r

checked-eq-ok : (s r : Text) → checked_repository s ≡ ok r → (s ≡ r) × (valid_repository s ≡ true)
checked-eq-ok s r h = elim (Bool-cases (valid_repository s)) [
  | inl e ↦ (ground arith, e)
  | inr e ↦ let q : err invalid_repository ≡ ok r = rw e at h in cc
]

pub decode_issue_repository-IsCanonical :
    (v : Value) (r : Text) → decode_issue_repository v ≡ ok r → IsCanonical r
unfolding decode_issue_repository
decode_issue_repository-IsCanonical v r h =
    let (s, h1, h2) = >>=-eq-ok (some_or invalid_repository (as_text v)) _ h in
    let (o, h3, h4) = >>=-eq-ok (checked_repository s) _ h2 in
    let (e, valid) = checked-eq-ok (map lower o) r h4 in
    record { valid = rw e at valid; lowered = rw (← e) (map-lower-map-lower o) }

decode_issue_repository-of_IsCanonical :
    (r : Text) → IsCanonical r → decode_issue_repository (str r) ≡ ok r
unfolding decode_issue_repository
decode_issue_repository-of_IsCanonical r c = rw (c.valid, c.lowered, c.valid) refl

abbrev pub encode_issue : IssueReference → Value
encode_issue i = obj (
    field (codes "repository") (str i.repository)
      (field (codes "number") (num (int (pos i.number))) end))

-- A number that the schema of issue numbers, or of ranks, lets through.
abbrev pub IsRank : ℕ → Type 0
IsRank n = (1 ≤ n) × (n ≤ max_safe_integer)

pub as_positive-eq-some : (v : Value) (n : ℕ) → as_positive v ≡ some n → IsRank n
as_positive-eq-some v n h = elim (Option-cases (as_counter v)) [
  | inl e ↦ let q : none ≡ some n = rw (e, as_positive) at h in cc
  | inr (m, e) ↦ let k = as_counter-eq-some v e in let q = rw (e, as_positive) at h in ground arith
]

pub as_positive-of_IsRank : (n : ℕ) → IsRank n → as_positive (num (int (pos n))) ≡ some n
as_positive-of_IsRank n h = ground arith

pub record IsIssue (i : IssueReference) : Type 0 where
  pub repository : IsCanonical (IssueReference.repository i)
  pub number : IsRank (IssueReference.number i)

map_error-eq-ok :
    {E F A : Type 0} (e : F) (r : Result E A) (a : A) → map_error e r ≡ ok a → r ≡ ok a
map_error-eq-ok e (ok b) a h = let q : b ≡ a = cc in rw q refl
map_error-eq-ok e (err x) a h = cc

some_or-eq-ok : {E A : Type 0} (e : E) (o : Option A) (a : A) → some_or e o ≡ ok a → o ≡ some a
some_or-eq-ok e none a h = cc
some_or-eq-ok e (some b) a h = let q : b ≡ a = cc in rw q refl

pub decode_issue_reference-IsIssue :
    (v : Value) (i : IssueReference) → decode_issue_reference v ≡ ok i → IsIssue i
unfolding decode_issue_reference
decode_issue_reference-IsIssue v i h =
    let (fields, h1, h2) = >>=-eq-ok (some_or invalid_issue (as_record v)) _ h in
    let (u, h3, h4) =
      >>=-eq-ok
        (fail_if (not (only_keys (codes "repository" ∷ codes "number" ∷ []) fields)) invalid_issue)
        _ h2 in
    let (r, h5, h6) =
      >>=-eq-ok
        (map_error invalid_issue
          (decode_issue_repository (lookup_field (codes "repository") fields)))
        _ h4 in
    let (n, h7, h8) =
      >>=-eq-ok (some_or invalid_issue (as_positive (lookup_field (codes "number") fields))) _ h6 in
    let e : record { repository = r; number = n } ≡ i = cc in
    let c =
      decode_issue_repository-IsCanonical (lookup_field (codes "repository") fields) r
        (map_error-eq-ok _ _ r h5) in
    let k = as_positive-eq-some (lookup_field (codes "number") fields) n (some_or-eq-ok _ _ n h7) in
    subst IsIssue e (record { repository = c; number = k })

decode_issue_reference-of_IsIssue :
    (i : IssueReference) → IsIssue i → decode_issue_reference (encode_issue i) ≡ ok i
unfolding decode_issue_reference lookup_field text_eq
decode_issue_reference-of_IsIssue i v =
    rw
      (
        decode_issue_repository-of_IsCanonical i.repository v.repository,
        as_positive-of_IsRank i.number v.number,
      )
      refl

-- An issue that was decoded, written as an object again, is decoded to itself.
pub decode-encode_issue :
    (v : Value) (i : IssueReference)
    → decode_issue_reference v ≡ ok i
    → decode_issue_reference (encode_issue i) ≡ ok i
decode-encode_issue v i h =
    decode_issue_reference-of_IsIssue i (decode_issue_reference-IsIssue v i h)
