-- ===== src/Issues/Selector/Order.antt =====
-- `compareCandidates` of selector.ts orders the eligible issues: by score, priority, repository, number.
use dotconfig.Base.{
  ℕ, ◌*◌, ◌≡◌, inl, inr, Bool, true, false, not, ◌&&◌, ◌||◌, Text, text_eq, text_eq_iff,
  text_eq_refl, ltb, ◌==◌, if◌then◌else◌, ℤ, pos, negsuc, arith, Bool-cases, text_ltb,
  text_ltb_trans, text_ltb_irrefl,
}
use dotconfig.Issues.Selector.{EligibleAssessment, compare_candidates, is_negative}

abbrev pub score : EligibleAssessment → ℕ
score a = a.priority * a.effort

-- The lexicographic order on score, priority, repository and number, the smaller one first.
abbrev pub ranks_before : (s p : ℕ) (r : Text) (n : ℕ) (s' p' : ℕ) (r' : Text) (n' : ℕ) → Bool
ranks_before s p r n s' p' r' n' =
    ltb s s'
    || (s == s' && (ltb p p' || (p == p' && (text_ltb r r' || (text_eq r r' && ltb n n')))))

abbrev pub is_before : EligibleAssessment → EligibleAssessment → Bool
is_before a b =
    ranks_before (score a) a.priority a.issue.repository a.issue.number (score b) b.priority
      b.issue.repository b.issue.number

ranks_before_trans :
    (s p : ℕ) (r : Text) (n s' p' : ℕ) (r' : Text) (n' s'' p'' : ℕ) (r'' : Text) (n'' : ℕ)
    → ranks_before s p r n s' p' r' n' ≡ true
    → ranks_before s' p' r' n' s'' p'' r'' n'' ≡ true
    → ranks_before s p r n s'' p'' r'' n'' ≡ true
ranks_before_trans s p r n s' p' r' n' s'' p'' r'' n'' h k =
    ground (arith, text_ltb_trans r r' r'', text_eq_iff r r', text_eq_iff r' r'', text_eq_refl r)

abbrev compare_ranks : (s p : ℕ) (r : Text) (n : ℕ) (s' p' : ℕ) (r' : Text) (n' : ℕ) → ℤ
compare_ranks s p r n s' p' r' n' =
    if not (s == s')
    then (if ltb s s' then negsuc 0 else pos 1)
    else if not (p == p')
    then (if ltb p p' then negsuc 0 else pos 1)
    else if not (text_eq r r')
    then (if text_ltb r r' then negsuc 0 else pos 1)
    else if n == n'
    then pos 0
    else if ltb n n'
    then negsuc 0
    else pos 1

compare_ranks_negative :
    (s p : ℕ) (r : Text) (n : ℕ) (s' p' : ℕ) (r' : Text) (n' : ℕ)
    → is_negative (compare_ranks s p r n s' p' r' n') ≡ ranks_before s p r n s' p' r' n'
compare_ranks_negative s p r n s' p' r' n' = elim (Bool-cases (text_eq r r')) [
  | inl e ↦
      let q : r ≡ r' = (text_eq_iff r r').0 e in
      let irrefl : text_ltb r r' ≡ false = rw (← q) (text_ltb_irrefl r) in
      rw (e, irrefl) (ground arith)
  | inr e ↦ rw e (ground arith)
]

pub compare_negative :
    (a b : EligibleAssessment) → is_negative (compare_candidates a b) ≡ is_before a b
unfolding compare_candidates
compare_negative a b =
    compare_ranks_negative (score a) a.priority a.issue.repository a.issue.number (score b)
      b.priority b.issue.repository b.issue.number

abbrev pub IsLess : EligibleAssessment → EligibleAssessment → Type 0
IsLess a b = is_negative (compare_candidates a b) ≡ true

pub compare_candidates_trans : (a b c : EligibleAssessment) → IsLess a b → IsLess b c → IsLess a c
compare_candidates_trans a b c h k = rw (compare_negative a c) (
    ranks_before_trans (score a) a.priority a.issue.repository a.issue.number (score b) b.priority
      b.issue.repository b.issue.number (score c) c.priority c.issue.repository c.issue.number
      (rw (compare_negative a b) at h) (rw (compare_negative b c) at k))

pub compare_candidates_irrefl :
    (a : EligibleAssessment) → is_negative (compare_candidates a a) ≡ false
compare_candidates_irrefl a =
    rw (compare_negative a a) (ground (arith, text_ltb_irrefl a.issue.repository))
