-- ===== src/Questions/Answers.antt =====
-- What the actions do to the pending questions.
use dotconfig.Base.{
  ◌≡◌, refl, Bool, not, List, [], ◌∷◌, ◌++◌, map, arith, Text, ℤ, eq_ℤ, eq_ℤ_iff, keep, Bool-cases,
  All, inl, inr, ap,
}
use dotconfig.Questions.{
  Question, QuestionState, QuestionAction, pending, list, ask, resolve, withdraw, replace, reopen,
  clear_resolved, is_pending, asked, resolve_one, withdraw_one, reopen_one, as_pending, truthy,
  apply_question_action, pending_questions,
}

-- The questions other than those with the id.
abbrev pub without : ℤ → List Question → List Question
without i = keep (λ (q : Question). not (eq_ℤ q.id i))

module _ (i : ℤ) (t : Text) where
  pending-resolve :
      (qs : List Question)
      → keep is_pending (map (resolve_one i t) qs) ≡ without i (keep is_pending qs)
  unfolding resolve_one
  pending-resolve [] = refl
  pending-resolve (q ∷ qs) = ground (arith, pending-resolve qs)

  pending-withdraw :
      (qs : List Question)
      → keep is_pending (map (withdraw_one i t) qs) ≡ without i (keep is_pending qs)
  unfolding withdraw_one
  pending-withdraw [] = refl
  pending-withdraw (q ∷ qs) = ground (arith, pending-withdraw qs)

keep-append :
    (p : Question → Bool) (xs ys : List Question) → keep p (xs ++ ys) ≡ keep p xs ++ keep p ys
keep-append p [] ys = refl
keep-append p (x ∷ xs) ys = ground (arith, keep-append p xs ys)

keep-keep : (p : Question → Bool) (xs : List Question) → keep p (keep p xs) ≡ keep p xs
keep-keep p [] = refl
keep-keep p (x ∷ xs) = elim (Bool-cases (p x)) [
  | inl h ↦ rw (h, h) (ap (λ r. x ∷ r) (keep-keep p xs))
  | inr h ↦ rw h (keep-keep p xs)
]

-- The pending questions after an action that does not reopen one, from those before it.
abbrev pub pending_after : QuestionState → QuestionAction → List Question → List Question
pending_after s list qs = qs
pending_after s (ask d) qs = qs ++ asked s.next_id d ∷ []
pending_after s (resolve i t) qs = without i qs
pending_after s (withdraw i t) qs = without i qs
pending_after s (replace i t d) qs = without i qs ++ asked s.next_id d ∷ []
pending_after s (reopen i) qs = qs
pending_after s clear_resolved qs = qs

abbrev pub IsReopen : QuestionAction → Type 0
IsReopen (reopen i) = Unit
IsReopen _ = ⊥

-- Every action but `reopen` changes the pending questions as the open list of a tracker: `ask` adds one
-- at the end, `resolve` and `withdraw` take out those with the id, `replace` does both, and the others
-- leave them.
pub pending_questions-apply :
    (s : QuestionState) (a : QuestionAction)
    → ¬ IsReopen a
    → pending_questions (apply_question_action s a) ≡ pending_after s a (pending_questions s)
unfolding apply_question_action pending_questions
pending_questions-apply s list n = refl
pending_questions-apply s (ask d) n = rw (keep-append is_pending s.questions) (unfold asked in refl)
pending_questions-apply s (resolve i t) n = pending-resolve i t s.questions
pending_questions-apply s (withdraw i t) n = pending-withdraw i t s.questions
pending_questions-apply s (replace i t d) n =
    rw
      (
        keep-append is_pending (map (withdraw_one i t) s.questions),
        pending-withdraw i t s.questions,
      )
      (unfold asked in refl)
pending_questions-apply s (reopen i) n = absurd (n tt)
pending_questions-apply s clear_resolved n = keep-keep is_pending s.questions

-- A question whose optional texts are not empty.
pub record IsNormal (q : Question) : Type 0 where
  pub header : truthy q.header ≡ q.header
  pub guess : truthy q.guess ≡ q.guess

reopen-resolve_one :
    (i : ℤ) (t : Text) (q : Question)
    → IsNormal q
    → (q.id ≡ i → q.status ≡ pending)
    → reopen_one i (resolve_one i t q) ≡ q
unfolding reopen_one resolve_one as_pending
reopen-resolve_one i t q n p = ground (arith, eq_ℤ_iff q.id i, n.header, n.guess)

abbrev IsOpen : ℤ → Question → Type 0
IsOpen i q = IsNormal q × (q.id ≡ i → q.status ≡ pending)

map-reopen-resolve :
    (i : ℤ) (t : Text) (qs : List Question)
    → All (IsOpen i) qs
    → map (reopen_one i) (map (resolve_one i t) qs) ≡ qs
map-reopen-resolve i t [] h = refl
map-reopen-resolve i t (q ∷ qs) (h, hs) =
    cc (reopen-resolve_one i t q h.0 h.1, map-reopen-resolve i t qs hs)

-- Reopening takes a resolution back: where the questions with the id are pending and no question has
-- an empty header or guess, `resolve` and then `reopen` restore the state.
pub reopen-resolve :
    (s : QuestionState) (i : ℤ) (t : Text)
    → All (λ (q : Question). IsNormal q × (q.id ≡ i → q.status ≡ pending)) s.questions
    → apply_question_action (apply_question_action s (resolve i t)) (reopen i) ≡ s
unfolding apply_question_action
reopen-resolve s i t h = rw (map-reopen-resolve i t s.questions h)
