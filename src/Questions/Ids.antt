-- ===== src/Questions/Ids.antt =====
-- Every question keeps an id of its own, below the next one.
use dotconfig.Base.{
  suc, ◌≡◌, refl, ◌≢◌, Bool, List, [], ◌∷◌, ◌++◌, map, arith, Text, ℤ, pos, ◌<ℤ◌, keep, All,
  All-append, All-mono, All-keep, All-map, max_safe_integer, Bool-cases, inl, inr, ap, ◌∙◌,
  pos_part, neg_part,
}
use dotconfig.Questions.{
  Question, QuestionState, QuestionAction, list, ask, resolve, withdraw, replace, reopen,
  clear_resolved, next_number, is_pending, asked, resolve_one, withdraw_one, reopen_one, as_pending,
  apply_question_action,
}

abbrev pub Distinct : List Question → Type 0
Distinct [] = Unit
Distinct (q ∷ qs) = All (λ (r : Question). q.id ≢ r.id) qs × Distinct qs

pub record IsWellFormed (s : QuestionState) : Type 0 where
  pub below : All (λ (q : Question). q.id <ℤ s.next_id) s.questions
  pub distinct : Distinct s.questions

abbrev KeepsId : (Question → Question) → Type 0
KeepsId f = (q : Question) → (f q).id ≡ q.id

resolve_one-KeepsId : (i : ℤ) (t : Text) → KeepsId (resolve_one i t)
unfolding resolve_one
resolve_one-KeepsId i t q = ground arith

withdraw_one-KeepsId : (i : ℤ) (t : Text) → KeepsId (withdraw_one i t)
unfolding withdraw_one
withdraw_one-KeepsId i t q = ground arith

reopen_one-KeepsId : (i : ℤ) → KeepsId (reopen_one i)
unfolding reopen_one as_pending
reopen_one-KeepsId i q = ground arith

Distinct-map :
    (f : Question → Question) → KeepsId f → (qs : List Question) → Distinct qs → Distinct (map f qs)
Distinct-map f k [] d = tt
Distinct-map f k (q ∷ qs) d =
    (All-map _ f qs (All-mono (λ r n e. n (cc (k q, k r))) qs d.0), Distinct-map f k qs d.1)

Distinct-keep : (p : Question → Bool) (qs : List Question) → Distinct qs → Distinct (keep p qs)
Distinct-keep p [] d = tt
Distinct-keep p (q ∷ qs) d = elim (Bool-cases (p q)) [
  | inl h ↦ rw h (All-keep _ p qs d.0, Distinct-keep p qs d.1)
  | inr h ↦ rw h (Distinct-keep p qs d.1)
]

Distinct-snoc :
    (qs : List Question) (q : Question)
    → Distinct qs
    → All (λ (r : Question). r.id ≢ q.id) qs
    → Distinct (qs ++ q ∷ [])
Distinct-snoc [] q d n = (tt, tt)
Distinct-snoc (r ∷ qs) q d n = (All-append _ qs (q ∷ []) d.0 (n.0, tt), Distinct-snoc qs q d.1 n.1)

next_number_grows : (i : ℤ) → i <ℤ pos (suc max_safe_integer) → i <ℤ next_number i
unfolding next_number
next_number_grows i h = ground arith

map-IsWellFormed :
    (f : Question → Question) (s : QuestionState)
    → KeepsId f
    → IsWellFormed s
    → IsWellFormed (record s { questions = map f s.questions })
map-IsWellFormed f s k v = record {
  below =
      All-map Below f s.questions
        (All-mono {Q = λ q. Below (f q)} (λ q h. rw (k q) h) s.questions v.below);
  distinct = Distinct-map f k s.questions v.distinct;
}
  where
    Below : Question → Type 0
    Below q = q.id <ℤ s.next_id

snoc-IsWellFormed :
    (s : QuestionState) (q : Question)
    → s.next_id <ℤ pos (suc max_safe_integer)
    → q.id ≡ s.next_id
    → IsWellFormed s
    → IsWellFormed (record { questions = s.questions ++ q ∷ []; next_id = next_number s.next_id })
snoc-IsWellFormed s q room e v =
    let grows = next_number_grows s.next_id room in
    record {
      below =
          All-append _ s.questions (q ∷ []) (All-mono (λ r h. omega arith) s.questions v.below)
            (rw e grows, tt);
      distinct = Distinct-snoc s.questions q v.distinct (
          All-mono (λ r h d. let c = d ∙ e in omega (arith, ap pos_part c, ap neg_part c))
            s.questions v.below);
    }

-- Every action keeps the questions' ids distinct and below the next id, as long as that is at most
-- `Number.MAX_SAFE_INTEGER`.
pub apply_question_action-IsWellFormed :
    (s : QuestionState) (a : QuestionAction)
    → s.next_id <ℤ pos (suc max_safe_integer)
    → IsWellFormed s
    → IsWellFormed (apply_question_action s a)
unfolding apply_question_action
apply_question_action-IsWellFormed s list room v = v
apply_question_action-IsWellFormed s (ask d) room v =
    snoc-IsWellFormed s (asked s.next_id d) room (unfold asked in refl) v
apply_question_action-IsWellFormed s (resolve i t) room v =
    map-IsWellFormed (resolve_one i t) s (resolve_one-KeepsId i t) v
apply_question_action-IsWellFormed s (withdraw i t) room v =
    map-IsWellFormed (withdraw_one i t) s (withdraw_one-KeepsId i t) v
apply_question_action-IsWellFormed s (replace i t d) room v =
    snoc-IsWellFormed (record s { questions = map (withdraw_one i t) s.questions })
      (asked s.next_id d) room (unfold asked in refl)
      (map-IsWellFormed (withdraw_one i t) s (withdraw_one-KeepsId i t) v)
apply_question_action-IsWellFormed s (reopen i) room v =
    map-IsWellFormed (reopen_one i) s (reopen_one-KeepsId i) v
apply_question_action-IsWellFormed s clear_resolved room v = record {
  below = All-keep _ is_pending s.questions v.below;
  distinct = Distinct-keep is_pending s.questions v.distinct;
}
