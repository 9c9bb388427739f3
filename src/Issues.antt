-- ===== src/Issues.antt =====
-- ai/pi/extensions/issue-tasks/identity.ts: issues named by repository and number. A `Schema` from
-- effect is the test that it stands for; the branded types are the checked values themselves.
pub mod Identity
pub mod Key
pub mod Sets
pub mod Effort
pub mod Selector
mod Tests
use dotconfig.Base.{
  ℕ, Bool, false, not, ◌&&◌, ◌||◌, Option, none, some, List, [], ◌∷◌, ◌++◌, map, Text, codes,
  text_eq, leb, ltb, ◌==◌, lower, is_digit, decimal, every, any, length, Value, lookup_field,
  only_keys, as_record, as_text, as_array, as_counter, if◌then◌else◌, Result, ok, err, fail_if,
  ◌>>=◌, ◌>>◌,
}

pub record IssueReference : Type 0 where
  pub repository : Text
  pub number : ℕ

pub data PlanInputError : Type 0 where
  invalid_issue invalid_scope invalid_repository : PlanInputError

abbrev pub is_letter : ℕ → Bool
is_letter c = (leb b'A' c && leb c b'Z') || (leb b'a' c && leb c b'z')

abbrev pub is_alphanumeric : ℕ → Bool
is_alphanumeric c = is_letter c || is_digit c

-- `[A-Za-z0-9-]`
abbrev pub is_owner_unit : ℕ → Bool
is_owner_unit c = is_alphanumeric c || c == b'-'

-- `[A-Za-z0-9_.-]`
abbrev pub is_name_unit : ℕ → Bool
is_name_unit c = is_alphanumeric c || c == b'_' || c == b'.' || c == b'-'

abbrev pub with_head : ℕ → Option (Text × Text) → Option (Text × Text)
with_head c none = none
with_head c (some (owner, name)) = some (c ∷ owner, name)

-- The text up to the first slash, and the text after it.
unfoldable pub split_slash : Text → Option (Text × Text)
split_slash [] = none
split_slash (c ∷ s) =
    let rest = split_slash s in if c == b'/' then some ([], s) else with_head c rest

-- The last unit passes the test; the first argument after it is the unit before the rest.
unfoldable pub last_passes : (ℕ → Bool) → ℕ → Text → Bool
last_passes p d [] = p d
last_passes p d (e ∷ s) = last_passes p e s

-- The first and the last unit pass the test.
unfoldable pub ends_pass : (ℕ → Bool) → Text → Bool
unfolding last_passes
ends_pass p [] = false
ends_pass p (c ∷ s) = p c && last_passes p c s

-- `value.includes("--")`
unfoldable pub has_double_dash : Text → Bool
has_double_dash [] = false
has_double_dash (c ∷ []) = false
has_double_dash (c ∷ d ∷ s) = (c == b'-' && d == b'-') || has_double_dash (d ∷ s)

unfoldable pub valid_owner : Text → Bool
unfolding ends_pass has_double_dash
valid_owner s =
    leb (length s) 39
    && every is_owner_unit s
    && ends_pass is_alphanumeric s
    && not (has_double_dash s)

unfoldable pub valid_name : Text → Bool
unfolding text_eq
valid_name s =
    leb 1 (length s)
    && leb (length s) 100
    && every is_name_unit s
    && not (text_eq s (codes "."))
    && not (text_eq s (codes ".."))

-- `RepositoryInputSchema`
unfoldable pub valid_repository : Text → Bool
unfolding split_slash valid_owner valid_name
valid_repository s = elim (split_slash s) [
  | none ↦ false
  | some (owner, name) ↦ valid_owner owner && valid_name name
]

abbrev pub checked_repository : Text → Result PlanInputError Text
checked_repository s = if valid_repository s then ok s else err invalid_repository

abbrev pub some_or {ℓ} : {E A : Type ℓ} → E → Option A → Result E A
some_or e none = err e
some_or e (some a) = ok a

-- `Either.mapLeft(() => e)`
abbrev pub map_error {ℓ} : {E F A : Type ℓ} → F → Result E A → Result F A
map_error e (ok a) = ok a
map_error e (err x) = err e

unfoldable pub decode_issue_repository : Value → Result PlanInputError Text
unfolding valid_repository
decode_issue_repository v = do
  s ← some_or invalid_repository (as_text v)
  original ← checked_repository s
  checked_repository (map lower original)

-- `IssueNumberSchema`, and the schemas of ranks
abbrev pub as_positive : Value → Option ℕ
as_positive v = elim (as_counter v) [ none ↦ none | some n ↦ if leb 1 n then some n else none ]

unfoldable pub decode_issue_reference : Value → Result PlanInputError IssueReference
unfolding decode_issue_repository
decode_issue_reference v = do
  fields ← some_or invalid_issue (as_record v)
  fail_if (not (only_keys (codes "repository" ∷ codes "number" ∷ []) fields)) invalid_issue
  repository ←
      map_error invalid_issue (decode_issue_repository (lookup_field (codes "repository") fields))
  number ← some_or invalid_issue (as_positive (lookup_field (codes "number") fields))
  ok (record { repository = repository; number = number })

unfoldable pub issue_key : IssueReference → Text
unfolding decimal
issue_key i = i.repository ++ b'#' ∷ decimal i.number

-- `Either.all(Array.from(values, decode))`
abbrev pub decode_all {ℓ} : {E A : Type ℓ} → (Value → Result E A) → List Value → Result E (List A)
decode_all f [] = ok []
decode_all f (v ∷ vs) = f v >>= λ a. decode_all f vs >>= λ rest. ok (a ∷ rest)

-- The elements of `new Set(keys)`; a key that comes again is left out.
unfoldable pub set_of : List Text → List Text
unfolding text_eq
set_of [] = []
set_of (k ∷ ks) = if any (text_eq k) ks then set_of ks else k ∷ set_of ks

abbrev pub max_plan_issues_per_call : ℕ
max_plan_issues_per_call = 100

unfoldable pub decode_issue_scope : Value → Result PlanInputError (List IssueReference)
unfolding decode_issue_reference set_of
decode_issue_scope v = do
  vs ← some_or invalid_scope (as_array v)
  fail_if (length vs == 0 || ltb max_plan_issues_per_call (length vs)) invalid_scope
  issues ← map_error invalid_scope (decode_all decode_issue_reference vs)
  fail_if (not (length (set_of (map issue_key issues)) == length issues)) invalid_scope
  ok issues
