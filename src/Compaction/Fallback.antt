-- ===== src/Compaction/Fallback.antt =====
-- The checkpoint that safe-compaction/state.ts writes without a model (`overflowFallbackSummary`), and
-- its messages to the agent.
use mathlib.Core.List.{reverse}
use dotconfig.Base.{
  ℕ, ◌≡◌, refl, true, Option, none, some, List, [], ◌∷◌, ◌++◌, Text, codes, trim, is_space,
  take_last, includes, starts_with, before, differs, never_starts, before-append, includes-append,
  trim-append, HasHead, if◌then◌else◌,
}
use dotconfig.Compaction.{CompactionReason, manual, threshold, overflow}
use dotconfig.Compaction.Recovery.{join_lines}

-- `"\n### Previous checkpoint (bounded tail)"`
abbrev pub previous_checkpoint_heading : Text
previous_checkpoint_heading = 10 ∷ codes "### Previous checkpoint (bounded tail)"

abbrev pub max_fallback_previous_summary : ℕ
max_fallback_previous_summary = 32_000

abbrev pub recovery_marker : Text
recovery_marker = codes "**Model-free overflow recovery**"

-- The tail of a root, unless it is empty or a fallback itself.
unfoldable pub root_tail : Text → Option Text
root_tail [] = none
root_tail (c ∷ s) =
    if includes recovery_marker (c ∷ s)
    then none
    else some (take_last max_fallback_previous_summary (c ∷ s))

unfoldable pub root_checkpoint : Option Text → Option Text
unfolding root_tail
root_checkpoint none = none
root_checkpoint (some summary) = root_tail (trim (before previous_checkpoint_heading summary))

-- The lines up to the heading of the last section.
abbrev pub fixed_lines : List Text
fixed_lines =
    codes "## Goal"
    ∷ codes
        "Resume the durable active goal and branch-aware todos restored by the loaded Pi extensions."
    ∷ []
    ∷ codes "## Constraints & Preferences"
    ∷ codes
        "- Context overflow forced a model-free fallback checkpoint; do not claim omitted history as new evidence."
    ∷ codes "- A displayed tool call without a successful tool result remains unfinished."
    ∷ []
    ∷ codes "## Progress"
    ∷ codes "### Done"
    ∷ codes "- [x] Preserved persisted goal, todo, registry, loop, and safe-compaction state."
    ∷ []
    ∷ codes "### In Progress"
    ∷ codes
        "- [ ] Reconcile the retained recent messages with durable goal and todo state, then continue the exact active task."
    ∷ []
    ∷ codes "### Blocked"
    ∷ codes "- The normal LLM summarization request exceeded the model context window."
    ∷ []
    ∷ codes "## Key Decisions"
    ∷ codes
        "- **Model-free overflow recovery**: Prefer a bounded deterministic checkpoint over an infinite compact-and-retry loop."
    ∷ []
    ∷ codes "## Next Steps"
    ∷ codes "1. Inspect the retained recent tool results and durable todos."
    ∷ codes "2. Resume the exact unfinished action named in the notes below."
    ∷ codes "3. Do not rerun successful mutations whose output was merely filtered."
    ∷ []
    ∷ codes "## Critical Context"
    ∷ []

abbrev pub request_lines : Option Text → List Text
request_lines none = []
request_lines (some []) = []
request_lines (some (c ∷ s)) = (codes "- Latest user request before overflow: " ++ c ∷ s) ∷ []

-- `prior ? […] : []`
abbrev pub prior_lines : Option Text → List Text
prior_lines none = []
prior_lines (some []) = []
prior_lines (some (c ∷ s)) = [] ∷ codes "### Previous checkpoint (bounded tail)" ∷ (c ∷ s) ∷ []

abbrev pub later_lines : Option Text → Text → Option Text → List Text
later_lines previous notes request =
    (codes "- Resume notes: " ++ notes) ∷ request_lines request
    ++ prior_lines (root_checkpoint previous)

unfoldable pub overflow_fallback_summary : Option Text → Text → Option Text → Text
unfolding join_lines root_checkpoint
overflow_fallback_summary previous notes request =
    join_lines (fixed_lines ++ later_lines previous notes request)

abbrev pub reason_word : CompactionReason → Text
reason_word manual = codes "manual"
reason_word threshold = codes "threshold"
reason_word overflow = codes "overflow"

abbrev pub article : CompactionReason → Text
article overflow = codes "an"
article _ = codes "a"

-- The first words of `preparationMessage`; its reason is `manual` or `threshold`.
abbrev pub preparation_reason : CompactionReason → Text
preparation_reason manual = codes "Manual checkpoint requested"
preparation_reason _ = codes "Context limit reached"

unfoldable pub preparation_message : CompactionReason → Text
unfolding join_lines
preparation_message reason = join_lines (
    (preparation_reason reason ++ codes ". Before Pi summarizes this context:")
    ∷ codes "1. Reconcile the active goal and every pending or blocked todo."
    ∷ codes
        "2. Persist durable facts, decisions, exact pause points, and unfinished tool actions through the appropriate todo, memory, registry, or project artifact."
    ∷ codes
        "3. Treat a displayed tool call without a successful tool result as NOT executed. If output limits truncated its arguments, record that it must be reissued completely after compaction."
    ∷ codes
        "4. Call safe_compaction_ready with concise resume notes naming the exact next action. Do not stop merely because this checkpoint is pending."
    ∷ [])

-- `resumeMessage`, of the reason and the notes of the state.
unfoldable pub resume_message : CompactionReason → Text → Text
resume_message reason notes =
    codes "Context restored from "
    ++ article reason
    ++ b' ' ∷ reason_word reason
    ++ codes
        " checkpoint. This checkpoint is complete: any retained preparation instruction is stale, so do not call safe_compaction_ready for it. Resume all assigned work now. Do not stop while a goal or pending todo remains."
    ++ 10 ∷ 10 ∷ codes "Checkpoint notes:"
    ++ 10 ∷ notes

-- The front of every fallback.
abbrev front : Text
front = join_lines fixed_lines

front_kept :
    (previous : Option Text) (notes : Text) (request : Option Text)
    → overflow_fallback_summary previous notes request
      ≡ front ++ 10 ∷ join_lines (later_lines previous notes request)
unfolding overflow_fallback_summary join_lines
front_kept previous notes request = refl

front-never_starts : never_starts previous_checkpoint_heading front ≡ true
unfolding never_starts differs join_lines
front-never_starts = refl

front-includes : includes recovery_marker front ≡ true
unfolding includes starts_with join_lines
front-includes = refl

front_begins : HasHead front
unfolding is_space join_lines
front_begins = refl

front_ends : HasHead (reverse front)
unfolding is_space join_lines
front_ends = refl

root_tail-of_marked : (s : Text) → includes recovery_marker s ≡ true → root_tail s ≡ none
unfolding root_tail
root_tail-of_marked [] h = refl
root_tail-of_marked (c ∷ s) h = rw h refl

-- A fallback is never carried into the next one: whatever the previous summary, the notes and the
-- request are, the root of a fallback summary is none.
pub root_checkpoint-overflow_fallback_summary :
    (previous : Option Text) (notes : Text) (request : Option Text)
    → root_checkpoint (some (overflow_fallback_summary previous notes request)) ≡ none
unfolding root_checkpoint
root_checkpoint-overflow_fallback_summary previous notes request =
    let later = 10 ∷ join_lines (later_lines previous notes request) in
    let rest = before previous_checkpoint_heading later in
    let (w, e) = trim-append front rest front_begins front_ends in
    rw
      (
        front_kept previous notes request,
        before-append previous_checkpoint_heading front later front-never_starts,
        e,
      )
      (root_tail-of_marked (front ++ w) (includes-append recovery_marker front w front-includes))
