-- ===== src/Governor/Models.antt =====
-- The preferred model in usage-governor/core.ts.
use dotconfig.Base.{
  ℕ, ◌==◌, ==_iff, ◌∙◌, has_key, as_record, ◌≡◌, ◌↔◌, refl, sym, ap, Bool, true, false, ◌&&◌,
  Option, none, some, Text, codes, text_eq, text_eq_iff, leb, length, arith, if◌then◌else◌, or_else,
  is_some, Value, obj, str, field, end, Fields, lookup_field, as_text, is_text,
}

pub data Thinking : Type 0 where
  off minimal low medium high xhigh max : Thinking

pub record PersistedModelRef : Type 0 where
  pub provider : Text
  pub id : Text
  pub thinking : Option Thinking

pub record ActiveModelRef : Type 0 where
  pub provider : Text
  pub id : Text
  pub thinking : Option Thinking

pub data Restoration : Type 0 where
  ready : Restoration
  set_thinking : Thinking → Restoration
  switch_model use_active_model wait_for_model : Restoration

abbrev pub level : Thinking → ℕ
level off = 0
level minimal = 1
level low = 2
level medium = 3
level high = 4
level xhigh = 5
level max = 6

-- `active.thinking === thinking`
unfoldable pub has_thinking : Option Thinking → Thinking → Bool
has_thinking none t = false
has_thinking (some u) t = level u == level t

unfoldable pub is_preferred : Option ActiveModelRef → PersistedModelRef → Bool
is_preferred none p = false
is_preferred (some a) p = text_eq a.provider p.provider && text_eq a.id p.id

abbrev pub active_thinking : Option ActiveModelRef → Option Thinking
active_thinking none = none
active_thinking (some a) = a.thinking

unfoldable pub preferred_model_restoration :
    Option ActiveModelRef → Option PersistedModelRef → Bool → Restoration
unfolding has_thinking is_preferred
preferred_model_restoration active none available = ready
preferred_model_restoration active (some p) available =
    let thinking = or_else p.thinking high in
    if is_preferred active p
    then (if has_thinking (active_thinking active) thinking then ready else set_thinking thinking)
    else if available
    then switch_model
    else if is_some active
    then use_active_model
    else wait_for_model

abbrev pub thinking_word : Thinking → Text
thinking_word off = codes "off"
thinking_word minimal = codes "minimal"
thinking_word low = codes "low"
thinking_word medium = codes "medium"
thinking_word high = codes "high"
thinking_word xhigh = codes "xhigh"
thinking_word max = codes "max"

abbrev pub as_thinking : Value → Option Thinking
as_thinking v =
    if is_text v (codes "off")
    then some off
    else if is_text v (codes "minimal")
    then some minimal
    else if is_text v (codes "low")
    then some low
    else if is_text v (codes "medium")
    then some medium
    else if is_text v (codes "high")
    then some high
    else if is_text v (codes "xhigh")
    then some xhigh
    else if is_text v (codes "max")
    then some max
    else none

abbrev pub non_empty_text : Value → Option Text
non_empty_text v = elim (as_text v) [
  | none ↦ none
  | some s ↦ if leb 1 (length s) then some s else none
]

-- The two uses of `thinking` in the decoder: a key that is there has to hold a level.
abbrev pub decode_thinking : Fields → Option (Option Thinking)
decode_thinking fields =
    let t = as_thinking (lookup_field (codes "thinking") fields) in
    if has_key (codes "thinking") fields then (if is_some t then some t else none) else some none

abbrev pub persisted_from : Fields → Option Text → Option Text → Option PersistedModelRef
persisted_from fields (some p) (some i) = elim (decode_thinking fields) [
  | none ↦ none
  | some t ↦ some (record { provider = p; id = i; thinking = t })
]
persisted_from fields none i = none
persisted_from fields (some p) none = none

abbrev pub persisted_fields : Option Fields → Option PersistedModelRef
persisted_fields none = none
persisted_fields (some fields) =
    persisted_from fields (non_empty_text (lookup_field (codes "provider") fields))
      (non_empty_text (lookup_field (codes "id") fields))

unfoldable pub parse_persisted_model_ref : Value → Option PersistedModelRef
unfolding text_eq lookup_field has_key
parse_persisted_model_ref v = persisted_fields (as_record v)

-- The object that a model is stored as.
abbrev thinking_field : Option Thinking → Fields
thinking_field none = end
thinking_field (some t) = field (codes "thinking") (str (thinking_word t)) end

abbrev pub encode_model_ref : PersistedModelRef → Value
encode_model_ref p = obj (
    field (codes "provider") (str p.provider)
      (field (codes "id") (str p.id) (thinking_field p.thinking)))

-- A stored model with a provider and an id that are not empty is read back as it was.
pub parse-encode_model_ref :
    (p : PersistedModelRef)
    → leb 1 (length p.provider) ≡ true
    → leb 1 (length p.id) ≡ true
    → parse_persisted_model_ref (encode_model_ref p) ≡ some p
unfolding parse_persisted_model_ref text_eq lookup_field has_key
parse-encode_model_ref p h k = rw (h, k) (thinking_cases p.thinking)
  where
    thinking_cases :
        (t : Option Thinking)
        → persisted_from
            (field
              (codes "provider")
              (str p.provider)
              (field (codes "id") (str p.id) (thinking_field t)))
            (some p.provider)
            (some p.id)
          ≡ some (record { provider = p.provider; id = p.id; thinking = t })
    thinking_cases none = refl
    thinking_cases (some off) = refl
    thinking_cases (some minimal) = refl
    thinking_cases (some low) = refl
    thinking_cases (some medium) = refl
    thinking_cases (some high) = refl
    thinking_cases (some xhigh) = refl
    thinking_cases (some max) = refl

-- The active model is the preferred one, at its level, or at `high` if it has none.
abbrev pub IsRestored : Option ActiveModelRef → PersistedModelRef → Type 0
IsRestored none p = ⊥
IsRestored (some a) p =
    (a.provider ≡ p.provider) × (a.id ≡ p.id) × (a.thinking ≡ some (or_else p.thinking high))

of_level : ℕ → Thinking
of_level n =
    if n == 0
    then off
    else if n == 1
    then minimal
    else if n == 2
    then low
    else if n == 3
    then medium
    else if n == 4
    then high
    else if n == 5
    then xhigh
    else max

of_level-level : (t : Thinking) → of_level (level t) ≡ t
unfolding of_level
of_level-level off = refl
of_level-level minimal = refl
of_level-level low = refl
of_level-level medium = refl
of_level-level high = refl
of_level-level xhigh = refl
of_level-level max = refl

has_thinking_iff : (o : Option Thinking) (t : Thinking) → (has_thinking o t ≡ true) ↔ (o ≡ some t)
unfolding has_thinking
has_thinking_iff none t = ground arith
has_thinking_iff (some u) t = (
  λ h.
      let e : level u ≡ level t = (==_iff (level u) (level t)).0 h in
      ap some (sym (of_level-level u) ∙ ap of_level e ∙ of_level-level t),
  λ e. let q : u ≡ t = cc in rw q ((==_iff (level t) (level t)).1 refl),
)

-- Nothing is left to do exactly when no model is preferred or the active model is the preferred one at
-- its level.
pub preferred_model_restoration-ready_iff :
    (active : Option ActiveModelRef) (p : PersistedModelRef) (available : Bool)
    → (preferred_model_restoration active (some p) available ≡ ready) ↔ IsRestored active p
unfolding preferred_model_restoration is_preferred
preferred_model_restoration-ready_iff none p available = ground arith
preferred_model_restoration-ready_iff (some a) p available = ground (
  arith,
  text_eq_iff a.provider p.provider,
  text_eq_iff a.id p.id,
  has_thinking_iff a.thinking (or_else p.thinking high),
)
