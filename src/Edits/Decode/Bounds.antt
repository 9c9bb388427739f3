-- ===== src/Edits/Decode/Bounds.antt =====
-- What decodeWorkspaceTextEdits accepts: not too many edits, each URI once.
use dotconfig.Base.{
  get_key, set_key, ℕ, ◌+◌, ◌≤◌, ◌≡◌, refl, inl, inr, Bool, true, false, ◌&&◌, is_some, List, [],
  ◌∷◌, ◌++◌, arith, length, length-append, Text, codes, text_eq, text_eq_iff, sym, ltb, ◌==◌,
  Bool-cases, Value, Fields, lookup_field, field, end, as_record, as_text, as_array, is_undefined,
  str, ok, fail_if, fail_if-eq-ok, >>=-eq-ok, if◌then◌else◌,
}
use dotconfig.Edits.{
  malformed_workspace_edit, unsupported_document_ordering, too_many_files, too_many_edits,
  unsupported_resource_operation, unsupported_document_version, DecodedTextEdit,
}
use dotconfig.Edits.Decode.{
  max_files, max_edits, some_or_malformed, decode_text_edit, Grouped, group_or_nil, push_edits,
  Decoding, add, add_changes, is_present, add_document_change, add_document_changes, decode_changes,
  decode_document_changes, decode_workspace_text_edits,
}

abbrev pub total : Grouped → ℕ
total [] = 0
total ((key, edits) ∷ grouped) = length edits + total grouped

abbrev pub names : Text → Grouped → Bool
names uri [] = false
names uri ((key, edits) ∷ grouped) = if text_eq key uri then true else names uri grouped

-- No URI stands in the list twice.
abbrev pub Distinct : Grouped → Type 0
Distinct [] = Unit
Distinct ((key, edits) ∷ grouped) = (names key grouped ≡ false) × Distinct grouped

-- The state of the decoder: the counter counts the edits, up to the limit.
record IsCounted (state : Decoding) : Type 0 where
  counted : total state.grouped ≡ state.edit_index
  bounded : state.edit_index ≤ max_edits
  distinct : Distinct state.grouped

push_edits-length :
    (candidates : List Value) (index : ℕ) (target : List DecodedTextEdit)
    {last : List DecodedTextEdit × ℕ}
    → push_edits candidates index target ≡ ok last
    → index ≤ max_edits
    → (length last.0 + index ≡ length target + last.1) × (last.1 ≤ max_edits)
unfolding push_edits
push_edits-length [] index target {last = last} h b =
    let e : (target, index) ≡ last = cc in rw (← e) (refl, b)
push_edits-length (c ∷ candidates) index target {last = last} h b =
    let (d, p, h1) = >>=-eq-ok (decode_text_edit c index) _ h in
    let (u, q, h2) = >>=-eq-ok (fail_if (ltb max_edits (index + 1)) too_many_edits) _ h1 in
    let few = fail_if-eq-ok (ltb max_edits (index + 1)) too_many_edits q in
    let (sum, k) = push_edits-length candidates (index + 1) (target ++ d ∷ []) h2 (ground arith) in
    (omega (arith, sum, length-append target (d ∷ [])), k)

total-set_key :
    (uri : Text) (target : List DecodedTextEdit) (grouped : Grouped)
    → total (set_key uri target grouped) + length (group_or_nil (get_key uri grouped))
      ≡ total grouped + length target
unfolding set_key get_key
total-set_key uri target [] = omega arith
total-set_key uri target ((key, edits) ∷ grouped) = elim (Bool-cases (text_eq key uri)) [
  | inl same ↦ rw (same) (omega arith)
  | inr other ↦ rw (other) (omega (arith, total-set_key uri target grouped))
]

names-set_key :
    (key uri : Text) (target : List DecodedTextEdit) (grouped : Grouped)
    → names key grouped ≡ false
    → text_eq uri key ≡ false
    → names key (set_key uri target grouped) ≡ false
unfolding set_key
names-set_key key uri target [] h k = rw k refl
names-set_key key uri target ((other, edits) ∷ grouped) h k =
    elim (Bool-cases (text_eq other uri)) [
      | inl same ↦ rw (same) h
      | inr differs ↦ rw differs (ground (arith, names-set_key key uri target grouped))
    ]

text_eq_flip : (s t : Text) → text_eq s t ≡ false → text_eq t s ≡ false
text_eq_flip s t h = elim (Bool-cases (text_eq t s)) [
  | inl e ↦ let q : text_eq s t ≡ true = (text_eq_iff s t).1 (sym ((text_eq_iff t s).0 e)) in cc
  | inr e ↦ e
]

set_key-Distinct :
    (uri : Text) (target : List DecodedTextEdit) (grouped : Grouped)
    → Distinct grouped
    → Distinct (set_key uri target grouped)
unfolding set_key
set_key-Distinct uri target [] d = (refl, tt)
set_key-Distinct uri target ((key, edits) ∷ grouped) d = elim (Bool-cases (text_eq key uri)) [
  | inl same ↦ rw same d
  | inr differs ↦ rw differs (
    names-set_key key uri target grouped d.0 (text_eq_flip key uri differs),
    set_key-Distinct uri target grouped d.1,
  )
]

add-IsCounted :
    (uri edits : Value) (reject : Bool) (state : Decoding) {last : Decoding}
    → add uri edits reject state ≡ ok last
    → IsCounted state
    → IsCounted last
unfolding add
add-IsCounted uri edits reject state {last = last} h c =
    let (key, p, h1) = >>=-eq-ok (some_or_malformed (as_text uri)) _ h in
    let (candidates, q, h2) = >>=-eq-ok (some_or_malformed (as_array edits)) _ h1 in
    let (u, r, h3) =
      >>=-eq-ok
        (fail_if (reject && is_some (get_key key state.grouped)) unsupported_document_ordering) _
        h2 in
    let (pushed, s, h4) =
      >>=-eq-ok (push_edits candidates state.edit_index (group_or_nil (get_key key state.grouped)))
        _ h3 in
    let e : record { grouped = set_key key pushed.0 state.grouped; edit_index = pushed.1 } ≡ last =
      cc in
    let (sum, few) = push_edits-length candidates state.edit_index _ s c.bounded in
    rw (← e) (record {
      counted = omega (arith, total-set_key key pushed.0 state.grouped, c.counted, sum);
      bounded = few;
      distinct = set_key-Distinct key pushed.0 state.grouped c.distinct;
    })

add_changes-IsCounted :
    (entries : Fields) (state : Decoding) {last : Decoding}
    → add_changes entries state ≡ ok last
    → IsCounted state
    → IsCounted last
unfolding add_changes
add_changes-IsCounted end state {last = last} h c = let e : state ≡ last = cc in rw (← e) c
add_changes-IsCounted (field uri edits rest) state h c =
    let (next, p, h1) = >>=-eq-ok (add (str uri) edits false state) _ h in
    add_changes-IsCounted rest next h1 (add-IsCounted (str uri) edits false state p c)

add_document_change-IsCounted :
    (change : Value) (state : Decoding) {last : Decoding}
    → add_document_change change state ≡ ok last
    → IsCounted state
    → IsCounted last
unfolding add_document_change
add_document_change-IsCounted change state h c =
    let (fields, p, h1) = >>=-eq-ok (some_or_malformed (as_record change)) _ h in
    let (u, q, h2) =
      >>=-eq-ok
        (fail_if (is_some (as_text (lookup_field (codes "kind") fields)))
          unsupported_resource_operation)
        _ h1 in
    let (document, r, h3) =
      >>=-eq-ok (some_or_malformed (as_record (lookup_field (codes "textDocument") fields))) _ h2 in
    let (v, s, h4) =
      >>=-eq-ok
        (fail_if (is_present (lookup_field (codes "version") document))
          unsupported_document_version)
        _ h3 in
    add-IsCounted (lookup_field (codes "uri") document) (lookup_field (codes "edits") fields) true
      state h4 c

add_document_changes-IsCounted :
    (changes : List Value) (state : Decoding) {last : Decoding}
    → add_document_changes changes state ≡ ok last
    → IsCounted state
    → IsCounted last
unfolding add_document_changes
add_document_changes-IsCounted [] state {last = last} h c = let e : state ≡ last = cc in rw (← e) c
add_document_changes-IsCounted (change ∷ changes) state h c =
    let (next, p, h1) = >>=-eq-ok (add_document_change change state) _ h in
    add_document_changes-IsCounted changes next h1 (add_document_change-IsCounted change state p c)

decode_changes-IsCounted :
    (changes : Value) (state : Decoding) {last : Decoding}
    → decode_changes changes state ≡ ok last
    → IsCounted state
    → IsCounted last
unfolding decode_changes
decode_changes-IsCounted changes state {last = last} h c =
    elim (Bool-cases (is_undefined changes)) [
      | inl absent ↦
          let k : ok state ≡ ok last = rw (absent, decode_changes) at h in
          let e : state ≡ last = cc in rw (← e) c
      | inr given ↦
          let (entries, p, h1) =
            >>=-eq-ok (some_or_malformed (as_record changes)) _ (rw (given, decode_changes) at h) in
          add_changes-IsCounted entries state h1 c
    ]

decode_document_changes-IsCounted :
    (changes : Value) (state : Decoding) {last : Decoding}
    → decode_document_changes changes state ≡ ok last
    → IsCounted state
    → IsCounted last
unfolding decode_document_changes
decode_document_changes-IsCounted changes state {last = last} h c =
    elim (Bool-cases (is_undefined changes)) [
      | inl absent ↦
          let k : ok state ≡ ok last = rw (absent, decode_document_changes) at h in
          let e : state ≡ last = cc in rw (← e) c
      | inr given ↦
          let (entries, p, h1) =
            >>=-eq-ok (some_or_malformed (as_array changes)) _
              (rw (given, decode_document_changes) at h) in
          add_document_changes-IsCounted entries state h1 c
    ]

-- A workspace edit that the decoder accepts names at least one and at most `MAX_FILES` URIs, each of
-- them once, and has at most `MAX_EDITS` edits in all.
pub decode_workspace_text_edits-bounds :
    (value : Value) {grouped : Grouped}
    → decode_workspace_text_edits value ≡ ok grouped
    → (1 ≤ length grouped)
      × (length grouped ≤ max_files)
      × (total grouped ≤ max_edits)
      × Distinct grouped
unfolding decode_workspace_text_edits
decode_workspace_text_edits-bounds value {grouped = grouped} h =
    let (fields, p, h1) = >>=-eq-ok (some_or_malformed (as_record value)) _ h in
    let (changed, q, h2) =
      >>=-eq-ok
        (decode_changes (lookup_field (codes "changes") fields)
          (record { grouped = []; edit_index = 0 }))
        _ h1 in
    let (state, r, h3) =
      >>=-eq-ok (decode_document_changes (lookup_field (codes "documentChanges") fields) changed) _
        h2 in
    let (u, s, h4) =
      >>=-eq-ok (fail_if (length state.grouped == 0) malformed_workspace_edit) _ h3 in
    let (v, t, h5) =
      >>=-eq-ok (fail_if (ltb max_files (length state.grouped)) too_many_files) _ h4 in
    let some_file = fail_if-eq-ok (length state.grouped == 0) malformed_workspace_edit s in
    let few_files = fail_if-eq-ok (ltb max_files (length state.grouped)) too_many_files t in
    let start : IsCounted (record { grouped = []; edit_index = 0 }) = record {
      counted = refl;
      bounded = omega arith;
      distinct = tt;
    } in
    let after = decode_changes-IsCounted (lookup_field (codes "changes") fields) _ q start in
    let c =
      decode_document_changes-IsCounted (lookup_field (codes "documentChanges") fields) changed r
        after in
    let e : state.grouped ≡ grouped = cc in
    rw (← e) (ground arith, ground arith, omega (arith, c.counted, c.bounded), c.distinct)
