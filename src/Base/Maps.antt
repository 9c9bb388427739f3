-- ===== src/Base/Maps.antt =====
-- JavaScript's `Map` with texts for keys: its entries in the order of insertion.
use mathlib.Core.Path.{◌≡◌, refl, sym, ap, ◌∙◌, subst}
use mathlib.Core.Logic.{◌≢◌, inl, inr}
use mathlib.Core.Option.{Option, none, some}
use mathlib.Core.List.{List, [], ◌∷◌, ◌++◌}
use dotconfig.Base.Tests.{Bool-cases, if◌then◌else◌, if_true, if_false}
use dotconfig.Base.Lists.{All}
use dotconfig.Base.Strings.{Text, text_eq, text_eq_refl, text_eq_iff, ne-of_text_eq, text_eq_of_ne}

module _ {ℓ} {A : Type ℓ} where
  -- `map.get(key)`
  unfoldable pub get_key : Text → List (Text × A) → Option A
  unfolding text_eq
  get_key key [] = none
  get_key key ((k, a) ∷ entries) = if text_eq k key then some a else get_key key entries

  -- `map.set(key, a)`: in the place of the old value, or after the others.
  unfoldable pub set_key : Text → A → List (Text × A) → List (Text × A)
  unfolding text_eq
  set_key key a [] = (key, a) ∷ []
  set_key key a ((k, b) ∷ entries) =
      if text_eq k key then (k, a) ∷ entries else (k, b) ∷ set_key key a entries

  pub get_key-set_key :
      (key : Text) (a : A) (entries : List (Text × A))
      → get_key key (set_key key a entries) ≡ some a
  unfolding get_key set_key
  get_key-set_key key a [] = rw (text_eq_refl key) refl
  get_key-set_key key a ((k, b) ∷ entries) = elim (Bool-cases (text_eq k key)) [
    | inl e ↦ rw (e, e) refl
    | inr e ↦ rw (e, e) (get_key-set_key key a entries)
  ]

  -- A key that has no value gets one after the others.
  pub set_key-absent :
      (key : Text) (a : A) (entries : List (Text × A))
      → get_key key entries ≡ none
      → set_key key a entries ≡ entries ++ (key, a) ∷ []
  unfolding get_key set_key
  set_key-absent key a [] h = refl
  set_key-absent key a ((k, b) ∷ entries) h = elim (Bool-cases (text_eq k key)) [
    | inl e ↦ let h' : some b ≡ none = sym (if_true _ _ e) ∙ h in cc
    | inr e ↦
        rw e (ap (λ rest. (k, b) ∷ rest) (set_key-absent key a entries (sym (if_false _ _ e) ∙ h)))
  ]

module _ {ℓ κ} {A : Type ℓ} (P : Text × A → Type κ) where
  pub All-get_key :
      (key : Text) {a : A} (entries : List (Text × A))
      → All P entries
      → get_key key entries ≡ some a
      → P (key, a)
  unfolding get_key
  All-get_key key [] h e = cc
  All-get_key key {a} ((k, b) ∷ entries) h e = elim (Bool-cases (text_eq k key)) [
    | inl same ↦
        let q : some b ≡ some a = sym (if_true _ _ same) ∙ e in
        let v : b ≡ a = cc in
        let n = (text_eq_iff k key).0 same in subst (λ x. P (x, a)) n (subst (λ x. P (k, x)) v h.0)
    | inr other ↦ All-get_key key entries h.1 (sym (if_false _ _ other) ∙ e)
  ]

  pub All-set_key :
      (key : Text) (a : A) (entries : List (Text × A))
      → All P entries
      → P (key, a)
      → All P (set_key key a entries)
  unfolding set_key
  All-set_key key a [] h p = (p, tt)
  All-set_key key a ((k, b) ∷ entries) h p = elim (Bool-cases (text_eq k key)) [
    | inl same ↦ rw same (subst (λ x. P (x, a)) (sym ((text_eq_iff k key).0 same)) p, h.1)
    | inr other ↦ rw other (h.0, All-set_key key a entries h.1 p)
  ]

module _ {ℓ} {A : Type ℓ} where
  pub get_key-nil : (key : Text) → get_key {A = A} key [] ≡ none
  unfolding get_key
  get_key-nil key = refl

  -- The value under the first key.
  pub get_key-head :
      (k key : Text) (a : A) (entries : List (Text × A))
      → k ≡ key
      → get_key key ((k, a) ∷ entries) ≡ some a
  unfolding get_key
  get_key-head k key a entries e = if_true _ _ ((text_eq_iff k key).1 e)

  pub get_key-tail :
      (k key : Text) (a : A) (entries : List (Text × A))
      → k ≢ key
      → get_key key ((k, a) ∷ entries) ≡ get_key key entries
  unfolding get_key
  get_key-tail k key a entries n = if_false _ _ (text_eq_of_ne k key n)

  pub get_key-set_key_other :
      (key other : Text) (a : A) (entries : List (Text × A))
      → key ≢ other
      → get_key other (set_key key a entries) ≡ get_key other entries
  unfolding set_key
  get_key-set_key_other key other a [] n = get_key-tail key other a [] n
  get_key-set_key_other key other a ((k, b) ∷ entries) n = elim (Bool-cases (text_eq k key)) [
    | inl e ↦
        let m : k ≢ other = λ q. n (sym ((text_eq_iff k key).0 e) ∙ q) in
        rw e (get_key-tail k other a entries m ∙ sym (get_key-tail k other b entries m))
    | inr e ↦ rw e (elim (Bool-cases (text_eq k other)) [
      | inl q ↦
          let same = (text_eq_iff k other).0 q in
          get_key-head k other b _ same ∙ sym (get_key-head k other b entries same)
      | inr q ↦
          let m = ne-of_text_eq k other q in
          get_key-tail k other b _ m
          ∙ get_key-set_key_other key other a entries n
          ∙ sym (get_key-tail k other b entries m)
    ])
  ]

  -- No key comes twice, as in any `Map`.
  abbrev pub IsMap : List (Text × A) → Type ℓ
  IsMap [] = Unit
  IsMap ((k, a) ∷ entries) = (get_key k entries ≡ none) × IsMap entries

  pub set_key-IsMap :
      (key : Text) (a : A) (entries : List (Text × A))
      → IsMap entries
      → IsMap (set_key key a entries)
  unfolding set_key
  set_key-IsMap key a [] m = (get_key-nil key, tt)
  set_key-IsMap key a ((k, b) ∷ entries) m = elim (Bool-cases (text_eq k key)) [
    | inl e ↦ rw e m
    | inr e ↦ rw e (
      get_key-set_key_other key k a entries (λ q. ne-of_text_eq k key e (sym q)) ∙ m.0,
      set_key-IsMap key a entries m.1,
    )
  ]
