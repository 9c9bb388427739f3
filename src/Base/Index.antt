-- ===== src/Base/Index.antt =====
-- Positions in lists: `findIndex`, `filter` and the end of a list.
use Prim.Native.Nat.{ℕ, zero, suc, ◌-◌, ◌≤◌}
use mathlib.Core.Path.{◌≡◌, refl, ap}
use mathlib.Core.Logic.{◌≢◌, inl, inr}
use mathlib.Core.Bool.{Bool, true, false}
use mathlib.Core.Option.{none, some}
use mathlib.Core.List.{List, [], ◌∷◌, ◌++◌, Memᴰ}
use native.Mathlib.Omega.{arith}
use dotconfig.Base.Lists.{
  length, length-append, take_last, drop, keep, find_index, get_elem?, remove_at, All,
}
use dotconfig.Base.Tests.{Bool-cases, Option-cases}

module _ {ℓ} {A : Type ℓ} where
  -- What `findIndex` finds is an element that passes the test.
  pub find_index-eq-some :
      (p : A → Bool) (xs : List A) (i : ℕ)
      → find_index p xs ≡ some i
      → (a : A) × Memᴰ a xs × (p a ≡ true)
  find_index-eq-some p [] i h = cc
  find_index-eq-some p (x ∷ xs) i h = elim (Bool-cases (p x)) [
    | inl hit ↦ (x, Memᴰ.head refl, hit)
    | inr miss ↦ elim (Option-cases (find_index p xs)) [
      | inl e ↦ let q : none ≡ some i = rw (miss, find_index, e) at h in cc
      | inr (j, e) ↦ let (a, m, k) = find_index-eq-some p xs j e in (a, Memᴰ.tail m, k)
    ]
  ]

  pub find_index-ne-none :
      (p : A → Bool) (xs : List A) (a : A) → Memᴰ a xs → p a ≡ true → find_index p xs ≢ none
  find_index-ne-none p [] a m h = elim m [ ]
  find_index-ne-none p (x ∷ xs) a (Memᴰ.head q) h = rw (← q, h) (λ e. cc)
  find_index-ne-none p (x ∷ xs) a (Memᴰ.tail m) h =
      let found = find_index-ne-none p xs a m h in
      elim (Bool-cases (p x)) [
        | inl hit ↦ rw hit (λ e. cc)
        | inr miss ↦ elim (Option-cases (find_index p xs)) [
          | inl e ↦ absurd (found e)
          | inr (j, e) ↦ rw (miss, e) (λ z. cc)
        ]
      ]

  pub Memᴰ-keep :
      (p : A → Bool) (xs : List A) (a : A) → Memᴰ a (keep p xs) → Memᴰ a xs × (p a ≡ true)
  Memᴰ-keep p [] a m = elim m [ ]
  Memᴰ-keep p (x ∷ xs) a m = elim (Bool-cases (p x)) [
    | inl e ↦ kept e (rw (e, keep) at m) (λ n. Memᴰ-keep p xs a n)
    | inr e ↦ let (n, k) = Memᴰ-keep p xs a (rw (e, keep) at m) in (Memᴰ.tail n, k)
  ]
    where
      kept :
          p x ≡ true
          → Memᴰ a (x ∷ keep p xs)
          → (Memᴰ a (keep p xs) → Memᴰ a xs × (p a ≡ true))
          → Memᴰ a (x ∷ xs) × (p a ≡ true)
      kept e (Memᴰ.head q) f = (Memᴰ.head q, rw q e)
      kept e (Memᴰ.tail n) f = let (k, t) = f n in (Memᴰ.tail k, t)

  pub Memᴰ-of_keep :
      (p : A → Bool) (xs : List A) (a : A) → Memᴰ a xs → p a ≡ true → Memᴰ a (keep p xs)
  Memᴰ-of_keep p [] a m h = elim m [ ]
  Memᴰ-of_keep p (x ∷ xs) a (Memᴰ.head q) h = let e : p x ≡ true = rw (← q) h in rw e (Memᴰ.head q)
  Memᴰ-of_keep p (x ∷ xs) a (Memᴰ.tail m) h =
      let later = Memᴰ-of_keep p xs a m h in
      elim (Bool-cases (p x)) [ inl e ↦ rw e (Memᴰ.tail later) | inr e ↦ rw e later ]

  -- An element after others that fail the test is found at their number.
  pub find_index-snoc :
      (p : A → Bool) (xs : List A) (a : A)
      → All (λ x. p x ≡ false) xs
      → p a ≡ true
      → find_index p (xs ++ a ∷ []) ≡ some (length xs)
  find_index-snoc p [] a h k = rw k refl
  find_index-snoc p (x ∷ xs) a h k = rw (h.0, find_index-snoc p xs a h.1 k) refl

  pub get_elem?-snoc : (xs : List A) (a : A) → get_elem? (xs ++ a ∷ []) (length xs) ≡ some a
  get_elem?-snoc [] a = refl
  get_elem?-snoc (x ∷ xs) a = get_elem?-snoc xs a

  pub remove_at-snoc : (xs : List A) (a : A) → remove_at (length xs) (xs ++ a ∷ []) ≡ xs
  remove_at-snoc [] a = refl
  remove_at-snoc (x ∷ xs) a = ap (λ t. x ∷ t) (remove_at-snoc xs a)

  drop-snoc :
      (n : ℕ) (xs : List A) (a : A) → n ≤ length xs → drop n (xs ++ a ∷ []) ≡ drop n xs ++ a ∷ []
  drop-snoc zero xs a h = refl
  drop-snoc (suc n) [] a h = let z : ⊥ = omega arith in absurd z
  drop-snoc (suc n) (x ∷ xs) a h = drop-snoc n xs a (omega arith)

  -- The last elements of a list with one more are that one and the last ones before it.
  pub take_last-snoc :
      (n : ℕ) (xs : List A) (a : A) → take_last (suc n) (xs ++ a ∷ []) ≡ take_last n xs ++ a ∷ []
  take_last-snoc n xs a =
      let e : length (xs ++ a ∷ []) - suc n ≡ length xs - n =
        omega (arith, length-append xs (a ∷ [])) in
      rw e (drop-snoc (length xs - n) xs a (omega arith))

  pub All-drop {κ} : (P : A → Type κ) (n : ℕ) (xs : List A) → All P xs → All P (drop n xs)
  All-drop P zero xs h = h
  All-drop P (suc n) [] h = tt
  All-drop P (suc n) (x ∷ xs) h = All-drop P n xs h.1
