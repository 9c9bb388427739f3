-- ===== src/Base/Lists.antt =====
-- Lists measured and indexed by native numbers, under the library's names, and JavaScript's array
-- methods `every`, `some`, `filter`, `find`, `findIndex` and `slice(-n)`.
use Prim.Native.Nat.{ℕ, zero, suc, ◌+◌, ◌-◌, ◌≤◌, min}
use mathlib.Core.Path.{◌≡◌, refl, sym}
use mathlib.Core.Logic.{◌≢◌, inl, inr}
use mathlib.Core.Bool.{Bool, true, false, ◌&&◌, ◌||◌}
use mathlib.Core.Option
use mathlib.Core.Option.{Option, none, some}
use mathlib.Core.List.{List, [], ◌∷◌, ◌++◌, map, reverse, reverse-append, Memᴰ}
use native.Mathlib.Omega.{arith}
use dotconfig.Base.Tests.{Bool-cases, if◌then◌else◌}

module _ {ℓ} {A : Type ℓ} where
  abbrev pub length : List A → ℕ
  length [] = 0
  length (x ∷ xs) = suc (length xs)

  abbrev pub get_elem? : List A → ℕ → Option A
  get_elem? [] i = none
  get_elem? (x ∷ xs) zero = some x
  get_elem? (x ∷ xs) (suc i) = get_elem? xs i

  abbrev pub take : ℕ → List A → List A
  take zero xs = []
  take (suc n) [] = []
  take (suc n) (x ∷ xs) = x ∷ take n xs

  abbrev pub drop : ℕ → List A → List A
  drop zero xs = xs
  drop (suc n) [] = []
  drop (suc n) (x ∷ xs) = drop n xs

  -- `xs.slice(-n)`, the last n elements, for 0 < n.
  abbrev pub take_last : ℕ → List A → List A
  take_last n xs = drop (length xs - n) xs

  -- `xs.every(p)`
  abbrev pub every : (A → Bool) → List A → Bool
  every p [] = true
  every p (x ∷ xs) = p x && every p xs

  -- `xs.some(p)`
  abbrev pub any : (A → Bool) → List A → Bool
  any p [] = false
  any p (x ∷ xs) = p x || any p xs

  -- `xs.filter(p)`
  abbrev pub keep : (A → Bool) → List A → List A
  keep p [] = []
  keep p (x ∷ xs) = if p x then x ∷ keep p xs else keep p xs

  -- `xs.find(p)`
  abbrev pub find : (A → Bool) → List A → Option A
  find p [] = none
  find p (x ∷ xs) = if p x then some x else find p xs

  -- `xs.findIndex(p)`, with `none` for -1.
  abbrev pub find_index : (A → Bool) → List A → Option ℕ
  find_index p [] = none
  find_index p (x ∷ xs) = if p x then some 0 else Option.map suc (find_index p xs)

  -- `xs.filter((_x, index) => index !== i)`
  abbrev pub remove_at : ℕ → List A → List A
  remove_at i [] = []
  remove_at zero (x ∷ xs) = xs
  remove_at (suc i) (x ∷ xs) = x ∷ remove_at i xs

  pub length-append : (xs ys : List A) → length (xs ++ ys) ≡ length xs + length ys
  length-append [] ys = omega arith
  length-append (x ∷ xs) ys = omega (arith, length-append xs ys)

  pub length-drop : (n : ℕ) (xs : List A) → length (drop n xs) ≡ length xs - n
  length-drop zero xs = omega arith
  length-drop (suc n) [] = omega arith
  length-drop (suc n) (x ∷ xs) = omega (arith, length-drop n xs)

  pub length-take_le : (n : ℕ) (xs : List A) → length (take n xs) ≤ n
  length-take_le zero xs = omega arith
  length-take_le (suc n) [] = omega arith
  length-take_le (suc n) (x ∷ xs) = omega (arith, length-take_le n xs)

  pub length-take_last : (n : ℕ) (xs : List A) → length (take_last n xs) ≡ min n (length xs)
  length-take_last n xs = omega (arith, length-drop (length xs - n) xs)

module _ {ℓ κ} {A : Type ℓ} where
  abbrev pub All : (A → Type κ) → List A → Type κ
  All P [] = Unit
  All P (x ∷ xs) = P x × All P xs

  pub All-append : (P : A → Type κ) (xs ys : List A) → All P xs → All P ys → All P (xs ++ ys)
  All-append P [] ys hx hy = hy
  All-append P (x ∷ xs) ys hx hy = (hx.0, All-append P xs ys hx.1 hy)

module _ {ℓ} {A : Type ℓ} where
  pub All-of_mem {κ} : (P : A → Type κ) {a : A} (xs : List A) → Memᴰ a xs → All P xs → P a
  All-of_mem P [] m h = elim m [ ]
  All-of_mem P (x ∷ xs) (Memᴰ.head q) h = rw q h.0
  All-of_mem P (x ∷ xs) (Memᴰ.tail m) h = All-of_mem P xs m h.1

  pub All-mono {κ ι} :
      {P : A → Type κ} {Q : A → Type ι}
      → ((a : A) → P a → Q a)
      → (xs : List A) → All P xs
      → All Q xs
  All-mono f [] h = tt
  All-mono f (x ∷ xs) h = (f x h.0, All-mono f xs h.1)

  pub All-map {κ ι} :
      {B : Type κ} (P : B → Type ι) (f : A → B) (xs : List A)
      → All (λ x. P (f x)) xs
      → All P (map f xs)
  All-map P f [] h = tt
  All-map P f (x ∷ xs) h = (h.0, All-map P f xs h.1)

  pub All-keep {κ} : (P : A → Type κ) (p : A → Bool) (xs : List A) → All P xs → All P (keep p xs)
  All-keep P p [] h = tt
  All-keep P p (x ∷ xs) h = elim (Bool-cases (p x)) [
    | inl e ↦ rw e (h.0, All-keep P p xs h.1)
    | inr e ↦ rw e (All-keep P p xs h.1)
  ]

  -- What `find` returns passes the test and stands in the list.
  pub find-eq-some :
      (p : A → Bool) (xs : List A) {a : A} → find p xs ≡ some a → Memᴰ a xs × (p a ≡ true)
  find-eq-some p [] h = cc
  find-eq-some p (x ∷ xs) {a} h = elim (Bool-cases (p x)) [
    | inl hit ↦ let e : x ≡ a = ground arith in (Memᴰ.head (sym e), rw e at hit)
    | inr miss ↦ let (m, q) = find-eq-some p xs {a = a} (ground arith) in (Memᴰ.tail m, q)
  ]

  -- `find` finds something as soon as one element passes.
  pub find-ne-none :
      (p : A → Bool) (xs : List A) {a : A} → Memᴰ a xs → p a ≡ true → find p xs ≢ none
  find-ne-none p [] m h = elim m [ ]
  find-ne-none p (x ∷ xs) (Memᴰ.head q) h = rw (← q, h) (λ e. cc)
  find-ne-none p (x ∷ xs) (Memᴰ.tail m) h = elim (Bool-cases (p x)) [
    | inl hit ↦ rw hit (λ e. cc)
    | inr miss ↦ rw miss (find-ne-none p xs m h)
  ]

  pub Memᴰ-append_right : (xs : List A) {ys : List A} {a : A} → Memᴰ a ys → Memᴰ a (xs ++ ys)
  Memᴰ-append_right [] m = m
  Memᴰ-append_right (x ∷ xs) m = Memᴰ.tail (Memᴰ-append_right xs m)

  pub every-snoc :
      (p : A → Bool) (x : A) (xs : List A)
      → every p xs ≡ true
      → p x ≡ true
      → every p (xs ++ x ∷ []) ≡ true
  every-snoc p x [] h k = rw k refl
  every-snoc p x (y ∷ ys) h k = ground (arith, every-snoc p x ys)

module _ {ℓ} {A : Type ℓ} where
  pub any-append : (p : A → Bool) (xs ys : List A) → any p (xs ++ ys) ≡ (any p xs || any p ys)
  any-append p [] ys = refl
  any-append p (x ∷ xs) ys = elim (Bool-cases (p x)) [
    | inl e ↦ rw e refl
    | inr e ↦ rw e (any-append p xs ys)
  ]

  pub any-reverse : (p : A → Bool) (xs : List A) → any p (reverse xs) ≡ any p xs
  any-reverse p [] = refl
  any-reverse p (x ∷ xs) =
      rw (reverse-append (x ∷ []) xs, any-append p (reverse xs) (x ∷ []), any-reverse p xs)
        (ground arith)

  pub All-reverse {κ} : (P : A → Type κ) (xs : List A) → All P xs → All P (reverse xs)
  All-reverse P [] h = tt
  All-reverse P (x ∷ xs) h =
      rw (reverse-append (x ∷ []) xs)
        (All-append P (reverse xs) (x ∷ []) (All-reverse P xs h.1) (h.0, tt))
