-- ===== src/Issues/Sets.antt =====
-- Sets of keys, as identity.ts and selector.ts build them with `new Set(keys)`.
use dotconfig.Base.{
  suc, ◌≤◌, ◌≡◌, refl, sym, ◌⊎◌, inl, inr, Bool, true, false, List, [], ◌∷◌, Text, text_eq,
  text_eq_iff, text_eq_refl, any, length, All, All-mono, if◌then◌else◌, Bool-cases, arith,
}
use dotconfig.Issues.{set_of}

abbrev pub has : List Text → Text → Bool
has ks k = any (text_eq k) ks

abbrev pub IsDistinct : List Text → Type 0
IsDistinct [] = Unit
IsDistinct (k ∷ ks) = (has ks k ≡ false) × IsDistinct ks

set_of-length_le : (ks : List Text) → length (set_of ks) ≤ length ks
unfolding set_of
set_of-length_le [] = omega arith
set_of-length_le (k ∷ ks) = elim (Bool-cases (has ks k)) [
  | inl e ↦ rw e (omega (arith, set_of-length_le ks))
  | inr e ↦ rw e (omega (arith, set_of-length_le ks))
]

-- A set as large as the list has the keys of the list, which are distinct.
pub set_of-length :
    (ks : List Text) → length (set_of ks) ≡ length ks → IsDistinct ks × (set_of ks ≡ ks)
unfolding set_of
set_of-length [] h = (tt, refl)
set_of-length (k ∷ ks) h = elim (Bool-cases (has ks k)) [
  | inl e ↦
      let q : length (set_of ks) ≡ suc (length ks) = rw (e, set_of) at h in
      let z : ⊥ = omega (arith, set_of-length_le ks) in absurd z
  | inr e ↦
      let q : suc (length (set_of ks)) ≡ suc (length ks) = rw (e, set_of) at h in
      let (d, same) = set_of-length ks (omega arith) in ((e, d), rw (e, same) refl)
]

remove : Text → List Text → List Text
remove k [] = []
remove k (x ∷ xs) = if text_eq k x then xs else x ∷ remove k xs

length-remove :
    (k : Text) (xs : List Text) → has xs k ≡ true → suc (length (remove k xs)) ≡ length xs
unfolding remove
length-remove k [] h = cc
length-remove k (x ∷ xs) h = elim (Bool-cases (text_eq k x)) [
  | inl e ↦ rw e refl
  | inr e ↦ rw e (omega (arith, length-remove k xs (ground arith)))
]

has-remove :
    (k x : Text) (xs : List Text)
    → text_eq x k ≡ false
    → has xs x ≡ true
    → has (remove k xs) x ≡ true
unfolding remove
has-remove k x [] other h = cc
has-remove k x (y ∷ ys) other h = elim (Bool-cases (text_eq k y)) [
  | inl e ↦
      let q : k ≡ y = (text_eq_iff k y).0 e in
      let z : text_eq x y ≡ false = rw (← q) other in rw e (ground arith)
  | inr e ↦ rw e (ground (arith, has-remove k x ys other))
]

All-of_remove :
    (P : Text → Type 0) (k : Text) (xs : List Text) → P k → All P (remove k xs) → All P xs
unfolding remove
All-of_remove P k [] p h = tt
All-of_remove P k (x ∷ xs) p h = elim (Bool-cases (text_eq k x)) [
  | inl e ↦ let q : k ≡ x = (text_eq_iff k x).0 e in (rw q at p, rw (e, remove) at h)
  | inr e ↦ let g = rw (e, remove) at h in (g.0, All-of_remove P k xs p g.1)
]

All-has-remove :
    (k : Text) (ks xs : List Text)
    → has ks k ≡ false
    → All (λ x. has xs x ≡ true) ks
    → All (λ x. has (remove k xs) x ≡ true) ks
All-has-remove k [] xs d h = tt
All-has-remove k (j ∷ ks) xs d h =
    let other : text_eq j k ≡ false = swap (Bool-cases (text_eq j k)) in
    (has-remove k j xs other h.0, All-has-remove k ks xs (ground arith) h.1)
  where
    swap : (text_eq j k ≡ true) ⊎ (text_eq j k ≡ false) → text_eq j k ≡ false
    swap (inl e) =
        let q : j ≡ k = (text_eq_iff j k).0 e in
        let z : text_eq k j ≡ true = (text_eq_iff k j).1 (sym q) in
        let f : false ≡ true = ground arith in cc
    swap (inr e) = e

-- Distinct keys, as many as the keys of a list that has them all, are all the keys of that list.
pub distinct-covers :
    (ks xs : List Text)
    → IsDistinct ks
    → All (λ k. has xs k ≡ true) ks
    → length ks ≡ length xs
    → All (λ x. has ks x ≡ true) xs
distinct-covers [] [] d h e = tt
distinct-covers [] (x ∷ xs) d h e = let z : ⊥ = omega arith in absurd z
distinct-covers (k ∷ ks) xs d h e =
    All-of_remove (λ x. has (k ∷ ks) x ≡ true) k xs (rw (text_eq_refl k) refl)
      (All-mono (λ x p. ground arith) (remove k xs)
        (distinct-covers ks (remove k xs) d.1 (All-has-remove k ks xs d.0 h.1)
          (omega (arith, length-remove k xs h.0))))
