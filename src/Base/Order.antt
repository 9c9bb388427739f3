-- ===== src/Base/Order.antt =====
-- Texts in the order of their UTF-16 units: `left < right`, and `texts.sort()`.
use mathlib.Core.Path.{◌≡◌, refl}
use mathlib.Core.Logic.{inl, inr}
use mathlib.Core.Bool.{Bool, true, false, ◌&&◌, ◌||◌}
use mathlib.Core.List.{List, [], ◌∷◌}
use native.Mathlib.Omega.{arith}
use dotconfig.Base.Tests.{ltb, ◌==◌, Bool-cases, if◌then◌else◌, if_false}
use dotconfig.Base.Strings.{Text}

-- `left < right` on strings
unfoldable pub text_ltb : Text → Text → Bool
text_ltb [] [] = false
text_ltb [] (d ∷ t) = true
text_ltb (c ∷ s) [] = false
text_ltb (c ∷ s) (d ∷ t) = ltb c d || (c == d && text_ltb s t)

pub text_ltb_trans :
    (s t u : Text) → text_ltb s t ≡ true → text_ltb t u ≡ true → text_ltb s u ≡ true
unfolding text_ltb
text_ltb_trans [] [] u h k = cc
text_ltb_trans [] (d ∷ t) [] h k = cc
text_ltb_trans [] (d ∷ t) (e ∷ u) h k = refl
text_ltb_trans (c ∷ s) [] u h k = cc
text_ltb_trans (c ∷ s) (d ∷ t) [] h k = cc
text_ltb_trans (c ∷ s) (d ∷ t) (e ∷ u) h k = ground (arith, text_ltb_trans s t u)

pub text_ltb_irrefl : (s : Text) → text_ltb s s ≡ false
unfolding text_ltb
text_ltb_irrefl [] = refl
text_ltb_irrefl (c ∷ s) = ground (arith, text_ltb_irrefl s)

text_ltb_asymm : (s t : Text) → text_ltb s t ≡ true → text_ltb t s ≡ false
text_ltb_asymm s t h = elim (Bool-cases (text_ltb t s)) [
  | inl back ↦ let e = text_ltb_trans s t s h back in let n = text_ltb_irrefl s in cc
  | inr e ↦ e
]

-- `texts.sort()`, a stable sort.
unfoldable pub insert_text : Text → List Text → List Text
unfolding text_ltb
insert_text s [] = s ∷ []
insert_text s (t ∷ ts) = if text_ltb t s then t ∷ insert_text s ts else s ∷ t ∷ ts

unfoldable pub sort_texts : List Text → List Text
unfolding insert_text
sort_texts [] = []
sort_texts (s ∷ ss) = insert_text s (sort_texts ss)

-- The text is not after the first of the list.
IsBelow : Text → List Text → Type 0
IsBelow s [] = Unit
IsBelow s (t ∷ ts) = text_ltb t s ≡ false

IsSorted : List Text → Type 0
IsSorted [] = Unit
IsSorted (s ∷ ss) = IsBelow s ss × IsSorted ss

insert_text-IsBelow :
    (t s : Text) (ts : List Text)
    → text_ltb t s ≡ true
    → IsBelow t ts
    → IsBelow t (insert_text s ts)
unfolding IsBelow insert_text
insert_text-IsBelow t s [] h b = text_ltb_asymm t s h
insert_text-IsBelow t s (u ∷ us) h b = elim (Bool-cases (text_ltb u s)) [
  | inl e ↦ rw e b
  | inr e ↦ rw e (text_ltb_asymm t s h)
]

insert_text-IsSorted : (s : Text) (ts : List Text) → IsSorted ts → IsSorted (insert_text s ts)
unfolding IsSorted IsBelow insert_text
insert_text-IsSorted s [] h = (tt, tt)
insert_text-IsSorted s (t ∷ ts) h = elim (Bool-cases (text_ltb t s)) [
  | inl e ↦ rw e (insert_text-IsBelow t s ts e h.0, insert_text-IsSorted s ts h.1)
  | inr e ↦ rw e (e, h)
]

sort_texts-IsSorted : (ss : List Text) → IsSorted (sort_texts ss)
unfolding IsSorted sort_texts
sort_texts-IsSorted [] = tt
sort_texts-IsSorted (s ∷ ss) = insert_text-IsSorted s (sort_texts ss) (sort_texts-IsSorted ss)

insert_text-below : (s : Text) (ts : List Text) → IsBelow s ts → insert_text s ts ≡ s ∷ ts
unfolding IsBelow insert_text
insert_text-below s [] b = refl
insert_text-below s (t ∷ ts) b = if_false _ _ b

sort_texts-sorted : (ss : List Text) → IsSorted ss → sort_texts ss ≡ ss
unfolding IsSorted sort_texts
sort_texts-sorted [] h = refl
sort_texts-sorted (s ∷ ss) h = rw (sort_texts-sorted ss h.1) (insert_text-below s ss h.0)

-- Sorting what is sorted changes nothing.
pub sort_texts_idem : (ss : List Text) → sort_texts (sort_texts ss) ≡ sort_texts ss
sort_texts_idem ss = sort_texts-sorted (sort_texts ss) (sort_texts-IsSorted ss)
