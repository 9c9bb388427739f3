-- ===== src/Base/Search.antt =====
-- Texts inside texts: JavaScript's `includes` and `split(separator, 1)[0]`, for a pattern that is not
-- empty, and what `trim` keeps of the front of a text.
use mathlib.Core.Path.{◌≡◌, refl}
use mathlib.Core.Logic.{inl, inr}
use mathlib.Core.Bool.{Bool, true, false, not, ◌&&◌, ◌||◌}
use mathlib.Core.List.{[], ◌∷◌, ◌++◌, reverse, reverse-append, reverse-reverse}
use native.Mathlib.Omega.{arith}
use dotconfig.Base.Tests.{Bool-cases, ◌==◌, if◌then◌else◌}
use dotconfig.Base.Strings.{Text, trim, trim_start, is_space}
use dotconfig.Base.Trim.{HasHead}

unfoldable pub starts_with : Text → Text → Bool
starts_with [] s = true
starts_with (p ∷ ps) [] = false
starts_with (p ∷ ps) (c ∷ s) = p == c && starts_with ps s

-- `s.includes(p)`
unfoldable pub includes : Text → Text → Bool
unfolding starts_with
includes p [] = starts_with p []
includes p (c ∷ s) = starts_with p (c ∷ s) || includes p s

-- `s.split(p, 1)[0]`
unfoldable pub before : Text → Text → Text
unfolding starts_with
before p [] = []
before p (c ∷ s) = let rest = before p s in if starts_with p (c ∷ s) then [] else c ∷ rest

-- The texts differ at a place that both have.
unfoldable pub differs : Text → Text → Bool
differs [] s = false
differs (p ∷ ps) [] = false
differs (p ∷ ps) (c ∷ s) = not (p == c) || differs ps s

-- The pattern starts nowhere in the text, whatever follows it.
unfoldable pub never_starts : Text → Text → Bool
unfolding differs
never_starts p [] = true
never_starts p (c ∷ s) = differs p (c ∷ s) && never_starts p s

starts_with-of_differs : (p s r : Text) → differs p s ≡ true → starts_with p (s ++ r) ≡ false
unfolding differs starts_with
starts_with-of_differs [] s r h = cc
starts_with-of_differs (p ∷ ps) [] r h = cc
starts_with-of_differs (p ∷ ps) (c ∷ s) r h = ground (arith, starts_with-of_differs ps s r)

pub before-append : (p s r : Text) → never_starts p s ≡ true → before p (s ++ r) ≡ s ++ before p r
unfolding before never_starts
before-append p [] r h = refl
before-append p (c ∷ s) r h =
    let miss : starts_with p (c ∷ s ++ r) ≡ false =
      starts_with-of_differs p (c ∷ s) r (ground arith) in
    rw (miss, before-append p s r (ground arith)) refl

starts_with-append : (p s r : Text) → starts_with p s ≡ true → starts_with p (s ++ r) ≡ true
unfolding starts_with
starts_with-append [] s r h = refl
starts_with-append (p ∷ ps) [] r h = cc
starts_with-append (p ∷ ps) (c ∷ s) r h = ground (arith, starts_with-append ps s r)

pub includes-append : (p s r : Text) → includes p s ≡ true → includes p (s ++ r) ≡ true
unfolding includes
includes-append p [] [] h = h
includes-append p [] (c ∷ r) h = ground (arith, starts_with-append p [] (c ∷ r))
includes-append p (c ∷ s) r h =
    ground (arith, starts_with-append p (c ∷ s) r, includes-append p s r)

trim_start-append : (s t : Text) → HasHead t → (w : Text) × (trim_start (s ++ t) ≡ w ++ t)
unfolding trim_start
trim_start-append [] [] h = absurd h
trim_start-append [] (c ∷ t) h = ([], rw h refl)
trim_start-append (c ∷ s) t h =
    let (w, e) = trim_start-append s t h in
    elim (Bool-cases (is_space c)) [
      | inl space ↦ (w, rw space e)
      | inr other ↦ (c ∷ s, rw other refl)
    ]

-- `trim` keeps a front that neither begins nor ends with white space.
pub trim-append :
    (s r : Text) → HasHead s → HasHead (reverse s) → (w : Text) × (trim (s ++ r) ≡ s ++ w)
unfolding trim trim_start
trim-append [] r h k = absurd h
trim-append (c ∷ s) r h k =
    let (w, e) = trim_start-append (reverse r) (reverse (c ∷ s)) k in
    (
      reverse w,
      rw
          (
            h,
            trim_start,
            reverse-append (c ∷ s) r,
            e,
            reverse-append w (reverse (c ∷ s)),
            reverse-reverse (c ∷ s),
          )
          refl,
    )
