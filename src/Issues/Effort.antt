-- ===== src/Issues/Effort.antt =====
-- ai/pi/extensions/shared/fibonacci-effort.ts: `isFibonacciEffort`. Its loop runs on fuel: the value,
-- since `current` grows by at least one in each round and stops at the value.
use dotconfig.Base.{
  ℕ, zero, suc, ◌+◌, ◌-◌, ◌≤◌, ◌<◌, ◌≡◌, ◌↔◌, ◌⊎◌, refl, inl, inr, Bool, true, false, none, some,
  ltb, leb, ◌==◌, if◌then◌else◌, Value, max_safe_integer, arith, Bool-cases, ltb→lt, num, int, pos,
}
use dotconfig.Issues.{as_positive}
use dotconfig.Issues.Identity.{IsRank, as_positive-of_IsRank}

unfoldable pub fibonacci_loop : (fuel : ℕ) → (previous current value : ℕ) → Bool
fibonacci_loop zero previous current value = false
fibonacci_loop (suc fuel) previous current value =
    let rest = fibonacci_loop fuel current (previous + current) value in
    if ltb current value
    then (if ltb (max_safe_integer - previous) current then false else rest)
    else current == value

unfoldable pub is_fibonacci_effort : Value → Bool
unfolding fibonacci_loop
is_fibonacci_effort v = elim (as_positive v) [
  | none ↦ false
  | some value ↦ if value == 1 then true else fibonacci_loop value 1 2 value
]

-- The Fibonacci numbers 0, 1, 1, 2, 3, 5, …
unfoldable pub fib : ℕ → ℕ
fib zero = 0
fib (suc zero) = 1
fib (suc (suc k)) = fib k + fib (suc k)

fib-step : (k : ℕ) → fib k ≤ fib (suc k)
unfolding fib
fib-step zero = omega arith
fib-step (suc zero) = omega arith
fib-step (suc (suc k)) = omega (arith, fib-step k)

fib_mono : (i j : ℕ) → i ≤ j → fib i ≤ fib j
fib_mono i zero h = let e : i ≡ 0 = omega arith in rw e (omega arith)
fib_mono i (suc j) h = elim (Bool-cases (leb i j)) [
  | inl low ↦ omega (arith, fib_mono i j (ground arith), fib-step j)
  | inr top ↦ let e : i ≡ suc j = ground arith in rw e (omega arith)
]

fib-positive : (k : ℕ) → 1 ≤ k → 1 ≤ fib k
unfolding fib
fib-positive zero h = omega arith
fib-positive (suc zero) h = omega arith
fib-positive (suc (suc k)) h = omega (arith, fib-positive (suc k) (omega arith))

loop_sound :
    (fuel k value : ℕ)
    → fibonacci_loop fuel (fib k) (fib (suc k)) value ≡ true
    → (j : ℕ) × (fib j ≡ value)
unfolding fibonacci_loop
loop_sound zero k value h = cc
loop_sound (suc fuel) k value h = elim (Bool-cases (ltb (fib (suc k)) value)) [
  | inl more ↦ elim (Bool-cases (ltb (max_safe_integer - fib k) (fib (suc k)))) [
    | inl over ↦ let q : false ≡ true = rw (more, over, fibonacci_loop) at h in cc
    | inr fits ↦ loop_sound fuel (suc k) value (unfold fib in rw (more, fits, fibonacci_loop) at h)
  ]
  | inr done ↦ (suc k, ground arith)
]

not_over : (p c m : ℕ) → p + c ≤ m → ltb (m - p) c ≡ false
not_over p c m h = ground arith

reached : (c v : ℕ) → ltb c v ≡ false → c ≤ v → (c == v) ≡ true
reached c v h k = ground arith

loop_complete :
    (fuel k j value : ℕ)
    → 1 ≤ k
    → suc k ≤ j
    → value < fuel + fib (suc k)
    → value ≤ max_safe_integer
    → fib j ≡ value
    → fibonacci_loop fuel (fib k) (fib (suc k)) value ≡ true
unfolding fibonacci_loop fib
loop_complete zero k j value low above enough safe e =
    let q : ⊥ = omega (arith, fib_mono (suc k) j above) in absurd q
loop_complete (suc fuel) k j value low above enough safe e =
    elim (Bool-cases (ltb (fib (suc k)) value)) [
      | inl more ↦
          let further : suc (suc k) ≤ j =
            further_of (Bool-cases (leb (suc (suc k)) j)) (ltb→lt (fib (suc k)) value more) in
          let next : fib k + fib (suc k) ≤ fib j = fib_mono (suc (suc k)) j further in
          let fits : ltb (max_safe_integer - fib k) (fib (suc k)) ≡ false =
            not_over (fib k) (fib (suc k)) max_safe_integer (omega (arith, next, safe, e)) in
          rw (more, fits)
            (loop_complete fuel (suc k) j value (omega arith) further
              (omega (arith, enough, fib-positive k low)) safe e)
      | inr done ↦
          rw done (reached (fib (suc k)) value done (omega (arith, e, fib_mono (suc k) j above)))
    ]
  where
    further_of :
        (leb (suc (suc k)) j ≡ true) ⊎ (leb (suc (suc k)) j ≡ false)
        → fib (suc k) < value
        → suc (suc k) ≤ j
    further_of (inl h) less = ground arith
    further_of (inr h) less =
        let same : j ≡ suc k = ground arith in
        let q : fib (suc k) ≡ value = rw same at e in let z : ⊥ = omega arith in absurd z

abbrev effort_of : ℕ → Bool
effort_of n = if n == 1 then true else fibonacci_loop n 1 2 n

effort_of_sound : (n : ℕ) → effort_of n ≡ true → (j : ℕ) × (fib j ≡ n)
unfolding fib
effort_of_sound n h = elim (Bool-cases (n == 1)) [
  | inl one ↦ (1, ground arith)
  | inr other ↦ loop_sound n 2 n (rw other at h)
]

-- The first two steps of the sequence are no effort but 1.
fib-small : (j n : ℕ) → fib j ≡ n → 2 ≤ n → 3 ≤ j
unfolding fib
fib-small zero n e h = omega arith
fib-small (suc zero) n e h = omega arith
fib-small (suc (suc zero)) n e h = omega arith
fib-small (suc (suc (suc j))) n e h = omega arith

effort_of_complete : (n j : ℕ) → IsRank n → fib j ≡ n → effort_of n ≡ true
unfolding fib
effort_of_complete n j h e = elim (Bool-cases (n == 1)) [
  | inl one ↦ rw one refl
  | inr other ↦
      rw other
        (loop_complete n 2 j n (omega arith) (fib-small j n e (ground arith)) (omega arith) h.1 e)
]

effort-IsRank : (n : ℕ) → is_fibonacci_effort (num (int (pos n))) ≡ true → IsRank n
unfolding is_fibonacci_effort
effort-IsRank n h = ground arith

-- A number is a Fibonacci effort exactly when it is a Fibonacci number from 1 to the largest safe
-- integer; the check that stops the loop before a sum leaves the safe integers loses none.
pub is_fibonacci_effort_iff :
    (n : ℕ)
    → (is_fibonacci_effort (num (int (pos n))) ≡ true) ↔ (IsRank n × ((j : ℕ) × (fib j ≡ n)))
unfolding is_fibonacci_effort
is_fibonacci_effort_iff n = (
  λ h.
      let r = effort-IsRank n h in
      (r, effort_of_sound n (rw (is_fibonacci_effort, as_positive-of_IsRank n r) at h)),
  λ h. rw (is_fibonacci_effort, as_positive-of_IsRank n h.0) (effort_of_complete n h.1.0 h.0 h.1.1),
)
