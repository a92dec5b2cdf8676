-- ===== src/Prelude/Count.antt =====
-- Counting the numbers below a bound that pass a test, and sums.
use Prim.Native.Nat.{ℕ, zero, suc, ◌+◌, ◌*◌, ◌≤◌, ◌<◌}
use mathlib.Core.Path.{◌≡◌, refl}
use mathlib.Core.Logic.{◌≢◌}
use native.Mathlib.Omega.{arith}
use native.Mathlib.Decide.{ℕ_discrete, dec_lt}

-- The sum of `f i` for the `i` below `n`.
pub sum_below : ℕ → (ℕ → ℕ) → ℕ
sum_below zero f = 0
sum_below (suc n) f = sum_below n f + f n

pub sum_below_congr :
    (n : ℕ) (f g : ℕ → ℕ) → ((i : ℕ) → i < n → f i ≡ g i) → sum_below n f ≡ sum_below n g
unfolding sum_below
sum_below_congr zero f g h = refl
sum_below_congr (suc n) f g h =
    omega (arith, sum_below_congr n f g (λ i p. h i (omega arith)), h n (omega arith))

-- A change of one summand.
pub sum_below_change :
    (n j : ℕ) (f g : ℕ → ℕ)
    → j < n
    → ((i : ℕ) → i < n → i ≢ j → f i ≡ g i)
    → sum_below n f + g j ≡ sum_below n g + f j
unfolding sum_below
sum_below_change zero j f g p h = absurd (omega arith)
sum_below_change (suc n) j f g p h = elim (ℕ_discrete n j) [
  | yes e ↦ rw (← e) (omega (arith, sum_below_congr n f g (λ i q. h i (omega arith) (omega arith))))
  | no ne ↦ omega (
    arith,
    sum_below_change n j f g (omega arith) (λ i q r. h i (omega arith) r),
    h n (omega arith) ne,
  )
]

pub sum_below-zero : (n : ℕ) (f : ℕ → ℕ) → ((i : ℕ) → i < n → f i ≡ 0) → sum_below n f ≡ 0
unfolding sum_below
sum_below-zero zero f h = refl
sum_below-zero (suc n) f h =
    omega (arith, sum_below-zero n f (λ i p. h i (omega arith)), h n (omega arith))

pub sum_below-le : (n b : ℕ) (f : ℕ → ℕ) → ((i : ℕ) → i < n → f i ≤ b) → sum_below n f ≤ n * b
unfolding sum_below
sum_below-le zero b f h = omega arith
sum_below-le (suc n) b f h =
    omega (arith, sum_below-le n b f (λ i p. h i (omega arith)), h n (omega arith))

-- A sum below its greatest value has a summand below the greatest.
pub sum_below_room : (n b : ℕ) (f : ℕ → ℕ) → sum_below n f < n * b → (i : ℕ) × (i < n) × (f i < b)
unfolding sum_below
sum_below_room zero b f h = absurd (omega arith)
sum_below_room (suc n) b f h = elim (dec_lt (f n) b) [
  | yes p ↦ (n, omega arith, p)
  | no p ↦ let (i, q, r) = sum_below_room n b f (omega arith) in (i, omega arith, r)
]

pub sum_below_mono : (b x : ℕ) (f : ℕ → ℕ) → b ≤ x → sum_below b f ≤ sum_below x f
unfolding sum_below
sum_below_mono zero zero f h = omega arith
sum_below_mono (suc b) zero f h = absurd (omega arith)
sum_below_mono b (suc x) f h = elim (ℕ_discrete b (suc x)) [
  | yes e ↦ rw e (omega arith)
  | no ne ↦ omega (arith, sum_below_mono b x f (omega arith))
]

-- Zeros between two bounds do not count.
pub sum_below_gap :
    (b x : ℕ) (f : ℕ → ℕ)
    → b ≤ x
    → ((i : ℕ) → b ≤ i → i < x → f i ≡ 0)
    → sum_below x f ≡ sum_below b f
unfolding sum_below
sum_below_gap zero zero f h z = refl
sum_below_gap (suc b) zero f h z = absurd (omega arith)
sum_below_gap b (suc x) f h z = elim (ℕ_discrete b (suc x)) [
  | yes e ↦ rw e refl
  | no ne ↦ omega (
    arith,
    sum_below_gap b x f (omega arith) (λ i p q. z i p (omega arith)),
    z x (omega arith) (omega arith),
  )
]

pub sum_below-suc : (n : ℕ) (f : ℕ → ℕ) → sum_below (suc n) f ≡ sum_below n f + f n
unfolding sum_below
sum_below-suc n f = refl

pub sum_below-none : (f : ℕ → ℕ) → sum_below 0 f ≡ 0
unfolding sum_below
sum_below-none f = refl
