-- ===== src/Prelude/Bits.antt =====
-- `bit_and` at variables: its law for the lowest digit, masks of ones, and checks of every byte.
use Prim.Native.Nat.{
  ℕ, zero, suc, ◌+◌, ◌-◌, ◌*◌, ◌/◌, ◌%◌, ◌^◌, ◌≤◌, ◌<◌, min, bit_and, digits, bit_and-bitwise,
}
use mathlib.Core.Path.{◌≡◌, refl}
use mathlib.Core.Bool.{Bool, true, ◌&&◌}
use native.Mathlib.Omega.{arith}
use native.Mathlib.Nat.{pow-suc}
use optimap.Prelude.Mod.{pow_two_pos, mod_double}

-- A test of all numbers below a bound, by evaluation.
unfoldable pub holds_below : (ℕ → Bool) → ℕ → Bool
holds_below test zero = true
holds_below test (suc k) = holds_below test k && test k

pub holds_below-true :
    (test : ℕ → Bool) (k i : ℕ) → i < k → holds_below test k ≡ true → test i ≡ true
unfolding holds_below
holds_below-true test zero i below all = absurd (omega arith)
holds_below-true test (suc k) i below all = ground (arith, holds_below-true test k i)

-- What `bit_and` stands for: the minimum of each pair of digits, for `fuel` digits.
abbrev minima : ℕ → ℕ → ℕ → ℕ
minima fuel x y = digits (λ _. zero) min fuel x y

-- As many digits as the first number is large are enough.
minima_enough : (limit fuel x y : ℕ) → fuel ≤ limit → x ≤ fuel → minima fuel x y ≡ bit_and x y
minima_enough limit fuel zero y p q = omega (arith, none_left fuel y, bit_and-bitwise 0 y)
  where
    none_left : (fuel y : ℕ) → minima fuel 0 y ≡ 0
    none_left zero y = refl
    none_left (suc fuel) y = refl
minima_enough limit zero (suc x) y p q = absurd (omega arith)
minima_enough zero (suc fuel) (suc x) y p q = absurd (omega arith)
minima_enough (suc limit) (suc fuel) (suc x) y p q =
    let now = minima_enough limit fuel (suc x / 2) (y / 2) (omega arith) (omega arith) in
    let full = minima_enough limit x (suc x / 2) (y / 2) (omega arith) (omega arith) in
    omega (arith, now, full, bit_and-bitwise (suc x) y)

-- The lowest digit apart from the others.
pub bit_and_step : (x y : ℕ) → bit_and x y ≡ min (x % 2) (y % 2) + 2 * bit_and (x / 2) (y / 2)
bit_and_step zero y = omega (arith, bit_and-bitwise 0 y, bit_and-bitwise 0 (y / 2))
bit_and_step (suc x) y = omega (
  arith,
  minima_enough x x (suc x / 2) (y / 2) (omega arith) (omega arith),
  bit_and-bitwise (suc x) y,
)

minima-zero : (fuel x : ℕ) → minima fuel x 0 ≡ 0
minima-zero zero zero = refl
minima-zero zero (suc x) = refl
minima-zero (suc fuel) zero = refl
minima-zero (suc fuel) (suc x) = omega (arith, minima-zero fuel (suc x / 2))

pub bit_and-zero : (x : ℕ) → bit_and x 0 ≡ 0
bit_and-zero x = omega (arith, bit_and-bitwise x 0, minima-zero x x)

-- A mask of `k` ones keeps the low `k` digits.
pub bit_and_mask : (k a : ℕ) → bit_and a (2 ^ k - 1) ≡ a % 2 ^ k
bit_and_mask zero a = omega (arith, bit_and-zero a)
bit_and_mask (suc k) a =
    let e : (2 ^ suc k - 1) / 2 ≡ 2 ^ k - 1 = omega (arith, pow-suc 2 k, pow_two_pos k) in
    let o : (2 ^ suc k - 1) % 2 ≡ 1 = omega (arith, pow-suc 2 k, pow_two_pos k) in
    let d : 2 ^ suc k ≡ 2 * 2 ^ k = omega (arith, pow-suc 2 k) in
    let step = bit_and_step a (2 ^ suc k - 1) in
    let step' = rw (e, o) at step in
    rw (step', bit_and_mask k (a / 2), d, mod_double a (2 ^ k) (pow_two_pos k)) (omega arith)
