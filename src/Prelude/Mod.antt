-- ===== src/Prelude/Mod.antt =====
-- Quotients and remainders by a variable, and pairs of a row and a column as one address.
use Prim.Native.Nat.{ℕ, zero, suc, ◌+◌, ◌*◌, ◌/◌, ◌%◌, ◌^◌, ◌≤◌, ◌<◌}
use mathlib.Core.Path.{◌≡◌, refl, sym, ◌∙◌}
use native.Mathlib.Omega.{arith}
use native.Mathlib.Nat.{
  pow-suc, mul-add-mod_self_right, mod-eq_of_lt, mul-add-div_right, div-eq_of_lt, div-add-mod,
  mod-lt, add-mod, mod-mod, mul-le-mul_right,
}

pub pow_two_pos : (k : ℕ) → 0 < 2 ^ k
pow_two_pos zero = omega arith
pow_two_pos (suc k) = omega (arith, pow-suc 2 k, pow_two_pos k)

pub mod_of_eq : (a q m r : ℕ) → a ≡ q * m + r → r < m → a % m ≡ r
mod_of_eq a q m r e h = rw e (mul-add-mod_self_right q m r ∙ mod-eq_of_lt h)

pub div_of_eq : (a q m r : ℕ) → a ≡ q * m + r → r < m → a / m ≡ q
div_of_eq a q m r e h =
    rw e (mul-add-div_right {m = m} (omega arith) q r ∙ omega (arith, div-eq_of_lt h))

-- A row and a column below `m` are read off the address.
pub addr_inj_row : (m g h s t : ℕ) → s < m → t < m → g * m + s ≡ h * m + t → g ≡ h
addr_inj_row m g h s t p q e =
    sym (div_of_eq (g * m + s) g m s refl p) ∙ div_of_eq (g * m + s) h m t e q

pub addr_inj_col : (m g h s t : ℕ) → s < m → t < m → g * m + s ≡ h * m + t → s ≡ t
addr_inj_col m g h s t p q e =
    sym (mod_of_eq (g * m + s) g m s refl p) ∙ mod_of_eq (g * m + s) h m t e q

-- An address in one of the first `n` rows lies below `n * m`.
pub addr-lt : (m n g s : ℕ) → g < n → s < m → g * m + s < n * m
addr-lt m n g s p q = let b : suc g * m ≤ n * m = mul-le-mul_right m p in omega arith

-- The remainder by twice a number, one binary digit at a time.
pub mod_double : (a n : ℕ) → 0 < n → a % (2 * n) ≡ (a / 2) % n * 2 + a % 2
mod_double a n h =
    mod_of_eq a (a / 2 / n) (2 * n) ((a / 2) % n * 2 + a % 2) (omega (arith, div-add-mod (a / 2) n))
      (omega (arith, mod-lt (a / 2) h))

-- An addend may be reduced first.
pub add-mod_step : (a b m : ℕ) → (a % m + b) % m ≡ (a + b) % m
add-mod_step a b m = add-mod (a % m) b m ∙ (rw mod-mod (sym (add-mod a b m)))
