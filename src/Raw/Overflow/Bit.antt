-- ===== src/Raw/Overflow/Bit.antt =====
-- Single bits of a byte.
use optimap.Prelude.{
  ℕ, ◌^◌, ◌<◌, ◌==◌, ltb, bit_and, bit_or, Bool, true, false, not, ◌&&◌, ◌||◌, ◌≡◌, refl, arith,
}
use optimap.Prelude.Bits.{holds_below, holds_below-true}

-- Equality of Booleans.
abbrev agree : Bool → Bool → Bool
agree true b = b
agree false b = not b

-- The bit `d` of the byte `x` after bit `c` was set.
abbrev or_test : ℕ → ℕ → ℕ → Bool
or_test x c d =
    agree (bit_and (bit_or x (2 ^ c)) (2 ^ d) == 0) (bit_and x (2 ^ d) == 0 && not (c == d))

or_table : holds_below (λ x. holds_below (λ c. holds_below (or_test x c) 8) 8) 256 ≡ true
unfolding holds_below
or_table = refl

or-lt_table : holds_below (λ x. holds_below (λ c. ltb (bit_or x (2 ^ c)) 256) 8) 256 ≡ true
unfolding holds_below
or-lt_table = refl

agree_eq : (a b : Bool) → agree a b ≡ true → a ≡ b
agree_eq a b h = ground arith

-- Setting bit `c` of a byte changes bit `c` alone.
pub and-or_bit :
    (x c d : ℕ)
    → x < 256
    → c < 8
    → d < 8
    → not (bit_and (bit_or x (2 ^ c)) (2 ^ d) == 0) ≡ not (bit_and x (2 ^ d) == 0) || c == d
and-or_bit x c d hx hc hd =
    let row = holds_below-true _ 256 x hx or_table in
    let cell = holds_below-true (or_test x c) 8 d hd (holds_below-true _ 8 c hc row) in
    let e =
      agree_eq (bit_and (bit_or x (2 ^ c)) (2 ^ d) == 0) (bit_and x (2 ^ d) == 0 && not (c == d))
        cell in
    ground (arith, e)

pub or_bit-lt : (x c : ℕ) → x < 256 → c < 8 → bit_or x (2 ^ c) < 256
or_bit-lt x c hx hc =
    ground (arith, holds_below-true _ 8 c hc (holds_below-true _ 256 x hx or-lt_table))
