-- ===== src/Raw/Bitmask.antt =====
-- Bit masks and their iteration: src/raw/bitmask.rs. The three widths differ in the word alone.
pub mod Positions
use optimap.Prelude.{
  ℕ, zero, suc, ◌-◌, ◌/◌, ◌%◌, bit_and, ◌==◌, if◌then◌else◌, Bool, not, Option, none, some, List,
  [], ◌∷◌,
}

-- `trailing_zeros` of a word other than 0, with the word as fuel.
pub count_zeros : ℕ → ℕ → ℕ
count_zeros zero x = 0
count_zeros (suc f) x = let rest = count_zeros f (x / 2) in if x % 2 == 1 then 0 else suc rest

unfoldable pub trailing_zeros : ℕ → ℕ
unfolding count_zeros
trailing_zeros x = count_zeros x x

unfoldable pub any_set : ℕ → Bool
any_set x = not (x == 0)

unfoldable pub lowest_set_bit : ℕ → Option ℕ
unfolding trailing_zeros
lowest_set_bit x = if x == 0 then none else some (trailing_zeros x)

-- `Iterator::next`: the position of the lowest bit, and the word without that bit.
unfoldable pub next : ℕ → Option (ℕ × ℕ)
unfolding trailing_zeros
next x = if x == 0 then none else some (trailing_zeros x, bit_and x (x - 1))

-- All that the iterator yields, in at most as many calls as the fuel.
unfoldable pub drain : ℕ → ℕ → List ℕ
drain zero x = []
drain (suc f) x = elim (next x) [ none ↦ [] | some (i, rest) ↦ i ∷ drain f rest ]

-- A word has at most 64 bits.
unfoldable pub to_list : ℕ → List ℕ
unfolding drain next
to_list x = drain 64 x
