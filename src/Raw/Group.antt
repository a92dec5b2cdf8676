-- ===== src/Raw/Group.antt =====
-- Matching the metadata bytes of one group: src/raw/generic_group.rs and its wider copies
-- group32.rs and group64.rs. A group is read at an address of a byte memory; `width` is the number
-- of bytes that one load reads, and `slot_mask` the const generic SLOT_MASK.
pub mod Slots
pub mod Scan
use optimap.Prelude.{
  ℕ, ◌+◌, ◌-◌, ◌^◌, ◌==◌, bit_and, if◌then◌else◌, Bool, List, [], ◌∷◌, Option, none, some,
}
use optimap.Raw.Bitmask.Positions.{word}

-- A byte memory, by offsets from `ctrl`.
abbrev pub Bytes : Type 0
Bytes = ℕ → ℕ

abbrev pub empty : ℕ
empty = 0

-- `*ptr = value`
unfoldable pub store : Bytes → ℕ → ℕ → Bytes
store m a v b = if b == a then v else m b

-- The comparison and movemask instructions give the word whose bit `i` tells whether byte `i`
-- equals the value.
unfoldable pub match_byte : ℕ → ℕ → Bytes → ℕ → ℕ → ℕ
match_byte width slot_mask m ptr value = bit_and (word (λ i. m (ptr + i) == value) width) slot_mask

unfoldable pub match_empty : ℕ → ℕ → Bytes → ℕ → ℕ
match_empty width slot_mask m ptr = bit_and (word (λ i. m (ptr + i) == empty) width) slot_mask

-- `!mask` of a word of `width` bits is its difference from the word of ones.
unfoldable pub match_non_empty : ℕ → ℕ → Bytes → ℕ → ℕ
match_non_empty width slot_mask m ptr =
    bit_and (2 ^ width - 1 - word (λ i. m (ptr + i) == empty) width) slot_mask

unfoldable pub match_byte_and_empty : ℕ → ℕ → Bytes → ℕ → ℕ → ℕ × ℕ
match_byte_and_empty width slot_mask m ptr value = (
  bit_and (word (λ i. m (ptr + i) == value) width) slot_mask,
  bit_and (word (λ i. m (ptr + i) == empty) width) slot_mask,
)

unfoldable pub get_meta : Bytes → ℕ → ℕ → ℕ
get_meta m ptr idx = m (ptr + idx)

unfoldable pub set_meta : Bytes → ℕ → ℕ → ℕ → Bytes
unfolding store
set_meta m ptr idx value = store m (ptr + idx) value

-- `for si in matches { if test(si) { return Some(si) } }`
unfoldable pub first_where : List ℕ → (ℕ → Bool) → Option ℕ
first_where [] test = none
first_where (i ∷ is) test = if test i then some i else first_where is test
