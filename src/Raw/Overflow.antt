-- ===== src/Raw/Overflow.antt =====
-- How overflow bits are stored: src/raw/overflow_strategy.rs, and `EmbeddedOverflow` of
-- src/raw/group_layout.rs. Addresses are offsets from `ctrl`.
pub mod Bit
use optimap.Prelude.{ℕ, ◌+◌, ◌-◌, ◌*◌, ◌/◌, ◌^◌, ◌==◌, bit_and, bit_or, Bool, true, false, not}
use optimap.Raw.Group.{Bytes, store}

-- The implementations of `OverflowStrategy`.
pub data OverflowStrategy : Type 0 where
  byte_separate bit_separate embedded : OverflowStrategy

unfoldable pub channeled : OverflowStrategy → Bool
channeled byte_separate = true
channeled bit_separate = false
channeled embedded = true

unfoldable pub extra_alloc_bytes : OverflowStrategy → ℕ → ℕ
extra_alloc_bytes byte_separate num_groups = num_groups
extra_alloc_bytes bit_separate num_groups = (num_groups + 7) / 8
extra_alloc_bytes embedded num_groups = 0

unfoldable pub overflow_bytes_to_zero : OverflowStrategy → ℕ → ℕ
overflow_bytes_to_zero byte_separate num_groups = num_groups
overflow_bytes_to_zero bit_separate num_groups = (num_groups + 7) / 8
overflow_bytes_to_zero embedded num_groups = 0

unfoldable pub overflow_bytes_to_copy : OverflowStrategy → ℕ → ℕ
overflow_bytes_to_copy byte_separate num_groups = num_groups
overflow_bytes_to_copy bit_separate num_groups = (num_groups + 7) / 8
overflow_bytes_to_copy embedded num_groups = 0

-- With `mask` and the metadata stride.
unfoldable pub overflow_ptr : OverflowStrategy → ℕ → ℕ → ℕ → ℕ
overflow_ptr byte_separate mask gi meta_stride = (mask + 1) * meta_stride + gi
overflow_ptr bit_separate mask gi meta_stride = (mask + 1) * meta_stride + gi / 2 ^ 3
overflow_ptr embedded mask gi meta_stride = gi * meta_stride + meta_stride - 1

-- The bit of the overflow byte that is read and set.
unfoldable pub overflow_bit : OverflowStrategy → ℕ → ℕ → ℕ
overflow_bit byte_separate gi channel = channel
overflow_bit bit_separate gi channel = 2 ^ bit_and gi 7
overflow_bit embedded gi channel = channel

unfoldable pub has_overflow : OverflowStrategy → Bytes → ℕ → ℕ → ℕ → Bool
has_overflow s m ptr gi channel = not (bit_and (m ptr) (overflow_bit s gi channel) == 0)

unfoldable pub set_overflow : OverflowStrategy → Bytes → ℕ → ℕ → ℕ → Bytes
set_overflow s m ptr gi channel = store m ptr (bit_or (m ptr) (overflow_bit s gi channel))
