-- ===== src/Raw/Layout.antt =====
-- Group layouts: src/raw/group_layout.rs. A layout picks the group width, the tag strategy, the
-- overflow strategy, the region of the hash that gives the group index, and the load factor.
pub mod Memory
pub mod Slots
pub mod Named
use optimap.Prelude.{ℕ, ◌+◌, ◌-◌, ◌*◌, ◌/◌, ◌^◌, ◌≤◌, ◌<◌, ◌≡◌, Bool, true, false}
use optimap.Raw.Tag.{HashFeature, TagKind}
use optimap.Raw.Overflow.{OverflowStrategy, byte_separate, bit_separate, embedded}

pub data HashRegion : Type 0 where
  low high : HashRegion

-- The constants of `GroupLayout`, with the crate feature under which it is compiled. `slot_mask`
-- is the const generic of `type Grp`, whose load reads `meta_stride` bytes.
pub record Layout : Type 0 where
  pub feature : HashFeature
  pub tag_kind : TagKind
  pub overflow : OverflowStrategy
  pub slot_mask : ℕ
  pub group_size : ℕ
  pub bucket_stride : ℕ
  pub meta_stride : ℕ
  pub separate_overflow : Bool
  pub group_index_region : HashRegion
  pub load_factor_num : ℕ
  pub load_factor_den : ℕ

unfoldable pub bucket_index : Layout → ℕ → ℕ → ℕ
bucket_index l gi si = gi * l.bucket_stride + si

-- The slots that an overflow byte takes from a group.
abbrev pub reserved : OverflowStrategy → ℕ
reserved byte_separate = 0
reserved bit_separate = 0
reserved embedded = 1

-- What the table needs of a layout.
pub record IsLayout (l : Layout) : Type 0 where
  pub mask_slots : l.slot_mask ≡ 2 ^ l.group_size - 1
  pub slots_pos : 0 < l.group_size
  pub slots_fit : l.group_size + reserved l.overflow ≤ l.meta_stride
  pub width : l.meta_stride ≤ 64
  pub stride_fits : l.group_size ≤ l.bucket_stride
  pub num_pos : 0 < l.load_factor_num
  pub num_lt_den : l.load_factor_num < l.load_factor_den
  pub load_pos : 1 ≤ l.group_size * l.load_factor_num / l.load_factor_den
