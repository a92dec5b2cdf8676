-- ===== src/Raw/Layout/Named.antt =====
-- The layouts that src/raw/group_layout.rs builds from a tag strategy and an overflow strategy.
use optimap.Prelude.{ℕ, arith, Bool, true, false}
use optimap.Raw.Tag.{HashFeature, TagKind}
use optimap.Raw.Overflow.{OverflowStrategy, byte_separate, bit_separate, embedded}
use optimap.Raw.Layout.{Layout, HashRegion, IsLayout}

-- The default load factor of `GroupLayout`, 7 / 8, and the default region.
abbrev base : HashFeature → TagKind → OverflowStrategy → ℕ → ℕ → ℕ → ℕ → Bool → HashRegion → Layout
base c t o slot_mask group_size bucket_stride meta_stride separate region = record {
  feature = c;
  tag_kind = t;
  overflow = o;
  slot_mask = slot_mask;
  group_size = group_size;
  bucket_stride = bucket_stride;
  meta_stride = meta_stride;
  separate_overflow = separate;
  group_index_region = region;
  load_factor_num = 7;
  load_factor_den = 8;
}

-- The strategies that take no slot of a group.
pub data Separate : Type 0 where
  byte bit : Separate

abbrev pub strategy : Separate → OverflowStrategy
strategy byte = byte_separate
strategy bit = bit_separate

module _ (c : HashFeature) (t : TagKind) where
  unfoldable pub layout16 : Separate → Layout
  layout16 o = base c t (strategy o) 0xffff 16 16 16 true HashRegion.high

  unfoldable pub layout16_and : Separate → Layout
  layout16_and o = base c t (strategy o) 0xffff 16 16 16 true HashRegion.low

  unfoldable pub layout32 : Separate → Layout
  layout32 o = base c t (strategy o) 0xffff_ffff 32 32 32 true HashRegion.high

  unfoldable pub layout32_and : Separate → Layout
  layout32_and o = base c t (strategy o) 0xffff_ffff 32 32 32 true HashRegion.low

  unfoldable pub layout64 : Separate → Layout
  layout64 o = base c t (strategy o) 0xffff_ffff_ffff_ffff 64 64 64 true HashRegion.high

  unfoldable pub layout64_and : Separate → Layout
  layout64_and o = base c t (strategy o) 0xffff_ffff_ffff_ffff 64 64 64 true HashRegion.low

  -- The embedded layouts: compact and power-of-two bucket strides, each indexed by a shift or by a
  -- mask.
  unfoldable pub layout16_emb_compact : HashRegion → Layout
  layout16_emb_compact region = base c t embedded 0x7fff 15 15 16 false region

  unfoldable pub layout16_emb_p2 : HashRegion → Layout
  layout16_emb_p2 region = base c t embedded 0x7fff 15 16 16 false region

  unfoldable pub layout32_emb_compact : HashRegion → Layout
  layout32_emb_compact region = base c t embedded 0x7fff_ffff 31 31 32 false region

  unfoldable pub layout32_emb_p2 : HashRegion → Layout
  layout32_emb_p2 region = base c t embedded 0x7fff_ffff 31 32 32 false region

  unfoldable pub layout64_emb_compact : HashRegion → Layout
  layout64_emb_compact region = base c t embedded 0x7fff_ffff_ffff_ffff 63 63 64 false region

  unfoldable pub layout64_emb_p2 : HashRegion → Layout
  layout64_emb_p2 region = base c t embedded 0x7fff_ffff_ffff_ffff 63 64 64 false region

-- The families of layouts of the file.
pub data Family : Type 0 where
  plain16 plain16_and plain32 plain32_and plain64 plain64_and : Separate → Family
  emb16 emb16_p2 emb32 emb32_p2 emb64 emb64_p2 : HashRegion → Family

unfoldable pub layout : HashFeature → TagKind → Family → Layout
unfolding layout16 layout16_and layout32 layout32_and layout64 layout64_and layout16_emb_compact
    layout16_emb_p2 layout32_emb_compact layout32_emb_p2 layout64_emb_compact layout64_emb_p2
layout c t (plain16 o) = layout16 c t o
layout c t (plain16_and o) = layout16_and c t o
layout c t (plain32 o) = layout32 c t o
layout c t (plain32_and o) = layout32_and c t o
layout c t (plain64 o) = layout64 c t o
layout c t (plain64_and o) = layout64_and c t o
layout c t (emb16 r) = layout16_emb_compact c t r
layout c t (emb16_p2 r) = layout16_emb_p2 c t r
layout c t (emb32 r) = layout32_emb_compact c t r
layout c t (emb32_p2 r) = layout32_emb_p2 c t r
layout c t (emb64 r) = layout64_emb_compact c t r
layout c t (emb64_p2 r) = layout64_emb_p2 c t r

-- Every layout that the file builds meets what the table needs: its slot mask has one bit for each
-- slot, its slots and its overflow byte fit the metadata of a group and its buckets, and its load
-- limit lies between one pair and the number of slots.
pub layout-IsLayout : (c : HashFeature) (t : TagKind) (f : Family) → IsLayout (layout c t f)
unfolding layout
layout-IsLayout c t (plain16 byte) = omega arith
layout-IsLayout c t (plain16 bit) = omega arith
layout-IsLayout c t (plain16_and byte) = omega arith
layout-IsLayout c t (plain16_and bit) = omega arith
layout-IsLayout c t (plain32 byte) = omega arith
layout-IsLayout c t (plain32 bit) = omega arith
layout-IsLayout c t (plain32_and byte) = omega arith
layout-IsLayout c t (plain32_and bit) = omega arith
layout-IsLayout c t (plain64 byte) = omega arith
layout-IsLayout c t (plain64 bit) = omega arith
layout-IsLayout c t (plain64_and byte) = omega arith
layout-IsLayout c t (plain64_and bit) = omega arith
layout-IsLayout c t (emb16 r) = omega arith
layout-IsLayout c t (emb16_p2 r) = omega arith
layout-IsLayout c t (emb32 r) = omega arith
layout-IsLayout c t (emb32_p2 r) = omega arith
layout-IsLayout c t (emb64 r) = omega arith
layout-IsLayout c t (emb64_p2 r) = omega arith
