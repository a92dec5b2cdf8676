-- ===== src/Raw/Tag/Bounds.antt =====
-- The values of tags and channels: src/raw/tag_strategy.rs.
use optimap.Prelude.{ℕ, ◌/◌, ◌^◌, ◌<◌, ◌≤◌, ◌≡◌, refl, ◌&&◌, true, arith, ltb, leb, bit_or, bit_and}
use optimap.Prelude.Bits.{holds_below, holds_below-true, bit_and_mask}
use optimap.Raw.Tag.{
  HashFeature, TagKind, TombstoneKind, tag, hash_tag, channel_index, reduced_hash, reduce_255_pure,
  as_u8,
}

pure_table : holds_below (λ b. ltb 0 (reduce_255_pure b) && ltb (reduce_255_pure b) 256) 256 ≡ true
unfolding holds_below reduce_255_pure
pure_table = refl

or_one_table : holds_below (λ b. ltb 0 (bit_or b 1) && ltb (bit_or b 1) 256) 256 ≡ true
unfolding holds_below
or_one_table = refl

or_high_table : holds_below (λ b. leb 2 (bit_or b 0x80) && ltb (bit_or b 0x80) 256) 256 ≡ true
unfolding holds_below
or_high_table = refl

pure_bounds : (b : ℕ) → b < 256 → (0 < reduce_255_pure b) × (reduce_255_pure b < 256)
pure_bounds b h = ground (arith, holds_below-true _ 256 b h pure_table)

or_one_bounds : (b : ℕ) → b < 256 → (0 < bit_or b 1) × (bit_or b 1 < 256)
or_one_bounds b h = ground (arith, holds_below-true _ 256 b h or_one_table)

or_high_bounds : (b : ℕ) → b < 256 → (2 ≤ bit_or b 0x80) × (bit_or b 0x80 < 256)
or_high_bounds b h = ground (arith, holds_below-true _ 256 b h or_high_table)

hash_tag_bounds : (c : HashFeature) (h : ℕ) → (0 < hash_tag c h) × (hash_tag c h < 256)
unfolding hash_tag
hash_tag_bounds HashFeature.reduced_hash_128 h = or_one_bounds (as_u8 h) (omega arith)
hash_tag_bounds HashFeature.reduced_hash_asm h = ground arith
hash_tag_bounds HashFeature.pure_rust h = pure_bounds _ (rw (bit_and_mask 8 h) (omega arith))

-- The tag of every strategy, under every crate feature and for every hash, is a byte other than
-- EMPTY (0).
pub tag_bounds : (c : HashFeature) (k : TagKind) (h : ℕ) → (0 < tag c k h) × (tag c k h < 256)
unfolding tag
tag_bounds c TagKind.low_tag255 h = hash_tag_bounds c h
tag_bounds c TagKind.low_tag255_ch_safe h = hash_tag_bounds c _
tag_bounds c TagKind.low_tag128 h = or_one_bounds (as_u8 h) (omega arith)
tag_bounds c TagKind.high_tag128 h =
    let (a, b) = or_high_bounds (as_u8 (h / 2 ^ 56)) (omega arith) in (omega arith, b)
tag_bounds c TagKind.high_tag255 h = hash_tag_bounds c _
tag_bounds c TagKind.high_tag128_ch_safe h =
    let (a, b) = or_high_bounds (as_u8 (h / 2 ^ 56)) (omega arith) in (omega arith, b)
tag_bounds c TagKind.high_tag255_ch_safe h = hash_tag_bounds c _
tag_bounds c TagKind.low_tag255_pure h = pure_bounds (as_u8 h) (omega arith)
tag_bounds c TagKind.low_tag255_ch_safe_pure h = pure_bounds (as_u8 (h / 2 ^ 8)) (omega arith)
tag_bounds c TagKind.high_tag255_pure h = pure_bounds (as_u8 (h / 2 ^ 56)) (omega arith)
tag_bounds c TagKind.high_tag255_ch_safe_pure h = pure_bounds (as_u8 (h / 2 ^ 56)) (omega arith)

and_seven : (h : ℕ) → bit_and h 7 < 8
and_seven h = rw (bit_and_mask 3 h) (omega arith)

-- An overflow channel is one of the eight bits of a byte.
pub channel_index-lt : (k : TagKind) (h : ℕ) → channel_index k h < 8
unfolding channel_index
channel_index-lt TagKind.high_tag128_ch_safe h = and_seven _
channel_index-lt TagKind.high_tag255_ch_safe h = and_seven _
channel_index-lt TagKind.high_tag255_ch_safe_pure h = and_seven _
channel_index-lt _ h = and_seven h

-- The tag of every tombstone strategy is a byte other than EMPTY (0) and TOMBSTONE (1).
pub reduced_hash_bounds :
    (k : TombstoneKind) (h : ℕ) → (2 ≤ reduced_hash k h) × (reduced_hash k h < 256)
unfolding reduced_hash
reduced_hash_bounds TombstoneKind.low_tomb h = ground arith
reduced_hash_bounds TombstoneKind.tomb_high_tag128 h =
    or_high_bounds (as_u8 (h / 2 ^ 56)) (omega arith)
reduced_hash_bounds TombstoneKind.high_tomb h = ground arith
