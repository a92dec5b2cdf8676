-- ===== src/Raw/Tag.antt =====
-- Hash tags and overflow channels: src/raw/tag_strategy.rs, and `hash_tag` of src/lib.rs.
-- A hash is a number below 2 ^ 64, a byte a number below 256.
pub mod Bounds
use optimap.Prelude.{
  ℕ, ◌+◌, ◌/◌, ◌%◌, ◌^◌, ◌*◌, bit_and, bit_or, bit_xor, ltb, ◌==◌, if◌then◌else◌, to_nat,
}

-- The cfg of `hash_tag`: which crate feature picks the reduction.
pub data HashFeature : Type 0 where
  reduced_hash_128 reduced_hash_asm pure_rust : HashFeature

-- `h as u8`
abbrev pub as_u8 : ℕ → ℕ
as_u8 h = h % 256

abbrev pub shr : ℕ → ℕ → ℕ
shr h k = h / 2 ^ k

-- `b | (b == 0) as u8`
pub reduce_255_pure : ℕ → ℕ
reduce_255_pure b = bit_or b (to_nat (b == 0))

-- `cmp b, 0xFF; adc b, 0` adds the carry of `b < 0xFF`.
pub reduce_255_asm : ℕ → ℕ
reduce_255_asm b = b + to_nat (ltb b 0xff)

unfoldable pub hash_tag : HashFeature → ℕ → ℕ
unfolding reduce_255_pure reduce_255_asm
hash_tag reduced_hash_128 h = bit_or (as_u8 h) 1
hash_tag reduced_hash_asm h = reduce_255_asm (as_u8 h)
hash_tag pure_rust h = reduce_255_pure (bit_and h 0xff)

-- The mixer of src/raw/hash.rs for hashers without avalanche, `wrapping_mul` and a shift.
unfoldable pub mix_hash : ℕ → ℕ
mix_hash h = let mixed = h * 0x9e3779b97f4a7c15 % 2 ^ 64 in bit_xor mixed (shr mixed 32)

-- The implementations of `TagStrategy`.
pub data TagKind : Type 0 where
  low_tag255 low_tag255_ch_safe low_tag128 : TagKind
  high_tag128 high_tag255 high_tag128_ch_safe high_tag255_ch_safe : TagKind
  low_tag255_pure low_tag255_ch_safe_pure high_tag255_pure high_tag255_ch_safe_pure : TagKind

-- `TagStrategy::tag`
unfoldable pub tag : HashFeature → TagKind → ℕ → ℕ
unfolding hash_tag
tag c low_tag255 h = hash_tag c h
tag c low_tag255_ch_safe h = hash_tag c (shr h 8)
tag c low_tag128 h = bit_or (as_u8 h) 1
tag c high_tag128 h = bit_or (as_u8 (shr h 56)) 0x80
tag c high_tag255 h = hash_tag c (shr h 56)
tag c high_tag128_ch_safe h = bit_or (as_u8 (shr h 56)) 0x80
tag c high_tag255_ch_safe h = hash_tag c (shr h 56)
tag c low_tag255_pure h = reduce_255_pure (as_u8 h)
tag c low_tag255_ch_safe_pure h = reduce_255_pure (as_u8 (shr h 8))
tag c high_tag255_pure h = reduce_255_pure (as_u8 (shr h 56))
tag c high_tag255_ch_safe_pure h = reduce_255_pure (as_u8 (shr h 56))

-- The exponent in `1u8 << (h & 7)`, or in the shifted `1u8 << ((h >> 48) & 7)`.
unfoldable pub channel_index : TagKind → ℕ → ℕ
channel_index high_tag128_ch_safe h = bit_and (shr h 48) 7
channel_index high_tag255_ch_safe h = bit_and (shr h 48) 7
channel_index high_tag255_ch_safe_pure h = bit_and (shr h 48) 7
channel_index k h = bit_and h 7

-- `TagStrategy::overflow_channel`
unfoldable pub overflow_channel : TagKind → ℕ → ℕ
unfolding channel_index
overflow_channel k h = 2 ^ channel_index k h

-- The implementations of `TombstoneTag`.
pub data TombstoneKind : Type 0 where
  low_tomb tomb_high_tag128 high_tomb : TombstoneKind

-- `if b < 2 { b + 2 } else { b }`
above_sentinels : ℕ → ℕ
above_sentinels b = if ltb b 2 then b + 2 else b

-- `TombstoneTag::reduced_hash`
unfoldable pub reduced_hash : TombstoneKind → ℕ → ℕ
unfolding above_sentinels
reduced_hash low_tomb h = above_sentinels (as_u8 h)
reduced_hash tomb_high_tag128 h = bit_or (as_u8 (shr h 56)) 0x80
reduced_hash high_tomb h = above_sentinels (as_u8 (shr h 56))
