-- ===== src/Raw/Table.antt =====
-- The overflow-bit hash table: `RawTable` of src/raw/overflow_table.rs. `ctrl` is the byte memory
-- of the metadata and the overflow bits, `buckets` the key-value storage, where `none` is a bucket
-- that holds no live pair.
pub mod Find
pub mod Insert
pub mod Rehash
pub mod Ops
pub mod Entry
pub mod Clone
pub mod Iter
pub mod Inv
pub mod Walk
pub mod Fresh
use optimap.Prelude.{
  ℕ, ◌+◌, ◌-◌, ◌*◌, ◌/◌, ◌%◌, ◌^◌, ◌==◌, ltb, bit_and, if◌then◌else◌, Bool, true, false, Option,
  none, some,
}
use optimap.Raw.Bitmask.{trailing_zeros}
use optimap.Raw.Group.{Bytes}
use optimap.Raw.Overflow.{overflow_bytes_to_zero}
use optimap.Raw.Layout.{Layout, HashRegion, bucket_index}
use optimap.Raw.Layout.Memory.{put_tag, put_overflow}

pub record Table {ℓ} (K V : Type ℓ) : Type ℓ where
  pub mask : ℕ
  pub ctrl : Bytes
  pub buckets : ℕ → Option (K × V)
  pub len : ℕ
  pub max_load : ℕ
  pub shift : ℕ

unfoldable pub max_load_for_capacity : ℕ → ℕ → ℕ → ℕ
max_load_for_capacity capacity num den = capacity * num / den

-- What a byte of a new allocation holds until it is written, and a byte past the end of a static.
abbrev pub uninit : ℕ
uninit = 0xa5

-- `EMPTY_SENTINEL`: 64 bytes.
unfoldable pub empty_sentinel : Bytes
empty_sentinel a = if ltb a 64 then 0 else uninit

-- `ptr::write_bytes` over the metadata and the overflow bytes.
unfoldable pub zero_ctrl : Layout → ℕ → Bytes → Bytes
zero_ctrl l num_groups m a =
    if ltb a (num_groups * l.meta_stride + overflow_bytes_to_zero l.overflow num_groups)
    then 0
    else m a

module _ {ℓ} {K V : Type ℓ} where
  unfoldable pub new : Table K V
  unfolding empty_sentinel
  new = record {
    mask = 0;
    ctrl = empty_sentinel;
    buckets = λ i. none;
    len = 0;
    max_load = 0;
    shift = 64;
  }

  unfoldable pub allocate : Layout → Table K V → ℕ → Table K V
  unfolding max_load_for_capacity
  allocate l t num_groups = record {
    mask = num_groups - 1;
    ctrl = zero_ctrl l num_groups (λ a. uninit);
    buckets = λ i. none;
    len = t.len;
    max_load =
        max_load_for_capacity (num_groups * l.group_size) l.load_factor_num l.load_factor_den;
    shift = (64 + 2 ^ 32 - trailing_zeros num_groups) % 2 ^ 32;
  }

  -- `wrapping_shr` takes the shift modulo 64.
  unfoldable pub group_index : Layout → Table K V → ℕ → ℕ
  group_index l t h = elim l.group_index_region [
    | HashRegion.low ↦ bit_and h t.mask
    | HashRegion.high ↦ bit_and (h / 2 ^ (t.shift % 64)) t.mask
  ]

  -- `S::write`, `S::read` and a write through `value_ptr` change one bucket.
  unfoldable pub set_bucket : (ℕ → Option (K × V)) → ℕ → Option (K × V) → ℕ → Option (K × V)
  set_bucket b i e j = if j == i then e else b j

  -- `set_meta` and `S::write` of an insertion, and `self.len += 1`.
  unfoldable pub fill_slot : Layout → Table K V → ℕ → ℕ → ℕ → K → V → Table K V
  fill_slot l t gi si reduced key value = record t {
    ctrl = put_tag l t.ctrl gi si reduced;
    buckets = set_bucket t.buckets (bucket_index l gi si) (some (key, value));
    len = t.len + 1;
  }

  -- `self.set_overflow_bit(gi, L::Tag::overflow_channel(h))`
  unfoldable pub mark_overflow : Layout → Table K V → ℕ → ℕ → Table K V
  mark_overflow l t gi h = record t { ctrl = put_overflow l t.mask t.ctrl gi h }

  unfoldable pub num_groups : Table K V → ℕ
  num_groups t = t.mask + 1

  unfoldable pub capacity : Layout → Table K V → ℕ
  capacity l t = if ltb 0 t.max_load then (t.mask + 1) * l.group_size else 0

  unfoldable pub is_allocated : Table K V → Bool
  is_allocated t = ltb 0 t.max_load
