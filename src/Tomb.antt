-- ===== src/Tomb.antt =====
-- The tombstone table: `RawTable` of src/in_place_overflow/raw/mod.rs, with groups of 16 slots. A
-- removal leaves the tag TOMBSTONE, a search ends at a group with an EMPTY slot, and `growth_left`
-- bounds the slots that still may lose the tag EMPTY. `ctrl` is the byte memory of the metadata,
-- `buckets` the key-value storage, where `none` is a bucket that holds no live pair.
pub mod Group
pub mod Find
pub mod Insert
pub mod Locate
pub mod Rehash
pub mod Ops
pub mod Inv
pub mod Write
pub mod Fill
pub mod Change
pub mod Search
pub mod Place
pub mod Resize
pub mod Fresh
pub mod Moved
pub mod Regrow
pub mod View
pub mod Erase
pub mod Store
pub mod Probing
pub mod Laws
pub mod Reserve
pub mod Drain
pub mod Backend
pub mod Refines
use optimap.Prelude.{
  ℕ, ◌+◌, ◌-◌, ◌*◌, ◌/◌, ◌==◌, ltb, leb, bit_and, if◌then◌else◌, Bool, Option, none, some,
}
use optimap.Raw.Group.{Bytes, set_meta}
use optimap.Raw.Run.{Run, done, panic, ◌>>=◌}

pub record Table {ℓ} (K V : Type ℓ) : Type ℓ where
  pub mask : ℕ
  pub ctrl : Bytes
  pub buckets : ℕ → Option (K × V)
  pub len : ℕ
  pub growth_left : ℕ
  pub max_load : ℕ

abbrev pub group_size : ℕ
group_size = 16

abbrev pub tombstone : ℕ
tombstone = 1

unfoldable pub max_load_for_capacity : ℕ → ℕ
max_load_for_capacity capacity = capacity * 7 / 8

-- `EMPTY_SENTINEL`, whose bytes stand for every address of a table without allocation.
abbrev pub empty_sentinel : Bytes
empty_sentinel a = 0

-- What a byte of a new allocation holds until it is written; the code does not rely on it.
abbrev pub uninit : ℕ
uninit = 0xa5

-- `ptr::write_bytes(self.ctrl, 0, meta_size)`
unfoldable pub zero_meta : ℕ → Bytes → Bytes
zero_meta num_groups m a = if ltb a (num_groups * group_size) then 0 else m a

-- `a -= b` on usize: an overflow is a panic.
unfoldable pub minus : ℕ → ℕ → Run ℕ
minus a b = if leb b a then done (a - b) else panic

abbrev pub meta_ptr : ℕ → ℕ
meta_ptr gi = gi * group_size

-- `(gi << 4) | si`, for a slot below 16
unfoldable pub bucket_index : ℕ → ℕ → ℕ
bucket_index gi si = gi * group_size + si

module _ {ℓ} {K V : Type ℓ} where
  unfoldable pub new : Table K V
  new = record {
    mask = 0;
    ctrl = empty_sentinel;
    buckets = λ i. none;
    len = 0;
    growth_left = 0;
    max_load = 0;
  }

  unfoldable pub allocate : Table K V → ℕ → Table K V
  unfolding max_load_for_capacity zero_meta
  allocate t num_groups = record {
    mask = num_groups - 1;
    ctrl = zero_meta num_groups (λ a. uninit);
    buckets = λ i. none;
    len = t.len;
    growth_left = max_load_for_capacity (num_groups * group_size);
    max_load = max_load_for_capacity (num_groups * group_size);
  }

  unfoldable pub group_index : Table K V → ℕ → ℕ
  group_index t h = bit_and h t.mask

  unfoldable pub is_allocated : Table K V → Bool
  is_allocated t = ltb 0 t.max_load

  unfoldable pub capacity : Table K V → ℕ
  unfolding is_allocated
  capacity t = if is_allocated t then (t.mask + 1) * group_size else 0

  -- `Group::set_meta` and `S::write`, `S::read` or a write through `value_ptr`, at one slot.
  unfoldable pub write_slot : Table K V → ℕ → ℕ → ℕ → Option (K × V) → Table K V
  write_slot t gi si value e = record t {
    ctrl = set_meta t.ctrl (meta_ptr gi) si value;
    buckets = λ i. if i == bucket_index gi si then e else t.buckets i;
  }

  -- The write of an insertion, with `self.len += 1` and, where the slot was EMPTY,
  -- `self.growth_left -= 1`.
  unfoldable pub fill_slot : Table K V → ℕ → ℕ → ℕ → K → V → Bool → Run (Table K V)
  unfolding write_slot minus
  fill_slot t gi si reduced key value decrement = do
    left ← if decrement then minus t.growth_left 1 else done t.growth_left
    done (record (write_slot t gi si reduced (some (key, value))) {
      len = t.len + 1;
      growth_left = left;
    })
