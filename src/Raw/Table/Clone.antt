-- ===== src/Raw/Table/Clone.antt =====
-- Copying a table: `clone_table` of src/raw/overflow_table.rs. `clone_pair` is the `Clone` of keys and
-- values, which is not part of the crate.
use optimap.Prelude.{
  ℕ, zero, suc, ◌+◌, ◌-◌, ◌*◌, ◌≤◌, ◌<◌, ◌==◌, ◌≡◌, ltb, if◌then◌else◌, false, Option, none, some,
  List, [], ◌∷◌, refl, arith, lt→ltb,
}
use optimap.Prelude.Mod.{addr-lt}
use optimap.Raw.Group.{Bytes}
use optimap.Raw.Layout.{Layout, IsLayout, bucket_index}
use optimap.Raw.Layout.Memory.{tag_at, has_at}
use optimap.Raw.Overflow.{
  OverflowStrategy, byte_separate, bit_separate, embedded, overflow_bytes_to_copy, overflow_ptr,
  has_overflow,
}
use optimap.Raw.Table.{Table, new, allocate, set_bucket}
use optimap.Raw.Table.Rehash.{occupied_slots}

unfoldable pub bytes_to_copy_total : Layout → ℕ → ℕ
bytes_to_copy_total l num_groups =
    num_groups * l.meta_stride + overflow_bytes_to_copy l.overflow num_groups

-- `ptr::copy_nonoverlapping(self.ctrl, new_table.ctrl, copy_size)`
unfoldable pub copy_ctrl : ℕ → Bytes → Bytes → Bytes
copy_ctrl copy_size from to a = if ltb a copy_size then from a else to a

module _ {ℓ} {K V : Type ℓ} (l : Layout) (clone_pair : K × V → K × V) where
  pub clone_bucket : Option (K × V) → Option (K × V)
  clone_bucket none = none
  clone_bucket (some p) = some (clone_pair p)

  -- The inner loop: `S::clone_slot` of each occupied slot of a group.
  unfoldable pub clone_slots : Table K V → ℕ → List ℕ → (ℕ → Option (K × V)) → ℕ → Option (K × V)
  clone_slots t gi [] b = b
  clone_slots t gi (si ∷ sis) b =
      clone_slots t gi sis
        (set_bucket b (bucket_index l gi si) (clone_bucket (t.buckets (bucket_index l gi si))))

  unfoldable pub clone_groups : Table K V → ℕ → ℕ → (ℕ → Option (K × V)) → ℕ → Option (K × V)
  unfolding clone_slots
  clone_groups t gi zero b = b
  clone_groups t gi (suc n) b =
      clone_groups t (gi + 1) n (clone_slots t gi (occupied_slots l t gi) b)

  unfoldable pub clone_table : Table K V → Table K V
  unfolding clone_groups copy_ctrl bytes_to_copy_total
  clone_table t =
      if t.max_load == 0
      then new
      else let fresh = allocate l (new {K = K} {V = V}) (t.mask + 1) in
        record fresh {
          ctrl = copy_ctrl (bytes_to_copy_total l (t.mask + 1)) t.ctrl fresh.ctrl;
          buckets = clone_groups t 0 (t.mask + 1) fresh.buckets;
          len = t.len;
          max_load = t.max_load;
        }

-- Every overflow byte is copied.
overflow_copied :
    (o : OverflowStrategy) (mask stride gi : ℕ)
    → gi ≤ mask
    → 0 < stride
    → overflow_ptr o mask gi stride < (mask + 1) * stride + overflow_bytes_to_copy o (mask + 1)
unfolding overflow_ptr overflow_bytes_to_copy
overflow_copied byte_separate mask stride gi h p = omega arith
overflow_copied bit_separate mask stride gi h p = omega arith
overflow_copied embedded mask stride gi h p =
    omega (arith, addr-lt stride (mask + 1) gi (stride - 1) (omega arith) (omega arith))

module _ {ℓ} {K V : Type ℓ} (l : Layout) (ok : IsLayout l) (clone_pair : K × V → K × V)
    (t : Table K V) (some_load : (t.max_load == 0) ≡ false) where
  clone-ctrl :
      (a : ℕ)
      → a < (t.mask + 1) * l.meta_stride + overflow_bytes_to_copy l.overflow (t.mask + 1)
      → (clone_table l clone_pair t).ctrl a ≡ t.ctrl a
  unfolding clone_table copy_ctrl bytes_to_copy_total
  clone-ctrl a h = rw (some_load, lt→ltb a _ h) refl

  clone-mask : (clone_table l clone_pair t).mask ≡ t.mask
  unfolding clone_table allocate
  clone-mask = rw some_load (omega arith)

  -- The clone of an allocated table has the mask of the table, and every tag and every overflow bit
  -- of it.
  pub clone_table-tags :
      ((clone_table l clone_pair t).mask ≡ t.mask)
      × ((gi si : ℕ)
          → gi ≤ t.mask
          → si < l.group_size
          → tag_at l (clone_table l clone_pair t).ctrl gi si ≡ tag_at l t.ctrl gi si)
      × ((gi h : ℕ)
          → gi ≤ t.mask
          → has_at l t.mask (clone_table l clone_pair t).ctrl gi h ≡ has_at l t.mask t.ctrl gi h)
  unfolding tag_at has_at has_overflow
  clone_table-tags = (
    clone-mask,
    λ gi si p q. clone-ctrl (gi * l.meta_stride + si) (
        omega (
          arith,
          addr-lt l.meta_stride (t.mask + 1) gi si (omega arith) (omega (arith, ok.slots_fit)),
        )),
    λ gi h p.
        rw
          (clone-ctrl (overflow_ptr l.overflow t.mask gi l.meta_stride) (
            overflow_copied l.overflow t.mask l.meta_stride gi p
              (omega (arith, ok.slots_fit, ok.slots_pos))))
          refl,
  )
