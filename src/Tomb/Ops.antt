-- ===== src/Tomb/Ops.antt =====
-- The operations of `RawTableApi` on a tombstone table: src/in_place_overflow/raw/mod.rs.
use optimap.Prelude.{
  ℕ, ◌+◌, ◌-◌, ◌*◌, ◌/◌, ◌%◌, ◌^◌, ◌==◌, ltb, leb, if◌then◌else◌, not, Bool, true, false, Option,
  none, some, ◌&&◌,
}
use optimap.Raw.Bitmask.{to_list, lowest_set_bit}
use optimap.Raw.Group.{first_where}
use optimap.Raw.Key.{Key}
use optimap.Raw.Run.{Run, done, panic, ◌>>=◌}
use optimap.Raw.Table.Ops.{next_power_of_two}
use optimap.Raw.Tag.{TombstoneKind, reduced_hash}
use optimap.Tomb.{
  Table, new, allocate, group_index, meta_ptr, bucket_index, minus, is_allocated, group_size,
  max_load_for_capacity, write_slot, fill_slot, zero_meta, tombstone,
}
use optimap.Tomb.Find.{key_test, find_by_hash}
use optimap.Tomb.Group.{match_byte_and_empty}
use optimap.Tomb.Insert.{insert_no_check}
use optimap.Tomb.Rehash.{rehash_with, grow_or_rehash}

-- The products and sums wrap around, as in a build without overflow checks.
unfoldable pub groups_for_capacity : ℕ → ℕ
groups_for_capacity capacity =
    let min_slots = (capacity * 8 + 7 - 1) % 2 ^ 64 / 7 in
    next_power_of_two ((min_slots + group_size - 1) % 2 ^ 64 / group_size)

module _ {ℓ} {K V : Type ℓ} where
  unfoldable pub with_capacity : ℕ → Table K V
  with_capacity capacity =
      if capacity == 0 then new else allocate new (groups_for_capacity capacity)

  unfoldable pub clear : Table K V → Table K V
  clear t = if not (is_allocated t) then t else record t {
    ctrl = zero_meta (t.mask + 1) t.ctrl;
    buckets = λ i. none;
    len = 0;
    growth_left = max_load_for_capacity ((t.mask + 1) * group_size);
  }

  -- `std::mem::replace(v, value)` through `value_ptr`: the old value, and the table.
  unfoldable pub replace_value : Table K V → ℕ → ℕ → V → Option V × Table K V
  replace_value t gi si value = elim (t.buckets (bucket_index gi si)) [
    | none ↦ (none, t)
    | some (k, old) ↦ (
      some old,
      record t { buckets = λ i. if i == bucket_index gi si then some (k, value) else t.buckets i },
    )
  ]

  -- The pair leaves its bucket, the slot gets the tag TOMBSTONE, `self.len -= 1`.
  unfoldable pub erase_slot : Table K V → ℕ → ℕ → Run (Table K V)
  erase_slot t gi si = do
    len ← minus t.len 1
    done (record (write_slot t gi si tombstone none) { len = len })

  module _ (tag : TombstoneKind) where
    unfoldable pub remove_by_hash : Table K V → ℕ → (K → Bool) → Run (Option (K × V) × Table K V)
    remove_by_hash t h eq = do
      found ← find_by_hash tag t h eq
      elim found [
        | none ↦ done (none, t)
        | some (gi, si) ↦ do t' ← erase_slot t gi si; done (t.buckets (bucket_index gi si), t')
      ]

    module _ ⦃key : Key K⦄ where
      unfoldable pub get : Table K V → K → Run (Option V)
      get t k = do
        found ← find_by_hash tag t (key.hash k) (key.equal k)
        elim found [
          | none ↦ done none
          | some (gi, si) ↦ elim (t.buckets (bucket_index gi si)) [
            | none ↦ done none
            | some (k', v) ↦ done (some v)
          ]
        ]

      unfoldable pub ensure_capacity : Table K V → Run (Table K V)
      ensure_capacity t = if t.growth_left == 0 then grow_or_rehash tag t else done t

      -- The search, the growth and the insertion that end `insert_or_replace`; `grow` is the test
      -- for growing.
      unfoldable pub replace_or_insert : Table K V → K → V → Bool → Run (Option V × Table K V)
      replace_or_insert t k v grow = do
        found ← find_by_hash tag t (key.hash k) (key.equal k)
        elim found [
          | some (gi, si) ↦ done (replace_value t gi si v)
          | none ↦ do
            t' ← if grow then grow_or_rehash tag t else done t
            (t'', pos) ← insert_no_check tag t' (key.hash k) k v
            done (none, t'')
        ]

      -- The part below the test of `growth_left`.
      unfoldable pub insert_fast : Table K V → K → V → Run (Option V × Table K V)
      insert_fast t k v =
          let reduced = reduced_hash tag (key.hash k) in
          let gi = group_index t (key.hash k) in
          let (matches, empties) = match_byte_and_empty t.ctrl (meta_ptr gi) reduced in
          elim (first_where (to_list matches) (key_test tag t (key.equal k) gi)) [
            | some si ↦ done (replace_value t gi si v)
            | none ↦ elim (lowest_set_bit empties) [
              | some si ↦ do t' ← fill_slot t gi si reduced k v true; done (none, t')
              | none ↦ replace_or_insert t k v (t.growth_left == 0)
            ]
          ]

      unfoldable pub insert_or_replace : Table K V → K → V → Run (Option V × Table K V)
      insert_or_replace t k v =
          let t' = if not (is_allocated t) then allocate t 1 else t in
          if t'.growth_left == 0 then replace_or_insert t' k v true else insert_fast t' k v

      -- The value's place, and whether the pair is new.
      unfoldable pub insert_with_rehash : Table K V → K → V → Run ((ℕ × ℕ) × Bool × Table K V)
      insert_with_rehash t k v = do
        let t' = if not (is_allocated t) then allocate t 1 else t
        found ← find_by_hash tag t' (key.hash k) (key.equal k)
        elim found [
          | some pos ↦ done (pos, false, t')
          | none ↦ do
            t'' ← if t'.growth_left == 0 then grow_or_rehash tag t' else done t'
            (u, pos) ← insert_no_check tag t'' (key.hash k) k v
            done (pos, true, u)
        ]

      unfoldable pub remove : Table K V → K → Run (Option V × Table K V)
      remove t k = if not (is_allocated t) then done (none, t) else (do
        (pair, t') ← remove_by_hash t (key.hash k) (key.equal k)
        elim pair [ none ↦ done (none, t') | some (k', v) ↦ done (some v, t') ])

      -- `checked_add(..).expect(..)`
      unfoldable pub reserve : Table K V → ℕ → Run (Table K V)
      reserve t additional =
          let needed = t.len + additional in
          if leb (2 ^ 64) needed
          then panic
          else if not (is_allocated t)
          then (if ltb 0 additional then done (allocate t (groups_for_capacity needed)) else done t)
          else (if ltb (max_load_for_capacity ((t.mask + 1) * group_size)) needed
                && ltb (t.mask + 1) (groups_for_capacity needed)
              then rehash_with tag t (groups_for_capacity needed)
              else done t)

      unfoldable pub shrink_to_fit : Table K V → Run (Table K V)
      shrink_to_fit t =
          if t.len == 0
          then done new
          else (if ltb (groups_for_capacity t.len) (t.mask + 1)
              then rehash_with tag t (groups_for_capacity t.len)
              else done t)
