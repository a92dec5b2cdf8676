-- ===== src/Raw/Table/Ops.antt =====
-- The operations of `RawTableApi` on an overflow-bit table: src/raw/overflow_table.rs.
pub mod Valid
pub mod Empty
pub mod Capacity
pub mod Ensure
pub mod Shrink
pub mod Cold
pub mod Insert
pub mod Remove
pub mod Replace
use optimap.Prelude.{
  ℕ, zero, suc, ◌+◌, ◌-◌, ◌*◌, ◌/◌, ◌%◌, ◌^◌, ◌==◌, ltb, leb, if◌then◌else◌, Bool, true, false, not,
  ◌&&◌, Option, none, some, List, [], ◌∷◌, ◌++◌, map,
}
use optimap.Raw.Bitmask.{lowest_set_bit, to_list}
use optimap.Raw.Group.{empty, match_byte_and_empty, first_where}
use optimap.Raw.Key.{Key}
use optimap.Raw.Layout.{Layout, bucket_index}
use optimap.Raw.Layout.Memory.{meta_ptr, has_at, put_tag}
use optimap.Raw.Run.{Run, done, spin, panic, ◌>>=◌}
use optimap.Raw.Table.{
  Table, new, allocate, group_index, set_bucket, fill_slot, max_load_for_capacity, zero_ctrl,
}
use optimap.Raw.Table.Find.{find_by_hash, key_test}
use optimap.Raw.Table.Insert.{insert_no_check}
use optimap.Raw.Table.Rehash.{rehash_with, grow_and_rehash, occupied_slots}
use optimap.Raw.Tag.{tag}

-- `next_power_of_two`: the first of p, 2p, 4p, … that is at least `x`.
unfoldable pub power_from : ℕ → ℕ → ℕ → ℕ
power_from zero p x = p
power_from (suc f) p x = let rest = power_from f (2 * p) x in if leb x p then p else rest

unfoldable pub next_power_of_two : ℕ → ℕ
unfolding power_from
next_power_of_two x = power_from 64 1 x

-- The products and sums wrap around, as in a build without overflow checks.
unfoldable pub groups_for_capacity : Layout → ℕ → ℕ
unfolding next_power_of_two
groups_for_capacity l capacity =
    let min_slots =
      (capacity * l.load_factor_den + l.load_factor_num - 1) % 2 ^ 64 / l.load_factor_num in
    next_power_of_two ((min_slots + l.group_size - 1) % 2 ^ 64 / l.group_size)

module _ {ℓ} {K V : Type ℓ} (l : Layout) where
  unfoldable pub with_capacity : ℕ → Table K V
  unfolding groups_for_capacity allocate new
  with_capacity capacity =
      if capacity == 0 then new else allocate l new (groups_for_capacity l capacity)

  unfoldable pub clear : Table K V → Table K V
  unfolding max_load_for_capacity
  clear t = if t.max_load == 0 then t else record t {
    ctrl = zero_ctrl l (t.mask + 1) t.ctrl;
    buckets = λ i. none;
    len = 0;
    max_load =
        max_load_for_capacity ((t.mask + 1) * l.group_size) l.load_factor_num l.load_factor_den;
  }

  -- `std::mem::replace(v, value)` through `value_ptr`: the old value, and the table.
  unfoldable pub replace_value : Table K V → ℕ → ℕ → V → Option V × Table K V
  replace_value t gi si value = elim (t.buckets (bucket_index l gi si)) [
    | none ↦ (none, t)
    | some (k, old) ↦ (
      some old,
      record t { buckets = set_bucket t.buckets (bucket_index l gi si) (some (k, value)) },
    )
  ]

  -- The table without the pair of a slot.
  unfoldable pub vacate : Table K V → ℕ → ℕ → ℕ → Table K V
  vacate t h gi si = record t {
    ctrl = put_tag l t.ctrl gi si empty;
    buckets = set_bucket t.buckets (bucket_index l gi si) none;
    len = t.len - 1;
    max_load =
        if has_at l t.mask (put_tag l t.ctrl gi si empty) (group_index l t h) h
        then t.max_load - 1
        else t.max_load;
  }

  -- The tail of `remove_by_hash`, and all of `erase_slot` but for the bucket. `self.len -= 1` panics
  -- at 0.
  unfoldable pub erase_slot : Table K V → ℕ → ℕ → ℕ → Run (Table K V)
  erase_slot t h gi si = if t.len == 0 then panic else done (vacate t h gi si)

  unfoldable pub remove_by_hash : Table K V → ℕ → (K → Bool) → Run (Option (K × V) × Table K V)
  remove_by_hash t h eq = do
    found ← find_by_hash l t h eq
    elim found [
      | none ↦ done (none, t)
      | some (gi, si) ↦ do t' ← erase_slot t h gi si; done (t.buckets (bucket_index l gi si), t')
    ]

  -- All that `iter_slots` yields: the occupied slots of the `n` groups from `gi` on.
  unfoldable pub positions_from : Table K V → ℕ → ℕ → List (ℕ × ℕ)
  positions_from t gi zero = []
  positions_from t gi (suc n) =
      map (λ si. (gi, si)) (occupied_slots l t gi) ++ positions_from t (gi + 1) n

  unfoldable pub occupied_positions : Table K V → List (ℕ × ℕ)
  unfolding positions_from
  occupied_positions t =
      if t.max_load == 0 then positions_from t 1 t.mask else positions_from t 0 (t.mask + 1)

  module _ ⦃key : Key K⦄ where
    -- The two cold paths share the search for the key; `grow` is the test for growing.
    unfoldable pub replace_or_insert : Table K V → K → V → Bool → Run (Option V × Table K V)
    replace_or_insert t k v grow = do
      found ← find_by_hash l t (key.hash k) (key.equal k)
      elim found [
        | some (gi, si) ↦ done (replace_value t gi si v)
        | none ↦ do
          t' ← if grow then grow_and_rehash l t else done t
          (t'', pos) ← insert_no_check l t' (key.hash k) k v
          done (none, t'')
      ]

    unfoldable pub insert_overflow : Table K V → K → V → Run (Option V × Table K V)
    unfolding replace_or_insert
    insert_overflow t k v = replace_or_insert t k v (leb t.max_load t.len)

    unfoldable pub insert_at_capacity : Table K V → K → V → Run (Option V × Table K V)
    unfolding replace_or_insert
    insert_at_capacity t k v = replace_or_insert t k v true

    -- The part of `insert_or_replace` below the allocation and the test of the load.
    unfoldable pub insert_fast : Table K V → K → V → Run (Option V × Table K V)
    insert_fast t k v =
        let h = key.hash k in
        let reduced = tag l.feature l.tag_kind h in
        let gi = group_index l t h in
        let (matches, empties) =
          match_byte_and_empty l.meta_stride l.slot_mask t.ctrl (meta_ptr l gi) reduced in
        elim (first_where (to_list matches) (key_test l t (key.equal k) gi)) [
          | some si ↦ done (replace_value t gi si v)
          | none ↦ elim (lowest_set_bit empties) [
            | none ↦ insert_overflow t k v
            | some si ↦
                if not (has_at l t.mask t.ctrl gi h)
                then done (none, fill_slot l t gi si reduced k v)
                else insert_overflow t k v
          ]
        ]

    unfoldable pub insert_or_replace : Table K V → K → V → Run (Option V × Table K V)
    insert_or_replace t k v =
        let t' = if t.max_load == 0 then allocate l t 1 else t in
        if leb t'.max_load t'.len then insert_at_capacity t' k v else insert_fast t' k v

    unfoldable pub ensure_capacity : Table K V → Run (Table K V)
    ensure_capacity t =
        if leb t.max_load t.len
        then rehash_with l t (if t.max_load == 0 then 1 else (t.mask + 1) * 2)
        else done t

    -- `checked_add(..).expect(..)`
    unfoldable pub reserve : Table K V → ℕ → Run (Table K V)
    reserve t additional =
        let needed = t.len + additional in
        if leb (2 ^ 64) needed
        then panic
        else if t.max_load == 0
        then (if ltb 0 additional
            then done (allocate l t (groups_for_capacity l needed))
            else done t)
        else (if ltb t.max_load needed && ltb (t.mask + 1) (groups_for_capacity l needed)
            then rehash_with l t (groups_for_capacity l needed)
            else done t)

    unfoldable pub shrink_to_fit : Table K V → Run (Table K V)
    shrink_to_fit t =
        if t.len == 0
        then done new
        else (if ltb (groups_for_capacity l t.len) (t.mask + 1)
            then rehash_with l t (groups_for_capacity l t.len)
            else done t)
