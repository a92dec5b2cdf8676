-- ===== src/Raw/Table/Iter.antt =====
-- The consuming iterator: `first_non_empty_mask`, `into_iter_impl`, `drain_impl` and `IntoIter` of
-- src/raw/overflow_table.rs.
use optimap.Prelude.{
  ℕ, zero, suc, ◌+◌, ◌-◌, ◌==◌, ltb, if◌then◌else◌, true, false, Option, none, some,
}
use optimap.Raw.Bitmask.{next}
use optimap.Raw.Group.{empty, match_non_empty}
use optimap.Raw.Layout.{Layout, bucket_index}
use optimap.Raw.Layout.Memory.{meta_ptr, put_tag}
use optimap.Raw.Run.{Run, done, spin, panic}
use optimap.Raw.Table.{Table, new, set_bucket}

pub record IntoIter {ℓ} (K V : Type ℓ) : Type ℓ where
  pub table : Table K V
  pub group : ℕ
  pub current_mask : ℕ

module _ {ℓ} {K V : Type ℓ} (l : Layout) where
  unfoldable pub non_empty_mask : Table K V → ℕ → ℕ
  non_empty_mask t gi = match_non_empty l.meta_stride l.slot_mask t.ctrl (meta_ptr l gi)

  unfoldable pub first_non_empty_mask : Table K V → ℕ
  unfolding non_empty_mask
  first_non_empty_mask t = if t.max_load == 0 then 0 else non_empty_mask t 0

  unfoldable pub into_iter_impl : Table K V → IntoIter K V
  unfolding first_non_empty_mask
  into_iter_impl t = record { table = t; group = 0; current_mask = first_non_empty_mask t }

  -- The iterator, and the table that is left.
  unfoldable pub drain_impl : Table K V → IntoIter K V × Table K V
  unfolding into_iter_impl
  drain_impl t = (into_iter_impl t, new)

  -- The loop of `IntoIter::next`, with a number of rounds. `self.table.len -= 1` panics at 0.
  unfoldable pub next_pair : ℕ → IntoIter K V → Run (Option (K × V) × IntoIter K V)
  unfolding non_empty_mask
  next_pair zero it = spin
  next_pair (suc f) it = elim (next it.current_mask) [
    | some (si, rest) ↦
        let t = it.table in
        let left : Table K V = record t {
          ctrl = put_tag l t.ctrl it.group si empty;
          buckets = set_bucket t.buckets (bucket_index l it.group si) none;
          len = t.len - 1;
        } in
        if t.len == 0
        then panic
        else done (
          t.buckets (bucket_index l it.group si),
          record { table = left; group = it.group; current_mask = rest },
        )
    | none ↦ elim (ltb it.table.mask (it.group + 1)) [
      | true ↦
          done (
            none,
            record { table = it.table; group = it.group + 1; current_mask = it.current_mask },
          )
      | false ↦ next_pair f (record {
        table = it.table;
        group = it.group + 1;
        current_mask = non_empty_mask it.table (it.group + 1);
      })
    ]
  ]
