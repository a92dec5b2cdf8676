-- ===== src/Tomb/Resize.antt =====
-- The insertion of a rehash, `insert_after_resize` of src/in_place_overflow/raw/mod.rs.
use optimap.Prelude.{
  ℕ, zero, suc, ◌+◌, ◌≤◌, ◌<◌, ◌≡◌, ◌^◌, some, refl, ap, ◌∙◌, arith, Option-cases, inl, inr,
}
use optimap.Raw.Bitmask.{lowest_set_bit}
use optimap.Raw.Run.{Returns}
use optimap.Raw.Tag.{TombstoneKind, reduced_hash}
use optimap.Tomb.{Table, group_size, meta_ptr, write_slot}
use optimap.Tomb.Group.{match_empty}
use optimap.Tomb.Insert.{insert_after_resize_loop, insert_after_resize}
use optimap.Tomb.Inv.{tag_at, walk, walk_step, walk_start, walk_onto}
use optimap.Tomb.Place.{Free, FullBefore, FullBefore-step, empty-Free}
use optimap.Tomb.Search.{HasEmpty, lowest_empty-some, lowest_empty-none, still_ahead}

module _ {ℓ} {K V : Type ℓ} (t : Table K V) (h k : ℕ) (groups : t.mask + 1 ≡ 2 ^ k)
    (small : 2 ^ k ≤ 2 ^ 62) (tag : TombstoneKind) (x : K) (v : V) where
  -- The slot of `insert_after_resize`, which was EMPTY.
  abbrev pub Resized : Table K V → Type ℓ
  Resized u =
      (gi : ℕ) × (si : ℕ) × Free t h gi si
      × (tag_at t gi si ≡ 0)
      × (u ≡ write_slot t gi si (reduced_hash tag h) (some (x, v)))

  insert_after_resize_loop-Resized :
      (i f j si : ℕ)
      → FullBefore t h i
      → i ≤ j
      → j ≤ t.mask
      → j < i + f
      → si < group_size
      → tag_at t (walk t h j) si ≡ 0
      → Returns (insert_after_resize_loop tag t h x v f (walk t h i) i) Resized
  unfolding insert_after_resize_loop
  insert_after_resize_loop-Resized i zero j si before lo le hi q e = absurd (omega arith)
  insert_after_resize_loop-Resized i (suc f) j si before lo le hi q e =
      let g = walk t h i in
      elim (Option-cases (lowest_set_bit (match_empty t.ctrl (meta_ptr g)))) [
        | inr (sj, m) ↦
            let (a, b) = lowest_empty-some t g sj m in
            (
              _,
              rw (m, insert_after_resize_loop) refl,
              (g, sj, empty-Free t h k groups small i sj (omega arith) before a b, b, refl),
            )
        | inl m ↦
            let full = lowest_empty-none t g m in
            let (r, run, p) =
              insert_after_resize_loop-Resized (suc i) f j si (FullBefore-step t h i before full)
                (still_ahead t h i j si full q e lo) le (omega arith) q e in
            (
              r,
              rw (m, walk_step t h i, insert_after_resize_loop)
                  (ap (insert_after_resize_loop tag t h x v f (walk t h (suc i))) (omega arith)
                    ∙ run),
              p,
            )
      ]

  pub insert_after_resize-Resized : HasEmpty t → Returns (insert_after_resize tag t h x v) Resized
  unfolding insert_after_resize
  insert_after_resize-Resized (gi, si, inside, e) =
      let (j, q, at) = walk_onto t k groups small h gi inside.0 in
      rw (← walk_start t h) (
        insert_after_resize_loop-Resized 0 (t.mask + 1) j si (λ i p. absurd (omega arith))
          (omega arith) q (omega arith) inside.1 (ap (λ g. tag_at t g si) at ∙ e))
