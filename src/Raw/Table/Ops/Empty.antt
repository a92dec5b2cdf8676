-- ===== src/Raw/Table/Ops/Empty.antt =====
-- Tables without pairs: `new` and `clear` of src/raw/overflow_table.rs.
use optimap.Prelude.{ℕ, ◌+◌, ◌≤◌, ◌<◌, ◌≡◌, ◌*◌, ◌⊎◌, lt→ltb, false, refl, ap, ◌∙◌, arith, ◌⊎◌}
use optimap.Raw.Key.{Key}
use optimap.Raw.Layout.{Layout, IsLayout}
use optimap.Raw.Layout.Memory.{tag_at, has_at, meta_ptr}
use optimap.Raw.Table.{Table, new, max_load_for_capacity, empty_sentinel}
use optimap.Raw.Table.Fresh.{empty-IsSound}
use optimap.Raw.Table.Ops.{clear}
use optimap.Raw.Table.Ops.Valid.{IsValid}

sentinel-lt : (a : ℕ) → empty_sentinel a < 256
unfolding empty_sentinel
sentinel-lt a = ground arith

-- A group fits the sentinel.
sentinel_zero :
    (l : Layout) (ok : IsLayout l) (gi si : ℕ)
    → gi ≤ 0
    → si < l.group_size
    → empty_sentinel (meta_ptr l gi + si) ≡ 0
unfolding empty_sentinel
sentinel_zero l ok gi si p q =
    let none_before : gi ≡ 0 = omega (arith, p) in
    let first : gi * l.meta_stride ≡ 0 =
      ap (λ (n : ℕ). n * l.meta_stride) none_before ∙ omega arith in
    rw (lt→ltb (gi * l.meta_stride + si) 64 (omega (arith, first, q, ok.slots_fit, ok.width))) refl

module _ {ℓ} {K V : Type ℓ} ⦃key : Key K⦄ (l : Layout) (ok : IsLayout l) where
  -- The table that `new` makes, without an allocation.
  pub new-IsValid : IsValid {K = K} {V = V} l new
  unfolding new tag_at
  new-IsValid = record {
    sound =
        empty-IsSound l ok new 0 (omega arith) (omega arith) new refl sentinel-lt refl (λ i. refl)
          (λ gi si p. sentinel_zero l ok gi si p.0 p.1);
    within = omega arith;
    limit = omega arith;
  }

  -- A table without an allocation, which `clear` leaves as it is.
  abbrev pub Untouched : Table K V → Type ℓ
  Untouched t = (t.max_load ≡ 0) × (clear l t ≡ t)

  -- No overflow bits, the count 0, and the load limit of all slots.
  abbrev pub Emptied : Table K V → Type 0
  Emptied t =
      ((gi h : ℕ) → gi ≤ t.mask → has_at l t.mask (clear l t).ctrl gi h ≡ false)
      × ((clear l t).len ≡ 0)
      × ((clear l t).max_load
          ≡ max_load_for_capacity ((t.mask + 1) * l.group_size) l.load_factor_num l.load_factor_den)
