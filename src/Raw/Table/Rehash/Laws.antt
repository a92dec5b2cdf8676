-- ===== src/Raw/Table/Rehash/Laws.antt =====
-- The table that `rehash_with_impl` of src/raw/overflow_table.rs leaves.
use optimap.Prelude.{
  ℕ, zero, suc, ◌+◌, ◌-◌, ◌*◌, ◌/◌, ◌^◌, ◌≤◌, ◌<◌, ◌==◌, ◌≡◌, ◌↔◌, false, not, none, some, List, [],
  ◌∷◌, refl, ap, ◌∙◌, arith, Option-cases, inl, inr, lt→ltb, subst, to_nat,
}
use native.Mathlib.Decide.{ℕ_discrete}
use optimap.Prelude.Count.{sum_below-none}
use optimap.Prelude.Mod.{pow_two_pos}
use optimap.Raw.Group.Scan.{Scan, Scan-widen, positions-Scan}
use optimap.Raw.Key.{Key}
use optimap.Raw.Layout.{Layout, IsLayout}
use optimap.Raw.Layout.Memory.{tag_at}
use optimap.Raw.Layout.Slots.{occupied}
use optimap.Raw.Run.{Returns, ◌>>=◌}
use optimap.Raw.Table.{Table, allocate, empty_sentinel}
use optimap.Raw.Table.Fresh.{allocate-IsSound, allocate-Absent}
use optimap.Raw.Table.Inv.{bucket_at, is_live, InTable, Holds, Absent, IsSound, live, live_in_group}
use optimap.Raw.Table.Rehash.{occupied_slots, move_slots, move_groups, rehash_with}
use optimap.Raw.Table.Rehash.Moved.{Moved, Before, live_before, move_next, group_done}
use optimap.Raw.Tag.{tag}
use optimap.Raw.Tag.Bounds.{tag_bounds}

module _ {ℓ} {K V : Type ℓ} ⦃key : Key K⦄ (l : Layout) (ok : IsLayout l) (old : Table K V)
    (so : IsSound l old) (m load : ℕ) (room : live l old ≤ (m + 1) * l.group_size) where
  -- A slot with the tag EMPTY is dead, and any other is not.
  tag_dead :
      (gi si : ℕ)
      → InTable l old gi si
      → not (tag_at l old.ctrl gi si == 0) ≡ false
      → bucket_at l old gi si ≡ none
  tag_dead gi si p e = elim (Option-cases (bucket_at l old gi si)) [
    | inl f ↦ f
    | inr ((k, v), f) ↦
        absurd
          (omega (arith, s_tag k v f, (tag_bounds l.feature l.tag_kind (key.hash k)).0, zero_tag e))
  ]
    where
      s_tag :
          (k : K) (v : V)
          → bucket_at l old gi si ≡ some (k, v)
          → tag_at l old.ctrl gi si ≡ tag l.feature l.tag_kind (key.hash k)
      s_tag k v f = so.tagged gi si k v p f

      zero_tag : not (tag_at l old.ctrl gi si == 0) ≡ false → tag_at l old.ctrl gi si ≡ 0
      zero_tag e = ground arith

  -- The slots that the inner loop visits leave out only dead ones.
  slots-Scan :
      (gi : ℕ)
      → gi ≤ old.mask
      → Scan (λ j. bucket_at l old gi j ≡ none) l.group_size 0 (occupied_slots l old gi)
  unfolding occupied_slots
  slots-Scan gi p = rw (occupied l ok old.ctrl gi) (
      positions-Scan (λ j. bucket_at l old gi j ≡ none) l.group_size
        (λ i. not (tag_at l old.ctrl gi i == 0)) (λ i q e. tag_dead gi i (p, q) e))

  dead_to :
      (gi b x : ℕ)
      → ((j : ℕ) → b ≤ j → j < x → bucket_at l old gi j ≡ none)
      → bucket_at l old gi x ≡ none
      → (j : ℕ) → b ≤ j
      → j < suc x
      → bucket_at l old gi j ≡ none
  dead_to gi b x gap e j y z = elim (ℕ_discrete j x) [
    | yes same ↦ ap (bucket_at l old gi) same ∙ e
    | no ne ↦ gap j y (omega arith)
  ]

  move_slots-Moved :
      (gi b : ℕ) (sis : List ℕ) (u : Table K V)
      → gi ≤ old.mask
      → b ≤ l.group_size
      → Scan (λ j. bucket_at l old gi j ≡ none) l.group_size b sis
      → Moved l ok old m load u gi b
      → Returns (move_slots l old gi sis u) (λ r. Moved l ok old m load r (suc gi) 0)
  unfolding move_slots
  move_slots-Moved gi b [] u p q scan mv =
      (u, refl, group_done l ok old so m load room u gi b q scan mv)
  move_slots-Moved gi b (x ∷ xs) u p q (lo, hi, gap, rest) mv =
      elim (Option-cases (bucket_at l old gi x)) [
        | inl e ↦
            let (r, run, mv') =
              move_slots-Moved gi b xs u p q
                (Scan-widen (λ j. bucket_at l old gi j ≡ none) l.group_size b (suc x) xs
                  (omega arith) (λ j y z. dead_to gi b x gap e j y z) rest)
                mv in
            (r, rw (e, move_slots) run, mv')
        | inr ((k, v), e) ↦
            let (r, run, mv') = move_next l ok old so m load room u gi b x k v mv p lo hi gap e in
            let (r', run', mv'') = move_slots-Moved gi (suc x) xs r.0 p hi rest mv' in
            (r', rw (e, move_slots, run, ◌>>=◌) run', mv'')
      ]

  move_groups-Moved :
      (n gi : ℕ) (u : Table K V)
      → gi + n ≡ old.mask + 1
      → Moved l ok old m load u gi 0
      → Returns (move_groups l old gi n u) (λ r. Moved l ok old m load r (old.mask + 1) 0)
  unfolding move_groups
  move_groups-Moved zero gi u e mv =
      let at : gi ≡ old.mask + 1 = omega arith in
      (u, refl, subst (λ g. Moved l ok old m load u g 0) at mv)
  move_groups-Moved (suc n) gi u e mv =
      let (r, run, mv') =
        move_slots-Moved gi 0 (occupied_slots l old gi) u (omega arith) (omega arith)
          (slots-Scan gi (omega arith)) mv in
      let next : gi + 1 ≡ suc gi = omega arith in
      let (r', run', mv'') = move_groups-Moved n (suc gi) r (omega arith) mv' in
      (r', rw (run, ◌>>=◌, next) run', mv'')

  -- Nothing has been moved into a table without pairs.
  Moved-start :
      (u : Table K V)
      → IsSound l u
      → u.mask ≡ m
      → u.max_load ≡ load
      → u.len ≡ 0
      → ((x : K) → Absent l u x)
      → Moved l ok old m load u 0 0
  unfolding live_before
  Moved-start u s a b c gone = record {
    sound = s;
    mask = a;
    max_load = b;
    from = λ x w h. absurd (gone x h.group h.slot w h.inside h.pair);
    into = λ gj sj x w p before e. absurd (none_before before);
    count = omega (
      arith,
      c,
      sum_below-none (live_in_group l old),
      sum_below-none (λ s. to_nat (is_live (bucket_at l old 0 s))),
    );
  }
    where
      none_before : {gj sj : ℕ} → Before 0 0 gj sj → ⊥
      none_before (inl r) = absurd (omega arith)
      none_before (inr (r, z)) = absurd (omega arith)

allocate_fields {ℓ} :
    {K V : Type ℓ} (l : Layout) (t : Table K V) (n : ℕ)
    → ((allocate l t n).mask ≡ n - 1)
      × ((allocate l t n).max_load ≡ n * l.group_size * l.load_factor_num / l.load_factor_den)
      × ((allocate l t n).len ≡ t.len)
unfolding allocate
allocate_fields l t n = (refl, refl, refl)

-- `r` is a sound table of `n` groups with the pairs of `t`.
pub record Rehashed {ℓ} {K V : Type ℓ} ⦃key : Key K⦄ (l : Layout) (t r : Table K V) (n : ℕ)
    : Type ℓ where
  pub sound : IsSound l r
  pub groups : r.mask + 1 ≡ n
  pub max_load : r.max_load ≡ n * l.group_size * l.load_factor_num / l.load_factor_den
  pub len : r.len ≡ t.len
  pub keeps : (x : K) (w : V) → Holds l t x w ↔ Holds l r x w

module _ {ℓ} {K V : Type ℓ} ⦃key : Key K⦄ (l : Layout) (ok : IsLayout l) (t : Table K V) where
  Moved-all :
      (so : IsSound l t) (r : Table K V) (m load : ℕ)
      → Moved l ok t m load r (t.mask + 1) 0
      → (x : K) (w : V) → Holds l t x w ↔ Holds l r x w
  Moved-all so r m load mv x w = (
    λ h. mv.into h.group h.slot x w h.inside (inl (omega (arith, h.inside.0))) h.pair,
    λ h. (mv.from x w h).0,
  )

  count_all : IsSound l t → live_before l ok t (t.mask + 1) 0 ≡ t.len
  unfolding live_before live
  count_all so =
      omega
        (arith, so.counted, sum_below-none (λ s. to_nat (is_live (bucket_at l t (t.mask + 1) s))))

  -- A rehash of a sound, allocated table to a power of two groups with room for its pairs ends: no
  -- insertion goes on for ever. The new table is sound, has the wanted number of groups and the load
  -- limit for them, and holds exactly the pairs of the old one.
  pub rehash_with-Rehashed :
      (k : ℕ)
      → IsSound l t
      → 0 < t.max_load
      → 2 ^ k ≤ 2 ^ 62
      → t.len ≤ 2 ^ k * l.group_size
      → Returns (rehash_with l t (2 ^ k)) (λ r. Rehashed l t r (2 ^ k))
  unfolding rehash_with
  rehash_with-Rehashed k so alive small fits =
      let reset : Table K V = record t {
        ctrl = empty_sentinel;
        buckets = λ i. none;
        mask = 0;
        len = 0;
        max_load = 0;
      } in
      let fresh = allocate l reset (2 ^ k) in
      let n : 2 ^ k - 1 + 1 ≡ 2 ^ k = omega (arith, pow_two_pos k) in
      let load = 2 ^ k * l.group_size * l.load_factor_num / l.load_factor_den in
      let room : live l t ≤ (2 ^ k - 1 + 1) * l.group_size = rw n (omega (arith, so.counted)) in
      let start =
        Moved-start l ok t so (2 ^ k - 1) load room fresh
          (allocate-IsSound l ok reset k small (pow_two_pos k) refl) (fresh_fields reset k).0
          (fresh_fields reset k).1 (fresh_fields reset k).2
          (allocate-Absent l ok reset k small (pow_two_pos k)) in
      let (r, run, mv) =
        move_groups-Moved l ok t so (2 ^ k - 1) load room (t.mask + 1) 0 fresh (omega arith)
          start in
      (
        r,
        rw (lt→ltb 0 t.max_load alive) run,
        record {
          sound = mv.sound;
          groups = ap (λ m. m + 1) mv.mask ∙ n;
          max_load = mv.max_load;
          len = mv.count ∙ count_all so;
          keeps = Moved-all so r (2 ^ k - 1) load mv;
        },
      )
    where
      fresh_fields :
          (reset : Table K V) (k : ℕ)
          → ((allocate l reset (2 ^ k)).mask ≡ 2 ^ k - 1)
            × ((allocate l reset (2 ^ k)).max_load
                ≡ 2 ^ k * l.group_size * l.load_factor_num / l.load_factor_den)
            × ((allocate l reset (2 ^ k)).len ≡ reset.len)
      fresh_fields reset k = allocate_fields l reset (2 ^ k)
