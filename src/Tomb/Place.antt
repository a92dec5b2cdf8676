-- ===== src/Tomb/Place.antt =====
-- Where the insertions of src/in_place_overflow/raw/mod.rs put a pair: `insert_no_check` and
-- `insert_after_resize` of a tombstone table.
use optimap.Prelude.{
  ℕ, zero, suc, ◌+◌, ◌-◌, ◌≤◌, ◌<◌, ◌==◌, ◌≡◌, ◌^◌, leb, to_nat, Bool, true, false, Option, none,
  some, refl, sym, ap, ◌∙◌, arith, Option-cases, inl, inr, subst,
}
use native.Mathlib.Decide.{ℕ_discrete}
use optimap.Raw.Bitmask.{lowest_set_bit}
use optimap.Raw.Run.{done, Returns, ◌>>=◌}
use optimap.Raw.Tag.{TombstoneKind, reduced_hash}
use optimap.Tomb.{Table, group_size, meta_ptr, minus, write_slot, fill_slot, tombstone}
use optimap.Tomb.Group.{match_byte, match_empty, lowest-some}
use optimap.Tomb.Insert.{track_tombstone, choose_slot, insert_no_check_loop, insert_no_check}
use optimap.Tomb.Inv.{
  tag_at, InTable, Full, Reaches, walk, walk_step, walk_start, walk-le, walk_onto,
}
use optimap.Tomb.Search.{HasEmpty, lowest_empty-some, lowest_empty-none, still_ahead}
use optimap.Tomb.Write.{Written, write_slot-Written, recount}

pub minus-done : (a b : ℕ) → b ≤ a → minus a b ≡ done (a - b)
unfolding minus
minus-done a b h = let e : leb b a ≡ true = ground arith in rw e refl

module _ {ℓ} {K V : Type ℓ} where
  -- A slot that may take a pair of the hash.
  pub record Free (t : Table K V) (h gi si : ℕ) : Type 0 where
    pub inside : InTable t gi si
    pub way : Reaches t h gi
    pub unused : tag_at t gi si ≤ 1

  -- `u` is `t` with a pair put into one slot, and the counters kept.
  pub record Filled (t u : Table K V) (reduced : ℕ) (k : K) (v : V) (gi si : ℕ) : Type ℓ where
    pub written : Written t u gi si reduced (some (k, v))
    pub len : u.len ≡ t.len + 1
    pub growth : u.growth_left + to_nat (tag_at t gi si == 0) ≡ t.growth_left
    pub max_load : u.max_load ≡ t.max_load

  -- Filling a slot with the right account of `growth_left` does not underflow.
  pub fill_slot-Filled :
      (t : Table K V) (gi si reduced : ℕ) (k : K) (v : V) (decrement : Bool)
      → InTable t gi si
      → decrement ≡ (tag_at t gi si == 0)
      → 0 < t.growth_left
      → Returns (fill_slot t gi si reduced k v decrement) (λ u. Filled t u reduced k v gi si)
  unfolding fill_slot
  fill_slot-Filled t gi si reduced k v true p e g = (
    _,
    rw (minus-done t.growth_left 1 g, ◌>>=◌) refl,
    record {
      written =
          recount t (write_slot t gi si reduced (some (k, v))) gi si reduced (t.len + 1)
            (t.growth_left - 1) (some (k, v)) (write_slot-Written t gi si reduced (some (k, v)) p);
      len = refl;
      growth = omega (arith, ap to_nat e);
      max_load = refl;
    },
  )
  fill_slot-Filled t gi si reduced k v false p e g = (
    _,
    refl,
    record {
      written =
          recount t (write_slot t gi si reduced (some (k, v))) gi si reduced (t.len + 1)
            t.growth_left (some (k, v)) (write_slot-Written t gi si reduced (some (k, v)) p);
      len = refl;
      growth = omega (arith, ap to_nat e);
      max_load = refl;
    },
  )

module _ {ℓ} {K V : Type ℓ} (t : Table K V) (h : ℕ) where
  -- The groups of the first `i` rounds are full.
  abbrev pub FullBefore : ℕ → Type 0
  FullBefore i = (j : ℕ) → j < i → Full t (walk t h j)

  pub FullBefore-step : (i : ℕ) → FullBefore i → Full t (walk t h i) → FullBefore (suc i)
  FullBefore-step i before full j p = elim (ℕ_discrete j i) [
    | yes e ↦ subst (λ x. Full t (walk t h x)) (sym e) full
    | no ne ↦ before j (omega arith)
  ]

  pub way_to : (i : ℕ) → i ≤ t.mask → FullBefore i → Reaches t h (walk t h i)
  way_to i p before = record { steps = i; inside = p; arrives = refl; path = before }

  -- What the loop remembers of the tombstones that it has passed.
  abbrev pub Tracked : Option (ℕ × ℕ) → Type 0
  Tracked none = Unit
  Tracked (some (gi, si)) = Free t h gi si × (tag_at t gi si ≡ 1)

  module _ (k : ℕ) (groups : t.mask + 1 ≡ 2 ^ k) (small : 2 ^ k ≤ 2 ^ 62) where
    pub tombstone-Free :
        (i si : ℕ)
        → i ≤ t.mask
        → FullBefore i
        → lowest_set_bit (match_byte t.ctrl (meta_ptr (walk t h i)) tombstone) ≡ some si
        → Free t h (walk t h i) si × (tag_at t (walk t h i) si ≡ 1)
    tombstone-Free i si p before e =
        let (a, b) = lowest-some t.ctrl (meta_ptr (walk t h i)) tombstone si e in
        (
          record {
            inside = (walk-le t k groups small h i, a);
            way = way_to i p before;
            unused = omega (arith, b);
          },
          b,
        )

    pub empty-Free :
        (i si : ℕ)
        → i ≤ t.mask
        → FullBefore i
        → si < group_size
        → tag_at t (walk t h i) si ≡ 0
        → Free t h (walk t h i) si
    empty-Free i si p before a b = record {
      inside = (walk-le t k groups small h i, a);
      way = way_to i p before;
      unused = omega (arith, b);
    }

    pub track-Tracked :
        (i : ℕ) (o : Option (ℕ × ℕ))
        → i ≤ t.mask
        → FullBefore i
        → Tracked o
        → Tracked (track_tombstone t (walk t h i) o)
    unfolding track_tombstone
    track-Tracked i (some p) q before tr = tr
    track-Tracked i none q before tr =
        elim (Option-cases (lowest_set_bit (match_byte t.ctrl (meta_ptr (walk t h i)) tombstone))) [
          | inl e ↦ rw (track_tombstone, e) tt
          | inr (si, e) ↦ rw (track_tombstone, e) (tombstone-Free i si q before e)
        ]

    -- The slot that an insertion takes, at a group with an EMPTY slot.
    choose-Free :
        (i si : ℕ) (o : Option (ℕ × ℕ))
        → i ≤ t.mask
        → FullBefore i
        → si < group_size
        → tag_at t (walk t h i) si ≡ 0
        → Tracked o
        → (gj : ℕ) × (sj : ℕ) × (decrement : Bool) × (choose_slot o (walk t h i) si
            ≡ (gj, sj, decrement))
          × Free t h gj sj
          × (decrement ≡ (tag_at t gj sj == 0))
    unfolding choose_slot
    choose-Free i si none p before a b tr =
        (walk t h i, si, true, refl, empty-Free i si p before a b, ground arith)
    choose-Free i si (some (gj, sj)) p before a b (fr, e) = (gj, sj, false, refl, fr, ground arith)

    module _ (tag : TombstoneKind) (x : K) (v : V) (left : 0 < t.growth_left) where
      -- The pair is in a slot where the search for it comes by, and no counter underflows.
      abbrev pub Placed : Table K V × (ℕ × ℕ) → Type ℓ
      Placed r = Filled t r.0 (reduced_hash tag h) x v r.1.0 r.1.1 × Free t h r.1.0 r.1.1

      insert_no_check_loop-Placed :
          (i f j si : ℕ) (o : Option (ℕ × ℕ))
          → FullBefore i
          → Tracked o
          → i ≤ j
          → j ≤ t.mask
          → j < i + f
          → si < group_size
          → tag_at t (walk t h j) si ≡ 0
          → Returns (insert_no_check_loop tag t h x v o f (walk t h i) i) Placed
      unfolding insert_no_check_loop
      insert_no_check_loop-Placed i zero j si o before tr lo le hi q e = absurd (omega arith)
      insert_no_check_loop-Placed i (suc f) j si o before tr lo le hi q e =
          let g = walk t h i in
          let tr' = track-Tracked i o (omega arith) before tr in
          elim (Option-cases (lowest_set_bit (match_empty t.ctrl (meta_ptr g)))) [
            | inr (sj, m) ↦
                let (a, b) = lowest_empty-some t g sj m in
                let (gj, tj, decrement, c, fr, d) =
                  choose-Free i sj (track_tombstone t g o) (omega arith) before a b tr' in
                let (u, run, filled) =
                  fill_slot-Filled t gj tj (reduced_hash tag h) x v decrement fr.inside d left in
                ((u, (gj, tj)), rw (m, c, run, insert_no_check_loop, ◌>>=◌) refl, (filled, fr))
            | inl m ↦
                let full = lowest_empty-none t g m in
                let (r, run, p) =
                  insert_no_check_loop-Placed (suc i) f j si (track_tombstone t g o)
                    (FullBefore-step i before full) tr' (still_ahead t h i j si full q e lo) le
                    (omega arith) q e in
                (
                  r,
                  rw (m, walk_step t h i, insert_no_check_loop)
                      (ap
                          (insert_no_check_loop tag t h x v (track_tombstone t g o) f
                            (walk t h (suc i)))
                          (omega arith)
                        ∙ run),
                  p,
                )
          ]

      -- While the table has an EMPTY slot and `growth_left` is not 0, `insert_no_check` ends.
      pub insert_no_check-Placed : HasEmpty t → Returns (insert_no_check tag t h x v) Placed
      unfolding insert_no_check
      insert_no_check-Placed (gi, si, inside, e) =
          let (j, q, at) = walk_onto t k groups small h gi inside.0 in
          rw (← walk_start t h) (
            insert_no_check_loop-Placed 0 (t.mask + 1) j si none (λ i p. absurd (omega arith)) tt
              (omega arith) q (omega arith) inside.1 (ap (λ g. tag_at t g si) at ∙ e))
