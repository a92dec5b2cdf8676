-- ===== src/Tomb/Regrow.antt =====
-- Rehashing and growing: `rehash_with` and `grow_or_rehash` of src/in_place_overflow/raw/mod.rs.
use optimap.Prelude.{
  ℕ, ◌+◌, ◌-◌, ◌*◌, ◌/◌, ◌^◌, ◌≤◌, ◌<◌, ◌≡◌, ◌↔◌, leb, true, false, none, refl, sym, ap, ◌∙◌, arith,
  Bool-cases, inl, inr, suc,
}
use optimap.Prelude.Mod.{pow_two_pos}
use optimap.Prelude.Tally.{tally-le}
use optimap.Raw.Key.{Key}
use optimap.Raw.Run.{Returns, ◌>>=◌}
use optimap.Raw.Tag.{TombstoneKind}
use optimap.Tomb.{
  Table, group_index, group_size, allocate, is_allocated, max_load_for_capacity, empty_sentinel,
}
use native.Mathlib.Nat.{pow-suc}
use optimap.Tomb.Fresh.{
  allocate-Blank, allocate-fields, allocate-IsSound, Blank-Holds, Blank-IsPlaced, Blank-live,
  Blank-used, len_zero-Holds, not_allocated,
}
use optimap.Tomb.Inv.{Holds, IsPlaced, IsSound, live_test}
use optimap.Tomb.Moved.{Filling, move_groups-Filling}
use optimap.Tomb.Place.{minus-done}
use optimap.Tomb.Rehash.{rehash_with, groups_to_grow, grow_or_rehash}

module _ {ℓ} {K V : Type ℓ} (t : Table K V) (n left : ℕ) where
  -- The counters do not matter for the pairs and their places.
  pub Holds-recount :
      (k : K) (v : V) → Holds t k v ↔ Holds (record t { len = n; growth_left = left }) k v
  Holds-recount k v = (
    λ h. record { group = h.group; slot = h.slot; inside = h.inside; pair = h.pair },
    λ h. record { group = h.group; slot = h.slot; inside = h.inside; pair = h.pair },
  )

  pub IsPlaced-recount :
      (tag : TombstoneKind) ⦃key : Key K⦄
      → IsPlaced tag t
      → IsPlaced tag (record t { len = n; growth_left = left })
  unfolding group_index
  IsPlaced-recount tag s = record {
    exponent = s.exponent;
    groups = s.groups;
    small = s.small;
    dead = s.dead;
    tagged = s.tagged;
    reached = λ gi si k v p e.
        let r = s.reached gi si k v p e in
        record { steps = r.steps; inside = r.inside; arrives = r.arrives; path = r.path };
    once = s.once;
  }

module _ {ℓ} {K V : Type ℓ} (tag : TombstoneKind) ⦃key : Key K⦄ (t : Table K V)
    (s : IsSound tag t) where
  -- `r` is an allocated sound table of `n` groups with the pairs of `t`, that may be filled up to
  -- the load limit of `n` groups.
  pub record Refilled (r : Table K V) (n : ℕ) : Type ℓ where
    pub sound : IsSound tag r
    pub groups : r.mask + 1 ≡ n
    pub len : r.len ≡ t.len
    pub growth : r.growth_left + t.len ≡ n * group_size * 7 / 8
    pub alive : 0 < r.max_load
    pub keeps : (x : K) (y : V) → Holds t x y ↔ Holds r x y

  module _ (k : ℕ) (small : 2 ^ k ≤ 2 ^ 62) (room : t.len ≤ 2 ^ k * group_size * 7 / 8) where
    abbrev load : ℕ
    load = 2 ^ k * group_size * 7 / 8

    -- A new table in place of one without allocation.
    first-Refilled : (u : Table K V) → t.len ≡ 0 → u.len ≡ 0 → Refilled (allocate u (2 ^ k)) (2 ^ k)
    first-Refilled u e f =
        let (a, b, c, d) = allocate-fields u (2 ^ k) in
        record {
          sound = allocate-IsSound tag u k small f;
          groups = omega (arith, a, pow_two_pos k);
          len = b ∙ (f ∙ sym e);
          growth = omega (arith, c, e);
          alive = omega (arith, d, pow_two_pos k);
          keeps = λ x y. (
            λ h. absurd (len_zero-Holds tag t s e x y h),
            λ h. absurd (Blank-Holds tag _ (allocate-Blank u k small) x y h),
          );
        }

    -- The counters after the last pair was moved.
    moved-Refilled :
        (r : Table K V)
        → Filling tag (2 ^ k - 1) load load r t.len
        → ((x : K) (y : V) → Holds t x y ↔ Holds r x y)
        → Refilled (record r { len = t.len; growth_left = load - t.len }) (2 ^ k)
    unfolding max_load_for_capacity
    moved-Refilled r (p, a, b, c, d, e) keeps =
        let groups : r.mask + 1 ≡ 2 ^ k = omega (arith, c, pow_two_pos k) in
        let width : (r.mask + 1) * group_size * 7 / 8 ≡ load =
          ap (λ n. n * group_size * 7 / 8) groups in
        record {
          sound = record {
            placed = IsPlaced-recount r t.len (load - t.len) tag p;
            counted = sym a;
            room = omega (arith, b, width, room);
            unallocated = λ z. absurd (omega (arith, e, z, pow_two_pos k));
          };
          groups = groups;
          len = refl;
          growth = omega (arith, room);
          alive = omega (arith, e, pow_two_pos k);
          keeps = λ x y. (
            λ h. (Holds-recount r t.len (load - t.len) x y).0 ((keeps x y).0 h),
            λ h. (keeps x y).1 ((Holds-recount r t.len (load - t.len) x y).1 h),
          );
        }

    -- A rehash of a sound table to 2 ^ k groups, at most 2 ^ 62, with a load limit of at least the
    -- number of its pairs ends without a panic. The new table is sound, has 2 ^ k groups and exactly
    -- the pairs of the old one, and its `growth_left` is the load limit less the number of pairs.
    pub rehash_with-Refilled : Returns (rehash_with tag t (2 ^ k)) (λ r. Refilled r (2 ^ k))
    unfolding rehash_with
    rehash_with-Refilled =
        let reset : Table K V = record {
          mask = 0;
          ctrl = empty_sentinel;
          buckets = λ i. none;
          len = 0;
          growth_left = t.growth_left;
          max_load = 0;
        } in
        elim (Bool-cases (is_allocated t)) [
          | inr e ↦ (
            allocate reset (2 ^ k),
            rw e refl,
            first-Refilled reset (s.unallocated (not_allocated t e)).0 refl,
          )
          | inl e ↦
              let blank = allocate-Blank reset k small in
              let (a, b, c, d) = allocate-fields reset (2 ^ k) in
              let (r, run, (filling, keeps)) =
                move_groups-Filling tag t s (allocate reset (2 ^ k)) (2 ^ k - 1) load load
                  (
                    Blank-IsPlaced tag _ blank,
                    Blank-live tag _ blank,
                    Blank-used tag _ blank,
                    a,
                    c,
                    d,
                  )
                  (Blank-Holds tag _ blank) (omega (arith, room, pow_two_pos k)) in
              let left : r.growth_left ≡ load = filling.4 in
              (
                _,
                rw (e, run, ◌>>=◌, left, minus-done load t.len room) refl,
                moved-Refilled r filling keeps,
              )
        ]

  abbrev pub Grown : Table K V → Type ℓ
  Grown r = (n : ℕ) × Refilled r n × (0 < r.growth_left)

  grown :
      (k : ℕ)
      → groups_to_grow t ≡ 2 ^ k
      → 2 ^ k ≤ 2 ^ 62
      → t.len < 2 ^ k * group_size * 7 / 8
      → Returns (grow_or_rehash tag t) Grown
  unfolding grow_or_rehash
  grown k e small room =
      let (r, run, h) = rehash_with-Refilled k small (omega (arith, room)) in
      (r, ap (rehash_with tag t) e ∙ run, (2 ^ k, h, omega (arith, h.growth, room)))

  -- Growing a sound table of at most 2 ^ 62 pairs ends without a panic, whether it allocates the
  -- first group, doubles the groups or clears tombstones at the same size. The new table is sound,
  -- has exactly the pairs of the old one, and may take at least one more.
  pub grow_or_rehash-Grown : t.len ≤ 2 ^ 62 → Returns (grow_or_rehash tag t) Grown
  unfolding groups_to_grow max_load_for_capacity
  grow_or_rehash-Grown few =
      let k = s.placed.exponent in
      let groups = s.placed.groups in
      let twice : 2 ^ suc k ≡ 2 ^ k * 2 = omega (arith, pow-suc 2 k) in
      let cap : (t.mask + 1) * group_size * 7 / 8 ≡ 2 ^ k * group_size * 7 / 8 =
        ap (λ n. n * group_size * 7 / 8) groups in
      elim (Bool-cases (is_allocated t)) [
        | inr e ↦
            let none = not_allocated t e in
            grown 0 (rw e refl) (omega arith) (omega (arith, (s.unallocated none).0))
        | inl e ↦ elim (Bool-cases (leb ((t.mask + 1) * group_size * 7 / 8) t.len)) [
          | inl full ↦
              let many = le_of_leb ((t.mask + 1) * group_size * 7 / 8) t.len full in
              grown (suc k) (rw (e, full) (omega (arith, twice, groups)))
                (omega (arith, twice, groups, many, few))
                (omega (
                  arith,
                  twice,
                  groups,
                  s.counted,
                  tally-le (t.mask + 1) group_size (live_test t),
                  pow_two_pos k,
                ))
          | inr room ↦
              grown k (rw (e, room) groups) s.placed.small
                (omega (arith, cap, lt_of_leb ((t.mask + 1) * group_size * 7 / 8) t.len room))
        ]
      ]
    where
      le_of_leb : (a b : ℕ) → leb a b ≡ true → a ≤ b
      le_of_leb a b h = ground arith

      lt_of_leb : (a b : ℕ) → leb a b ≡ false → b < a
      lt_of_leb a b h = ground arith
