-- ===== src/Tomb/Fresh.antt =====
-- Tombstone tables without pairs: `new`, `allocate` and `clear` of
-- src/in_place_overflow/raw/mod.rs.
use optimap.Prelude.{
  ℕ, ◌+◌, ◌-◌, ◌*◌, ◌/◌, ◌^◌, ◌≤◌, ◌<◌, ◌≡◌, not, true, false, none, refl, sym, ap, ◌∙◌, arith,
  lt→ltb, none-ne-some, ◌==◌, Bool-cases, inl, inr,
}
use optimap.Prelude.Mod.{pow_two_pos}
use optimap.Prelude.Tally.{tally-none, tally-pos}
use optimap.Raw.Key.{Key}
use optimap.Raw.Table.Inv.{is_live}
use optimap.Raw.Tag.{TombstoneKind}
use optimap.Tomb.{
  Table, group_size, new, allocate, zero_meta, max_load_for_capacity, is_allocated, uninit,
}
use optimap.Tomb.Inv.{tag_at, InTable, Holds, live, used, IsPlaced, IsSound, live_test}
use optimap.Tomb.Ops.{clear}

-- No pair, and every slot EMPTY.
pub record Blank {ℓ} {K V : Type ℓ} (t : Table K V) : Type ℓ where
  pub exponent : ℕ
  pub groups : t.mask + 1 ≡ 2 ^ exponent
  pub small : 2 ^ exponent ≤ 2 ^ 62
  pub cells : (i : ℕ) → t.buckets i ≡ none
  pub tags : (gi si : ℕ) → InTable t gi si → tag_at t gi si ≡ 0

module _ {ℓ} {K V : Type ℓ} (tag : TombstoneKind) ⦃key : Key K⦄ (t : Table K V) (b : Blank t) where
  pub Blank-Holds : (k : K) (v : V) → Holds t k v → ⊥
  Blank-Holds k v h = none-ne-some (sym (b.cells _) ∙ h.pair)

  pub Blank-IsPlaced : IsPlaced tag t
  Blank-IsPlaced = record {
    exponent = b.exponent;
    groups = b.groups;
    small = b.small;
    dead = λ gi si p e. omega (arith, b.tags gi si p);
    tagged = λ gi si k v p e. absurd (none-ne-some (sym (b.cells _) ∙ e));
    reached = λ gi si k v p e. absurd (none-ne-some (sym (b.cells _) ∙ e));
    once = λ gi si gj sj k v w p q e f. absurd (none-ne-some (sym (b.cells _) ∙ e));
  }

  pub Blank-live : live t ≡ 0
  Blank-live = tally-none (t.mask + 1) group_size _ (λ gi si p q. ap is_live (b.cells _))

  pub Blank-used : used t ≡ 0
  Blank-used =
      tally-none (t.mask + 1) group_size _
        (λ gi si p q. ap (λ x. not (x == 0)) (b.tags gi si (omega arith, q)))

  -- With the counters of a table without pairs it is sound.
  pub Blank-IsSound :
      t.len ≡ 0
      → t.growth_left ≤ max_load_for_capacity ((t.mask + 1) * group_size)
      → (t.max_load ≡ 0 → t.growth_left ≡ 0)
      → IsSound tag t
  Blank-IsSound a c z = record {
    placed = Blank-IsPlaced;
    counted = a ∙ sym Blank-live;
    room = omega (arith, Blank-used, c);
    unallocated = λ e. (a, z e);
  }

zero_tag :
    (m : ℕ → ℕ) (n gi si : ℕ) → gi < n → si < group_size → zero_meta n m (gi * group_size + si) ≡ 0
unfolding zero_meta
zero_tag m n gi si p q = rw (lt→ltb (gi * group_size + si) (n * group_size) (omega arith)) refl

module _ {ℓ} {K V : Type ℓ} where
  pub not_allocated : (t : Table K V) → is_allocated t ≡ false → t.max_load ≡ 0
  unfolding is_allocated
  not_allocated t e = ground arith

  pub not_zero : (t : Table K V) → is_allocated t ≡ true → t.max_load ≡ 0 → ⊥
  unfolding is_allocated
  not_zero t e z = ground arith

  pub allocated : (t : Table K V) → 0 < t.max_load → is_allocated t ≡ true
  unfolding is_allocated
  allocated t h = ground arith

  pub new-Blank : Blank {K = K} {V = V} new
  unfolding new
  new-Blank = record {
    exponent = 0;
    groups = refl;
    small = omega arith;
    cells = λ i. refl;
    tags = λ gi si p. refl;
  }

  pub allocate-Blank : (t : Table K V) (k : ℕ) → 2 ^ k ≤ 2 ^ 62 → Blank (allocate t (2 ^ k))
  unfolding allocate
  allocate-Blank t k small = record {
    exponent = k;
    groups = omega (arith, pow_two_pos k);
    small = small;
    cells = λ i. refl;
    tags = λ gi si p. zero_tag (λ a. uninit) (2 ^ k) gi si (omega (arith, p.0, pow_two_pos k)) p.1;
  }

  -- The fields of a new allocation.
  pub allocate-fields :
      (t : Table K V) (n : ℕ)
      → ((allocate t n).mask ≡ n - 1)
        × ((allocate t n).len ≡ t.len)
        × ((allocate t n).growth_left ≡ n * group_size * 7 / 8)
        × ((allocate t n).max_load ≡ n * group_size * 7 / 8)
  unfolding allocate max_load_for_capacity
  allocate-fields t n = (refl, refl, refl, refl)

module _ {ℓ} {K V : Type ℓ} (tag : TombstoneKind) ⦃key : Key K⦄ where
  -- A new table is sound and without pairs.
  pub new-IsSound :
      IsSound {K = K} {V = V} tag new × ((k : K) (v : V) → Holds {K = K} {V = V} new k v → ⊥)
  unfolding new
  new-IsSound = (
    Blank-IsSound tag new new-Blank refl (omega arith) (λ e. refl),
    Blank-Holds tag new new-Blank,
  )

  pub allocate-IsSound :
      (t : Table K V) (k : ℕ) → 2 ^ k ≤ 2 ^ 62 → t.len ≡ 0 → IsSound tag (allocate t (2 ^ k))
  unfolding allocate max_load_for_capacity
  allocate-IsSound t k small e =
      let groups : 2 ^ k - 1 + 1 ≡ 2 ^ k = omega (arith, pow_two_pos k) in
      Blank-IsSound tag (allocate t (2 ^ k)) (allocate-Blank t k small) e (rw groups (omega arith))
        (λ z. absurd (omega (arith, z, pow_two_pos k)))

  -- A table that counts no pair has none.
  pub len_zero-Holds :
      (t : Table K V) → IsSound tag t → t.len ≡ 0 → (k : K) (v : V) → Holds t k v → ⊥
  len_zero-Holds t s e k v h = absurd (
      omega (
        arith,
        s.counted,
        e,
        tally-pos (t.mask + 1) group_size (live_test t) h.group h.slot (omega (arith, h.inside.0))
            h.inside.1 (ap is_live h.pair),
      ))

  zeroed-Blank :
      (t : Table K V) (left : ℕ)
      → IsSound tag t
      → Blank (record t {
        ctrl = zero_meta (t.mask + 1) t.ctrl;
        buckets = λ i. none;
        len = 0;
        growth_left = left;
      })
  zeroed-Blank t left s = record {
    exponent = s.placed.exponent;
    groups = s.placed.groups;
    small = s.placed.small;
    cells = λ i. refl;
    tags = λ gi si p. zero_tag t.ctrl (t.mask + 1) gi si (omega (arith, p.0)) p.1;
  }

  -- Clearing a sound table leaves a sound table without pairs, of the same number of groups, that
  -- may be filled up to its load limit again if it is allocated.
  pub clear-IsSound :
      (t : Table K V)
      → IsSound tag t
      → IsSound tag (clear t)
        × ((k : K) (v : V) → Holds (clear t) k v → ⊥)
        × ((clear t).len ≡ 0)
        × ((clear t).mask ≡ t.mask)
        × (0 < t.max_load
            → (clear t).growth_left ≡ max_load_for_capacity ((t.mask + 1) * group_size))
  unfolding clear
  clear-IsSound t s = elim (Bool-cases (is_allocated t)) [
    | inl e ↦
        let b = zeroed-Blank t (max_load_for_capacity ((t.mask + 1) * group_size)) s in
        rw e (
          Blank-IsSound tag _ b refl (omega arith) (λ z. absurd (not_zero t e z)),
          Blank-Holds tag _ b,
          refl,
          refl,
          λ p. refl,
        )
    | inr e ↦
        let zero_load : t.max_load ≡ 0 = not_allocated t e in
        let zero_len = (s.unallocated zero_load).0 in
        rw e (
          s,
          len_zero-Holds t s zero_len,
          zero_len,
          refl,
          λ p. absurd (omega (arith, zero_load, p)),
        )
  ]
