-- ===== src/Raw/Table/Insert/Sound.antt =====
-- The invariant of the table under `insert_no_check_impl` of src/raw/overflow_table.rs.
use optimap.Prelude.{
  ℕ, ◌+◌, ◌≤◌, ◌==◌, ◌≡◌, ◌&&◌, to_nat, true, false, Option, none, some, refl, sym, ap, ◌∙◌, arith,
  Option-cases, Bool-cases, inl, inr, ◌⊎◌, subst,
}
use mathlib.Core.Path.{ap₂}
use optimap.Raw.Key.{Key}
use optimap.Raw.Layout.{Layout, IsLayout}
use optimap.Raw.Layout.Memory.{tag_at, has_at}
use optimap.Raw.Table.{Table}
use optimap.Raw.Table.Walk.{walk, walk_congr, walk-le}
use optimap.Raw.Table.Insert.Laws.{Inserted}
use optimap.Raw.Table.Inv.{
  bucket_at, is_live, InTable, Reaches, Absent, Holds, IsSound, live, live_change, same_slot,
}
use optimap.Raw.Tag.{tag}
use optimap.Raw.Tag.Bounds.{tag_bounds}

module _ {ℓ} {K V : Type ℓ} ⦃key : Key K⦄ (l : Layout) (ok : IsLayout l) (t r : Table K V) (k : K)
    (v : V) (gi si : ℕ) (s : IsSound l t) (ins : Inserted l t r (key.hash k) k v gi si) where
  -- A slot of the new table is one of the old.
  old_slot : (gj sj : ℕ) → InTable l r gj sj → InTable l t gj sj
  old_slot gj sj (a, b) = (subst (λ m. gj ≤ m) ins.mask a, b)

  -- The new pair, or a pair of the old table.
  pub pair_cases :
      (gj sj : ℕ) (x : K) (w : V)
      → InTable l r gj sj
      → bucket_at l r gj sj ≡ some (x, w)
      → ((gi ≡ gj) × (si ≡ sj) × (k ≡ x) × (v ≡ w))
        ⊎ (((gi == gj && si == sj) ≡ false) × (bucket_at l t gj sj ≡ some (x, w)))
  pair_cases gj sj x w p e =
      let b = ins.buckets gj sj (old_slot gj sj p) in
      elim (Bool-cases (gi == gj && si == sj)) [
        | inl here ↦
            let (a, c) = same_slot gi gj si sj here in
            let b' = rw here at b in let q = sym b' ∙ e in inl (a, c, ap key_of q, ap value_of q)
        | inr there ↦ inr (there, sym (rw there at b) ∙ e)
      ]
    where
      key_of : Option (K × V) → K
      key_of none = k
      key_of (some (x, w)) = x

      value_of : Option (K × V) → V
      value_of none = v
      value_of (some (x, w)) = w

  was_free : bucket_at l t gi si ≡ none
  was_free = elim (Option-cases (bucket_at l t gi si)) [
    | inl e ↦ e
    | inr ((x, w), e) ↦ absurd (
        omega (
          arith,
          s.tagged gi si x w ins.inside e,
          ins.was_empty,
          tag_bounds l.feature l.tag_kind (key.hash x),
        ))
  ]

  -- Old pairs are still reached, and the new one is.
  Reaches_old : (h gj : ℕ) → Reaches l t h gj → Reaches l r h gj
  Reaches_old h gj w = record {
    steps = w.steps;
    inside = subst (λ m. w.steps ≤ m) (sym ins.mask) w.inside;
    arrives = walk_congr l t r h w.steps ins.mask ins.shift ∙ w.arrives;
    marked = λ i p.
        ap (λ g. has_at l r.mask r.ctrl g h) (walk_congr l t r h i ins.mask ins.shift)
        ∙ ins.mono (walk l t h i) h (walk-le l t s.exponent s.groups s.small h i) (w.marked i p);
  }

  Reaches_new : Reaches l r (key.hash k) gi
  Reaches_new = record {
    steps = ins.steps;
    inside = subst (λ m. ins.steps ≤ m) (sym ins.mask) ins.steps_inside;
    arrives = walk_congr l t r (key.hash k) ins.steps ins.mask ins.shift ∙ ins.arrives;
    marked = λ i p.
        ap (λ g. has_at l r.mask r.ctrl g (key.hash k))
          (walk_congr l t r (key.hash k) i ins.mask ins.shift)
        ∙ ins.marked i p;
  }

  -- A free slot of the new table was free before, and is not the slot of the new pair.
  free_before :
      (gj sj : ℕ)
      → InTable l r gj sj
      → bucket_at l r gj sj ≡ none
      → ((gi == gj && si == sj) ≡ false) × (bucket_at l t gj sj ≡ none)
  free_before gj sj p e =
      let b = ins.buckets gj sj (old_slot gj sj p) in
      elim (Bool-cases (gi == gj && si == sj)) [
        | inl here ↦ absurd (some-ne-none (sym (rw here at b) ∙ e))
        | inr there ↦ (there, sym (rw there at b) ∙ e)
      ]
    where
      some-ne-none : {x : K × V} → some x ≡ none → ⊥
      some-ne-none q = cc

  vacant_after :
      (gj sj : ℕ) → InTable l r gj sj → bucket_at l r gj sj ≡ none → tag_at l r.ctrl gj sj ≡ 0
  vacant_after gj sj p e =
      let (there, f) = free_before gj sj p e in
      let o = old_slot gj sj p in ins.tags gj sj o ∙ rw there (s.vacant gj sj o f)

  tagged_after :
      (gj sj : ℕ) (x : K) (w : V)
      → InTable l r gj sj
      → bucket_at l r gj sj ≡ some (x, w)
      → tag_at l r.ctrl gj sj ≡ tag l.feature l.tag_kind (key.hash x)
  tagged_after gj sj x w p e =
      let o = old_slot gj sj p in
      elim (pair_cases gj sj x w p e) [
        | inl (a, b, c, d) ↦
            let here : (gi == gj && si == sj) ≡ true = ground arith in
            ins.tags gj sj o ∙ rw here (ap (λ z. tag l.feature l.tag_kind (key.hash z)) c)
        | inr (there, f) ↦ ins.tags gj sj o ∙ rw there (s.tagged gj sj x w o f)
      ]

  reached_after :
      (gj sj : ℕ) (x : K) (w : V)
      → InTable l r gj sj
      → bucket_at l r gj sj ≡ some (x, w)
      → Reaches l r (key.hash x) gj
  reached_after gj sj x w p e = elim (pair_cases gj sj x w p e) [
    | inl (a, b, c, d) ↦
        subst (λ z. Reaches l r (key.hash z) gj) c
          (subst (λ g. Reaches l r (key.hash k) g) a Reaches_new)
    | inr (there, f) ↦ Reaches_old (key.hash x) gj (s.reached gj sj x w (old_slot gj sj p) f)
  ]

  module _ (gone : Absent l t k) where
    once_after :
        (gj sj gm sm : ℕ) (x : K) (w z : V)
        → InTable l r gj sj
        → InTable l r gm sm
        → bucket_at l r gj sj ≡ some (x, w)
        → bucket_at l r gm sm ≡ some (x, z)
        → (gj ≡ gm) × (sj ≡ sm)
    once_after gj sj gm sm x w z p q e f = elim (pair_cases gj sj x w p e) [
      | inl (a, b, c, d) ↦ elim (pair_cases gm sm x z q f) [
        | inl (a', b', c', d') ↦ (sym a ∙ a', sym b ∙ b')
        | inr (there, g) ↦
            absurd (gone gm sm z (old_slot gm sm q) (g ∙ ap (λ y. some (y, z)) (sym c)))
      ]
      | inr (there, g) ↦ elim (pair_cases gm sm x z q f) [
        | inl (a', b', c', d') ↦
            absurd (gone gj sj w (old_slot gj sj p) (g ∙ ap (λ y. some (y, w)) (sym c')))
        | inr (there', g') ↦ s.once gj sj gm sm x w z (old_slot gj sj p) (old_slot gm sm q) g g'
      ]
    ]

    counted_after : r.len ≡ live l r
    counted_after = omega (
      arith,
      ins.len,
      s.counted,
      live_change l ok t r (some (k, v)) gi si ins.inside ins.buckets ins.mask,
      ap (λ b. to_nat (is_live b)) was_free,
    )

    -- An insertion of a key that the table does not hold keeps the invariant.
    pub Inserted-IsSound : IsSound l r
    Inserted-IsSound = record {
      exponent = s.exponent;
      groups = ap (λ m. m + 1) ins.mask ∙ s.groups;
      small = s.small;
      bytes = ins.bytes;
      vacant = vacant_after;
      tagged = tagged_after;
      reached = reached_after;
      once = once_after;
      counted = counted_after;
    }

  -- The pairs of the new table are those of the old one and the new pair.
  pub Holds-new : Holds l r k v
  Holds-new = record {
    group = gi;
    slot = si;
    inside = (subst (λ m. gi ≤ m) (sym ins.mask) ins.inside.0, ins.inside.1);
    pair =
        let here : (gi == gi && si == si) ≡ true = ground arith in
        ins.buckets gi si ins.inside ∙ rw here refl;
  }

  pub Holds-old : (x : K) (w : V) → Holds l t x w → Holds l r x w
  Holds-old x w h = record {
    group = h.group;
    slot = h.slot;
    inside = (subst (λ m. h.group ≤ m) (sym ins.mask) h.inside.0, h.inside.1);
    pair = elim (Bool-cases (gi == h.group && si == h.slot)) [
      | inr there ↦ ins.buckets h.group h.slot h.inside ∙ rw there h.pair
      | inl here ↦
          let (a, b) = same_slot gi h.group si h.slot here in
          absurd (none-ne-some (sym was_free ∙ (ap₂ (λ g z. bucket_at l t g z) a b ∙ h.pair)))
    ];
  }
    where
      none-ne-some : {y : K × V} → none ≡ some y → ⊥
      none-ne-some q = cc

  pub Holds-cases : (x : K) (w : V) → Holds l r x w → ((k ≡ x) × (v ≡ w)) ⊎ Holds l t x w
  Holds-cases x w h = elim (pair_cases h.group h.slot x w h.inside h.pair) [
    | inl (a, b, c, d) ↦ inl (c, d)
    | inr (there, f) ↦ inr (record {
      group = h.group;
      slot = h.slot;
      inside = old_slot h.group h.slot h.inside;
      pair = f;
    })
  ]
